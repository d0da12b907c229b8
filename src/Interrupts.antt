-- ===== src/Interrupts.antt =====
-- src/interrupts.c: the table of handlers and the two interrupt controllers (PICs).
pub mod Masks
use phase1_myunivos.Base.{
  Bool, Option, Outcome, halt, if◌then◌else◌, leb, minus_one, none, ok, out_of_range, panic, some,
  update, ℕ, ◌%◌, ◌&&◌, ◌-◌, ◌<◌, ◌==◌, ◌>>=◌, ◌^◌, ◌≡◌, ◌≢◌, ◌⊎◌,
}
use Prim.Native.Nat.{bit_and, bit_or, bit_xor}

-- The machine's ports: what `inportb` and `outportb` of the host library do. The laws are those of
-- the mask registers of the controllers: a data port reads back the byte last written to it, and a
-- write to one port does not change what another reads.
pub record Ports : Type 1 where
  pub State : Type 0
  pub inportb : ℕ → State → ℕ
  pub outportb : ℕ → ℕ → State → State
  pub byte : (p : ℕ) (s : State) → inportb p s < 256
  pub read_back :
      (p v : ℕ) (s : State) → (p ≡ 0x21) ⊎ (p ≡ 0xa1) → v < 256 → inportb p (outportb p v s) ≡ v
  pub apart :
      (p q v : ℕ) (s : State)
      → (p ≡ 0x21) ⊎ (p ≡ 0xa1)
      → q ≢ p
      → inportb p (outportb q v s) ≡ inportb p s

-- The number of handlers.
abbrev pub irq_max : ℕ
irq_max = 0xf0

-- `irq &= 0xf`; from 8 on an interrupt belongs to the second controller.
abbrev pub line : ℕ → ℕ
line irq = irq % 16

abbrev pub data_port : ℕ → ℕ
data_port irq = if leb 8 (line irq) then 0xa1 else 0x21

abbrev pub pic_bit : ℕ → ℕ
pic_bit irq = if leb 8 (line irq) then line irq - 8 else line irq

-- The variables of src/interrupts.c beside the ports, of the type `S`: the handlers, functions on the
-- rest of the system `W` and the ports, and the entries of the descriptor table, of the type `E`.
abbrev pub Handlers : Type 0 → Type 0 → Type 0
Handlers W S = ℕ → Option (W → S → Outcome (W × S))

abbrev pub Gates : Type 0 → Type 0
Gates E = ℕ → Option E

-- `irq >= 0x20 && irq <= 0x2F`, for a number in the range of the table.
abbrev pub from_pic : ℕ → Bool
from_pic irq = leb 0x20 irq && leb irq 0x2f

-- The table of handlers after `interrupts_init`.
abbrev pub no_handlers : {W S : Type 0} → Handlers W S
no_handlers irq = none

module _ (hw : Ports) where
  open hw use {State, inportb, outportb}

  -- `mask &= ~(1 << irq)`
  unfoldable pub pic_irq_enable : ℕ → State → State
  pic_irq_enable irq s =
      outportb (data_port irq) (bit_and (inportb (data_port irq) s) (minus_one - 2 ^ pic_bit irq)) s

  -- `mask = 0xff & (mask ^ (1 << irq))`
  unfoldable pub pic_irq_disable : ℕ → State → State
  pic_irq_disable irq s =
      outportb (data_port irq)
        (bit_and 0xff (bit_xor (inportb (data_port irq) s) (2 ^ pic_bit irq))) s

  -- `(mask & (1 << irq)) ? 0 : 1`
  unfoldable pub pic_irq_enabled : ℕ → State → ℕ
  pic_irq_enabled irq s =
      if bit_and (inportb (data_port irq) s) (2 ^ pic_bit irq) == 0 then 1 else 0

  -- PIC_EOI to the second controller, if the interrupt is its, and to the first.
  unfoldable pub pic_irq_dismiss : ℕ → State → State
  pic_irq_dismiss irq s = outportb 0x20 0x20 (if leb 8 (line irq) then outportb 0xa0 0x20 s else s)

  abbrev pub handle :
      {W : Type 0} → ℕ → Option (W → State → Outcome (W × State)) → W → State → Outcome (W × State)
  handle irq none w s = halt panic
  handle irq (some f) w s =
      f w s >>= λ r. ok (r.0, if from_pic irq then pic_irq_dismiss (irq - 0x20) r.1 else r.1)

  unfoldable pub interrupts_irq_handler :
      {W : Type 0} → ℕ → Handlers W State → W → State → Outcome (W × State)
  interrupts_irq_handler irq handlers w s =
      if out_of_range irq irq_max then halt panic else handle irq (handlers irq) w s

  abbrev pub install :
      {W E : Type 0}
      → ℕ
      → Option E
      → Option (W → State → Outcome (W × State))
      → Handlers W State
      → Gates E
      → State
      → Outcome (Handlers W State × Gates E × State)
  install irq none f handlers idt s = halt panic
  install irq (some e) none handlers idt s = halt panic
  install irq (some e) (some f) handlers idt s = ok (
    update handlers irq (some f),
    update idt irq (some e),
    if from_pic irq then pic_irq_enable irq s else s,
  )

  unfoldable pub interrupts_irq_register :
      {W E : Type 0}
      → ℕ
      → Option E
      → Option (W → State → Outcome (W × State))
      → Handlers W State
      → Gates E
      → State
      → Outcome (Handlers W State × Gates E × State)
  interrupts_irq_register irq entry handler handlers idt s =
      if out_of_range irq irq_max then halt panic else install irq entry handler handlers idt s
