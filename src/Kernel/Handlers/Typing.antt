-- ===== src/Kernel/Handlers/Typing.antt =====
-- An interrupt of the keyboard, from the ports to the terminal.
use phase1_myunivos.Base.{
  Outcome, [], ap, arith, false, ok, refl, some, true, ℕ, ◌%◌, ◌++◌, ◌<◌, ◌==◌, ◌∙◌, ◌∷◌, ◌≡◌, ◌≢◌,
}
use phase1_myunivos.Interrupts.{Ports}
use phase1_myunivos.Kernel.{Callback, Kernel}
use phase1_myunivos.Kernel.Handlers.{kbd_port_data, kbd_port_stat, keyboard_irq_handler}
use phase1_myunivos.Keyboard.{has, keyboard_poll, map_key, status_alt, status_ctrl}
use phase1_myunivos.Keyboard.Keys.{is_status_key, keyboard_decode_character}
use phase1_myunivos.Kproc.{Machine}
use phase1_myunivos.RingBuf.{RingBuf, ringbuf_size}
use phase1_myunivos.RingBuf.Fifo.{IsValid, contents, ringbuf_write_room}
use phase1_myunivos.Tty.{Ttys, input_to, set_tty, tty_input}
use phase1_myunivos.Vga.{put}
use Prim.Native.Nat.{bit_and}

-- The terminal without echo takes a character.
tty_input_lem :
    (c n : ℕ) (s : Ttys)
    → s.active_tty ≡ some n
    → (s.tty_table n).echo ≡ 0
    → IsValid (s.tty_table n).tty_io_input
    → (s.tty_table n).tty_io_input.size < ringbuf_size
    → (b : RingBuf) × (tty_input c s ≡ set_tty n (record (s.tty_table n) { tty_io_input = b }) s)
      × (contents b ≡ contents (s.tty_table n).tty_io_input ++ (c ∷ []))
unfolding tty_input
tty_input_lem c n s a quiet v room =
    let (b, e, held) = ringbuf_write_room (s.tty_table n).tty_io_input c v room in
    let z : ((s.tty_table n).echo == 0) ≡ true = ground arith in
    (b, ap (λ o. input_to c o s) a ∙ rw (z, e) refl, held)

-- A key is pressed, with a character of its own under the status, not the escape key; neither CTRL nor
-- ALT is held, and the active terminal has room and does not echo: the keyboard's handler puts exactly
-- this character behind the input that waits in the active terminal. It ends the count of escapes and
-- changes nothing else.
pub keyboard_irq_handler_types :
    (hw : Ports) (m : Machine) (kproc_test : ℕ) (breakpoint : Kernel → Outcome Kernel)
    (test : Callback → Kernel → hw.State → Outcome (Kernel × hw.State)) (k : Kernel) (s : hw.State)
    (c ch n : ℕ)
    → bit_and (hw.inportb kbd_port_stat s) 1 ≢ 0
    → hw.inportb kbd_port_data s ≡ c
    → c < 128
    → is_status_key c ≡ false
    → has k.keyboard.kbd_status status_ctrl ≡ false
    → has k.keyboard.kbd_status status_alt ≡ false
    → map_key k.keyboard.kbd_status c ≡ ch
    → 0 < ch
    → ch < 256
    → ch ≢ 0x1b
    → k.ttys.active_tty ≡ some n
    → (k.ttys.tty_table n).echo ≡ 0
    → IsValid (k.ttys.tty_table n).tty_io_input
    → (k.ttys.tty_table n).tty_io_input.size < ringbuf_size
    → (b : RingBuf) × (keyboard_irq_handler hw m kproc_test breakpoint test k s
        ≡ ok (
          record k {
            keyboard = record k.keyboard { esc_status = 0 };
            ttys = set_tty n (record (k.ttys.tty_table n) { tty_io_input = b }) k.ttys;
          },
          s,
        ))
      × (contents b ≡ contents (k.ttys.tty_table n).tty_io_input ++ (ch ∷ []))
unfolding keyboard_irq_handler keyboard_poll
keyboard_irq_handler_types hw m kproc_test breakpoint test k s c ch n ready code lt plain ctrl alt e
      pos small ne a quiet v room =
    let (b, put, held) = tty_input_lem ch n k.ttys a quiet v room in
    let waits : (bit_and (hw.inportb kbd_port_stat s) 1 == 0) ≡ false = ground arith in
    let nz : (ch == 0) ≡ false = ground arith in
    let low : ch % 256 ≡ ch = omega arith in
    let d = keyboard_decode_character c ch k.keyboard lt plain ctrl alt e (omega arith) ne in
    (b, rw (waits, code) (rw d (rw (nz, low) (rw put refl))), held)
