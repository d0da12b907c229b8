-- ===== src/Interrupts/Masks.antt =====
-- The mask registers of the interrupt controllers, src/interrupts.c.
use phase1_myunivos.Base.{
  Bool, ap, arith, if◌then◌else◌, inl, inr, ltb, minus_one, not, refl, true, xor, ℕ, ◌&&◌, ◌-◌, ◌<◌,
  ◌==◌, ◌^◌, ◌||◌, ◌≡◌, ◌≢◌, ◌⊎◌,
}
use phase1_myunivos.Base.Table.{all_below, all_below_sound}
use phase1_myunivos.Interrupts.{
  Ports, data_port, line, pic_bit, pic_irq_disable, pic_irq_enable, pic_irq_enabled,
}
use Prim.Native.Nat.{bit_and, bit_xor}

-- Over every mask byte and every line of a controller.
mask_table : ((ℕ → ℕ → Bool)) → Bool
mask_table p = all_below 256 (λ m. all_below 8 (λ i. p m i))

mask_table_sound :
    (p : ℕ → ℕ → Bool) (m i : ℕ) → mask_table p ≡ true → m < 256 → i < 8 → p m i ≡ true
unfolding mask_table
mask_table_sound p m i h a b = all_below_sound 8 _ i (all_below_sound 256 _ m h a) b

abbrev bit_off : ℕ → ℕ → Bool
bit_off m i = bit_and m (2 ^ i) == 0

-- A line whose bit is cleared is off, the mask stays a byte, and the other lines are as before.
cleared :
    mask_table (λ m i.
      let m' = bit_and m (minus_one - 2 ^ i) in
      bit_off m' i
      && (ltb m' 256 && all_below 8 (λ j. i == j || (bit_and m' (2 ^ j) == bit_and m (2 ^ j)))))
    ≡ true
unfolding mask_table all_below
cleared = refl

flipped :
    mask_table (λ m i.
      let m' = bit_and 0xff (bit_xor m (2 ^ i)) in
      ltb m' 256 && not (xor (bit_off m' i) (not (bit_off m i))))
    ≡ true
unfolding mask_table all_below xor
flipped = refl

and_parts : (a b : Bool) → (a && b) ≡ true → (a ≡ true) × (b ≡ true)
and_parts a b h = ground arith

xor-not : (a b : Bool) → not (xor a (not b)) ≡ true → a ≡ not b
unfolding xor
xor-not a b h = ground arith

ltb→lt : (a b : ℕ) → ltb a b ≡ true → a < b
ltb→lt a b h = ground arith

line_lt : (irq : ℕ) → pic_bit irq < 8
line_lt irq = ground arith

is_data_port : (irq : ℕ) → (data_port irq ≡ 0x21) ⊎ (data_port irq ≡ 0xa1)
is_data_port irq = ground arith

flag_on : (a : Bool) → a ≡ true → ◌≡◌ {A = ℕ} (if a then 1 else 0) 1
flag_on a h = ground arith

flag_flips : (a b : Bool) → a ≡ not b → ◌≡◌ {A = ℕ} (if a then 1 else 0) (1 - (if b then 1 else 0))
flag_flips a b h = ground arith

==→eq : (a b : ℕ) → (a == b) ≡ true → a ≡ b
==→eq a b h = ground arith

or_right : (a b : Bool) → (a || b) ≡ true → a ≢ true → b ≡ true
or_right a b h n = ground arith

-- Two lines behind the same data port have different bits.
line-split :
    (other irq : ℕ)
    → line other ≢ line irq
    → ((data_port other ≡ data_port irq) × ((pic_bit irq == pic_bit other) ≢ true))
      ⊎ (data_port irq ≢ data_port other)
line-split other irq ne = ground arith

module _ (hw : Ports) where
  open hw use {State, inportb, outportb, byte, read_back, apart}

  -- The rows of the two tables at the mask of an interrupt.
  cleared_row :
      (irq : ℕ) (s : State)
      → (let m' = bit_and (inportb (data_port irq) s) (minus_one - 2 ^ pic_bit irq) in
          bit_off m' (pic_bit irq)
          && (ltb m' 256
              && all_below 8 (λ j.
                pic_bit irq == j
                || (bit_and m' (2 ^ j) == bit_and (inportb (data_port irq) s) (2 ^ j)))))
        ≡ true
  cleared_row irq s =
      mask_table_sound _ (inportb (data_port irq) s) (pic_bit irq) cleared (byte (data_port irq) s)
        (line_lt irq)

  -- What `pic_irq_enable` writes, read back.
  enabled_mask :
      (irq : ℕ) (s : State)
      → inportb (data_port irq) (pic_irq_enable hw irq s)
        ≡ bit_and (inportb (data_port irq) s) (minus_one - 2 ^ pic_bit irq)
  unfolding pic_irq_enable
  enabled_mask irq s =
      let small = ltb→lt _ _ (and_parts _ _ (and_parts _ _ (cleared_row irq s)).1).0 in
      read_back (data_port irq) _ s (is_data_port irq) small

  enabled_bit :
      (irq j : ℕ) (s : State)
      → j < 8
      → (pic_bit irq == j) ≢ true
      → bit_and (bit_and (inportb (data_port irq) s) (minus_one - 2 ^ pic_bit irq)) (2 ^ j)
        ≡ bit_and (inportb (data_port irq) s) (2 ^ j)
  enabled_bit irq j s lt ne =
      let row = (and_parts _ _ (and_parts _ _ (cleared_row irq s)).1).1 in
      ==→eq _ _ (or_right _ _ (all_below_sound 8 _ j row lt) ne)

  enabled_other :
      (irq other : ℕ) (s : State)
      → ((data_port other ≡ data_port irq) × ((pic_bit irq == pic_bit other) ≢ true))
        ⊎ (data_port irq ≢ data_port other)
      → bit_and (inportb (data_port other) (pic_irq_enable hw irq s)) (2 ^ pic_bit other)
        ≡ bit_and (inportb (data_port other) s) (2 ^ pic_bit other)
  unfolding pic_irq_enable
  enabled_other irq other s (inl (e, ne)) =
      rw e (rw (enabled_mask irq s) (enabled_bit irq (pic_bit other) s (line_lt other) ne))
  enabled_other irq other s (inr ne) =
      ap (λ m. bit_and m (2 ^ pic_bit other))
        (apart (data_port other) (data_port irq) _ s (is_data_port other) ne)

  -- With ports that read back the masks written, the interrupt is enabled after `pic_irq_enable`,
  -- and every interrupt of another line is as it was.
  pic_irq_enable_only :
      (irq : ℕ) (s : State)
      → (pic_irq_enabled hw irq (pic_irq_enable hw irq s) ≡ 1)
        × ((other : ℕ)
            → line other ≢ line irq
            → pic_irq_enabled hw other (pic_irq_enable hw irq s) ≡ pic_irq_enabled hw other s)
  unfolding pic_irq_enabled
  pic_irq_enable_only irq s = (
    rw (enabled_mask irq s) (flag_on _ (and_parts _ _ (cleared_row irq s)).0),
    λ other ne.
        ap (λ m. if m == 0 then 1 else 0) (enabled_other irq other s (line-split other irq ne)),
  )

  disabled_row :
      (irq : ℕ) (s : State)
      → (let m' = bit_and 0xff (bit_xor (inportb (data_port irq) s) (2 ^ pic_bit irq)) in
          ltb m' 256
          && not (
              xor
                (bit_off m' (pic_bit irq))
                (not (bit_off (inportb (data_port irq) s) (pic_bit irq)))))
        ≡ true
  disabled_row irq s =
      mask_table_sound _ (inportb (data_port irq) s) (pic_bit irq) flipped (byte (data_port irq) s)
        (line_lt irq)

  disabled_mask :
      (irq : ℕ) (s : State)
      → inportb (data_port irq) (pic_irq_disable hw irq s)
        ≡ bit_and 0xff (bit_xor (inportb (data_port irq) s) (2 ^ pic_bit irq))
  unfolding pic_irq_disable
  disabled_mask irq s =
      let small = ltb→lt _ _ (and_parts _ _ (disabled_row irq s)).0 in
      read_back (data_port irq) _ s (is_data_port irq) small

  -- With ports that read back the masks written, `pic_irq_disable` flips the interrupt: after the
  -- call it is enabled if it was disabled before, and disabled if it was enabled.
  pub pic_irq_disable_flips :
      (irq : ℕ) (s : State)
      → pic_irq_enabled hw irq (pic_irq_disable hw irq s) ≡ 1 - pic_irq_enabled hw irq s
  unfolding pic_irq_enabled
  pic_irq_disable_flips irq s =
      rw (disabled_mask irq s) (flag_flips _ _ (xor-not _ _ (and_parts _ _ (disabled_row irq s)).1))
