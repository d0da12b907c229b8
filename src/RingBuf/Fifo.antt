-- ===== src/RingBuf/Fifo.antt =====
-- The ring of src/ringbuf.c is a bounded first-in first-out list of bytes.
use phase1_myunivos.Base.{
  Bool-cases, List, Option, [], ap, arith, dec, false, if◌then◌else◌, inc, inl, inr, length, none,
  refl, some, suc, sym, update, ℕ, ◌++◌, ◌-◌, ◌<◌, ◌==◌, ◌∷◌, ◌≡◌, ◌≢◌, ◌≤◌,
}
use phase1_myunivos.Base.Window.{
  IsAt, length-window, next, window, window-update-suc, window_of_ne_zero,
}
use phase1_myunivos.RingBuf.{RingBuf, advance, clear, ringbuf_read, ringbuf_size, ringbuf_write}

pub record IsValid (b : RingBuf) : Type 0 where
  pub head_in : b.head < ringbuf_size
  pub tail_in : b.tail < ringbuf_size
  pub size_in : b.size ≤ ringbuf_size
  pub tail_at : IsAt ringbuf_size b.head b.size b.tail

-- The bytes held, oldest first.
abbrev pub contents : RingBuf → List ℕ
contents b = window b.bytes ringbuf_size b.head b.size

pub length-contents : (b : RingBuf) → length (contents b) ≡ b.size
length-contents b = length-window b.bytes ringbuf_size b.head b.size

-- What the ring promises, on lists of at most 2048 bytes.
unfoldable pub push : List ℕ → ℕ → Option (List ℕ)
push xs x = if length xs == ringbuf_size then none else some (xs ++ (x ∷ []))

unfoldable pub pop : List ℕ → Option (ℕ × List ℕ)
pop [] = none
pop (x ∷ xs) = some (x, xs)

pub clear-IsValid : (b : RingBuf) → IsValid (clear b)
clear-IsValid b = ground arith

pub contents-store :
    (b : RingBuf) (x : ℕ)
    → IsValid b
    → b.size < ringbuf_size
    → window (update b.bytes b.tail x) ringbuf_size b.head (inc b.size) ≡ contents b ++ (x ∷ [])
contents-store b x v h =
    let e : inc b.size ≡ suc b.size = omega arith in
    rw e (
      window-update-suc b.bytes ringbuf_size b.head b.size b.tail x v.head_in v.tail_in h v.tail_at)

pub contents-uncons :
    (b : RingBuf)
    → IsValid b
    → b.size ≢ 0
    → b.bytes b.head ∷ window b.bytes ringbuf_size (advance b.head) (dec b.size) ≡ contents b
contents-uncons b v h =
    let e : dec b.size ≡ b.size - 1 = omega arith in
    let n : advance b.head ≡ next ringbuf_size b.head = ground arith in
    rw (e, n) (sym (window_of_ne_zero b.bytes ringbuf_size b.head b.size h))

-- The views through which the two fallible operations are compared with the list ones.
abbrev pub map_contents : Option RingBuf → Option (List ℕ)
map_contents none = none
map_contents (some b) = some (contents b)

abbrev pub map_rest : Option (ℕ × RingBuf) → Option (ℕ × List ℕ)
map_rest none = none
map_rest (some (x, b)) = some (x, contents b)

-- On a valid ring `ringbuf_write` refuses a byte exactly when 2048 bytes are held, and otherwise
-- holds the bytes it held followed by the new one.
ringbuf_write-push :
    (b : RingBuf) (x : ℕ) → IsValid b → map_contents (ringbuf_write b x) ≡ push (contents b) x
unfolding ringbuf_write push
ringbuf_write-push b x v = elim (Bool-cases (b.size == ringbuf_size)) [
  | inl e ↦ rw (length-contents b, e) refl
  | inr e ↦ rw (length-contents b, e) (ap some (contents-store b x v (ground arith)))
]

-- On a valid ring `ringbuf_read` fails exactly when nothing is held, and otherwise gives the oldest
-- byte and leaves the others in order.
ringbuf_read-pop : (b : RingBuf) → IsValid b → map_rest (ringbuf_read b) ≡ pop (contents b)
unfolding ringbuf_read pop
ringbuf_read-pop b v = elim (Bool-cases (b.size == 0)) [
  | inl e ↦ ground arith
  | inr e ↦ rw (← contents-uncons b v (ground arith)) (rw e refl)
]

pub ringbuf_write_room :
    (b : RingBuf) (x : ℕ)
    → IsValid b
    → b.size < ringbuf_size
    → (b' : RingBuf) × (ringbuf_write b x ≡ some b') × (contents b' ≡ contents b ++ (x ∷ []))
unfolding ringbuf_write
ringbuf_write_room b x v room =
    let e : (b.size == ringbuf_size) ≡ false = ground arith in
    (
      record b { bytes = update b.bytes b.tail x; tail = advance b.tail; size = inc b.size },
      rw e refl,
      contents-store b x v room,
    )

pub ringbuf_write-IsValid :
    (b : RingBuf) (x : ℕ) {b' : RingBuf} → IsValid b → ringbuf_write b x ≡ some b' → IsValid b'
unfolding ringbuf_write
ringbuf_write-IsValid b x v e = ground arith

pub ringbuf_read-IsValid :
    (b : RingBuf) {x : ℕ} {b' : RingBuf} → IsValid b → ringbuf_read b ≡ some (x, b') → IsValid b'
unfolding ringbuf_read
ringbuf_read-IsValid b v e = ground arith
