-- ===== src/RingBuf/Transfer.antt =====
-- The loops of src/ringbuf.c that move several bytes.
use phase1_myunivos.Base.{
  ℕ, zero, suc, ◌+◌, ◌≤◌, ◌<◌, ◌≡◌, refl, ap, sym, ◌∙◌, List, [], ◌∷◌, ◌++◌, none, some, arith,
  ◌==◌, length, length-take-le, take-length, drop-length, ap₂, take, drop, inl, inr, Bool-cases,
  append-nil, append_assoc, dec, or_keep, wrap, ltb, true, false,
}
use phase1_myunivos.RingBuf.{
  RingBuf, ringbuf_size, ringbuf_is_full, ringbuf_write, write_loop, ringbuf_write_mem, read_loop,
  ringbuf_read_mem, ringbuf_read, read_one, ringbuf_is_empty, advance,
}
use phase1_myunivos.RingBuf.Fifo.{
  IsValid, contents, length-contents, contents-store, contents-uncons,
}

-- The `n` bytes of the memory `mem` from the offset `i` on.
abbrev pub bytes_from : (ℕ → ℕ) → ℕ → ℕ → List ℕ
bytes_from mem i zero = []
bytes_from mem i (suc n) = mem i ∷ bytes_from mem (i + 1) n

not_full : (b : RingBuf) → b.size < ringbuf_size → ringbuf_is_full b ≡ false
unfolding ringbuf_is_full
not_full b h = ground arith

full : (b : RingBuf) → ringbuf_is_full b ≡ true → b.size ≡ ringbuf_size
unfolding ringbuf_is_full
full b h = ground arith

room : (b : RingBuf) → IsValid b → ringbuf_is_full b ≡ false → b.size < ringbuf_size
unfolding ringbuf_is_full
room b v h = ground arith

-- A write with room: it succeeds, and the ring is one byte longer.
write_room :
    (b : RingBuf) (x : ℕ)
    → IsValid b
    → b.size < ringbuf_size
    → let b' = or_keep (ringbuf_write b x) b in
      IsValid b' × (b'.size ≡ b.size + 1) × (contents b' ≡ contents b ++ (x ∷ []))
unfolding ringbuf_write
write_room b x v h =
    let e : (b.size == ringbuf_size) ≡ false = ground arith in
    rw e (ground arith, omega arith, contents-store b x v h)

write_loop_room :
    (n i : ℕ) (mem : ℕ → ℕ) (b : RingBuf)
    → IsValid b
    → b.size + n ≤ ringbuf_size
    → IsValid (write_loop n i mem b)
      × (contents (write_loop n i mem b) ≡ contents b ++ bytes_from mem i n)
unfolding write_loop
write_loop_room zero i mem b v h = (v, sym (append-nil (contents b)))
write_loop_room (suc n) i mem b v h =
    let e : ringbuf_is_full b ≡ false = not_full b (omega arith) in
    let w = write_room b (mem i) v (omega arith) in
    let r =
      write_loop_room n (i + 1) mem (or_keep (ringbuf_write b (mem i)) b) w.0
        (omega (arith, w.1)) in
    rw e (
      r.0,
      r.1
          ∙ ap (λ l. l ++ bytes_from mem (i + 1) n) w.2
          ∙ append_assoc (contents b) (mem i ∷ []) (bytes_from mem (i + 1) n),
    )

-- A loop that is asked for more bytes than there is room for stops when the ring is full.
write_loop_full :
    (n i : ℕ) (mem : ℕ → ℕ) (b : RingBuf)
    → IsValid b
    → ringbuf_size ≤ b.size + n
    → (write_loop n i mem b).size ≡ ringbuf_size
unfolding write_loop
write_loop_full zero i mem b v h = omega (arith, v)
write_loop_full (suc n) i mem b v h = elim (Bool-cases (ringbuf_is_full b)) [
  | inl e ↦ rw e (full b e)
  | inr e ↦
      let w = write_room b (mem i) v (room b v e) in
      rw e (
        write_loop_full n (i + 1) mem (or_keep (ringbuf_write b (mem i)) b) w.0
          (omega (arith, w.1)))
]

-- On a valid ring with room for `size` bytes, `ringbuf_write_mem` succeeds, keeps the ring valid, and appends
-- exactly the `size` bytes of the memory, in order.
ringbuf_write_mem-append :
    (b : RingBuf) (mem : ℕ → ℕ) (size : ℕ)
    → IsValid b
    → b.size + size ≤ ringbuf_size
    → (b' : RingBuf) × (ringbuf_write_mem b mem size ≡ some b')
      × IsValid b'
      × (contents b' ≡ contents b ++ bytes_from mem 0 size)
unfolding ringbuf_write_mem
ringbuf_write_mem-append b mem size v h =
    let e : ltb ringbuf_size (wrap (b.size + size)) ≡ false = ground arith in
    let r = write_loop_room size 0 mem b v h in (write_loop size 0 mem b, rw e refl, r.0, r.1)

-- A size that does not fit, and is not so large that the sum wraps, is refused.
ringbuf_write_mem_refused :
    (b : RingBuf) (mem : ℕ → ℕ) (size : ℕ)
    → ringbuf_size < b.size + size
    → b.size + size < 4294967296
    → ringbuf_write_mem b mem size ≡ none
unfolding ringbuf_write_mem
ringbuf_write_mem_refused b mem size h k =
    let e : ltb ringbuf_size (wrap (b.size + size)) ≡ true = ground arith in rw e refl

-- On a valid ring, a size below 2 ^ 32 whose sum with the number of bytes held reaches 2 ^ 32: the
-- sum wraps, the guard passes, and the ring is filled to its last byte.
pub ringbuf_write_mem_wraps :
    (b : RingBuf) (mem : ℕ → ℕ) (size : ℕ)
    → IsValid b
    → size < 4294967296
    → 4294967296 ≤ b.size + size
    → (b' : RingBuf) × (ringbuf_write_mem b mem size ≡ some b') × (b'.size ≡ ringbuf_size)
unfolding ringbuf_write_mem
ringbuf_write_mem_wraps b mem size v s h =
    let e : ltb ringbuf_size (wrap (b.size + size)) ≡ false = ground arith in
    (write_loop size 0 mem b, rw e refl, write_loop_full size 0 mem b v (omega arith))

nothing : (b : RingBuf) → ringbuf_is_empty b ≡ true → contents b ≡ []
unfolding ringbuf_is_empty
nothing b h = ground arith

read_some :
    (b : RingBuf)
    → IsValid b
    → ringbuf_is_empty b ≡ false
    → (x : ℕ) × (b' : RingBuf) × (ringbuf_read b ≡ some (x, b'))
      × IsValid b'
      × (contents b ≡ x ∷ contents b')
unfolding ringbuf_is_empty ringbuf_read
read_some b v h =
    let b' : RingBuf = record b { head = advance b.head; size = dec b.size } in
    (b.bytes b.head, b', rw h refl, ground arith, sym (contents-uncons b v (ground arith)))

read_loop_lem :
    (n : ℕ) (b : RingBuf)
    → IsValid b
    → let r = read_loop n b in
      IsValid r.ring
      × (r.copied ≡ take n (contents b))
      × (contents r.ring ≡ drop n (contents b))
      × (r.count ≡ length (take n (contents b)))
unfolding read_loop read_one
read_loop_lem zero b v = (v, refl, refl, refl)
read_loop_lem (suc n) b v = elim (Bool-cases (ringbuf_is_empty b)) [
  | inl e ↦ rw (e, nothing b e) (v, refl, refl, refl)
  | inr e ↦
      let (x, b', r, v', c) = read_some b v e in
      let ih = read_loop_lem n b' v' in
      rw (e, r, c)
        (
          ih.0,
          ap (λ l. x ∷ l) ih.1,
          ih.2,
          omega (arith, ih.3, length-take-le n (contents b'), length-contents b', v'.size_in),
        )
]

-- On a valid ring `ringbuf_read_mem` takes the `size` oldest bytes, or all of them if fewer are
-- held: it stores exactly these in order, returns their number, and leaves the others in a valid
-- ring.
pub ringbuf_read_mem-take :
    (b : RingBuf) (size : ℕ)
    → IsValid b
    → let r = ringbuf_read_mem b size in
      IsValid r.ring
      × (r.copied ≡ take size (contents b))
      × (contents r.ring ≡ drop size (contents b))
      × (r.count ≡ length (take size (contents b)))
unfolding ringbuf_read_mem
ringbuf_read_mem-take b size v = read_loop_lem size b v

length-bytes_from : (mem : ℕ → ℕ) (i n : ℕ) → length (bytes_from mem i n) ≡ n
length-bytes_from mem i zero = refl
length-bytes_from mem i (suc n) = ap suc (length-bytes_from mem (i + 1) n)

-- What `ringbuf_write_mem` puts into a valid empty ring, up to 2048 bytes, `ringbuf_read_mem` of the
-- same size gives back: the same bytes in the same order, their number, and an empty ring.
pub ringbuf_read_mem-write_mem :
    (b : RingBuf) (mem : ℕ → ℕ) (size : ℕ)
    → IsValid b
    → contents b ≡ []
    → size ≤ ringbuf_size
    → (b' : RingBuf) × (ringbuf_write_mem b mem size ≡ some b')
      × ((ringbuf_read_mem b' size).copied ≡ bytes_from mem 0 size)
      × ((ringbuf_read_mem b' size).count ≡ size)
      × (contents (ringbuf_read_mem b' size).ring ≡ [])
ringbuf_read_mem-write_mem b mem size v e h =
    let z : b.size ≡ 0 = sym (length-contents b) ∙ ap length e in
    let w = ringbuf_write_mem-append b mem size v (omega arith) in
    let c : contents w.0 ≡ bytes_from mem 0 size = w.3 ∙ ap (λ l. l ++ bytes_from mem 0 size) e in
    let n : size ≡ length (bytes_from mem 0 size) = sym (length-bytes_from mem 0 size) in
    let r = ringbuf_read_mem-take w.0 size w.2 in
    let t : take size (contents w.0) ≡ bytes_from mem 0 size =
      ap₂ take n c ∙ take-length (bytes_from mem 0 size) in
    (
      w.0,
      w.1,
      r.1 ∙ t,
      r.3 ∙ ap length t ∙ sym n,
      r.2 ∙ ap₂ drop n c ∙ drop-length (bytes_from mem 0 size),
    )
