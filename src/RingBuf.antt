-- ===== src/RingBuf.antt =====
-- src/ringbuf.c and include/ringbuf.h: the ring of 2048 bytes between a process and its terminal.
-- A `ringbuf_t *` is the ring that it points to, `none` is the return of -1 before anything is
-- written, and memory that a caller passes is a function of the offset (what is read) or the list
-- of the bytes stored (what is written). The null tests of the pointers are not modelled.
pub mod Fifo
pub mod Transfer
use phase1_myunivos.Base.{
  ℕ, zero, suc, ◌+◌, Bool, true, false, ◌&&◌, List, [], ◌∷◌, Option, none, some, ◌==◌, ltb,
  if◌then◌else◌, update, inc, dec, wrap, or_keep,
}

abbrev pub ringbuf_size : ℕ
ringbuf_size = 2048

-- `ringbuf_t`
pub record RingBuf : Type 0 where
  pub head : ℕ
  pub tail : ℕ
  pub size : ℕ
  pub bytes : ℕ → ℕ

-- `memset(buf, 0, RINGBUF_SIZE)`: the first 2048 bytes of the structure are the three `int`s of
-- four bytes each and the first 2036 bytes of the array; the last 12 keep their values.
abbrev pub clear : RingBuf → RingBuf
clear b = record { head = 0; tail = 0; size = 0; bytes = λ i. if ltb i 2036 then 0 else b.bytes i }

unfoldable pub ringbuf_init : RingBuf → RingBuf
ringbuf_init b = clear b

unfoldable pub ringbuf_flush : RingBuf → RingBuf
ringbuf_flush b = clear b

unfoldable pub ringbuf_is_empty : RingBuf → Bool
ringbuf_is_empty b = b.size == 0

unfoldable pub ringbuf_is_full : RingBuf → Bool
ringbuf_is_full b = b.size == ringbuf_size

abbrev pub advance : ℕ → ℕ
advance i = if inc i == ringbuf_size then 0 else inc i

unfoldable pub ringbuf_write : RingBuf → ℕ → Option RingBuf
ringbuf_write b byte =
    if b.size == ringbuf_size
    then none
    else some
        (record b { bytes = update b.bytes b.tail byte; tail = advance b.tail; size = inc b.size })

unfoldable pub ringbuf_read : RingBuf → Option (ℕ × RingBuf)
ringbuf_read b =
    if b.size == 0
    then none
    else some (b.bytes b.head, record b { head = advance b.head; size = dec b.size })

-- `while (size-- && !ringbuf_is_full(buf)) ringbuf_write(buf, *mem++);`
-- The first number is `size`, the second the offset that `mem` has reached.
unfoldable pub write_loop : ℕ → ℕ → (ℕ → ℕ) → RingBuf → RingBuf
write_loop zero i mem b = b
write_loop (suc n) i mem b =
    let rest = write_loop n (i + 1) mem (or_keep (ringbuf_write b (mem i)) b) in
    if ringbuf_is_full b then b else rest

-- `buf->size + size` is computed in `size_t`, so it wraps.
unfoldable pub ringbuf_write_mem : RingBuf → (ℕ → ℕ) → ℕ → Option RingBuf
ringbuf_write_mem b mem size =
    if ltb ringbuf_size (wrap (b.size + size)) then none else some (write_loop size 0 mem b)

-- What `ringbuf_read_mem` returns, the bytes that it stores from `mem` on, and the ring it leaves.
pub record ReadOut : Type 0 where
  pub count : ℕ
  pub copied : List ℕ
  pub ring : RingBuf

abbrev pub read_step : ℕ → ReadOut → ReadOut
read_step x r = record { count = inc r.count; copied = x ∷ r.copied; ring = r.ring }

-- What one round stores. A read that fails stores nothing (the array keeps the byte it had, written
-- as 0 here), and is counted all the same.
unfoldable pub read_one : RingBuf → Option (ℕ × RingBuf) → (RingBuf → ReadOut) → ReadOut
read_one b none rest = read_step 0 (rest b)
read_one b (some (x, b')) rest = read_step x (rest b')

-- `while (size-- && !ringbuf_is_empty(buf)) { ringbuf_read(buf, mem++); count++; }`
unfoldable pub read_loop : ℕ → RingBuf → ReadOut
read_loop zero b = record { count = 0; copied = []; ring = b }
read_loop (suc n) b =
    let stop : ReadOut = record { count = 0; copied = []; ring = b } in
    let rest = read_one b (ringbuf_read b) (read_loop n) in
    if ringbuf_is_empty b then stop else rest

unfoldable pub ringbuf_read_mem : RingBuf → ℕ → ReadOut
ringbuf_read_mem b size = read_loop size b
