-- ===== src/Examples/Rings.antt =====
-- The ring: bytes across the end of the array.
use phase1_myunivos.Base.{[], arith, if◌then◌else◌, refl, some, ℕ, ◌%◌, ◌+◌, ◌==◌, ◌≡◌}
use phase1_myunivos.RingBuf.{RingBuf, ringbuf_read_mem, ringbuf_size, ringbuf_write_mem}
use phase1_myunivos.RingBuf.Fifo.{IsValid, contents}
use phase1_myunivos.RingBuf.Transfer.{
  bytes_from, ringbuf_read_mem-write_mem, ringbuf_write_mem_wraps,
}

abbrev word : ℕ → ℕ
word i = 65 + i % 26

abbrev ring_abc : RingBuf
ring_abc = record {
  head = 2046;
  tail = 1;
  size = 3;
  bytes = λ i. if i == 2046 then 97 else if i == 2047 then 98 else if i == 0 then 99 else 0;
}

ring_abc-IsValid : IsValid ring_abc
ring_abc-IsValid = ground arith

abbrev ring_empty : RingBuf
ring_empty = record { head = 2040; tail = 2040; size = 0; bytes = λ i. 0 }

ring_empty-IsValid : IsValid ring_empty
ring_empty-IsValid = ground arith

ringbuf_read_mem-write_mem_example :
    (b' : RingBuf) × (ringbuf_write_mem ring_empty word 20 ≡ some b')
    × ((ringbuf_read_mem b' 20).copied ≡ bytes_from word 0 20)
    × ((ringbuf_read_mem b' 20).count ≡ 20)
    × (contents (ringbuf_read_mem b' 20).ring ≡ [])
ringbuf_read_mem-write_mem_example =
    ringbuf_read_mem-write_mem ring_empty word 20 ring_empty-IsValid refl (omega arith)

ringbuf_write_mem_wraps_example :
    (b' : RingBuf) × (ringbuf_write_mem ring_abc word 4294967294 ≡ some b')
    × (b'.size ≡ ringbuf_size)
ringbuf_write_mem_wraps_example =
    ringbuf_write_mem_wraps ring_abc word 4294967294 ring_abc-IsValid (omega arith) (omega arith)
