-- ===== src/Ksyscall/Io.antt =====
-- The system calls for input and output of src/ksyscall.c.
use phase1_myunivos.Base.{[], ap, arith, false, out_of_range, refl, some, update, ℕ, ◌<◌, ◌≡◌, ◌≤◌}
use phase1_myunivos.Ksyscall.{get_ring, io_of, ksyscall_io_read, ksyscall_io_write, set_ring}
use phase1_myunivos.Process.{IoBuf, Procs, io_input, io_output, proc_io_max}
use phase1_myunivos.RingBuf.{RingBuf, ringbuf_size}
use phase1_myunivos.RingBuf.Fifo.{IsValid, contents}
use phase1_myunivos.RingBuf.Transfer.{bytes_from, ringbuf_read_mem-write_mem}
use phase1_myunivos.Tty.{Tty, Ttys}

update_same : (f : ℕ → Tty) (n : ℕ) (t : Tty) → update f n t n ≡ t
update_same f n t = ground arith

-- What is stored as a ring is read back as this ring.
get_ring-set_ring : (r : IoBuf) (b : RingBuf) (s : Ttys) → get_ring r (set_ring r b s) ≡ b
get_ring-set_ring (io_input n) b s =
    ap (λ t. t.tty_io_input)
      (update_same s.tty_table n (record (s.tty_table n) { tty_io_input = b }))
get_ring-set_ring (io_output n) b s =
    ap (λ t. t.tty_io_output)
      (update_same s.tty_table n (record (s.tty_table n) { tty_io_output = b }))

io_of_range :
    (io p : ℕ) (procs : Procs) (r : IoBuf)
    → io < proc_io_max
    → procs.active_proc ≡ some p
    → (procs.table p).io io ≡ some r
    → io_of io procs.active_proc procs ≡ some r
io_of_range io p procs r b a e =
    let in_range : out_of_range io proc_io_max ≡ false = ground arith in rw (a, in_range) e

-- Two processes that share an empty buffer: what one writes with `ksyscall_io_write`, at most 2048
-- bytes, the other gets with `ksyscall_io_read` of the same size: the same bytes in the same order,
-- and their number; the write returns 0.
pub ksyscall_io_read-ksyscall_io_write :
    (io io' p q size : ℕ) (mem : ℕ → ℕ) (procs procs' : Procs) (s : Ttys) (r : IoBuf)
    → io < proc_io_max
    → io' < proc_io_max
    → procs.active_proc ≡ some p
    → procs'.active_proc ≡ some q
    → (procs.table p).io io ≡ some r
    → (procs'.table q).io io' ≡ some r
    → IsValid (get_ring r s)
    → contents (get_ring r s) ≡ []
    → size ≤ ringbuf_size
    → (s' : Ttys) × (ksyscall_io_write io mem size procs s ≡ (0, s'))
      × ((ksyscall_io_read io' size procs' s').0 ≡ size)
      × ((ksyscall_io_read io' size procs' s').1 ≡ bytes_from mem 0 size)
unfolding ksyscall_io_write ksyscall_io_read
ksyscall_io_read-ksyscall_io_write io io' p q size mem procs procs' s r b b' a a' e e' v empty
      fits =
    let (ring, put, copied, count, left) =
      ringbuf_read_mem-write_mem (get_ring r s) mem size v empty fits in
    let w = io_of_range io p procs r b a e in
    let w' = io_of_range io' q procs' r b' a' e' in
    let g = get_ring-set_ring r ring s in
    (set_ring r ring s, rw (w, put) refl, rw (w', g) count, rw (w', g) copied)
