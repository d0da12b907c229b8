-- ===== src/Ksyscall.antt =====
-- src/ksyscall.c: the system calls for input and output, sleep, exit and the process id. Dispatch has the
-- others, and the choice by number.
pub mod Io
pub mod Dispatch
use phase1_myunivos.Base.{
  List, Option, Outcome, [], if◌then◌else◌, minus_one, none, ok, out_of_range, some, wrap, ℕ, ◌*◌,
  ◌>>=◌,
}
use phase1_myunivos.Kproc.{kproc_destroy}
use phase1_myunivos.Process.{IoBuf, Procs, io_input, io_output, proc_io_max}
use phase1_myunivos.RingBuf.{RingBuf, ringbuf_flush, ringbuf_read_mem, ringbuf_write_mem}
use phase1_myunivos.Scheduler.{scheduler_sleep}
use phase1_myunivos.Tty.{Ttys, set_tty}

-- The ring that an I/O pointer of a process names.
abbrev pub get_ring : IoBuf → Ttys → RingBuf
get_ring (io_input n) s = (s.tty_table n).tty_io_input
get_ring (io_output n) s = (s.tty_table n).tty_io_output

abbrev pub set_ring : IoBuf → RingBuf → Ttys → Ttys
set_ring (io_input n) b s = set_tty n (record (s.tty_table n) { tty_io_input = b }) s
set_ring (io_output n) b s = set_tty n (record (s.tty_table n) { tty_io_output = b }) s

-- The tests of the three I/O calls: `active_proc->io[io]`, or `none` where they return -1.
abbrev pub io_of : ℕ → Option ℕ → Procs → Option IoBuf
io_of io none procs = none
io_of io (some p) procs = if out_of_range io proc_io_max then none else (procs.table p).io io

abbrev pub stored : IoBuf → Option RingBuf → Ttys → ℕ × Ttys
stored r none s = (minus_one, s)
stored r (some b) s = (0, set_ring r b s)

abbrev pub write_to : Option IoBuf → (ℕ → ℕ) → ℕ → Ttys → ℕ × Ttys
write_to none mem size s = (minus_one, s)
write_to (some r) mem size s = stored r (ringbuf_write_mem (get_ring r s) mem size) s

unfoldable pub ksyscall_io_write : ℕ → (ℕ → ℕ) → ℕ → Procs → Ttys → ℕ × Ttys
ksyscall_io_write io mem size procs s = write_to (io_of io procs.active_proc procs) mem size s

-- The number returned, the bytes stored, and the terminals left.
abbrev pub read_from : Option IoBuf → ℕ → Ttys → ℕ × List ℕ × Ttys
read_from none size s = (minus_one, [], s)
read_from (some r) size s =
    let out = ringbuf_read_mem (get_ring r s) size in (out.count, out.copied, set_ring r out.ring s)

unfoldable pub ksyscall_io_read : ℕ → ℕ → Procs → Ttys → ℕ × List ℕ × Ttys
ksyscall_io_read io size procs s = read_from (io_of io procs.active_proc procs) size s

abbrev pub flush_at : Option IoBuf → Ttys → ℕ × Ttys
flush_at none s = (minus_one, s)
flush_at (some r) s = (0, set_ring r (ringbuf_flush (get_ring r s)) s)

unfoldable pub ksyscall_io_flush : ℕ → Procs → Ttys → ℕ × Ttys
ksyscall_io_flush io procs s = flush_at (io_of io procs.active_proc procs) s

unfoldable pub ksyscall_proc_sleep : ℕ → Procs → Outcome (ℕ × Procs)
ksyscall_proc_sleep seconds procs =
    scheduler_sleep procs.active_proc (wrap (seconds * 100)) procs >>= λ procs'. ok (0, procs')

unfoldable pub ksyscall_proc_exit : Procs → Outcome (ℕ × Procs)
ksyscall_proc_exit procs = kproc_destroy procs.active_proc procs

abbrev pub pid_of : Option ℕ → Procs → ℕ
pid_of none procs = minus_one
pid_of (some p) procs = (procs.table p).pid

unfoldable pub ksyscall_proc_get_pid : Procs → ℕ
ksyscall_proc_get_pid procs = pid_of procs.active_proc procs
