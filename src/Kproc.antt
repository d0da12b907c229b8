-- ===== src/Kproc.antt =====
-- src/kproc.c: creating and destroying processes. The segment registers, the flags of a new process
-- (EF_DEFAULT_VALUE | EF_INTR) and the addresses of the programs are parameters.
pub mod Create
pub mod Init
pub mod Destroy
use phase1_myunivos.Base.{
  List, Option, Outcome, codes, halt, if◌then◌else◌, inc, is_negative, minus_one, none, ok, or_keep,
  panic, replicate, some, suc, take, update, word_size, wrap, zero, ℕ, ◌%◌, ◌++◌, ◌+◌, ◌-◌, ◌==◌,
  ◌>>=◌,
}
use phase1_myunivos.Process.{
  Proc, ProcType, Procs, Trapframe, idle, io_input, io_output, kernel, pid_to_proc, proc_max,
  proc_name_len, proc_to_entry, set_proc, user, zero_proc,
}
use phase1_myunivos.Queue.{Queue, queue_in, queue_init, queue_out}
use phase1_myunivos.Scheduler.{choose, scheduler_add, scheduler_remove}
use phase1_myunivos.Tty.{tty_get, tty_max}

-- What the code takes from the machine, from the linked image, and from the build: OS_NAME.
pub record Machine : Type 0 where
  pub get_cs : ℕ
  pub get_ds : ℕ
  pub get_es : ℕ
  pub get_fs : ℕ
  pub get_gs : ℕ
  pub start_flags : ℕ
  pub kproc_idle : ℕ
  pub prog_shell : ℕ
  pub prog_ping : ℕ
  pub prog_pong : ℕ
  pub os_name : List ℕ

-- `strncpy(dst, src, n)`: the first n characters, and zeroes behind a shorter text.
abbrev pub strncpy : ℕ → List ℕ → List ℕ
strncpy n src = take n (src ++ replicate n 0)

-- The trapframe of a new process, in its cleared stack.
abbrev pub first_trapframe : Machine → ℕ → Trapframe
first_trapframe m proc_ptr = record {
  gs = m.get_gs;
  fs = m.get_fs;
  es = m.get_es;
  ds = m.get_ds;
  edi = 0;
  esi = 0;
  ebp = 0;
  esp = 0;
  ebx = 0;
  edx = 0;
  ecx = 0;
  eax = 0;
  interrupt = 0;
  eip = proc_ptr;
  cs = m.get_cs;
  eflags = m.start_flags;
}

abbrev pub new_proc : Machine → ℕ → ℕ → List ℕ → ProcType → ℕ → ℕ → Proc
new_proc m ticks proc_ptr name type pid entry = record zero_proc {
  stack = some entry;
  pid = pid;
  state = idle;
  type = type;
  run_time = 0;
  cpu_time = 0;
  start_time = ticks;
  name = strncpy proc_name_len name;
  trapframe = some (first_trapframe m proc_ptr);
}

-- `kproc_create` from the allocation of an entry on; -1 if there is none.
abbrev pub create_in :
    Machine → ℕ → ℕ → List ℕ → ProcType → Procs → Option (ℕ × Queue) → Outcome (ℕ × Procs)
create_in m ticks proc_ptr name type s none = ok (minus_one, s)
create_in m ticks proc_ptr name type s (some (entry, q)) =
    let s' =
      set_proc entry (new_proc m ticks proc_ptr name type s.next_pid entry)
        (record s { allocator = q; next_pid = inc s.next_pid }) in
    scheduler_add (some entry) s' >>= λ s''. ok ((s''.table entry).pid, s'')

-- `ticks` is what `timer_get_ticks` returns; a null name and a null function panic.
unfoldable pub kproc_create :
    Machine → ℕ → ℕ → Option (List ℕ) → ProcType → Procs → Outcome (ℕ × Procs)
kproc_create m ticks proc_ptr none type s = halt panic
kproc_create m ticks proc_ptr (some name) type s =
    if proc_ptr == 0
    then halt panic
    else create_in m ticks proc_ptr name type s (queue_out s.allocator)

-- The end of `kproc_destroy`: the entry is cleared and goes back to the allocator; the result of
-- `queue_in` is only logged.
abbrev pub recycle : ℕ → ℕ → Procs → Outcome (ℕ × Procs)
recycle p entry s =
    if is_negative entry
    then halt panic
    else ok (
      0,
      record (set_proc p zero_proc s) {
        allocator = or_keep (queue_in s.allocator entry) s.allocator;
      },
    )

unfoldable pub kproc_destroy : Option ℕ → Procs → Outcome (ℕ × Procs)
kproc_destroy none s = halt panic
kproc_destroy (some p) s =
    if (s.table p).pid == 0
    then ok (minus_one, s)
    else scheduler_remove (some p) s >>= λ s'. recycle p (proc_to_entry (some p) s') s'

abbrev pub attach : Option ℕ → ℕ → Procs → ℕ × Procs
attach none tty s = (minus_one, s)
attach (some p) tty s = (
  0,
  set_proc p
      (record (s.table p) {
        io = update (update (s.table p).io 0 (some (io_input tty))) 1 (some (io_output tty));
      })
      s,
)

unfoldable pub kproc_attach_tty : ℕ → ℕ → Procs → Outcome (ℕ × Procs)
kproc_attach_tty pid tty_number s =
    tty_get tty_number >>= λ tty. ok (attach (pid_to_proc pid s) tty s)

-- `pid % 2` of an `int`.
abbrev pub parity : ℕ → ℕ
parity pid = if is_negative pid then wrap (word_size - pid % 2) else pid % 2

-- `TTY_MAX - (pid % 2) - 1`
abbrev pub game_tty : ℕ → ℕ
game_tty pid = wrap (tty_max + word_size - parity pid - 1)

-- The loops of `kproc_init`: `n` processes of one program, the i-th attached to a terminal that is
-- chosen by i and its process id.
unfoldable pub spawn : Machine → ℕ → ℕ → List ℕ → (ℕ → ℕ → ℕ) → ℕ → ℕ → Procs → Outcome Procs
spawn m ticks program name choose zero i s = ok s
spawn m ticks program name choose (suc n) i s =
    kproc_create m ticks program (some name) user s >>= λ r.
    kproc_attach_tty r.0 (choose i r.0) r.1 >>= λ r'.
    spawn m ticks program name choose n (i + 1) r'.1

-- The loop that fills the allocator.
unfoldable pub fill : ℕ → ℕ → Queue → Queue
fill zero i q = q
fill (suc n) i q = fill n (i + 1) (or_keep (queue_in q i) q)

unfoldable pub kproc_init : Machine → ℕ → Procs → Outcome Procs
kproc_init m ticks s =
    let s' = record s { allocator = fill proc_max 0 queue_init; table = λ i. zero_proc } in
    kproc_create m ticks m.kproc_idle (some (codes "idle")) kernel s' >>= λ r.
    spawn m ticks m.prog_shell (codes "shell") (λ i pid. i) 4 1 r.1 >>= λ t.
    spawn m ticks m.prog_ping (codes "ping") (λ i pid. game_tty pid) 3 0 t >>= λ u.
    spawn m ticks m.prog_pong (codes "pong") (λ i pid. game_tty pid) 3 0 u
