-- ===== src/Process.antt =====
-- include/kproc.h, include/trapframe.h and the look-ups of src/kproc.c: the process table. A
-- `proc_t *` is `none` for NULL, or the index of an entry of `proc_table`: the code takes the
-- address of no other process structure. A queue pointer and an I/O pointer name the variable that
-- they point to.
pub mod Lookup
use phase1_myunivos.Base.{
  ℕ, zero, suc, ◌+◌, Bool, true, false, List, [], ◌∷◌, Option, none, some, ◌==◌, ltb, if◌then◌else◌,
  update, minus_one, replicate, take, ◌++◌, ◌-◌, length, out_of_range,
}
use phase1_myunivos.Queue.{Queue}

abbrev pub proc_max : ℕ
proc_max = 20

abbrev pub proc_io_max : ℕ
proc_io_max = 4

abbrev pub proc_name_len : ℕ
proc_name_len = 32

-- `proc_type_t`
pub data ProcType : Type 0 where
  untyped kernel user : ProcType

-- `state_t`; NONE is `absent`.
pub data ProcState : Type 0 where
  absent idle active sleeping waiting : ProcState

abbrev pub is_active : ProcState → Bool
is_active active = true
is_active _ = false

abbrev pub is_sleeping : ProcState → Bool
is_sleeping sleeping = true
is_sleeping _ = false

abbrev pub is_absent : ProcState → Bool
is_absent absent = true
is_absent _ = false

-- The variables that `scheduler_queue` points to.
pub data QueueRef : Type 0 where
  run_queue sleep_queue : QueueRef

-- The buffers that `io` points to: those of the terminal with the given number.
pub data IoBuf : Type 0 where
  io_input : ℕ → IoBuf
  io_output : ℕ → IoBuf

-- `trapframe_t`, without its filler fields.
pub record Trapframe : Type 0 where
  pub gs : ℕ
  pub fs : ℕ
  pub es : ℕ
  pub ds : ℕ
  pub edi : ℕ
  pub esi : ℕ
  pub ebp : ℕ
  pub esp : ℕ
  pub ebx : ℕ
  pub edx : ℕ
  pub ecx : ℕ
  pub eax : ℕ
  pub interrupt : ℕ
  pub eip : ℕ
  pub cs : ℕ
  pub eflags : ℕ

-- `proc_t`. `stack` is the row of `proc_stack`; of the bytes of the stack only the trapframe at its
-- end is kept.
pub record Proc : Type 0 where
  pub pid : ℕ
  pub state : ProcState
  pub type : ProcType
  pub name : List ℕ
  pub start_time : ℕ
  pub run_time : ℕ
  pub cpu_time : ℕ
  pub sleep_time : ℕ
  pub scheduler_queue : Option QueueRef
  pub io : ℕ → Option IoBuf
  pub stack : Option ℕ
  pub trapframe : Option Trapframe

-- `memset(proc, 0, sizeof(proc_t))`
abbrev pub zero_proc : Proc
zero_proc = record {
  pid = 0;
  state = absent;
  type = untyped;
  name = replicate proc_name_len 0;
  start_time = 0;
  run_time = 0;
  cpu_time = 0;
  sleep_time = 0;
  scheduler_queue = none;
  io = λ i. none;
  stack = none;
  trapframe = none;
}

-- The variables of src/kproc.c and src/scheduler.c, and `active_proc` of src/kernel.c.
pub record Procs : Type 0 where
  pub next_pid : ℕ
  pub allocator : Queue
  pub table : ℕ → Proc
  pub runnable : Queue
  pub sleepers : Queue
  pub active_proc : Option ℕ

-- `*proc = v`
abbrev pub set_proc : ℕ → Proc → Procs → Procs
set_proc p v s = record s { table = update s.table p v }

-- `*q` and `*q = v` for a pointer to one of the two queues.
abbrev pub get_queue : QueueRef → Procs → Queue
get_queue run_queue s = s.runnable
get_queue sleep_queue s = s.sleepers

abbrev pub set_queue : QueueRef → Queue → Procs → Procs
set_queue run_queue q s = record s { runnable = q }
set_queue sleep_queue q s = record s { sleepers = q }

-- `for (i = 0; i < PROC_MAX; i++) if (proc_table[i].pid == pid) …`, with the rounds left.
unfoldable pub find_entry : (ℕ → Proc) → ℕ → ℕ → ℕ → Option ℕ
find_entry t pid zero i = none
find_entry t pid (suc n) i =
    let rest = find_entry t pid n (i + 1) in if (t i).pid == pid then some i else rest

unfoldable pub pid_to_proc : ℕ → Procs → Option ℕ
pid_to_proc pid s = find_entry s.table pid proc_max 0

abbrev pub entry_or_error : Option ℕ → ℕ
entry_or_error none = minus_one
entry_or_error (some i) = i

unfoldable pub proc_to_entry : Option ℕ → Procs → ℕ
proc_to_entry none s = minus_one
proc_to_entry (some p) s = entry_or_error (find_entry s.table (s.table p).pid proc_max 0)

unfoldable pub entry_to_proc : ℕ → Option ℕ
entry_to_proc entry = if out_of_range entry proc_max then none else some entry
