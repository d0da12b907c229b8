-- ===== src/Ksyscall/Dispatch.antt =====
-- `ksyscall_irq_handler` of src/ksyscall.c, and the system calls that it chooses from: each on the
-- whole system. The numbers are those of include/syscall_common.h.
pub mod Agree
use phase1_myunivos.Base.{
  List, Option, Outcome, [], deref, halt, if◌then◌else◌, is_negative, minus_one, none, null_pointer,
  ok, panic, some, update, word_size, wrap, ℕ, ◌++◌, ◌+◌, ◌-◌, ◌/◌, ◌==◌, ◌>>=◌, ◌∷◌,
}
use phase1_myunivos.Kernel.{Kernel, with_mutexes, with_procs, with_sems, with_ttys}
use phase1_myunivos.Kproc.{Machine, strncpy}
use phase1_myunivos.Ksyscall.{
  ksyscall_io_flush, ksyscall_io_read, ksyscall_io_write, ksyscall_proc_exit, ksyscall_proc_get_pid,
  ksyscall_proc_sleep,
}
use phase1_myunivos.Mutex.{Mutexes, kmutex_destroy, kmutex_init, kmutex_lock, kmutex_unlock}
use phase1_myunivos.Process.{Procs, Trapframe, proc_name_len, set_proc}
use phase1_myunivos.Sem.{Sems, ksem_destroy, ksem_init, ksem_post, ksem_wait}
use phase1_myunivos.Timer.{timer_get_ticks}
use phase1_myunivos.Tty.{Ttys}

-- Memory: the bytes from an address on, and a text stored from an address on.
abbrev pub bytes_at : ℕ → (ℕ → ℕ) → ℕ → ℕ
bytes_at buf mem i = mem (wrap (buf + i))

unfoldable pub store : ℕ → List ℕ → (ℕ → ℕ) → ℕ → ℕ
store a [] mem = mem
store a (b ∷ bs) mem = store (wrap (a + 1)) bs (update mem a b)

-- The text of an array of characters, up to the first 0.
unfoldable pub text_of : List ℕ → List ℕ
text_of [] = []
text_of (c ∷ cs) = if c == 0 then [] else c ∷ text_of cs

abbrev pub store_read : ℕ → ℕ × List ℕ × Ttys → Kernel → ℕ × Kernel
store_read buf (rc, bytes, t) k = (rc, record k { ttys = t; memory = store buf bytes k.memory })

-- `timer_get_ticks() / 100` of an `int`.
unfoldable pub ksyscall_sys_get_time : Kernel → ℕ
ksyscall_sys_get_time k =
    let t = timer_get_ticks k.timers_of in
    if is_negative t then wrap (word_size - (word_size - t) / 100) else t / 100

-- The name of the system and the 0 behind it; -1 for a null pointer.
unfoldable pub ksyscall_sys_get_name : Machine → ℕ → Kernel → ℕ × Kernel
ksyscall_sys_get_name m name k =
    if name == 0
    then (minus_one, k)
    else (0, record k { memory = store name (m.os_name ++ (0 ∷ [])) k.memory })

-- The name of the active process, which is not tested for NULL.
abbrev pub copy_name : ℕ → Option ℕ → Kernel → Outcome (ℕ × Kernel)
copy_name name none k = halt null_pointer
copy_name name (some p) k = ok (
  0,
  record k {
    memory = store name (strncpy proc_name_len (text_of (k.procs.table p).name)) k.memory;
  },
)

unfoldable pub ksyscall_proc_get_name : ℕ → Kernel → Outcome (ℕ × Kernel)
ksyscall_proc_get_name name k =
    if name == 0 then ok (minus_one, k) else copy_name name k.procs.active_proc k

abbrev pub lift : Outcome (ℕ × Procs) → Kernel → Outcome (ℕ × Kernel)
lift r k = r >>= λ v. ok (with_procs v k)

abbrev pub lift_mutexes : Outcome (ℕ × Mutexes × Procs) → Kernel → Outcome (ℕ × Kernel)
lift_mutexes r k = r >>= λ v. ok (v.0, record k { mutexes_of = v.1; procs = v.2 })

abbrev pub lift_sems : Outcome (ℕ × Sems × Procs) → Kernel → Outcome (ℕ × Kernel)
lift_sems r k = r >>= λ v. ok (v.0, record k { sems = v.1; procs = v.2 })

-- The `switch`: the number of the call and its three arguments.
unfoldable pub dispatch : Machine → ℕ → ℕ → ℕ → ℕ → Kernel → Outcome (ℕ × Kernel)
dispatch m syscall arg1 arg2 arg3 k =
    if syscall == 2
    then ok (with_ttys (ksyscall_io_write arg1 (bytes_at arg2 k.memory) arg3 k.procs k.ttys) k)
    else if syscall == 1
    then ok (store_read arg2 (ksyscall_io_read arg1 arg3 k.procs k.ttys) k)
    else if syscall == 3
    then ok (with_ttys (ksyscall_io_flush arg1 k.procs k.ttys) k)
    else if syscall == 4
    then ok (ksyscall_sys_get_time k, k)
    else if syscall == 5
    then ok (ksyscall_sys_get_name m arg1 k)
    else if syscall == 6
    then lift (ksyscall_proc_sleep arg1 k.procs) k
    else if syscall == 7
    then lift (ksyscall_proc_exit k.procs) k
    else if syscall == 8
    then ok (ksyscall_proc_get_pid k.procs, k)
    else if syscall == 9
    then ksyscall_proc_get_name arg1 k
    else if syscall == 10
    then ok (with_mutexes (kmutex_init k.mutexes_of) k)
    else if syscall == 11
    then ok (with_mutexes (kmutex_destroy arg1 k.mutexes_of) k)
    else if syscall == 12
    then lift_mutexes (kmutex_lock arg1 k.mutexes_of k.procs) k
    else if syscall == 13
    then lift_mutexes (kmutex_unlock arg1 k.mutexes_of k.procs) k
    else if syscall == 14
    then ok (with_sems (ksem_init arg1 k.sems) k)
    else if syscall == 15
    then ok (with_sems (ksem_destroy arg1 k.sems) k)
    else if syscall == 17
    then lift_sems (ksem_post arg1 k.sems k.procs) k
    else if syscall == 16
    then lift_sems (ksem_wait arg1 k.sems k.procs) k
    else halt panic

-- "Ensure that the EAX register contains a return value", if a process is active still.
abbrev pub return_to : Option ℕ → ℕ → Procs → Outcome Procs
return_to none rc s = ok s
return_to (some p) rc s = deref (s.table p).trapframe >>= λ tf.
    ok (set_proc p (record (s.table p) { trapframe = some (record tf { eax = rc }) }) s)

abbrev pub return_value : ℕ × Kernel → Outcome Kernel
return_value (rc, k) =
    return_to k.procs.active_proc rc k.procs >>= λ procs'. ok (record k { procs = procs' })

abbrev pub call_of : Machine → Option Trapframe → Kernel → Outcome Kernel
call_of m none k = halt panic
call_of m (some tf) k = dispatch m tf.eax tf.ebx tf.ecx tf.edx k >>= return_value

abbrev pub frame_of : Option ℕ → Procs → Outcome (Option Trapframe)
frame_of none s = halt panic
frame_of (some p) s = ok (s.table p).trapframe

unfoldable pub ksyscall_irq_handler : Machine → Kernel → Outcome Kernel
ksyscall_irq_handler m k = frame_of k.procs.active_proc k.procs >>= λ tf. call_of m tf k
