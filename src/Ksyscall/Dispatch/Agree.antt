-- ===== src/Ksyscall/Dispatch/Agree.antt =====
-- The system calls of the processes, src/syscall.c, against those of the kernel, src/ksyscall.c.
use phase1_myunivos.Base.{
  Option, Outcome, ap, arith, halt, none, null_pointer, ok, refl, some, subst, sym, ℕ, ◌>>=◌, ◌∙◌,
  ◌≡◌, ◌≢◌,
}
use phase1_myunivos.Kernel.{Kernel, with_mutexes, with_sems, with_ttys}
use phase1_myunivos.Kproc.{Machine}
use phase1_myunivos.Ksyscall.{
  ksyscall_io_flush, ksyscall_io_read, ksyscall_io_write, ksyscall_proc_exit, ksyscall_proc_get_pid,
  ksyscall_proc_sleep,
}
use phase1_myunivos.Ksyscall.Dispatch.{
  bytes_at, call_of, dispatch, frame_of, ksyscall_irq_handler, ksyscall_proc_get_name,
  ksyscall_sys_get_name, ksyscall_sys_get_time, lift, lift_mutexes, lift_sems, return_value,
  store_read,
}
use phase1_myunivos.Mutex.{kmutex_destroy, kmutex_init, kmutex_lock, kmutex_unlock}
use phase1_myunivos.Process.{set_proc, Trapframe}
use phase1_myunivos.Sem.{ksem_destroy, ksem_init, ksem_post, ksem_wait}
use phase1_myunivos.Syscall.{
  Call, io_flush, io_read, io_write, mutex_destroy, mutex_init, mutex_lock, mutex_unlock, proc_exit,
  proc_get_name, proc_get_pid, proc_sleep, registers, sem_destroy, sem_init, sem_post, sem_wait,
  sys_get_name, sys_get_time,
}

-- What each call is documented to do: the function of the kernel that is meant.
abbrev pub serve : Machine → Call → Kernel → Outcome (ℕ × Kernel)
serve m sys_get_time k = ok (ksyscall_sys_get_time k, k)
serve m (sys_get_name name) k = ok (ksyscall_sys_get_name m name k)
serve m (proc_sleep secs) k = lift (ksyscall_proc_sleep secs k.procs) k
serve m (proc_exit exitcode) k = lift (ksyscall_proc_exit k.procs) k
serve m proc_get_pid k = ok (ksyscall_proc_get_pid k.procs, k)
serve m (proc_get_name name) k = ksyscall_proc_get_name name k
serve m (io_write io buf n) k =
    ok (with_ttys (ksyscall_io_write io (bytes_at buf k.memory) n k.procs k.ttys) k)
serve m (io_read io buf n) k = ok (store_read buf (ksyscall_io_read io n k.procs k.ttys) k)
serve m (io_flush io) k = ok (with_ttys (ksyscall_io_flush io k.procs k.ttys) k)
serve m mutex_init k = ok (with_mutexes (kmutex_init k.mutexes_of) k)
serve m (mutex_destroy mutex) k = ok (with_mutexes (kmutex_destroy mutex k.mutexes_of) k)
serve m (mutex_lock mutex) k = lift_mutexes (kmutex_lock mutex k.mutexes_of k.procs) k
serve m (mutex_unlock mutex) k = lift_mutexes (kmutex_unlock mutex k.mutexes_of k.procs) k
serve m (sem_init value) k = ok (with_sems (ksem_init value k.sems) k)
serve m (sem_destroy sem) k = ok (with_sems (ksem_destroy sem k.sems) k)
serve m (sem_wait sem) k = lift_sems (ksem_wait sem k.sems k.procs) k
serve m (sem_post sem) k = lift_sems (ksem_post sem k.sems k.procs) k

dispatch-registers :
    (m : Machine) (c : Call) (tf : Trapframe) (k : Kernel)
    → (let t = registers c tf in dispatch m t.eax t.ebx t.ecx t.edx k) ≡ serve m c k
unfolding dispatch registers
dispatch-registers m sys_get_time tf k = refl
dispatch-registers m (sys_get_name name) tf k = refl
dispatch-registers m (proc_sleep secs) tf k = refl
dispatch-registers m (proc_exit exitcode) tf k = refl
dispatch-registers m proc_get_pid tf k = refl
dispatch-registers m (proc_get_name name) tf k = refl
dispatch-registers m (io_write io buf n) tf k = refl
dispatch-registers m (io_read io buf n) tf k = refl
dispatch-registers m (io_flush io) tf k = refl
dispatch-registers m mutex_init tf k = refl
dispatch-registers m (mutex_destroy mutex) tf k = refl
dispatch-registers m (mutex_lock mutex) tf k = refl
dispatch-registers m (mutex_unlock mutex) tf k = refl
dispatch-registers m (sem_init value) tf k = refl
dispatch-registers m (sem_destroy sem) tf k = refl
dispatch-registers m (sem_wait sem) tf k = refl
dispatch-registers m (sem_post sem) tf k = refl

-- The registers of the stub lead to the function of the kernel that is meant, and to the end of the
-- handler.
handler_serves :
    (m : Machine) (c : Call) (tf : Trapframe) (p : ℕ) (k : Kernel)
    → k.procs.active_proc ≡ some p
    → (k.procs.table p).trapframe ≡ some (registers c tf)
    → ksyscall_irq_handler m k ≡ (serve m c k >>= return_value)
unfolding ksyscall_irq_handler
handler_serves m c tf p k a e =
    ap (λ o. frame_of o k.procs >>= λ t. call_of m t k) a
    ∙ ap (λ t. call_of m t k) e
    ∙ ap (λ r. r >>= return_value) (dispatch-registers m c tf k)

-- The result is in the register `eax` of the process's saved trapframe, and nothing else changes;
-- without a trapframe the handler faults.
abbrev pub IsInFrame : Option Trapframe → ℕ → ℕ → Kernel → Outcome Kernel → Type 0
IsInFrame none q rc k o = o ≡ halt null_pointer
IsInFrame (some tf) q rc k o =
    (k' : Kernel) × (o ≡ ok k')
    × (k' ≡ record k { procs = record k.procs { table = k'.procs.table } })
    × (k'.procs.table q ≡ record (k.procs.table q) { trapframe = some (record tf { eax = rc }) })
    × ((j : ℕ) → j ≢ q → k'.procs.table j ≡ k.procs.table j)

-- The process that gets the result, if one is active.
abbrev pub IsGiven : Option ℕ → ℕ → Kernel → Outcome Kernel → Type 0
IsGiven none rc k o = o ≡ ok k
IsGiven (some q) rc k o = IsInFrame (k.procs.table q).trapframe q rc k o

-- What the handler does with the result of the function and the kernel that it left.
abbrev pub IsReturned : Outcome (ℕ × Kernel) → Outcome Kernel → Type 0
IsReturned (halt h) o = o ≡ halt h
IsReturned (ok (rc, k)) o = IsGiven k.procs.active_proc rc k o

in_frame :
    (t : Option Trapframe) (q rc : ℕ) (k : Kernel)
    → (k.procs.table q).trapframe ≡ t
    → k.procs.active_proc ≡ some q
    → IsInFrame t q rc k (return_value (rc, k))
in_frame none q rc k e a = rw (a, e) refl
in_frame (some tf) q rc k e a =
    let t' = record (k.procs.table q) { trapframe = some (record tf { eax = rc }) } in
    (
      record k { procs = set_proc q t' k.procs },
      rw (a, e) refl,
      refl,
      ground arith,
      λ j ne. ground arith,
    )

given :
    (o : Option ℕ) (rc : ℕ) (k : Kernel)
    → k.procs.active_proc ≡ o
    → IsGiven o rc k (return_value (rc, k))
given none rc k a = rw a refl
given (some q) rc k a = in_frame (k.procs.table q).trapframe q rc k refl a

returned : (r : Outcome (ℕ × Kernel)) → IsReturned r (r >>= return_value)
returned (halt h) = refl
returned (ok (rc, k)) = given k.procs.active_proc rc k refl

-- Whatever system call the active process makes, with whatever arguments and other registers: the
-- registers that its stub sets lead `ksyscall_irq_handler` to the function of the kernel that the call
-- is named for, with the arguments in their order. When that function halts, the handler halts in the
-- same way. When it returns and no process is active then, the kernel is as it left it. When a process
-- is active, its saved register `eax` holds the result and all else is as the function left it; if
-- that process has no saved trapframe, the handler faults.
pub ksyscall_irq_handler-registers :
    (m : Machine) (c : Call) (tf : Trapframe) (p : ℕ) (k : Kernel)
    → k.procs.active_proc ≡ some p
    → (k.procs.table p).trapframe ≡ some (registers c tf)
    → IsReturned (serve m c k) (ksyscall_irq_handler m k)
ksyscall_irq_handler-registers m c tf p k a e =
    subst (IsReturned (serve m c k)) (sym (handler_serves m c tf p k a e)) (returned (serve m c k))
