-- ===== src/Kernel/Enter.antt =====
-- `kernel_context_enter` of src/kernel.c: an interrupt is handled, and a process is chosen.
pub mod Returns
use phase1_myunivos.Base.{Option, Outcome, deref, halt, none, ok, panic, some, ℕ, ◌>>=◌}
use phase1_myunivos.Interrupts.{Handlers, Ports, interrupts_irq_handler}
use phase1_myunivos.Kernel.{Kernel}
use phase1_myunivos.Process.{Procs, Trapframe, set_proc}
use phase1_myunivos.Scheduler.{scheduler_run}

-- The registers that the interrupt pushed are kept for the process that was interrupted.
abbrev pub save_trapframe : Option ℕ → Trapframe → Procs → Procs
save_trapframe none tf s = s
save_trapframe (some p) tf s = set_proc p (record (s.table p) { trapframe = some tf }) s

-- The active process' trapframe, from which `kernel_context_exit` loads the registers; it is not
-- tested for NULL.
abbrev pub exit_frame : Option ℕ → Procs → Outcome Trapframe
exit_frame none s = halt panic
exit_frame (some p) s = deref (s.table p).trapframe

-- A process is chosen, and the kernel goes on with its registers.
abbrev pub switch : {S : Type 0} → Kernel → S → Outcome (Trapframe × Kernel × S)
switch k w = scheduler_run k.procs >>= λ procs'.
    exit_frame procs'.active_proc procs' >>= λ tf. ok (tf, record k { procs = procs' }, w)

module _ (hw : Ports) where
  open hw use {State}

  -- The registers with which a process goes on, and the system.
  unfoldable pub kernel_context_enter :
      Handlers Kernel State → Trapframe → Kernel → State → Outcome (Trapframe × Kernel × State)
  kernel_context_enter handlers tf k s =
      let k' = record k { procs = save_trapframe k.procs.active_proc tf k.procs } in
      interrupts_irq_handler hw tf.interrupt handlers k' s >>= λ r. switch r.0 r.1
