-- ===== src/Examples/System.antt =====
-- The system: its start, a tick, a system call and the processes' own components.
use phase1_myunivos.Base.{
  [], arith, codes, inc, minus_one, none, ok, refl, some, wrap, ℕ, ◌+◌, ◌∷◌, ◌≡◌, ◌≤◌,
}
use phase1_myunivos.Examples.Data.{
  all_masked, image, machine, no_breakpoint, no_items-IsValid, no_test, ports, running,
  running-Ready,
}
use phase1_myunivos.Interrupts.{Gates, Handlers, pic_irq_dismiss}
use phase1_myunivos.Kernel.{Kernel, call_scheduler_timer, call_tty_refresh}
use phase1_myunivos.Kernel.Boot.{boot, register_scheduler, register_tty}
use phase1_myunivos.Kernel.Boot.Runs.{OnDuty, boot_runs, enter_each}
use phase1_myunivos.Kernel.Boot.Starts.{HasPrograms}
use phase1_myunivos.Kernel.Enter.{kernel_context_enter}
use phase1_myunivos.Kernel.Enter.Returns.{GoesOn}
use phase1_myunivos.Kernel.Handlers.{irq_handlers}
use phase1_myunivos.Kernel.Handlers.Tick.{IsQuiet, tick_returns}
use phase1_myunivos.Kernel.TestCallbacks.{test_callback}
use phase1_myunivos.Kproc.{first_trapframe, kproc_init}
use phase1_myunivos.Kproc.Init.{AttachedTo, Booted, kproc_init_boots, terminal_of}
use phase1_myunivos.Ksyscall.Dispatch.{ksyscall_irq_handler}
use phase1_myunivos.Ksyscall.Dispatch.Agree.{IsReturned, ksyscall_irq_handler-registers, serve}
use phase1_myunivos.Process.{Procs, Trapframe}
use phase1_myunivos.Scheduler.{scheduler_timer}
use phase1_myunivos.Scheduler.Frames.{AllFramed}
use phase1_myunivos.Scheduler.Progress.{Ready-cong}
use phase1_myunivos.Scheduler.Wake.{scheduler_timer_total}
use phase1_myunivos.Scheduler.Wake.Round.{Timed}
use phase1_myunivos.Syscall.{proc_sleep, registers}
use phase1_myunivos.Timer.{timer_init}
use phase1_myunivos.Timer.Tick.{IsSafe, timer_callback_register-IsSafe, timer_init-IsSafe}

no_test-IsQuiet : IsQuiet ports no_test
no_test-IsQuiet c k s = (k.vga, k.spin_count, s, refl)

machine-HasPrograms : HasPrograms machine
machine-HasPrograms = record {
  has_idle = λ e. absurd (omega arith);
  has_shell = λ e. absurd (omega arith);
  has_ping = λ e. absurd (omega arith);
  has_pong = λ e. absurd (omega arith);
}

abbrev frame : ℕ → Trapframe
frame irq = record (first_trapframe machine 8192) { interrupt = irq }

-- The second process runs, and every entry has a trapframe.
abbrev framed : Procs
framed = record running { table = λ i. record (running.table i) { trapframe = some (frame 0) } }

-- The second process runs, and the two timers of the kernel are registered.
abbrev busy : Kernel
busy = record image { procs = framed; timers_of = register_scheduler (register_tty timer_init) }

busy-IsSafe : IsSafe busy.timers_of
busy-IsSafe =
    timer_callback_register-IsSafe call_scheduler_timer 1 minus_one (register_tty timer_init)
      (omega arith) (omega arith)
      (timer_callback_register-IsSafe call_tty_refresh 2 minus_one timer_init (omega arith)
        (omega arith) timer_init-IsSafe)

running-Timed : Timed running
running-Timed = record { ready = running-Ready; asleep = no_items-IsValid; room = omega arith }

framed-Timed : Timed framed
framed-Timed = record {
  ready = Ready-cong running framed refl refl (λ j. refl) running-Ready;
  asleep = no_items-IsValid;
  room = omega arith;
}

framed-AllFramed : AllFramed framed
framed-AllFramed x e f = (frame 0, refl)

-- The second process makes the call `proc_sleep(2)`.
abbrev calling : Kernel
calling = record image {
  procs = record running {
    table =
        λ i. record (running.table i) { trapframe = some (registers (proc_sleep 2) (frame 128)) };
  };
}

tick_returns_example :
    (k1 : Kernel) × (s1 : ports.State) × (k1.timers_of.ticks ≡ inc busy.timers_of.ticks)
    × GoesOn
        (kernel_context_enter ports
          (irq_handlers ports machine 4096 no_breakpoint no_test)
          (frame 32)
          busy
          all_masked)
        k1
        (pic_irq_dismiss ports 0 s1)
tick_returns_example =
    tick_returns ports machine 4096 no_breakpoint no_test (frame 32) busy all_masked no_test-IsQuiet
      refl busy-IsSafe framed-Timed framed-AllFramed (3, refl, refl, refl)

ksyscall_irq_handler-registers_example :
    IsReturned (serve machine (proc_sleep 2) calling) (ksyscall_irq_handler machine calling)
ksyscall_irq_handler-registers_example =
    ksyscall_irq_handler-registers machine (proc_sleep 2) (frame 128) 1 calling refl refl

scheduler_timer_total_example :
    (s' : Procs) × (scheduler_timer running ≡ ok s')
    × Timed s'
    × (s'.active_proc ≡ running.active_proc)
    × (s'.runnable.size + s'.sleepers.size ≤ running.runnable.size + running.sleepers.size)
scheduler_timer_total_example = scheduler_timer_total running running-Timed

kproc_init_boots_example :
    (s' : Procs) × (kproc_init machine 0 image.procs ≡ ok s')
    × Booted 11 s'
    × AttachedTo terminal_of 11 s'
kproc_init_boots_example =
    kproc_init_boots machine 0 image.procs (λ e. absurd (omega arith)) (λ e. absurd (omega arith))
      (λ e. absurd (omega arith)) (λ e. absurd (omega arith)) refl refl no_items-IsValid refl
      no_items-IsValid refl

boot_runs_example :
    (k' : Kernel) × (handlers : Handlers Kernel ports.State) × (idt' : Gates ℕ) × (s' : ports.State)
    × (boot ports machine 4096 no_breakpoint
          (test_callback ports (λ fmt args. codes "text"))
          4
          8
          12
          image
          (λ i. none)
          all_masked
        ≡ ok (k', handlers, idt', s'))
    × ((k1 : Kernel) × (s1 : ports.State) × (enter_each ports handlers
            (frame 32 ∷ frame 32 ∷ [])
            k'
            s'
          ≡ ok (k1, s1))
        × (k1.timers_of.ticks ≡ wrap 2)
        × OnDuty k1.procs)
boot_runs_example =
    boot_runs ports machine 4096 no_breakpoint (λ fmt args. codes "text") 4 8 12 (frame 32)
      (frame 32 ∷ []) image (λ i. none) all_masked machine-HasPrograms (refl, (refl, tt)) refl refl
