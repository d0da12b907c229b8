-- ===== src/Kernel/Boot/Starts.antt =====
-- The system that `main` of src/main.c leaves to the interrupts.
use phase1_myunivos.Base.{
  Option, Outcome, arith, minus_one, none, ok, refl, some, update, ℕ, ◌≡◌, ◌≢◌,
}
use phase1_myunivos.Base.Window.{next}
use phase1_myunivos.Interrupts.{
  Gates, Handlers, Ports, interrupts_irq_register, no_handlers, pic_irq_enable,
}
use phase1_myunivos.Kernel.{
  Callback, Kernel, call_scheduler_timer, call_test_proc_list, call_test_spinner, call_test_timer,
  call_tty_refresh,
}
use phase1_myunivos.Kernel.Boot.{boot, register_scheduler, register_tests, register_tty}
use phase1_myunivos.Kernel.Handlers.{
  handle_syscall, handle_timer, irq_handlers, irq_keyboard, irq_syscall, irq_timer,
  keyboard_irq_handler,
}
use phase1_myunivos.Kernel.Handlers.Tick.{IsDrained}
use phase1_myunivos.Kproc.{Machine, kproc_init}
use phase1_myunivos.Kproc.Init.{AttachedTo, Booted, kproc_init_boots, terminal_of}
use phase1_myunivos.Kproc.Init.Run.{Booted-AllFramed, Booted-Timed}
use phase1_myunivos.Mutex.{kmutexes_init}
use phase1_myunivos.Process.{Procs}
use phase1_myunivos.Queue.{Queue, queue_init, queue_out}
use phase1_myunivos.Scheduler.{scheduler_init}
use phase1_myunivos.Scheduler.Frames.{AllFramed}
use phase1_myunivos.Scheduler.Wake.Round.{Timed}
use phase1_myunivos.Sem.{ksemaphores_init}
use phase1_myunivos.Timer.{
  Timers, register_in, timer_callback_register, timer_get_ticks, timer_init,
}
use phase1_myunivos.Timer.Tick.{IsSafe, timer_callback_register-IsSafe, timer_init-IsSafe}
use phase1_myunivos.Tty.{Ttys, tty_init, tty_select}
use phase1_myunivos.Vga.{vga_clear, vga_init}

-- The programs of the first processes are not NULL.
pub record HasPrograms (m : Machine) : Type 0 where
  pub has_idle : m.kproc_idle ≢ 0
  pub has_shell : m.prog_shell ≢ 0
  pub has_ping : m.prog_ping ≢ 0
  pub has_pong : m.prog_pong ≢ 0

-- What the components rely on after the start.
pub record Started (k : Kernel) : Type 0 where
  pub booted : Booted 11 k.procs
  pub attached : AttachedTo terminal_of 11 k.procs
  pub timed : Timed k.procs
  pub framed : AllFramed k.procs
  pub safe : IsSafe k.timers_of
  pub drained : IsDrained k.ttys
  pub no_ticks : k.timers_of.ticks ≡ 0

tty_init-IsDrained : (s : Ttys) → (s' : Ttys) × (tty_init s ≡ ok s') × IsDrained s'
unfolding tty_init tty_select
tty_init-IsDrained s = (_, refl, (0, refl, refl, refl))

scheduler_init-Booted :
    (m : Machine) (ticks : ℕ) (s : Procs)
    → HasPrograms m
    → s.next_pid ≡ 0
    → s.active_proc ≡ none
    → (s' : Procs) × (kproc_init m ticks (scheduler_init s) ≡ ok s')
      × Booted 11 s'
      × AttachedTo terminal_of 11 s'
unfolding scheduler_init queue_init
scheduler_init-Booted m ticks s p next a =
    kproc_init_boots m ticks (scheduler_init s) p.has_idle p.has_shell p.has_ping p.has_pong next a
      (ground arith) refl (ground arith) refl

-- None of the timers registered has the interval 0 or -1.
registered-IsSafe : IsSafe (register_tests (register_scheduler (register_tty timer_init)))
registered-IsSafe =
    let t = register_scheduler (register_tty timer_init) in
    let next =
      λ (c : Callback) (n : ℕ) (s : Timers Callback) (ne : n ≢ 0) (ne' : n ≢ minus_one)
          (h : IsSafe s).
        timer_callback_register-IsSafe c n minus_one s ne ne' h in
    next call_test_proc_list 10 _ (omega arith) (omega arith) (
      next call_test_timer 25 _ (omega arith) (omega arith) (
        next call_test_spinner 10 t (omega arith) (omega arith) (
          next call_scheduler_timer 1 _ (omega arith) (omega arith)
            (next call_tty_refresh 2 timer_init (omega arith) (omega arith) timer_init-IsSafe))))

-- Registering counts no tick.
register_ticks :
    (c : Callback) (n : ℕ) (s : Timers Callback)
    → (timer_callback_register (some c) n minus_one s).1.ticks ≡ s.ticks
unfolding timer_callback_register
register_ticks c n s = registered (queue_out s.timer_allocator)
  where
    registered : (o : Option (ℕ × Queue)) → (register_in c n minus_one s o).1.ticks ≡ s.ticks
    registered none = refl
    registered (some r) = refl

registered_ticks : (register_tests (register_scheduler (register_tty timer_init))).ticks ≡ 0
unfolding timer_init
registered_ticks = simp register_ticks

module _ (hw : Ports) (m : Machine) (kproc_test : ℕ) (breakpoint : Kernel → Outcome Kernel)
    (test : Callback → Kernel → hw.State → Outcome (Kernel × hw.State))
    (isr_entry_timer isr_entry_keyboard isr_entry_syscall : ℕ) where
  -- When the programs of the first processes are not NULL, no process id was given out and no process
  -- runs: `main` initialises every component without a panic, whatever the other variables hold. Then
  -- the 11 first processes stand in the table and in the run queue and are attached to their
  -- terminals; the scheduler's invariant holds, no registered timer has the interval 0 or -1, the
  -- active terminal has nothing to drain; and the handlers of the three interrupts are registered, and no
  -- others.
  pub boot_starts :
      (k : Kernel) (idt : Gates ℕ) (s : hw.State)
      → HasPrograms m
      → k.procs.next_pid ≡ 0
      → k.procs.active_proc ≡ none
      → (k' : Kernel) × (handlers : Handlers Kernel hw.State) × (idt' : Gates ℕ) × (s' : hw.State)
        × (boot hw m kproc_test breakpoint test isr_entry_timer isr_entry_keyboard isr_entry_syscall
              k idt s
            ≡ ok (k', handlers, idt', s'))
        × Started k'
        × (handlers ≡ irq_handlers hw m kproc_test breakpoint test)
  unfolding boot interrupts_irq_register irq_handlers
  boot_starts k idt s programs next none_runs =
      let t = register_scheduler (register_tty timer_init) in
      let (p, e, b, at) =
        scheduler_init-Booted m (timer_get_ticks t) k.procs programs next none_runs in
      let (ttys', e', d) = tty_init-IsDrained k.ttys in
      let a = vga_init hw k.vga (pic_irq_enable hw irq_timer s) in
      let c = vga_clear hw a.0 (pic_irq_enable hw irq_keyboard a.1) in
      (
        record k {
          procs = p;
          sems = ksemaphores_init k.sems;
          mutexes_of = kmutexes_init;
          ttys = ttys';
          vga = c.0;
          timers_of = register_tests t;
          keyboard = record k.keyboard { kbd_status = 0 };
        },
        update
            (update
              (update no_handlers irq_timer (some (handle_timer hw m kproc_test breakpoint test)))
              irq_keyboard (some (keyboard_irq_handler hw m kproc_test breakpoint test)))
            irq_syscall (some (handle_syscall hw m kproc_test breakpoint test)),
        update
            (update (update idt irq_timer (some isr_entry_timer)) irq_keyboard
              (some isr_entry_keyboard))
            irq_syscall (some isr_entry_syscall),
        c.1,
        rw (e', e) refl,
        record {
          booted = b;
          attached = at;
          timed = Booted-Timed 10 p b (omega arith);
          framed = Booted-AllFramed 10 p b;
          safe = registered-IsSafe;
          drained = d;
          no_ticks = registered_ticks;
        },
        refl,
      )
