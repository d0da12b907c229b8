-- ===== src/Kernel/Boot.antt =====
-- `main` of src/main.c up to its endless loop: the components are initialised in order. The variables
-- before are those of the image, ports and memory apart.
pub mod Starts
pub mod Runs
use phase1_myunivos.Base.{Outcome, minus_one, ok, some, ℕ, ◌>>=◌}
use phase1_myunivos.Interrupts.{Gates, Handlers, Ports, interrupts_irq_register, no_handlers}
use phase1_myunivos.Kernel.{
  Callback, Kernel, call_scheduler_timer, call_test_proc_list, call_test_spinner, call_test_timer,
  call_tty_refresh,
}
use phase1_myunivos.Kernel.Handlers.{
  handle_syscall, handle_timer, irq_keyboard, irq_syscall, irq_timer, keyboard_irq_handler,
}
use phase1_myunivos.Kproc.{Machine, kproc_init}
use phase1_myunivos.Mutex.{kmutexes_init}
use phase1_myunivos.Scheduler.{scheduler_init}
use phase1_myunivos.Sem.{ksemaphores_init}
use phase1_myunivos.Timer.{Timers, timer_callback_register, timer_get_ticks, timer_init}
use phase1_myunivos.Tty.{tty_init}
use phase1_myunivos.Vga.{vga_clear, vga_init}

-- The callbacks that `tty_init`, `scheduler_init` and `test_init` register.
abbrev pub register_tty : Timers Callback → Timers Callback
register_tty t = (timer_callback_register (some call_tty_refresh) 2 minus_one t).1

abbrev pub register_scheduler : Timers Callback → Timers Callback
register_scheduler t = (timer_callback_register (some call_scheduler_timer) 1 minus_one t).1

abbrev pub register_tests : Timers Callback → Timers Callback
register_tests t =
    (timer_callback_register (some call_test_proc_list) 10 minus_one
      (timer_callback_register (some call_test_timer) 25 minus_one
        (timer_callback_register (some call_test_spinner) 10 minus_one t).1).1).1

module _ (hw : Ports) (m : Machine) (kproc_test : ℕ) (breakpoint : Kernel → Outcome Kernel)
    (test : Callback → Kernel → hw.State → Outcome (Kernel × hw.State))
    (isr_entry_timer isr_entry_keyboard isr_entry_syscall : ℕ) where
  open hw use {State}

  -- From `kproc_init` on, with the tables of interrupts and the ports.
  abbrev pub boot_procs :
      Kernel
      → Handlers Kernel State × Gates ℕ × State
      → Outcome (Kernel × Handlers Kernel State × Gates ℕ × State)
  boot_procs k (handlers, idt, s) = kproc_init m (timer_get_ticks k.timers_of) k.procs >>= λ procs'.
      interrupts_irq_register hw irq_syscall (some isr_entry_syscall)
        (some (handle_syscall hw m kproc_test breakpoint test)) handlers idt s
      >>= λ r.
          let (v, s') = vga_clear hw k.vga r.2 in
          ok (
            record k {
              procs = procs';
              sems = ksemaphores_init k.sems;
              mutexes_of = kmutexes_init;
              timers_of = register_tests k.timers_of;
              vga = v;
            },
            r.0,
            r.1,
            s',
          )

  unfoldable pub boot :
      Kernel → Gates ℕ → State → Outcome (Kernel × Handlers Kernel State × Gates ℕ × State)
  boot k idt s =
      interrupts_irq_register hw irq_timer (some isr_entry_timer)
        (some (handle_timer hw m kproc_test breakpoint test)) no_handlers idt s
      >>= λ r. tty_init k.ttys >>= λ ttys'.
          let (v, s') = vga_init hw k.vga r.2 in
          interrupts_irq_register hw irq_keyboard (some isr_entry_keyboard)
            (some (keyboard_irq_handler hw m kproc_test breakpoint test)) r.0 r.1 s'
          >>= λ r'.
              boot_procs
                (record k {
                  ttys = ttys';
                  vga = v;
                  keyboard = record k.keyboard { kbd_status = 0 };
                  procs = scheduler_init k.procs;
                  timers_of = register_scheduler (register_tty timer_init);
                })
                r'
