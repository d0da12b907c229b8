-- ===== src/Kernel/Handlers.antt =====
-- The handlers that the components register with src/interrupts.c, on the whole system: the timer's
-- with its callbacks, `keyboard_irq_handler` of src/keyboard.c with the actions of the keys, and that
-- of the system calls.
pub mod Tick
pub mod Typing
pub mod Keys
use phase1_myunivos.Base.{
  Outcome, codes, dec, if◌then◌else◌, inc, ok, some, update, ℕ, ◌%◌, ◌==◌, ◌>>=◌,
}
use phase1_myunivos.Interrupts.{Handlers, Ports, no_handlers}
use phase1_myunivos.Kernel.{
  Callback, Kernel, call_scheduler_timer, call_test_proc_list, call_test_spinner, call_test_timer,
  call_tty_refresh,
}
use phase1_myunivos.Kernel.Log.{kernel_get_log_level, kernel_set_log_level}
use phase1_myunivos.Keyboard.{
  Action, break_here, create_test, destroy_active, key, key_null, keyboard_poll, lower_log_level,
  raise_log_level, select_tty,
}
use phase1_myunivos.Kproc.{Machine, kproc_create, kproc_destroy}
use phase1_myunivos.Ksyscall.Dispatch.{ksyscall_irq_handler}
use phase1_myunivos.Process.{user}
use phase1_myunivos.Scheduler.{scheduler_timer}
use phase1_myunivos.Timer.{timer_get_ticks, timer_irq_handler}
use phase1_myunivos.Tty.{tty_input, tty_select}
use phase1_myunivos.Tty.Refresh.{tty_refresh}

abbrev pub irq_timer : ℕ
irq_timer = 0x20

abbrev pub irq_keyboard : ℕ
irq_keyboard = 0x21

abbrev pub irq_syscall : ℕ
irq_syscall = 0x80

-- KBD_PORT_DATA and KBD_PORT_STAT
abbrev pub kbd_port_data : ℕ
kbd_port_data = 0x60

abbrev pub kbd_port_stat : ℕ
kbd_port_stat = 0x64

-- The parameters: the machine, the address of `kproc_test`, `breakpoint` of the host library, and the
-- callbacks of include/test.h.
module _ (hw : Ports) (m : Machine) (kproc_test : ℕ) (breakpoint : Kernel → Outcome Kernel)
    (test : Callback → Kernel → hw.State → Outcome (Kernel × hw.State)) where
  open hw use {State, inportb}

  -- The callbacks of the timer.
  abbrev pub run_callback : Callback → Kernel × State → Outcome (Kernel × State)
  run_callback call_scheduler_timer (k, s) =
      scheduler_timer k.procs >>= λ procs'. ok (record k { procs = procs' }, s)
  run_callback call_tty_refresh (k, s) =
      tty_refresh hw k.ttys k.vga s >>= λ r. ok (record k { ttys = r.0; vga = r.1 }, r.2)
  run_callback call_test_spinner (k, s) = test call_test_spinner k s
  run_callback call_test_timer (k, s) = test call_test_timer k s
  run_callback call_test_proc_list (k, s) = test call_test_proc_list k s

  -- `timer_irq_handler`; the callbacks see the ticks with the one counted.
  abbrev pub handle_timer : Kernel → State → Outcome (Kernel × State)
  handle_timer k s =
      timer_irq_handler run_callback k.timers_of
        (record k { timers_of = record k.timers_of { ticks = inc k.timers_of.ticks } }, s)
      >>= λ r. ok (record r.1.0 { timers_of = r.0 }, r.1.1)

  -- What a key does besides, and the character for the terminal.
  abbrev pub act : Action → Kernel → Outcome (ℕ × Kernel)
  act key_null k = ok (0, k)
  act (key c) k = ok (c, k)
  act (select_tty n) k = tty_select n k.ttys >>= λ t. ok (0, record k { ttys = t })
  act raise_log_level k = ok (0, (kernel_set_log_level (inc (kernel_get_log_level k)) k).1)
  act lower_log_level k = ok (0, (kernel_set_log_level (dec (kernel_get_log_level k)) k).1)
  act create_test k =
      kproc_create m (timer_get_ticks k.timers_of) kproc_test (some (codes "test")) user k.procs
      >>= λ r. ok (0, record k { procs = r.1 })
  act destroy_active k =
      kproc_destroy k.procs.active_proc k.procs >>= λ r. ok (0, record k { procs = r.1 })
  act break_here k = breakpoint k >>= λ k'. ok (0, k')

  -- The character goes to `tty_input` as a `char`.
  unfoldable pub keyboard_irq_handler : Kernel → State → Outcome (Kernel × State)
  keyboard_irq_handler k s =
      keyboard_poll (inportb kbd_port_stat s) (inportb kbd_port_data s) k.keyboard >>= λ r.
      act r.1 (record k { keyboard = r.0 }) >>= λ e.
      ok (if e.0 == 0 then e.1 else record e.1 { ttys = tty_input (e.0 % 256) e.1.ttys }, s)

  abbrev pub handle_syscall : Kernel → State → Outcome (Kernel × State)
  handle_syscall k s = ksyscall_irq_handler m k >>= λ k'. ok (k', s)

  -- The table with the handlers of the three interrupts.
  unfoldable pub irq_handlers : Handlers Kernel State
  irq_handlers =
      update
        (update (update no_handlers irq_timer (some handle_timer)) irq_keyboard
          (some keyboard_irq_handler))
        irq_syscall (some handle_syscall)
