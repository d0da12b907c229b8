-- ===== src/Kernel/Boot/Runs.antt =====
-- The system that `main` of src/main.c leaves to the interrupts, over any number of them.
use phase1_myunivos.Base.{
  All, Arg, Bool, List, Outcome, [], arith, false, if◌then◌else◌, length, none, not, ok, refl, some,
  true, wrap, ℕ, ◌+◌, ◌==◌, ◌>>=◌, ◌∷◌, ◌≡◌,
}
use phase1_myunivos.Base.Window.{next}
use phase1_myunivos.Interrupts.{Gates, Handlers, Ports, pic_irq_dismiss}
use phase1_myunivos.Kernel.{
  Callback, Kernel, call_scheduler_timer, call_test_proc_list, call_test_spinner, call_test_timer,
  call_tty_refresh,
}
use phase1_myunivos.Kernel.Boot.{boot}
use phase1_myunivos.Kernel.Boot.Starts.{HasPrograms, boot_starts}
use phase1_myunivos.Kernel.Enter.{kernel_context_enter}
use phase1_myunivos.Kernel.Handlers.{irq_handlers, irq_timer}
use phase1_myunivos.Kernel.Handlers.Tick.{IsDrained, IsQuiet, tick_continues}
use phase1_myunivos.Kernel.TestCallbacks.{test_callback, test_proc_list, test_spinner, test_timer}
use phase1_myunivos.Kproc.{Machine}
use phase1_myunivos.Process.{Procs, Trapframe, active}
use phase1_myunivos.Scheduler.Frames.{AllFramed, HasFrame}
use phase1_myunivos.Scheduler.Room.{scheduler_run-Timed}
use phase1_myunivos.Scheduler.Wake.Round.{Timed}
use phase1_myunivos.Timer.Tick.{IsSafe}
use phase1_myunivos.Tty.{tty_get_active}
use phase1_myunivos.Vga.{Vga}
use Prim.Native.String.{String}

-- Interrupts one after the other, each with the registers at it.
unfoldable pub enter_each :
    (hw : Ports)
    → Handlers Kernel hw.State
    → List Trapframe
    → Kernel
    → hw.State
    → Outcome (Kernel × hw.State)
enter_each hw handlers [] k s = ok (k, s)
enter_each hw handlers (tf ∷ tfs) k s =
    kernel_context_enter hw handlers tf k s >>= λ r. enter_each hw handlers tfs r.1 r.2

-- A process runs that is in the state ACTIVE, with a saved trapframe.
abbrev pub OnDuty : Procs → Type 0
OnDuty p = (e : ℕ) × (p.active_proc ≡ some e) × ((p.table e).state ≡ active) × HasFrame (p.table e)

-- What an interrupt of the timer relies on, and keeps.
pub record Going (k : Kernel) : Type 0 where
  pub timed : Timed k.procs
  pub framed : AllFramed k.procs
  pub safe : IsSafe k.timers_of
  pub drained : IsDrained k.ttys

abbrev pub IsTick : Trapframe → Type 0
IsTick tf = tf.interrupt ≡ irq_timer

module _ (hw : Ports) (m : Machine) (kproc_test : ℕ) (breakpoint : Kernel → Outcome Kernel)
    (test : Callback → Kernel → hw.State → Outcome (Kernel × hw.State)) where
  -- The system after the given number of ticks.
  record After (n : ℕ) (k : Kernel) (k1 : Kernel) : Type 0 where
    ticks : k1.timers_of.ticks ≡ wrap (k.timers_of.ticks + n)
    on_duty : OnDuty k1.procs
    going : Going k1

  tick_After :
      (tf : Trapframe) (k : Kernel) (s : hw.State)
      → IsQuiet hw test
      → IsTick tf
      → Going k
      → (tf1 : Trapframe) × (k1 : Kernel) × (s1 : hw.State) × (kernel_context_enter hw
            (irq_handlers hw m kproc_test breakpoint test)
            tf
            k
            s
          ≡ ok (tf1, k1, s1))
        × After 1 k k1
  tick_After tf k s quiet irq g =
      let (k1, s1, t, safe, st, go) =
        tick_continues hw m kproc_test breakpoint test tf k s quiet irq g.safe g.timed g.framed
          g.drained in
      let (e, p, tf1, run, chosen, f, a, now, r, all) = go in
      (
        tf1,
        record k1 { procs = p },
        pic_irq_dismiss hw 0 s1,
        run,
        record {
          ticks = t;
          on_duty = (e, a, now, (tf1, f));
          going = record {
            timed = scheduler_run-Timed k1.procs p chosen st.timed r;
            framed = all;
            safe = safe;
            drained = st.drained;
          };
        },
      )

  -- The invariant over a sequence of ticks.
  ticks_After :
      (tf : Trapframe) (tfs : List Trapframe) (k : Kernel) (s : hw.State)
      → IsQuiet hw test
      → All IsTick (tf ∷ tfs)
      → Going k
      → (k1 : Kernel) × (s1 : hw.State) × (enter_each hw
            (irq_handlers hw m kproc_test breakpoint test)
            (tf ∷ tfs)
            k
            s
          ≡ ok (k1, s1))
        × After (length (tf ∷ tfs)) k k1
  unfolding enter_each
  ticks_After tf [] k s quiet irqs g =
      let (tf1, k1, s1, e, a) = tick_After tf k s quiet irqs.0 g in (k1, s1, rw e refl, a)
  ticks_After tf (tf' ∷ tfs) k s quiet irqs g =
      let (tf1, k1, s1, e, a) = tick_After tf k s quiet irqs.0 g in
      let (k2, s2, e', a') = ticks_After tf' tfs k1 s1 quiet irqs.1 a.going in
      (
        k2,
        s2,
        rw e e',
        record { ticks = omega (arith, a.ticks, a'.ticks); on_duty = a'.on_duty; going = a'.going },
      )

  -- The same from `main` on, for any callbacks that only draw.
  boot_runs_quiet :
      (isr_entry_timer isr_entry_keyboard isr_entry_syscall : ℕ) (tf : Trapframe)
      (tfs : List Trapframe) (k : Kernel) (idt : Gates ℕ) (s : hw.State)
      → HasPrograms m
      → IsQuiet hw test
      → All IsTick (tf ∷ tfs)
      → k.procs.next_pid ≡ 0
      → k.procs.active_proc ≡ none
      → (k' : Kernel) × (handlers : Handlers Kernel hw.State) × (idt' : Gates ℕ) × (s' : hw.State)
        × (boot hw m kproc_test breakpoint test isr_entry_timer isr_entry_keyboard isr_entry_syscall
              k idt s
            ≡ ok (k', handlers, idt', s'))
        × ((k1 : Kernel) × (s1 : hw.State) × (enter_each hw handlers (tf ∷ tfs) k' s' ≡ ok (k1, s1))
            × (k1.timers_of.ticks ≡ wrap (length (tf ∷ tfs)))
            × OnDuty k1.procs)
  boot_runs_quiet isr_timer isr_keyboard isr_syscall tf tfs k idt s programs quiet irqs next
        none_runs =
      let (k', handlers, idt', s', e, st, h) =
        boot_starts hw m kproc_test breakpoint test isr_timer isr_keyboard isr_syscall k idt s
          programs next none_runs in
      let (k1, s1, run, a) =
        ticks_After tf tfs k' s' quiet irqs
          (record { timed = st.timed; framed = st.framed; safe = st.safe; drained = st.drained }) in
      (
        k',
        handlers,
        idt',
        s',
        e,
        (k1, s1, rw h run, omega (arith, a.ticks, st.no_ticks), a.on_duty),
      )

-- The callbacks of include/test.h only draw.
pub test_callback-IsQuiet :
    (hw : Ports) (snprintf : String → List Arg → List ℕ) → IsQuiet hw (test_callback hw snprintf)
unfolding test_callback test_spinner test_timer test_proc_list
test_callback-IsQuiet hw snprintf call_scheduler_timer k s = (k.vga, k.spin_count, s, refl)
test_callback-IsQuiet hw snprintf call_tty_refresh k s = (k.vga, k.spin_count, s, refl)
test_callback-IsQuiet hw snprintf call_test_spinner k s = (_, _, _, refl)
test_callback-IsQuiet hw snprintf call_test_timer k s = (_, k.spin_count, _, refl)
test_callback-IsQuiet hw snprintf call_test_proc_list k s =
    either (not (tty_get_active k.ttys == 0)) k s _ _
  where
    either :
        {S : Type 0} (b : Bool) (k : Kernel) (s : S) (v' : Vga) (s' : S)
        → (v : Vga) × (n : ℕ) × (s1 : S) × (◌≡◌ {A = Outcome (Kernel × S)}
            (ok (if b then (k, s) else (record k { vga = v' }, s')))
            (ok (record k { vga = v; spin_count = n }, s1)))
    either true k s v' s' = (k.vga, k.spin_count, s, refl)
    either false k s v' s' = (v', k.spin_count, s', refl)

-- When the programs of the first processes are not NULL, no process id was given out and no process
-- runs: `main` initialises every component without a panic, whatever the other variables hold. Any
-- number of interrupts of the timer after that, one or more, whatever the registers at each and
-- whatever text `snprintf` makes, are handled one after the other, with all the callbacks of the
-- kernel and of include/test.h: none of them panics, faults or loops for ever; the ticks are their
-- number, as a machine word; and the active process is one in the state ACTIVE with saved registers.
pub boot_runs :
    (hw : Ports) (m : Machine) (kproc_test : ℕ) (breakpoint : Kernel → Outcome Kernel)
    (snprintf : String → List Arg → List ℕ)
    (isr_entry_timer isr_entry_keyboard isr_entry_syscall : ℕ) (tf : Trapframe)
    (tfs : List Trapframe) (k : Kernel) (idt : Gates ℕ) (s : hw.State)
    → HasPrograms m
    → All IsTick (tf ∷ tfs)
    → k.procs.next_pid ≡ 0
    → k.procs.active_proc ≡ none
    → (k' : Kernel) × (handlers : Handlers Kernel hw.State) × (idt' : Gates ℕ) × (s' : hw.State)
      × (boot hw m kproc_test breakpoint
            (test_callback hw snprintf)
            isr_entry_timer
            isr_entry_keyboard
            isr_entry_syscall
            k
            idt
            s
          ≡ ok (k', handlers, idt', s'))
      × ((k1 : Kernel) × (s1 : hw.State) × (enter_each hw handlers (tf ∷ tfs) k' s' ≡ ok (k1, s1))
          × (k1.timers_of.ticks ≡ wrap (length (tf ∷ tfs)))
          × OnDuty k1.procs)
boot_runs hw m kproc_test breakpoint snprintf isr_timer isr_keyboard isr_syscall tf tfs k idt s
      programs irqs next none_runs =
    boot_runs_quiet hw m kproc_test breakpoint (test_callback hw snprintf) isr_timer isr_keyboard
      isr_syscall tf tfs k idt s programs (test_callback-IsQuiet hw snprintf) irqs next none_runs
