-- ===== src/Kernel/Handlers/Tick.antt =====
-- An interrupt of the timer, from `kernel_context_enter` to the process that goes on.
use phase1_myunivos.Base.{
  Bool-cases, Outcome, arith, if◌then◌else◌, inc, inl, inr, ltb, ok, refl, some, subst, suc, true,
  wrap, zero, ℕ, ◌*◌, ◌+◌, ◌-◌, ◌==◌, ◌∙◌, ◌≡◌,
}
use phase1_myunivos.Interrupts.{Ports, from_pic, pic_irq_dismiss}
use phase1_myunivos.Kernel.{
  Callback, Kernel, call_scheduler_timer, call_test_proc_list, call_test_spinner, call_test_timer,
  call_tty_refresh,
}
use phase1_myunivos.Kernel.Enter.{kernel_context_enter, save_trapframe}
use phase1_myunivos.Kernel.Enter.Returns.{
  GoesOn, kernel_context_enter_returns, save-HasFrames, save-Timed,
}
use phase1_myunivos.Kernel.Handlers.{handle_timer, irq_handlers, irq_timer, run_callback}
use phase1_myunivos.Kproc.{Machine}
use phase1_myunivos.Process.{Trapframe}
use phase1_myunivos.Scheduler.Frames.{AllFramed, HasFrames, scheduler_timer-HasFrames}
use phase1_myunivos.Scheduler.Wake.{scheduler_timer_total}
use phase1_myunivos.Scheduler.Wake.Round.{Timed}
use phase1_myunivos.Timer.Tick.{IsSafe, timer_irq_handler-Keeps}
use phase1_myunivos.Tty.{Tty, Ttys, set_tty}
use phase1_myunivos.Tty.Refresh.{column_of, draw, line_of, tty_refresh}
use phase1_myunivos.Tty.Refresh.Shows.{refresh_drained}
use phase1_myunivos.Vga.{Vga, vga_putc_at}

-- The active terminal has nothing to be drained, and shows its array from the first row on.
abbrev pub IsDrained : Ttys → Type 0
IsDrained s =
    (n : ℕ) × (s.active_tty ≡ some n)
    × ((s.tty_table n).tty_io_output.size ≡ 0)
    × ((s.tty_table n).pos_scroll ≡ 0)

-- What the callbacks rely on, and keep.
pub record Steady (k : Kernel) : Type 0 where
  pub timed : Timed k.procs
  pub drained : IsDrained k.ttys
  pub frames : HasFrames k.procs

module _ (hw : Ports) where
  draw_returns :
      (t : Tty) (n i x y : ℕ) (v : Vga) (w : hw.State)
      → t.pos_scroll ≡ 0
      → i + n ≡ 2000
      → (r : Vga × hw.State) × (draw hw n i x y t v w ≡ ok r)
  unfolding draw
  draw_returns t zero i x y v w top all = ((v, w), refl)
  draw_returns t (suc n) i x y v w top all =
      let j = wrap (t.pos_scroll * 80 + i) in
      let inside : ltb j 2000 ≡ true = ground arith in
      let p = vga_putc_at hw (column_of x) (line_of x y) t.color_bg t.color_fg (t.buf j) v w in
      let (r, e) =
        draw_returns t n (i + 1) (inc (column_of x)) (line_of x y) p.0 p.1 top (omega arith) in
      (r, rw inside e)

  tty_refresh_returns :
      (s : Ttys) (v : Vga) (w : hw.State)
      → IsDrained s
      → (s' : Ttys) × (v' : Vga) × (w' : hw.State) × (tty_refresh hw s v w ≡ ok (s', v', w'))
        × IsDrained s'
  tty_refresh_returns s v w (n, a, empty, top) =
      let t = s.tty_table n in
      let (r, e) = draw_returns t 2000 0 0 0 v w top (omega arith) in
      elim (Bool-cases (t.refresh == 0)) [
        | inl still ↦
            (s, v, w, refresh_drained hw s v w n a empty ∙ rw still refl, (n, a, empty, top))
        | inr asks ↦ (
          set_tty n (record t { refresh = 0 }) s,
          r.0,
          r.1,
          refresh_drained hw s v w n a empty ∙ rw (asks, e) refl,
          (n, a, ground arith, ground arith),
        )
      ]

-- The callbacks of include/test.h return, and change nothing but the screen, the count of the spinner
-- and the ports.
abbrev pub IsQuiet :
    (hw : Ports) → (Callback → Kernel → hw.State → Outcome (Kernel × hw.State)) → Type 0
IsQuiet hw test =
    (c : Callback) (k : Kernel) (s : hw.State)
    → (v : Vga) × (n : ℕ) × (s' : hw.State) × (test c k s
        ≡ ok (record k { vga = v; spin_count = n }, s'))

module _ (hw : Ports) (m : Machine) (kproc_test : ℕ) (breakpoint : Kernel → Outcome Kernel)
    (test : Callback → Kernel → hw.State → Outcome (Kernel × hw.State)) where
  abbrev KeepsSteady : Kernel → Outcome (Kernel × hw.State) → Type 0
  KeepsSteady k r = (w : Kernel × hw.State) × (r ≡ ok w) × Steady w.0

  test-Steady :
      IsQuiet hw test
      → (c : Callback) (k : Kernel) (s : hw.State) → Steady k
      → KeepsSteady k (test c k s)
  test-Steady quiet c k s st =
      let (v, n, s', e) = quiet c k s in
      (
        (record k { vga = v; spin_count = n }, s'),
        e,
        record { timed = st.timed; drained = st.drained; frames = st.frames },
      )

  callback-Steady :
      IsQuiet hw test
      → (c : Callback) (k : Kernel) (s : hw.State) → Steady k
      → KeepsSteady k (run_callback hw m kproc_test breakpoint test c (k, s))
  callback-Steady quiet call_scheduler_timer k s st =
      let (p, e, t, a, n) = scheduler_timer_total k.procs st.timed in
      (
        (record k { procs = p }, s),
        rw e refl,
        record {
          timed = t;
          drained = st.drained;
          frames = scheduler_timer-HasFrames k.procs p e st.frames;
        },
      )
  callback-Steady quiet call_tty_refresh k s st =
      let (t, v, w, e, d) = tty_refresh_returns hw k.ttys k.vga s st.drained in
      (
        (record k { ttys = t; vga = v }, w),
        rw e refl,
        record { timed = st.timed; drained = d; frames = st.frames },
      )
  callback-Steady quiet call_test_spinner k s st = test-Steady quiet call_test_spinner k s st
  callback-Steady quiet call_test_timer k s st = test-Steady quiet call_test_timer k s st
  callback-Steady quiet call_test_proc_list k s st = test-Steady quiet call_test_proc_list k s st

  handle_timer_returns :
      IsQuiet hw test
      → (k : Kernel) (s : hw.State) → IsSafe k.timers_of
      → Steady k
      → (k' : Kernel) × (s' : hw.State) × (handle_timer hw m kproc_test breakpoint test k s
          ≡ ok (k', s'))
        × (k'.timers_of.ticks ≡ inc k.timers_of.ticks)
        × IsSafe k'.timers_of
        × Steady k'
  handle_timer_returns quiet k s safe st =
      let k0 = record k { timers_of = record k.timers_of { ticks = inc k.timers_of.ticks } } in
      let (t', w, e, ticks, safe', st') =
        timer_irq_handler-Keeps (run_callback hw m kproc_test breakpoint test) (λ w. Steady w.0)
          (λ c w h. callback-Steady quiet c w.0 w.1 h) k.timers_of (k0, s) safe
          (record { timed = st.timed; drained = st.drained; frames = st.frames }) in
      (
        record w.0 { timers_of = t' },
        w.1,
        rw e refl,
        ticks,
        safe',
        record { timed = st'.timed; drained = st'.drained; frames = st'.frames },
      )

  -- An interrupt of the timer, with all that the next one relies on.
  pub tick_continues :
      (tf : Trapframe) (k : Kernel) (s : hw.State)
      → IsQuiet hw test
      → tf.interrupt ≡ irq_timer
      → IsSafe k.timers_of
      → Timed k.procs
      → AllFramed k.procs
      → IsDrained k.ttys
      → (k1 : Kernel) × (s1 : hw.State) × (k1.timers_of.ticks ≡ inc k.timers_of.ticks)
        × IsSafe k1.timers_of
        × Steady k1
        × GoesOn
            (kernel_context_enter hw (irq_handlers hw m kproc_test breakpoint test) tf k s)
            k1
            (pic_irq_dismiss hw 0 s1)
  unfolding irq_handlers
  tick_continues tf k s quiet irq safe timed framed drained =
      let k0 = record k { procs = save_trapframe k.procs.active_proc tf k.procs } in
      let (k1, s1, e, ticks, safe', st) = handle_timer_returns quiet k0 s safe (record {
        timed = save-Timed k.procs.active_proc tf k.procs timed;
        drained = drained;
        frames = save-HasFrames tf k.procs framed;
      }) in
      let go =
        kernel_context_enter_returns hw (irq_handlers hw m kproc_test breakpoint test)
          (handle_timer hw m kproc_test breakpoint test) tf k k1 s s1 (omega (arith, irq))
          (rw irq refl) e st.timed.ready st.frames (omega (arith, st.timed.room)) in
      (
        k1,
        s1,
        ticks,
        safe',
        st,
        subst
            (λ (i : ℕ).
              GoesOn (kernel_context_enter hw (irq_handlers hw m kproc_test breakpoint test) tf k s)
                k1 (if from_pic i then pic_irq_dismiss hw (i - 0x20) s1 else s1))
            irq go,
      )

  -- An interrupt of the timer, whatever was running. When the scheduler's invariant holds, the
  -- sleep queue is valid and the run queue has room for all that sleep and for one process more,
  -- every process that is found under its id has a saved trapframe, no registered timer has the
  -- interval 0 or -1, the active terminal has no output waiting and shows its array from the first
  -- row on, and the callbacks of include/test.h only draw: every callback returns, one tick is counted, the interrupt is
  -- dismissed, and the kernel goes on with the saved registers of a process in the state ACTIVE; the
  -- scheduler's invariant and the trapframes are kept.
  pub tick_returns :
      (tf : Trapframe) (k : Kernel) (s : hw.State)
      → IsQuiet hw test
      → tf.interrupt ≡ irq_timer
      → IsSafe k.timers_of
      → Timed k.procs
      → AllFramed k.procs
      → IsDrained k.ttys
      → (k1 : Kernel) × (s1 : hw.State) × (k1.timers_of.ticks ≡ inc k.timers_of.ticks)
        × GoesOn
            (kernel_context_enter hw (irq_handlers hw m kproc_test breakpoint test) tf k s)
            k1
            (pic_irq_dismiss hw 0 s1)
  tick_returns tf k s quiet irq safe timed framed drained =
      let (k1, s1, ticks, safe', st, go) =
        tick_continues tf k s quiet irq safe timed framed drained in
      (k1, s1, ticks, go)
