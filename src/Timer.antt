-- ===== src/Timer.antt =====
-- src/timer.c: periodic callbacks. A callback is a value of the type `C`, and `call` runs it on the
-- rest of the system, a state of the type `S`; the callbacks of this system register no timers.
pub mod Tick
use phase1_myunivos.Base.{
  Option, Outcome, dec, divide_error, halt, if◌then◌else◌, inc, is_negative, minus_one, none, ok,
  or_keep, out_of_range, sign_bit, slt, some, suc, update, word_size, zero, ℕ, ◌%◌, ◌+◌, ◌-◌, ◌==◌,
  ◌>>=◌, ◌&&◌, ◌||◌,
}
use phase1_myunivos.Queue.{Queue, queue_in, queue_init, queue_out}

abbrev pub timers_max : ℕ
timers_max = 32

-- `timer_t`
pub record Timer (C : Type 0) : Type 0 where
  pub callback : Option C
  pub interval : ℕ
  pub repeat : ℕ

-- The variables of src/timer.c.
pub record Timers (C : Type 0) : Type 0 where
  pub ticks : ℕ
  pub timers : ℕ → Timer C
  pub timer_allocator : Queue

-- `memset(timer, 0, sizeof(timer_t))`
abbrev pub no_timer : {C : Type 0} → Timer C
no_timer = record { callback = none; interval = 0; repeat = 0 }

-- The loop of `timer_init` that fills the allocator, with the rounds left.
unfoldable pub fill_timers : ℕ → ℕ → Queue → Queue
fill_timers zero i q = q
fill_timers (suc n) i q = fill_timers n (i + 1) (or_keep (queue_in q i) q)

-- `timer_init`, but for the registration of the interrupt.
unfoldable pub timer_init : {C : Type 0} → Timers C
timer_init = record {
  ticks = 0;
  timers = λ i. no_timer;
  timer_allocator = fill_timers timers_max 0 queue_init;
}

module _ {C : Type 0} where
  abbrev pub set_timer : ℕ → Timer C → Timers C → Timers C
  set_timer id v s = record s { timers = update s.timers id v }

  abbrev pub register_in : C → ℕ → ℕ → Timers C → Option (ℕ × Queue) → ℕ × Timers C
  register_in f interval repeat s none = (minus_one, s)
  register_in f interval repeat s (some (id, q)) = (
    id,
    set_timer id (record { callback = some f; interval = interval; repeat = repeat })
        (record s { timer_allocator = q }),
  )

  unfoldable pub timer_callback_register : Option C → ℕ → ℕ → Timers C → ℕ × Timers C
  timer_callback_register none interval repeat s = (minus_one, s)
  timer_callback_register (some f) interval repeat s =
      register_in f interval repeat s (queue_out s.timer_allocator)

  abbrev pub give_back : Timers C → Option Queue → ℕ × Timers C
  give_back s none = (minus_one, s)
  give_back s (some q) = (0, record s { timer_allocator = q })

  unfoldable pub timer_callback_unregister : ℕ → Timers C → ℕ × Timers C
  timer_callback_unregister id s =
      if out_of_range id timers_max
      then (minus_one, s)
      else give_back (set_timer id no_timer s) (queue_in s.timer_allocator id)

  unfoldable pub timer_get_ticks : Timers C → ℕ
  timer_get_ticks s = s.ticks

  -- "Handle timer repeats"
  abbrev pub count_repeat : ℕ → Timers C → Timers C
  count_repeat i s =
      let n = (s.timers i).repeat in
      if slt 0 n
      then set_timer i (record (s.timers i) { repeat = dec n }) s
      else if n == 0
      then (timer_callback_unregister i s).1
      else s

-- The size of an `int`, by which the remainder of two `int`s is 0 or not.
abbrev pub magnitude : ℕ → ℕ
magnitude x = if is_negative x then word_size - x else x

module _ {C S : Type 0} (call : C → S → Outcome S) where
  -- "If we have a valid callback, check if it needs to be called": the remainder by an interval of
  -- 0 faults, and so does the one of the least `int` by -1, whose quotient is no `int`.
  abbrev pub run_timer : ℕ → Option C → Timers C → S → Outcome (Timers C × S)
  run_timer i none s w = ok (s, w)
  run_timer i (some f) s w =
      let every = (s.timers i).interval in
      if (every == 0) || ((every == minus_one) && (s.ticks == sign_bit))
      then halt divide_error
      else (if magnitude s.ticks % magnitude every == 0 then call f w else ok w) >>= λ w'.
          ok (count_repeat i s, w')

  -- The loop of `timer_irq_handler`, with the rounds left.
  unfoldable pub run_timers : ℕ → ℕ → Timers C → S → Outcome (Timers C × S)
  run_timers zero i s w = ok (s, w)
  run_timers (suc n) i s w =
      run_timer i (s.timers i).callback s w >>= λ r. run_timers n (i + 1) r.0 r.1

  unfoldable pub timer_irq_handler : Timers C → S → Outcome (Timers C × S)
  timer_irq_handler s w = run_timers timers_max 0 (record s { ticks = inc s.ticks }) w
