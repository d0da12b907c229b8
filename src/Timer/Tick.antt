-- ===== src/Timer/Tick.antt =====
-- The tick handler of src/timer.c.
use phase1_myunivos.Base.{
  Bool, Bool-cases, Option, Outcome, arith, dec, false, if◌then◌else◌, inc, inl, inr, minus_one,
  none, ok, out_of_range, refl, slt, some, suc, true, zero, ℕ, ◌%◌, ◌+◌, ◌==◌, ◌∙◌, ◌≡◌, ◌≢◌,
}
use phase1_myunivos.Queue.{Queue, queue_in, queue_out}
use phase1_myunivos.Timer.{
  Timer, Timers, count_repeat, give_back, magnitude, no_timer, register_in, run_timer, run_timers,
  set_timer, timer_callback_register, timer_callback_unregister, timer_init, timer_irq_handler,
  timers_max,
}

-- Not registered, or of another interval than 0 and -1.
abbrev pub IsSafeTimer : {C : Type 0} → Timer C → Type 0
IsSafeTimer {C} t = (f : C) → t.callback ≡ some f → (t.interval ≢ 0) × (t.interval ≢ minus_one)

-- No registered timer has the interval 0 or -1.
abbrev pub IsSafe : {C : Type 0} → Timers C → Type 0
IsSafe s = (i : ℕ) → IsSafeTimer (s.timers i)

module _ {C : Type 0} where
  either-IsSafeTimer :
      (b : Bool) (t u : Timer C) → IsSafeTimer t → IsSafeTimer u → IsSafeTimer (if b then t else u)
  either-IsSafeTimer true t u ht hu = ht
  either-IsSafeTimer false t u ht hu = hu

  set_timer-IsSafe :
      (i : ℕ) (t : Timer C) (s : Timers C) → IsSafeTimer t → IsSafe s → IsSafe (set_timer i t s)
  set_timer-IsSafe i t s ht h j = either-IsSafeTimer (i == j) t (s.timers j) ht (h j)

  give_back-IsSafe :
      (s : Timers C) (q : Option Queue)
      → IsSafe s
      → IsSafe (give_back s q).1 × ((give_back s q).1.ticks ≡ s.ticks)
  give_back-IsSafe s none h = (h, refl)
  give_back-IsSafe s (some q) h = (h, refl)

  timer_callback_unregister-IsSafe :
      (i : ℕ) (s : Timers C)
      → IsSafe s
      → IsSafe (timer_callback_unregister i s).1
        × ((timer_callback_unregister i s).1.ticks ≡ s.ticks)
  unfolding timer_callback_unregister
  timer_callback_unregister-IsSafe i s h = elim (Bool-cases (out_of_range i timers_max)) [
    | inl o ↦ rw o (h, refl)
    | inr o ↦ rw o (
        give_back-IsSafe (set_timer i no_timer s) (queue_in s.timer_allocator i)
          (set_timer-IsSafe i no_timer s (λ f e. cc) h))
  ]

  count_repeat-IsSafe :
      (i : ℕ) (s : Timers C)
      → IsSafe s
      → IsSafe (count_repeat i s) × ((count_repeat i s).ticks ≡ s.ticks)
  count_repeat-IsSafe i s h = elim (Bool-cases (slt 0 (s.timers i).repeat)) [
    | inl p ↦ rw p (
      set_timer-IsSafe i (record (s.timers i) { repeat = dec (s.timers i).repeat }) s (h i) h,
      refl,
    )
    | inr p ↦ elim (Bool-cases ((s.timers i).repeat == 0)) [
      | inl z ↦ rw (p, z) (timer_callback_unregister-IsSafe i s h)
      | inr z ↦ rw (p, z) (h, refl)
    ]
  ]

  -- Registering a callback with another interval than 0 and -1.
  pub timer_callback_register-IsSafe :
      (c : C) (interval repeat : ℕ) (s : Timers C)
      → interval ≢ 0
      → interval ≢ minus_one
      → IsSafe s
      → IsSafe (timer_callback_register (some c) interval repeat s).1
  unfolding timer_callback_register
  timer_callback_register-IsSafe c interval repeat s ne ne' h =
      registered (queue_out s.timer_allocator)
    where
      registered : (o : Option (ℕ × Queue)) → IsSafe (register_in c interval repeat s o).1
      registered none = h
      registered (some (id, q)) =
          set_timer-IsSafe id (record { callback = some c; interval = interval; repeat = repeat })
            (record s { timer_allocator = q }) (λ f e. (ne, ne')) h

  pub timer_init-IsSafe : IsSafe (timer_init {C = C})
  unfolding timer_init
  timer_init-IsSafe i f e = absurd (none-ne-some e)
    where
      none-ne-some : {f : C} → none ≡ some f → ⊥
      none-ne-some h = cc

module _ {C S : Type 0} (call : C → S → Outcome S) where
  -- Every callback returns, and keeps the property `P` of the rest of the system.
  abbrev pub Keeps : (S → Type 0) → Type 0
  Keeps P = (f : C) (w : S) → P w → (w' : S) × (call f w ≡ ok w') × P w'

  abbrev Returns : (S → Type 0) → Timers C → Outcome (Timers C × S) → Type 0
  Returns P s r =
      (s' : Timers C) × (w' : S) × (r ≡ ok (s', w')) × P w' × IsSafe s' × (s'.ticks ≡ s.ticks)

  module _ (P : S → Type 0) (keeps : Keeps P) where
    run_timer-Returns :
        (i : ℕ) (c : Option C) (s : Timers C) (w : S)
        → (s.timers i).callback ≡ c
        → IsSafe s
        → P w
        → Returns P s (run_timer call i c s w)
    run_timer-Returns i none s w e h p = (s, w, refl, p, h, refl)
    run_timer-Returns i (some f) s w e h p =
        let z : ((s.timers i).interval == 0) ≡ false = ground (arith, (h i f e).0) in
        let o : ((s.timers i).interval == minus_one) ≡ false = ground (arith, (h i f e).1) in
        let (w', r, p') = keeps f w p in
        let k = count_repeat-IsSafe i s h in
        elim (Bool-cases (magnitude s.ticks % magnitude (s.timers i).interval == 0)) [
          | inl hit ↦ (count_repeat i s, w', rw (z, o, hit, r) refl, p', k.0, k.1)
          | inr miss ↦ (count_repeat i s, w, rw (z, o, miss) refl, p, k.0, k.1)
        ]

    run_timers-Returns :
        (n i : ℕ) (s : Timers C) (w : S) → IsSafe s → P w → Returns P s (run_timers call n i s w)
    unfolding run_timers
    run_timers-Returns zero i s w h p = (s, w, refl, p, h, refl)
    run_timers-Returns (suc n) i s w h p =
        let (s', w', e, p', h', t) = run_timer-Returns i (s.timers i).callback s w refl h p in
        let (s'', w'', e', p'', h'', t') = run_timers-Returns n (i + 1) s' w' h' p' in
        (s'', w'', rw e e', p'', h'', t' ∙ t)

    -- When no registered timer has the interval 0 or -1, and every callback returns and keeps a property
    -- of the rest of the system: `timer_irq_handler` returns, it has counted one tick, and the property
    -- holds still.
    pub timer_irq_handler-Keeps :
        (s : Timers C) (w : S)
        → IsSafe s
        → P w
        → (s' : Timers C) × (w' : S) × (timer_irq_handler call s w ≡ ok (s', w'))
          × (s'.ticks ≡ inc s.ticks)
          × IsSafe s'
          × P w'
    unfolding timer_irq_handler
    timer_irq_handler-Keeps s w h p =
        let (s', w', e, p', h', t) =
          run_timers-Returns timers_max 0 (record s { ticks = inc s.ticks }) w h p in
        (s', w', e, t, h', p')

  -- When no registered timer has the interval 0 or -1 and every callback returns,
  -- `timer_irq_handler` returns: no division faults, it has counted one tick, and still no registered
  -- timer has the interval 0 or -1.
  timer_irq_handler_total :
      ((f : C) (w : S) → (w' : S) × (call f w ≡ ok w'))
      → (s : Timers C) (w : S) → IsSafe s
      → (s' : Timers C) × (w' : S) × (timer_irq_handler call s w ≡ ok (s', w'))
        × (s'.ticks ≡ inc s.ticks)
        × IsSafe s'
  timer_irq_handler_total total s w h =
      let (s', w', e, t, h', p) =
        timer_irq_handler-Keeps (λ w. Unit) (λ f w p. ((total f w).0, (total f w).1, tt)) s w h
          tt in
      (s', w', e, t, h')
