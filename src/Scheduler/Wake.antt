-- ===== src/Scheduler/Wake.antt =====
-- `scheduler_timer`: the tick counts the time of the active process and wakes processes.
pub mod Round
pub mod Sleeper
use phase1_myunivos.Scheduler.Wake.Round.{Timed, Timed-cong, round-Kept}
use phase1_myunivos.Base.{
  Bool-cases, Option, arith, inc, inl, inr, none, ok, refl, slt, some, suc, zero, ℕ, ◌+◌, ◌<◌, ◌∙◌,
  ◌≡◌, ◌≤◌,
}
use phase1_myunivos.Process.{Procs}
use phase1_myunivos.Scheduler.{count_time, loop_fuel, scheduler_timer, timer_loop}

-- The loop from the round `i` on, with fuel for the rounds up to 33.
loop-Timed :
    (f i : ℕ) (s : Procs)
    → i + f ≡ 33
    → i ≤ 32
    → Timed s
    → (s' : Procs) × (timer_loop f i s ≡ ok s')
      × Timed s'
      × (s'.active_proc ≡ s.active_proc)
      × (s'.runnable.size + s'.sleepers.size ≤ s.runnable.size + s.sleepers.size)
unfolding timer_loop
loop-Timed zero i s fuel le t = absurd (omega arith)
loop-Timed (suc f) i s fuel le t = elim (Bool-cases (slt i s.sleepers.size)) [
  | inr done ↦ (s, rw done refl, t, refl, omega arith)
  | inl more ↦
      let lt : i < s.sleepers.size = ground (arith, t.asleep.size_in) in
      let (s1, e, t1, a, n) = round-Kept s t (omega (arith, lt)) in
      let (s', e', t', a', n') =
        loop-Timed f (inc i) s1 (omega arith) (omega (arith, t.asleep.size_in, lt)) t1 in
      (s', rw (more, e) e', t', a' ∙ a, omega (arith, n, n'))
]

-- When the scheduler's invariant holds, the sleep queue is valid, and the run queue has room for all
-- that sleep and for one process more: `scheduler_timer` returns after at most 32 rounds, all this
-- holds again, the active process is the same, and the two queues together hold no more processes than before.
pub scheduler_timer_total :
    (s : Procs)
    → Timed s
    → (s' : Procs) × (scheduler_timer s ≡ ok s')
      × Timed s'
      × (s'.active_proc ≡ s.active_proc)
      × (s'.runnable.size + s'.sleepers.size ≤ s.runnable.size + s.sleepers.size)
unfolding scheduler_timer
scheduler_timer_total s t = counted s.active_proc
  where
    counted :
        (o : Option ℕ)
        → (s' : Procs) × (timer_loop loop_fuel 0 (count_time o s) ≡ ok s')
          × Timed s'
          × (s'.active_proc ≡ s.active_proc)
          × (s'.runnable.size + s'.sleepers.size ≤ s.runnable.size + s.sleepers.size)
    counted none = loop-Timed 33 0 s (omega arith) (omega arith) t
    counted (some p) = loop-Timed 33 0 (count_time (some p) s) (omega arith) (omega arith) (
        Timed-cong s (count_time (some p) s) refl refl (λ j. ground arith) t.asleep (omega arith) t)
