-- ===== src/Scheduler/Room.antt =====
-- `scheduler_run` of src/scheduler.c: how many processes it leaves in the queues.
use phase1_myunivos.Base.{
  Bool-cases, Option, Outcome, ap, arith, dec, deref, halt, inc, inl, inr, none, ok, refl, sle,
  some, subst, ℕ, ◌-◌, ◌==◌, ◌>>=◌, ◌∙◌, ◌≡◌, ◌≢◌, ◌≤◌, ◌⊎◌,
}
use phase1_myunivos.Process.{Procs, idle, is_active, pid_to_proc, run_queue, set_proc}
use phase1_myunivos.Queue.{Queue, queue_in, queue_out}
use phase1_myunivos.Scheduler.{
  activate, check_slice, choose, drop_inactive, next_or_idle, put_runnable, schedule, scheduler_add,
  scheduler_run, scheduler_timeslice,
}
use phase1_myunivos.Scheduler.Choice.{Ready}
use phase1_myunivos.Scheduler.Wake.Round.{Timed}

-- If `check_slice` returns: the sleep queue is the same, and the run queue, unless the active process
-- went back to it and none is active now.
abbrev Slice : Procs → Outcome Procs → Type 0
Slice s (ok s') =
    (s'.sleepers ≡ s.sleepers)
    × ((s'.runnable.size ≡ s.runnable.size)
        ⊎ ((s'.active_proc ≡ none) × (s'.runnable.size ≡ inc s.runnable.size)))
Slice s (halt h) = Unit {0}

queue_in-size : (q : Queue) (x : ℕ) (q' : Queue) → queue_in q x ≡ some q' → q'.size ≡ inc q.size
unfolding queue_in
queue_in-size q x q' e = ground arith

queue_out-size :
    (q : Queue) (x : ℕ) (q' : Queue)
    → queue_out q ≡ some (x, q')
    → (q'.size ≡ dec q.size) × (q.size ≢ 0)
unfolding queue_out
queue_out-size q x q' e = ground arith

no_item_left : (q : Queue) → queue_out q ≡ none → q.size ≡ 0
unfolding queue_out
no_item_left q e = ground arith

add-Slice :
    (p : ℕ) (s : Procs)
    → Slice s (scheduler_add (some p) s >>= λ s'. ok (record s' { active_proc = none }))
unfolding scheduler_add
add-Slice p s = put (queue_in s.runnable (s.table p).pid) refl
  where
    s1 : Procs
    s1 =
        set_proc p
          (record (s.table p) { scheduler_queue = some run_queue; state = idle; cpu_time = 0 }) s

    put :
        (o : Option Queue)
        → queue_in s.runnable (s.table p).pid ≡ o
        → Slice s (put_runnable s1 o >>= λ s'. ok (record s' { active_proc = none }))
    put none e = tt
    put (some q) e = (refl, inr (refl, queue_in-size s.runnable (s.table p).pid q e))

check-Slice : (a : Option ℕ) (s : Procs) → Slice s (check_slice a s)
check-Slice none s = (refl, inl refl)
check-Slice (some p) s =
    let s1 = set_proc p (record (s.table p) { cpu_time = 0 }) s in
    elim (Bool-cases (sle scheduler_timeslice (s.table p).cpu_time)) [
      | inr left ↦ rw left (refl, inl refl)
      | inl over ↦ elim (Bool-cases ((s.table p).pid == 0)) [
        | inl z ↦ rw (over, z) (refl, inl refl)
        | inr z ↦ rw (over, z) (add-Slice p s1)
      ]
    ]

-- If `choose` returns.
abbrev Takes : Option ℕ → Procs → Outcome (ℕ × Procs) → Type 0
Takes a s (ok r) =
    (r.1.sleepers ≡ s.sleepers)
    × (r.1.runnable.size ≤ s.runnable.size)
    × (a ≡ none → r.1.runnable.size ≤ s.runnable.size - 1)
Takes a s (halt h) = Unit {0}

choose-Takes : (a : Option ℕ) (s : Procs) → s.runnable.size ≤ 33 → Takes a s (choose a s)
choose-Takes (some p) s le = (refl, omega arith, λ e. absurd (some-ne-none e))
  where
    some-ne-none : some p ≡ none → ⊥
    some-ne-none h = cc
choose-Takes none s le = taken (queue_out s.runnable) refl
  where
    found :
        (o : Option ℕ) (s1 : Procs)
        → s1.sleepers ≡ s.sleepers
        → s1.runnable.size ≤ s.runnable.size - 1
        → Takes none s (deref o >>= λ p. ok (p, record s1 { active_proc = some p }))
    found none s1 e h = tt
    found (some p) s1 e h = (e, omega (arith, h), λ n. h)

    taken :
        (o : Option (ℕ × Queue))
        → queue_out s.runnable ≡ o
        → Takes none s (
            let next = next_or_idle s.runnable o in
            let s' = record s { runnable = next.1 } in
            deref (pid_to_proc next.0 s') >>= λ p. ok (p, record s' { active_proc = some p }))
    taken none e = found (pid_to_proc 0 s) s refl (omega (arith, no_item_left s.runnable e))
    taken (some (x, q)) e =
        let (d, ne) = queue_out-size s.runnable x q e in
        let s1 = record s { runnable = q } in
        found (pid_to_proc x s1) s1 refl (omega (arith, d, ne, le))

-- If the schedule returns.
abbrev Leaves : Procs → Outcome Procs → Type 0
Leaves s (ok s') = (s'.sleepers ≡ s.sleepers) × (s'.runnable.size ≤ s.runnable.size)
Leaves s (halt h) = Unit {0}

schedule-Leaves : (s : Procs) → s.runnable.size ≤ 32 → Leaves s (schedule s)
unfolding schedule
schedule-Leaves s le = checked (check_slice s.active_proc s) (check-Slice s.active_proc s)
  where
    chosen :
        (s1 : Procs) (r : Outcome (ℕ × Procs))
        → Slice s (ok s1)
        → Takes s1.active_proc s1 r
        → Leaves s (r >>= λ r. ok (activate r))
    chosen s1 (halt h) c d = tt
    chosen s1 (ok (p, s2)) (e, inl same) (e', n, m) = (e' ∙ e, omega (arith, n, same))
    chosen s1 (ok (p, s2)) (e, inr (a, more)) (e', n, m) = (e' ∙ e, omega (arith, m a, more, le))

    checked :
        (r : Outcome Procs)
        → Slice s r
        → Leaves s (r >>= λ s'. choose s'.active_proc s' >>= λ r. ok (activate r))
    checked (ok s1) c =
        chosen s1 (choose s1.active_proc s1) c (choose-Takes s1.active_proc s1 (small c))
      where
        small : Slice s (ok s1) → s1.runnable.size ≤ 33
        small (e, inl same) = omega (arith, le)
        small (e, inr (a, more)) = omega (arith, le, more)
    checked (halt h) c = tt

run-Leaves : (s : Procs) → s.runnable.size ≤ 32 → Leaves s (scheduler_run s)
unfolding scheduler_run
run-Leaves s le = dropped s.active_proc
  where
    dropped : (o : Option ℕ) → Leaves s (schedule (drop_inactive o s))
    dropped none = schedule-Leaves s le
    dropped (some p) = elim (Bool-cases (is_active (s.table p).state)) [
      | inl t ↦ rw t (schedule-Leaves s le)
      | inr t ↦ rw t (schedule-Leaves (record s { active_proc = none }) le)
    ]

-- The scheduler's invariant with the room for all that sleep and one more is kept by a choice: a process goes back
-- to the run queue only before another one, or itself, is taken out.
pub scheduler_run-Timed : (s s' : Procs) → scheduler_run s ≡ ok s' → Timed s → Ready s' → Timed s'
scheduler_run-Timed s s' e t r =
    let (sleep, run) : Leaves s (ok s') =
      subst (Leaves s) e (run-Leaves s (omega (arith, t.room))) in
    record {
      ready = r;
      asleep = rw sleep t.asleep;
      room = omega (arith, t.room, run, ap (λ q. q.size) sleep);
    }
