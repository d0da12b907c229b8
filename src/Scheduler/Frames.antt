-- ===== src/Scheduler/Frames.antt =====
-- The scheduler of src/scheduler.c keeps the saved trapframes of the processes.
use phase1_myunivos.Base.{
  Bool-cases, Option, Outcome, arith, dec, deref, halt, inc, inl, inr, is_negative, none, ok, refl,
  sle, slt, some, some-inj, subst, suc, sym, zero, ℕ, ◌==◌, ◌>>=◌, ◌∙◌, ◌≡◌, ◌⊎◌,
}
use phase1_myunivos.Process.{
  Proc, Procs, Trapframe, idle, is_active, pid_to_proc, run_queue, set_proc,
}
use phase1_myunivos.Process.Lookup.{pid_to_proc-cong}
use phase1_myunivos.Queue.{Queue, queue_in, queue_out}
use phase1_myunivos.Scheduler.{
  activate, check_slice, choose, count_time, drop_inactive, loop_fuel, next_or_idle, put_runnable,
  schedule, scheduler_add, scheduler_run, scheduler_timer, scheduler_timeslice, timer_loop,
  timer_round, wake_or_wait,
}

none-ne-some : {e : ℕ} → none ≡ some e → ⊥
none-ne-some h = cc

-- The process ids and the trapframes are the same.
abbrev pub Same : Procs → Procs → Type 0
Same s s' =
    (j : ℕ)
    → ((s.table j).pid ≡ (s'.table j).pid) × ((s.table j).trapframe ≡ (s'.table j).trapframe)

Same-trans : (s s' s'' : Procs) → Same s s' → Same s' s'' → Same s s''
Same-trans s s' s'' h h' j = ((h j).0 ∙ (h' j).0, (h j).1 ∙ (h' j).1)

-- If the operation returns, all this and the active process is the same.
abbrev Keeps : Procs → Outcome Procs → Type 0
Keeps s (ok s') = Same s s' × (s'.active_proc ≡ s.active_proc)
Keeps s (halt h) = Unit {0}

Keeps-trans : (s s' : Procs) (r : Outcome Procs) → Keeps s (ok s') → Keeps s' r → Keeps s r
Keeps-trans s s' (ok s'') h h' = (Same-trans s s' s'' h.0 h'.0, h'.1 ∙ h.1)
Keeps-trans s s' (halt e) h h' = tt

add-Keeps : (p : ℕ) (s : Procs) → Keeps s (scheduler_add (some p) s)
unfolding scheduler_add
add-Keeps p s =
    let s1 =
      set_proc p
        (record (s.table p) { scheduler_queue = some run_queue; state = idle; cpu_time = 0 }) s in
    put (queue_in s.runnable (s.table p).pid) s1 ((λ j. ground arith), refl)
  where
    put : (o : Option Queue) (s1 : Procs) → Keeps s (ok s1) → Keeps s (put_runnable s1 o)
    put none s1 h = tt
    put (some q) s1 h = h

bind-Keeps :
    (s : Procs) (r : Outcome Procs) (f : Procs → Outcome Procs)
    → Keeps s r
    → ((s' : Procs) → Keeps s' (f s'))
    → Keeps s (r >>= f)
bind-Keeps s (ok s') f h g = Keeps-trans s s' (f s') h (g s')
bind-Keeps s (halt e) f h g = tt

wake-Keeps : (pid : ℕ) (o : Option ℕ) (s : Procs) → Keeps s (wake_or_wait pid o s)
wake-Keeps pid none s = ((λ j. (refl, refl)), refl)
wake-Keeps pid (some p) s =
    let s1 = set_proc p (record (s.table p) { sleep_time = dec (s.table p).sleep_time }) s in
    elim (Bool-cases (is_negative (s.table p).sleep_time)) [
      | inl n ↦ rw n (
          Keeps-trans s s1 (scheduler_add (some p) s1) ((λ j. ground arith), refl) (add-Keeps p s1))
      | inr n ↦ rw n ((λ j. ground arith), refl)
    ]

round-Keeps : (s : Procs) (o : Option (ℕ × Queue)) → Keeps s (timer_round s o)
round-Keeps s none = ((λ j. (refl, refl)), refl)
round-Keeps s (some (pid, q)) =
    let s1 = record s { sleepers = q } in
    Keeps-trans s s1 (wake_or_wait pid (pid_to_proc pid s1) s1) ((λ j. (refl, refl)), refl)
      (wake-Keeps pid (pid_to_proc pid s1) s1)

loop-Keeps : (f i : ℕ) (s : Procs) → Keeps s (timer_loop f i s)
unfolding timer_loop
loop-Keeps zero i s = tt
loop-Keeps (suc f) i s = elim (Bool-cases (slt i s.sleepers.size)) [
  | inl more ↦ rw more (
      bind-Keeps s (timer_round s (queue_out s.sleepers)) (timer_loop f (inc i))
        (round-Keeps s (queue_out s.sleepers)) (loop-Keeps f (inc i)))
  | inr done ↦ rw done ((λ j. (refl, refl)), refl)
]

timer-Keeps : (s : Procs) → Keeps s (scheduler_timer s)
unfolding scheduler_timer
timer-Keeps s = counted s.active_proc
  where
    counted : (o : Option ℕ) → Keeps s (timer_loop loop_fuel 0 (count_time o s))
    counted none = loop-Keeps loop_fuel 0 s
    counted (some p) =
        Keeps-trans s (count_time (some p) s) (timer_loop loop_fuel 0 (count_time (some p) s))
          ((λ j. ground arith), refl) (loop-Keeps loop_fuel 0 (count_time (some p) s))

-- If `check_slice` returns, all this, and the active process is the same or none.
abbrev Checks : Procs → Outcome Procs → Type 0
Checks s (ok s') = Same s s' × ((s'.active_proc ≡ s.active_proc) ⊎ (s'.active_proc ≡ none))
Checks s (halt h) = Unit {0}

check-Checks : (a : Option ℕ) (s : Procs) → Checks s (check_slice a s)
check-Checks none s = ((λ j. (refl, refl)), inl refl)
check-Checks (some p) s =
    let s1 = set_proc p (record (s.table p) { cpu_time = 0 }) s in
    elim (Bool-cases (sle scheduler_timeslice (s.table p).cpu_time)) [
      | inr left ↦ rw left ((λ j. (refl, refl)), inl refl)
      | inl over ↦ elim (Bool-cases ((s.table p).pid == 0)) [
        | inl z ↦ rw (over, z) ((λ j. ground arith), inr refl)
        | inr z ↦
            rw (over, z)
              (stopped (scheduler_add (some p) s1) (
                Keeps-trans s s1 (scheduler_add (some p) s1) ((λ j. ground arith), refl)
                  (add-Keeps p s1)))
      ]
    ]
  where
    stopped :
        (r : Outcome Procs)
        → Keeps s r
        → Checks s (r >>= λ s''. ok (record s'' { active_proc = none }))
    stopped (ok s'') h = (h.0, inr refl)
    stopped (halt e) h = tt

-- The process was active before, or is found under its id.
abbrev From : Procs → ℕ → Type 0
From s e = (s.active_proc ≡ some e) ⊎ ((x : ℕ) × (pid_to_proc x s ≡ some e))

abbrev Chooses : Procs → Outcome (ℕ × Procs) → Type 0
Chooses s (ok r) = Same s r.1 × (r.1.active_proc ≡ some r.0) × From s r.0
Chooses s (halt h) = Unit {0}

choose-Chooses : (a : Option ℕ) (s : Procs) → s.active_proc ≡ a → Chooses s (choose a s)
choose-Chooses (some p) s h = ((λ j. (refl, refl)), h, inl h)
choose-Chooses none s h =
    let next = next_or_idle s.runnable (queue_out s.runnable) in
    let s1 = record s { runnable = next.1 } in
    found (pid_to_proc next.0 s1) s1 next.0 refl (λ j. (refl, refl))
      (pid_to_proc-cong s s1 next.0 (λ j. refl))
  where
    found :
        (o : Option ℕ) (s1 : Procs) (x : ℕ)
        → pid_to_proc x s1 ≡ o
        → Same s s1
        → pid_to_proc x s ≡ pid_to_proc x s1
        → Chooses s (deref o >>= λ p. ok (p, record s1 { active_proc = some p }))
    found none s1 x e h same = tt
    found (some p) s1 x e h same = (h, refl, inr (x, same ∙ e))

-- If `scheduler_run` returns.
abbrev Runs : Procs → Outcome Procs → Type 0
Runs s (ok s') = Same s s' × ((e : ℕ) → s'.active_proc ≡ some e → From s e)
Runs s (halt h) = Unit {0}

schedule-Runs : (s : Procs) → Runs s (schedule s)
unfolding schedule
schedule-Runs s = checked (check_slice s.active_proc s) (check-Checks s.active_proc s)
  where
    before : (s1 : Procs) (e : ℕ) → Checks s (ok s1) → From s1 e → From s e
    before s1 e (same, inl a) (inl h) = inl (sym a ∙ h)
    before s1 e (same, inr a) (inl h) = absurd (none-ne-some (sym a ∙ h))
    before s1 e (same, a) (inr (x, h)) = inr (x, pid_to_proc-cong s s1 x (λ j. (same j).0) ∙ h)

    chosen :
        (s1 : Procs) (r : Outcome (ℕ × Procs))
        → Checks s (ok s1)
        → Chooses s1 r
        → Runs s (r >>= λ r. ok (activate r))
    chosen s1 (ok (p, s2)) c (same, a, from) = (
      Same-trans s s2 (activate (p, s2)) (Same-trans s s1 s2 c.0 same) (λ j. ground arith),
      λ e h. subst (From s) (some-inj (sym a ∙ h)) (before s1 p c from),
    )
    chosen s1 (halt h) c d = tt

    checked :
        (r : Outcome Procs)
        → Checks s r
        → Runs s (r >>= λ s'. choose s'.active_proc s' >>= λ r. ok (activate r))
    checked (ok s1) c =
        chosen s1 (choose s1.active_proc s1) c (choose-Chooses s1.active_proc s1 refl)
    checked (halt h) c = tt

run-Runs : (s : Procs) → Runs s (scheduler_run s)
unfolding scheduler_run
run-Runs s = dropped s.active_proc refl
  where
    dropped : (o : Option ℕ) → s.active_proc ≡ o → Runs s (schedule (drop_inactive o s))
    dropped none a = schedule-Runs s
    dropped (some p) a = elim (Bool-cases (is_active (s.table p).state)) [
      | inl t ↦ rw t (schedule-Runs s)
      | inr t ↦ rw t (
          without (schedule (record s { active_proc = none }))
            (schedule-Runs (record s { active_proc = none })))
    ]
      where
        without : (r : Outcome Procs) → Runs (record s { active_proc = none }) r → Runs s r
        without (ok s') h = (
          h.0,
          λ e a. elim (h.1 e a) [
            | inl n ↦ absurd (none-ne-some n)
            | inr (x, f) ↦
                inr (x, pid_to_proc-cong s (record s { active_proc = none }) x (λ j. refl) ∙ f)
          ],
        )
        without (halt e) h = tt

abbrev pub HasFrame : Proc → Type 0
HasFrame p = (tf : Trapframe) × (p.trapframe ≡ some tf)

-- Every process that is found under an id, and the active one, has a saved trapframe.
abbrev pub AllFramed : Procs → Type 0
AllFramed s = (x e : ℕ) → pid_to_proc x s ≡ some e → HasFrame (s.table e)

pub record HasFrames (s : Procs) : Type 0 where
  pub framed : AllFramed s
  pub active_framed : (e : ℕ) → s.active_proc ≡ some e → HasFrame (s.table e)

Same-HasFrame : (s s' : Procs) (e : ℕ) → Same s s' → HasFrame (s.table e) → HasFrame (s'.table e)
Same-HasFrame s s' e h (tf, f) = (tf, sym (h e).1 ∙ f)

Same-AllFramed : (s s' : Procs) → Same s s' → AllFramed s → AllFramed s'
Same-AllFramed s s' h all x e f =
    Same-HasFrame s s' e h (all x e (pid_to_proc-cong s s' x (λ j. (h j).0) ∙ f))

pub scheduler_timer-HasFrames :
    (s s' : Procs) → scheduler_timer s ≡ ok s' → HasFrames s → HasFrames s'
scheduler_timer-HasFrames s s' r h =
    let (same, a) = subst (Keeps s) r (timer-Keeps s) in
    record {
      framed = Same-AllFramed s s' same h.framed;
      active_framed = λ e now. Same-HasFrame s s' e same (h.active_framed e (sym a ∙ now));
    }

pub scheduler_run-HasFrames : (s s' : Procs) → scheduler_run s ≡ ok s' → HasFrames s → HasFrames s'
scheduler_run-HasFrames s s' r h =
    let (same, from) = subst (Runs s) r (run-Runs s) in
    record {
      framed = Same-AllFramed s s' same h.framed;
      active_framed = λ e now.
          Same-HasFrame s s' e same
            (elim (from e now) [ inl a ↦ h.active_framed e a | inr (x, f) ↦ h.framed x e f ]);
    }
