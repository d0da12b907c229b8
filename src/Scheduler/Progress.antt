-- ===== src/Scheduler/Progress.antt =====
-- `scheduler_run` always finds a process to run.
use phase1_myunivos.Queue.Fifo.{length-contents, contents, IsValid}
use mathlib.Core.Path.{subst}
use phase1_myunivos.Base.{
  All-append, Option-cases, true, ◌==◌, sle, Bool-cases, refl, [], ◌∷◌, some-inj, ◌∷◌, All-map, inr,
  length, ap, ◌∙◌, sym, List, ok, inl, some, All, none, ℕ, ◌<◌, ◌≡◌, arith,
}
use phase1_myunivos.Process.{is_active, pid_to_proc, Procs, active, idle, set_proc}
use phase1_myunivos.Process.Lookup.{Found, SamePids, Found-cong, pid_to_proc_lem}
use phase1_myunivos.Scheduler.{
  drop_inactive, scheduler_timeslice, schedule, queue_size, check_slice, activate, choose,
  scheduler_run,
}
use phase1_myunivos.Scheduler.Choice.{
  slice_over, choose_kept, slice_left, schedule_none, choose_head, choose_idle, Ready,
}

none-ne-some : (e : ℕ) → none ≡ some e → ⊥
none-ne-some e h = cc

-- What is found under a process id has that id, so it is found under its own.
pub Found_entry : (s : Procs) (x e : ℕ) → pid_to_proc x s ≡ some e → Found s (s.table e).pid
Found_entry s x e f = elim (pid_to_proc_lem x s) [
  | inl w ↦
      let d : w.0 ≡ e = some-inj (sym w.1 ∙ f) in
      let g : (s.table e).pid ≡ x = ap (λ i. (s.table i).pid) (sym d) ∙ w.3 in rw g (e, f)
  | inr w ↦ absurd (none-ne-some e (sym w.0 ∙ f))
]

active_found :
    (s : Procs) (x e p : ℕ) → pid_to_proc x s ≡ some e → some e ≡ some p → Found s (s.table p).pid
active_found s x e p f a =
    let d : e ≡ p = some-inj a in subst (λ i. Found s (s.table i).pid) d (Found_entry s x e f)

-- What holds after a choice.
record Chosen (s : Procs) (e : ℕ) (s' : Procs) : Type 0 where
  chose : choose none s ≡ ok (e, s')
  now : s'.active_proc ≡ some e
  ready : Ready s'

choose_total :
    (s : Procs)
    → IsValid s.runnable
    → All (Found s) (contents s.runnable)
    → Found s 0
    → (e : ℕ) × (s' : Procs) × Chosen s e s'
choose_total s v q i = from (contents s.runnable) refl q
  where
    from :
        (l : List ℕ)
        → contents s.runnable ≡ l
        → All (Found s) l
        → (e : ℕ) × (s' : Procs) × Chosen s e s'
    from [] c h =
        let s' = record s { active_proc = some i.0 } in
        (
          i.0,
          s',
          record {
            chose = choose_idle s i.0 (sym (length-contents s.runnable) ∙ ap length c) i.1;
            now = refl;
            ready = record {
              valid = v;
              queued =
                  All-map (Found s) (Found s') (contents s.runnable) (Found-cong s s' (λ j. refl))
                    q;
              idle_task = Found-cong s s' (λ j. refl) 0 i;
              running =
                  λ p a. Found-cong s s' (λ j. refl) (s.table p).pid (active_found s 0 i.0 p i.1 a);
            };
          },
        )
    from (x ∷ xs) c h =
        let (e, f) = h.0 in
        let (q', d, v', c') = choose_head s x e xs v c f in
        let s' = record s { runnable = q'; active_proc = some e } in
        (
          e,
          s',
          record {
            chose = d;
            now = refl;
            ready = record {
              valid = v';
              queued = rw c' (All-map (Found s) (Found s') xs (Found-cong s s' (λ j. refl)) h.1);
              idle_task = Found-cong s s' (λ j. refl) 0 i;
              running =
                  λ p a. Found-cong s s' (λ j. refl) (s.table p).pid (active_found s x e p f a);
            };
          },
        )

-- The invariant depends on the run queue, the active process and the process ids alone.
pub Ready-cong :
    (s s' : Procs)
    → s'.runnable ≡ s.runnable
    → s'.active_proc ≡ s.active_proc
    → SamePids s s'
    → Ready s
    → Ready s'
Ready-cong s s' q a same r = record {
  valid = rw q r.valid;
  queued =
      All-map (Found s) (Found s') (contents s'.runnable) (Found-cong s s' same)
        (subst (λ q. All (Found s) (contents q)) (sym q) r.queued);
  idle_task = Found-cong s s' same 0 r.idle_task;
  running = λ p h.
      Found-cong s s' same (s'.table p).pid
        (subst (λ i. Found s i) (same p) (r.running p (sym a ∙ h)));
}

activate-pids : (e : ℕ) (s : Procs) → SamePids s (activate (e, s))
activate-pids e s j = ground arith

-- The run with a process chosen anew.
finish :
    (s s1 : Procs)
    → check_slice s.active_proc s ≡ ok s1
    → s1.active_proc ≡ none
    → IsValid s1.runnable
    → All (Found s1) (contents s1.runnable)
    → Found s1 0
    → (e : ℕ) × (s' : Procs) × (schedule s ≡ ok s')
      × (s'.active_proc ≡ some e)
      × ((s'.table e).state ≡ active)
      × Ready s'
finish s s1 c a v q i =
    let (e, s2, w) = choose_total s1 v q i in
    let t : (e == e) ≡ true = ground arith in
    (
      e,
      activate (e, s2),
      schedule_none s s1 (e, s2) c (ap (λ o. choose o s1) a ∙ w.chose),
      w.now,
      rw t refl,
      Ready-cong s2 (activate (e, s2)) refl refl (activate-pids e s2) w.ready,
    )

-- The idle task at the end of its time slice becomes idle, and stays out of the run queue.
slice_over_idle :
    (s : Procs) (p : ℕ)
    → sle scheduler_timeslice (s.table p).cpu_time ≡ true
    → ((s.table p).pid == 0) ≡ true
    → (s' : Procs) × (check_slice (some p) s ≡ ok s')
      × (s'.active_proc ≡ none)
      × (s'.runnable ≡ s.runnable)
      × SamePids s s'
slice_over_idle s p c z =
    let s1 = set_proc p (record (s.table p) { cpu_time = 0 }) s in
    let s2 = set_proc p (record (s1.table p) { state = idle }) s1 in
    (record s2 { active_proc = none }, rw (c, z) refl, refl, refl, λ j. ground arith)

dropped-Ready : (s : Procs) → Ready s → Ready (drop_inactive s.active_proc s)
dropped-Ready s r = elim (Option-cases s.active_proc) [
  | inl a ↦ subst (λ o. Ready (drop_inactive o s)) (sym a) r
  | inr (p, a) ↦ subst (λ o. Ready (drop_inactive o s)) (sym a) (kept p)
]
  where
    kept : (p : ℕ) → Ready (drop_inactive (some p) s)
    kept p = elim (Bool-cases (is_active (s.table p).state)) [
      | inl t ↦ rw t r
      | inr t ↦ rw t (record {
        valid = r.valid;
        queued =
            All-map (Found s) (Found (record s { active_proc = none })) (contents s.runnable)
              (Found-cong s (record s { active_proc = none }) (λ j. refl)) r.queued;
        idle_task = Found-cong s (record s { active_proc = none }) (λ j. refl) 0 r.idle_task;
        running = λ p h. absurd (none-ne-some p h);
      })
    ]

-- `schedule` with a process that is active.
schedule-some :
    (s : Procs) (p : ℕ)
    → s.active_proc ≡ some p
    → s.runnable.size < queue_size
    → Ready s
    → (e : ℕ) × (s' : Procs) × (schedule s ≡ ok s')
      × (s'.active_proc ≡ some e)
      × ((s'.table e).state ≡ active)
      × Ready s'
schedule-some s p a h r = elim (Bool-cases (sle scheduler_timeslice (s.table p).cpu_time)) [
  | inr c ↦
      let t : (p == p) ≡ true = ground arith in
      (
        p,
        activate (p, s),
        schedule_none s s (p, s) (slice_left s.active_proc p s a c)
            (choose_kept s.active_proc p s a),
        a,
        rw t refl,
        Ready-cong s (activate (p, s)) refl refl (activate-pids p s) r,
      )
  | inl c ↦ elim (Bool-cases ((s.table p).pid == 0)) [
    | inl z ↦
        let (s1, over, none_active, q, same) = slice_over_idle s p c z in
        finish s s1 (ap (λ o. check_slice o s) a ∙ over) none_active (rw q r.valid)
          (All-map (Found s) (Found s1) (contents s1.runnable) (Found-cong s s1 same)
            (subst (λ q. All (Found s) (contents q)) (sym q) r.queued))
          (Found-cong s s1 same 0 r.idle_task)
    | inr z ↦
        let (s1, over, none_active, v, k, st, t, same) =
          slice_over s p c (λ e. ground arith) r.valid h in
        finish s s1 (ap (λ o. check_slice o s) a ∙ over) none_active v
          (All-map (Found s) (Found s1) (contents s1.runnable) (Found-cong s s1 same) (
            subst (All (Found s)) (sym k) (
              All-append (Found s) (contents s.runnable) ((s.table p).pid ∷ []) r.queued
                (r.running p a, tt))))
          (Found-cong s s1 same 0 r.idle_task)
  ]
]

-- When the scheduler's invariant holds and the run queue has room for the process that may be
-- preempted, `scheduler_run` returns: it neither panics nor follows a null pointer, the active
-- process is one in the state ACTIVE, and the invariant holds again.
pub scheduler_run_total :
    (s : Procs)
    → Ready s
    → s.runnable.size < queue_size
    → (e : ℕ) × (s' : Procs) × (scheduler_run s ≡ ok s')
      × (s'.active_proc ≡ some e)
      × ((s'.table e).state ≡ active)
      × Ready s'
unfolding scheduler_run
scheduler_run_total s r h = from (drop_inactive s.active_proc s) (dropped-Ready s r) h'
  where
    h' : (drop_inactive s.active_proc s).runnable.size < queue_size
    h' = ground arith

    from :
        (t : Procs)
        → Ready t
        → t.runnable.size < queue_size
        → (e : ℕ) × (s' : Procs) × (schedule t ≡ ok s')
          × (s'.active_proc ≡ some e)
          × ((s'.table e).state ≡ active)
          × Ready s'
    from t r h = elim (Option-cases t.active_proc) [
      | inl a ↦ finish t t (ap (λ o. check_slice o t) a) a r.valid r.queued r.idle_task
      | inr (p, a) ↦ schedule-some t p a h r
    ]
