-- ===== src/Scheduler/Choice.antt =====
-- Which process `scheduler_run` chooses, and that it always chooses one.
use phase1_myunivos.Base.{
  ℕ, ◌<◌, ◌≡◌, ◌≢◌, refl, sym, ap, ◌∙◌, ==-eq_false, List, [], ◌∷◌, ◌++◌, Option, none, some, arith,
  ◌==◌, true, false, All, ok, ◌>>=◌, sle,
}
use phase1_myunivos.Queue.{Queue, queue_size}
use phase1_myunivos.Queue.Fifo.{IsValid, contents}
use phase1_myunivos.Queue.Steps.{queue_in_room, queue_out_cons, queue_out_empty}
use phase1_myunivos.Process.{Procs, active, idle, run_queue, set_proc, pid_to_proc}
use phase1_myunivos.Process.Lookup.{Found, SamePids, pid_to_proc-cong}
use phase1_myunivos.Scheduler.{
  scheduler_timeslice, scheduler_add, drop_inactive, check_slice, choose, activate, schedule,
  scheduler_run,
}

-- What the scheduler relies on: a valid run queue whose process ids, and that of the active
-- process, stand in the table, and the idle process, which has the id 0.
pub record Ready (s : Procs) : Type 0 where
  pub valid : IsValid s.runnable
  pub queued : All (Found s) (contents s.runnable)
  pub idle_task : Found s 0
  pub running : (p : ℕ) → s.active_proc ≡ some p → Found s (s.table p).pid

-- `scheduler_add` of a process with room in the queue: it stands last, is idle and has its time
-- slice anew; nothing else changes.
pub scheduler_add_room :
    (p : ℕ) (s : Procs)
    → IsValid s.runnable
    → s.runnable.size < queue_size
    → (s' : Procs) × (scheduler_add (some p) s ≡ ok s')
      × IsValid s'.runnable
      × (contents s'.runnable ≡ contents s.runnable ++ ((s.table p).pid ∷ []))
      × ((s'.table p).state ≡ idle)
      × ((s'.table p).cpu_time ≡ 0)
      × ((s'.table p).scheduler_queue ≡ some run_queue)
      × ((j : ℕ) → j ≢ p → s'.table j ≡ s.table j)
      × SamePids s s'
      × (s'.active_proc ≡ s.active_proc)
unfolding scheduler_add
scheduler_add_room p s v h =
    let (q, put, v', c, n) = queue_in_room s.runnable (s.table p).pid v h in
    let t : (p == p) ≡ true = ground arith in
    let s1 =
      set_proc p
        (record (s.table p) { scheduler_queue = some run_queue; state = idle; cpu_time = 0 }) s in
    (
      record s1 { runnable = q },
      rw put refl,
      v',
      c,
      rw t refl,
      rw t refl,
      rw t refl,
      (λ j ne. ground arith),
      (λ j. ground arith),
      refl,
    )

-- With nothing active, the oldest process id of the run queue is looked up and leaves the queue.
pub choose_head :
    (s : Procs) (x e : ℕ) (xs : List ℕ)
    → IsValid s.runnable
    → contents s.runnable ≡ x ∷ xs
    → pid_to_proc x s ≡ some e
    → (q : Queue) × (choose none s ≡ ok (e, record s { runnable = q; active_proc = some e }))
      × IsValid q
      × (contents q ≡ xs)
choose_head s x e xs v c f =
    let (q, out, v', c', n) = queue_out_cons s.runnable x xs v c in
    let f' : pid_to_proc x (record s { runnable = q }) ≡ some e =
      pid_to_proc-cong (record s { runnable = q }) s x (λ j. refl) ∙ f in
    (q, rw (out, f') refl, v', c')

-- With nothing active and an empty run queue, process 0 is looked up.
pub choose_idle :
    (s : Procs) (e : ℕ)
    → s.runnable.size ≡ 0
    → pid_to_proc 0 s ≡ some e
    → choose none s ≡ ok (e, record s { active_proc = some e })
choose_idle s e z f =
    let f' : pid_to_proc 0 (record s { runnable = s.runnable }) ≡ some e =
      pid_to_proc-cong (record s { runnable = s.runnable }) s 0 (λ j. refl) ∙ f in
    rw (queue_out_empty s.runnable z, f') refl

pub drop_kept :
    (a : Option ℕ) (p : ℕ) (s : Procs)
    → a ≡ some p
    → (s.table p).state ≡ active
    → drop_inactive a s ≡ s
drop_kept a p s e st = rw (e, st) refl

pub slice_left :
    (a : Option ℕ) (p : ℕ) (s : Procs)
    → a ≡ some p
    → sle scheduler_timeslice (s.table p).cpu_time ≡ false
    → check_slice a s ≡ ok s
slice_left a p s e c = rw (e, c) refl

pub choose_kept : (a : Option ℕ) (p : ℕ) (s : Procs) → a ≡ some p → choose a s ≡ ok (p, s)
choose_kept a p s e = rw e refl

-- While the active process is in the state ACTIVE and has run for less than its time slice,
-- `scheduler_run` changes nothing but writes that state again.
scheduler_run_keeps :
    (s : Procs) (p : ℕ)
    → s.active_proc ≡ some p
    → (s.table p).state ≡ active
    → sle scheduler_timeslice (s.table p).cpu_time ≡ false
    → scheduler_run s ≡ ok (set_proc p (record (s.table p) { state = active }) s)
unfolding scheduler_run schedule
scheduler_run_keeps s p a st c =
    ap schedule (drop_kept s.active_proc p s a st)
    ∙ ap (λ r. r >>= λ s'. choose s'.active_proc s' >>= λ r. ok (activate r))
        (slice_left s.active_proc p s a c)
    ∙ ap (λ r. r >>= λ r. ok (activate r)) (choose_kept s.active_proc p s a)

-- The end of a time slice, for a process other than the idle task: it goes to the end of the run
-- queue, and nothing is active.
pub slice_over :
    (s : Procs) (p : ℕ)
    → sle scheduler_timeslice (s.table p).cpu_time ≡ true
    → (s.table p).pid ≢ 0
    → IsValid s.runnable
    → s.runnable.size < queue_size
    → (s' : Procs) × (check_slice (some p) s ≡ ok s')
      × (s'.active_proc ≡ none)
      × IsValid s'.runnable
      × (contents s'.runnable ≡ contents s.runnable ++ ((s.table p).pid ∷ []))
      × ((s'.table p).state ≡ idle)
      × ((s'.table p).cpu_time ≡ 0)
      × SamePids s s'
slice_over s p c ne v h =
    let s1 = set_proc p (record (s.table p) { cpu_time = 0 }) s in
    let (s2, add, v', k, st, t, sq, other, same, a) = scheduler_add_room p s1 v h in
    let e : ((s.table p).pid == 0) ≡ false = ==-eq_false (s.table p).pid 0 ne in
    let u : (p == p) ≡ true = ground arith in
    let pid1 : (s1.table p).pid ≡ (s.table p).pid = rw u refl in
    (
      record s2 { active_proc = none },
      rw (c, e, add) refl,
      refl,
      v',
      k ∙ ap (λ x. contents s.runnable ++ (x ∷ [])) pid1,
      st,
      t,
      (λ j. ground (arith, same j)),
    )

pub schedule_none :
    (s s' : Procs) (r : ℕ × Procs)
    → check_slice s.active_proc s ≡ ok s'
    → choose s'.active_proc s' ≡ ok r
    → schedule s ≡ ok (activate r)
unfolding schedule
schedule_none s s' r c d =
    ap (λ r. r >>= λ s'. choose s'.active_proc s' >>= λ r. ok (activate r)) c
    ∙ ap (λ r. r >>= λ r. ok (activate r)) d

-- At the end of its time slice an ACTIVE process other than the idle task goes to the end of the
-- run queue, when this is valid and has room; the process that then stands first, if it stands in
-- the table, leaves the queue and becomes the active one, in the state ACTIVE, and the one that
-- ran, if it is another, is idle with its time slice anew.
pub scheduler_run_preempts :
    (s : Procs) (p x e : ℕ) (xs : List ℕ)
    → s.active_proc ≡ some p
    → (s.table p).state ≡ active
    → sle scheduler_timeslice (s.table p).cpu_time ≡ true
    → (s.table p).pid ≢ 0
    → IsValid s.runnable
    → s.runnable.size < queue_size
    → contents s.runnable ++ ((s.table p).pid ∷ []) ≡ x ∷ xs
    → pid_to_proc x s ≡ some e
    → (s' : Procs) × (scheduler_run s ≡ ok s')
      × (s'.active_proc ≡ some e)
      × ((s'.table e).state ≡ active)
      × IsValid s'.runnable
      × (contents s'.runnable ≡ xs)
      × (e ≢ p → ((s'.table p).state ≡ idle) × ((s'.table p).cpu_time ≡ 0))
unfolding scheduler_run
scheduler_run_preempts s p x e xs a st c ne v h k f =
    let (s1, over, none_active, v1, k1, st1, t1, same) = slice_over s p c ne v h in
    let f1 : pid_to_proc x s1 ≡ some e = sym (pid_to_proc-cong s s1 x same) ∙ f in
    let (q, head, v2, k2) = choose_head s1 x e xs v1 (k1 ∙ k) f1 in
    let s2 = record s1 { runnable = q; active_proc = some e } in
    let run =
      ap schedule (drop_kept s.active_proc p s a st)
      ∙ schedule_none s s1 (e, s2) (ap (λ o. check_slice o s) a ∙ over)
          (ap (λ o. choose o s1) none_active ∙ head) in
    let u : (e == e) ≡ true = ground arith in
    (activate (e, s2), run, refl, rw u refl, v2, k2, λ d. ground arith)

-- With no active process and an empty run queue, the process with the id 0, the idle task, if it
-- stands in the table, becomes the active one, in the state ACTIVE, and the run queue stays empty.
scheduler_run_idle :
    (s : Procs) (e : ℕ)
    → s.active_proc ≡ none
    → s.runnable.size ≡ 0
    → pid_to_proc 0 s ≡ some e
    → (s' : Procs) × (scheduler_run s ≡ ok s')
      × (s'.active_proc ≡ some e)
      × ((s'.table e).state ≡ active)
      × (s'.runnable.size ≡ 0)
unfolding scheduler_run
scheduler_run_idle s e a z f =
    let s2 = record s { active_proc = some e } in
    let run =
      ap schedule (ap (λ o. drop_inactive o s) a)
      ∙ schedule_none s s (e, s2) (ap (λ o. check_slice o s) a)
          (ap (λ o. choose o s) a ∙ choose_idle s e z f) in
    let u : (e == e) ≡ true = ground arith in (activate (e, s2), run, refl, rw u refl, z)
