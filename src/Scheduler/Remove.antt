-- ===== src/Scheduler/Remove.antt =====
-- `scheduler_remove` on the state: the queue, the process and the active process afterwards.
use phase1_myunivos.Base.{
  update, ℕ, ◌≡◌, ◌≢◌, refl, ap, ◌∙◌, List, [], ◌∷◌, ◌++◌, none, some, arith, ◌==◌, true, NotIn, ok,
}
use phase1_myunivos.Queue.{Queue}
use phase1_myunivos.Queue.Fifo.{IsValid, contents}
use phase1_myunivos.Process.{QueueRef, run_queue, sleep_queue, Procs, get_queue}
use phase1_myunivos.Scheduler.{remove_loop, loop_fuel, forget, scheduler_remove}
use phase1_myunivos.Scheduler.Removal.{remove_loop_absent, remove_loop_last, remove_loop_middle}

-- What `scheduler_remove` of `p` from the queue `r` leaves, where `q` is what its loop leaves.
abbrev pub Removed : ℕ → QueueRef → Procs → Procs → Type 0
Removed p r s s' =
    IsValid (get_queue r s')
    × ((s'.table p).scheduler_queue ≡ none)
    × ((s'.table p).pid ≡ (s.table p).pid)
    × ((s'.table p).state ≡ (s.table p).state)
    × ((j : ℕ) → j ≢ p → s'.table j ≡ s.table j)
    × (s'.active_proc ≡ forget p s.active_proc)
    × (s'.allocator ≡ s.allocator)

remove_with :
    (p : ℕ) (r : QueueRef) (s : Procs) (q : Queue)
    → (s.table p).scheduler_queue ≡ some r
    → remove_loop loop_fuel (s.table p).pid 0 (get_queue r s) ≡ ok q
    → IsValid q
    → (s' : Procs) × (scheduler_remove (some p) s ≡ ok s') × (get_queue r s' ≡ q) × Removed p r s s'
unfolding scheduler_remove
remove_with p run_queue s q a e v =
    let s' = record s {
      runnable = q;
      table = update s.table p (record (s.table p) { scheduler_queue = none });
      active_proc = forget p s.active_proc;
    } in
    let t : (p == p) ≡ true = ground arith in
    (
      s',
      rw (a, e) refl,
      refl,
      (v, rw t refl, rw t refl, rw t refl, (λ j ne. ground arith), refl, refl),
    )
remove_with p sleep_queue s q a e v =
    let s' = record s {
      sleepers = q;
      table = update s.table p (record (s.table p) { scheduler_queue = none });
      active_proc = forget p s.active_proc;
    } in
    let t : (p == p) ≡ true = ground arith in
    (
      s',
      rw (a, e) refl,
      refl,
      (v, rw t refl, rw t refl, rw t refl, (λ j ne. ground arith), refl, refl),
    )

-- A process that its queue, a valid one, holds last, and only there: `scheduler_remove` takes it
-- out of the queue and keeps the order of the others; the process has no queue, other entries are
-- as before, and it is not the active process any more.
pub scheduler_remove_last :
    (p : ℕ) (r : QueueRef) (s : Procs) (before : List ℕ)
    → (s.table p).scheduler_queue ≡ some r
    → IsValid (get_queue r s)
    → contents (get_queue r s) ≡ before ++ ((s.table p).pid ∷ [])
    → NotIn (s.table p).pid before
    → (s' : Procs) × (scheduler_remove (some p) s ≡ ok s')
      × (contents (get_queue r s') ≡ before)
      × Removed p r s s'
scheduler_remove_last p r s before a v c ni =
    let (q, run, v', c') = remove_loop_last (s.table p).pid (get_queue r s) before v c ni in
    let (s', e, g, w) = remove_with p r s q a run v' in (s', e, ap contents g ∙ c', w)

-- A process that its queue, a valid one, holds with items behind it, and whose id stands nowhere
-- else in the queue but perhaps last: `scheduler_remove` takes it out, but the item that was last
-- in the queue now stands first, before the others in their order; the process has no queue and is
-- not the active one any more.
pub scheduler_remove_middle :
    (p z : ℕ) (r : QueueRef) (s : Procs) (before after : List ℕ)
    → (s.table p).scheduler_queue ≡ some r
    → IsValid (get_queue r s)
    → contents (get_queue r s) ≡ before ++ ((s.table p).pid ∷ (after ++ (z ∷ [])))
    → NotIn (s.table p).pid before
    → NotIn (s.table p).pid after
    → (s' : Procs) × (scheduler_remove (some p) s ≡ ok s')
      × (contents (get_queue r s') ≡ z ∷ (before ++ after))
      × Removed p r s s'
scheduler_remove_middle p z r s before after a v c ni nj =
    let (q, run, v', c') =
      remove_loop_middle (s.table p).pid z (get_queue r s) before after v c ni nj in
    let (s', e, g, w) = remove_with p r s q a run v' in (s', e, ap contents g ∙ c', w)

-- A process whose queue pointer names a valid queue that does not hold it, as that of the active
-- process does: `scheduler_remove` leaves the queue's items in their order, and the process has no
-- queue and is not the active one any more.
pub scheduler_remove_unqueued :
    (p : ℕ) (r : QueueRef) (s : Procs)
    → (s.table p).scheduler_queue ≡ some r
    → IsValid (get_queue r s)
    → NotIn (s.table p).pid (contents (get_queue r s))
    → (s' : Procs) × (scheduler_remove (some p) s ≡ ok s')
      × (contents (get_queue r s') ≡ contents (get_queue r s))
      × Removed p r s s'
scheduler_remove_unqueued p r s a v ni =
    let (q, run, v', c') = remove_loop_absent (s.table p).pid (get_queue r s) v ni in
    let (s', e, g, w) = remove_with p r s q a run v' in (s', e, ap contents g ∙ c', w)
