-- ===== src/Mutex/Locking.antt =====
-- Locking and unlocking a mutex of src/kmutex.c.
use phase1_myunivos.Base.{
  ==-eq_false, List, NotIn, Option, [], ap, arith, dec, false, inc, minus_one, none, ok,
  out_of_range, refl, slt, some, sym, true, ℕ, ◌++◌, ◌+◌, ◌-◌, ◌<◌, ◌==◌, ◌∙◌, ◌∷◌, ◌≡◌, ◌≢◌,
}
use phase1_myunivos.Mutex.{
  Mutex, Mutexes, kmutex_lock, kmutex_unlock, mutex_max, same_proc, set_mutex, wait_for,
}
use phase1_myunivos.Process.{Procs, idle, pid_to_proc, run_queue, set_proc, waiting}
use phase1_myunivos.Queue.{queue_size}
use phase1_myunivos.Queue.Fifo.{IsValid, contents}
use phase1_myunivos.Queue.Steps.{queue_in_room, queue_out_cons}
use phase1_myunivos.Scheduler.{forget}
use phase1_myunivos.Scheduler.Choice.{scheduler_add_room}
use phase1_myunivos.Scheduler.Remove.{scheduler_remove_unqueued}

-- A mutex between two calls: it is free, with no owner and nothing waiting, or it has an owner and
-- counts one lock for it and one for each process that waits.
pub record IsConsistent (m : Mutex) : Type 0 where
  pub valid : IsValid m.wait_queue
  pub free : m.locks ≡ 0 → (m.owner ≡ none) × (m.wait_queue.size ≡ 0)
  pub held : m.locks ≢ 0 → (m.owner ≢ none) × (m.locks ≡ m.wait_queue.size + 1)

in_range : (id : ℕ) → id < mutex_max → out_of_range id mutex_max ≡ false
in_range id h = ground arith

-- Locking a consistent mutex that is free, by an active process: this process becomes the owner,
-- the call returns the lock count 1, no process and no other mutex changes, and the mutex is
-- consistent again.
pub kmutex_lock_free :
    (id p : ℕ) (s : Mutexes) (procs : Procs)
    → id < mutex_max
    → IsConsistent (s.mutexes id)
    → (s.mutexes id).locks ≡ 0
    → procs.active_proc ≡ some p
    → (s' : Mutexes) × (kmutex_lock id s procs ≡ ok (1, s', procs))
      × ((s'.mutexes id).owner ≡ some p)
      × ((s'.mutexes id).locks ≡ 1)
      × IsConsistent (s'.mutexes id)
      × ((j : ℕ) → j ≢ id → s'.mutexes j ≡ s.mutexes j)
unfolding kmutex_lock
kmutex_lock_free id p s procs b c z a =
    let m = s.mutexes id in
    let t : (id == id) ≡ true = ground arith in
    let s1 = set_mutex id (record m { owner = procs.active_proc }) s in
    let m' : Mutex = record m { owner = procs.active_proc; locks = 1 } in
    let l : slt 0 m.locks ≡ false = ground arith in
    let n : inc m.locks ≡ 1 = omega arith in
    let k : IsConsistent m' = record {
      valid = c.valid;
      free = λ e. absurd (omega arith);
      held = λ e. ((λ o. some-ne-none (sym a ∙ o)), omega (arith, (c.free z).1));
    } in
    (
      set_mutex id m' s1,
      rw (in_range id b, l, t, n) refl,
      rw t a,
      rw t refl,
      rw t k,
      λ j ne. ground arith,
    )
  where
    some-ne-none : some p ≡ none → ⊥
    some-ne-none e = cc

locked : {m : Mutex} → IsConsistent m → m.locks ≢ 0 → slt 0 m.locks ≡ true
locked {m} c z = let h = (c.held z).1 in let k = c.valid.size_in in ground arith

self : (p : ℕ) → forget p (some p) ≡ none
self p = ground arith

-- Locking a consistent mutex that is held, its owner's own call included, with room in its wait
-- queue: the active process, whose queue pointer names the run queue, which is valid and does not
-- hold it, goes to the end of the wait queue, is WAITING and not active any more; the owner stays,
-- the lock count goes up by one and is returned, the run queue keeps its order, and the mutex is
-- consistent again.
pub kmutex_lock_waits :
    (id p : ℕ) (s : Mutexes) (procs : Procs)
    → id < mutex_max
    → IsConsistent (s.mutexes id)
    → (s.mutexes id).locks ≢ 0
    → (s.mutexes id).wait_queue.size < queue_size
    → procs.active_proc ≡ some p
    → (procs.table p).scheduler_queue ≡ some run_queue
    → IsValid procs.runnable
    → NotIn (procs.table p).pid (contents procs.runnable)
    → (s' : Mutexes) × (procs' : Procs) × (kmutex_lock id s procs
        ≡ ok ((s.mutexes id).locks + 1, s', procs'))
      × (contents (s'.mutexes id).wait_queue
          ≡ contents (s.mutexes id).wait_queue ++ ((procs.table p).pid ∷ []))
      × ((s'.mutexes id).owner ≡ (s.mutexes id).owner)
      × IsConsistent (s'.mutexes id)
      × ((procs'.table p).state ≡ waiting)
      × (procs'.active_proc ≡ none)
      × (contents procs'.runnable ≡ contents procs.runnable)
unfolding kmutex_lock
kmutex_lock_waits id p s procs b c z f a q v ni =
    let m = s.mutexes id in
    let (w, put, w-valid, wk, wn) = queue_in_room m.wait_queue (procs.table p).pid c.valid f in
    let t : (id == id) ≡ true = ground arith in
    let u : (p == p) ≡ true = ground arith in
    let procs1 = set_proc p (record (procs.table p) { state = waiting }) procs in
    let q1 : (procs1.table p).scheduler_queue ≡ some run_queue = rw u q in
    let ni1 : NotIn (procs1.table p).pid (contents procs1.runnable) = rw u ni in
    let (procs', e, k, d) = scheduler_remove_unqueued p run_queue procs1 q1 v ni1 in
    let l : slt 0 m.locks ≡ true = locked c z in
    let n : inc m.locks ≡ m.locks + 1 = omega (arith, (c.held z).1) in
    let m' : Mutex = record m { locks = m.locks + 1; wait_queue = w } in
    let c' : IsConsistent m' = record {
      valid = w-valid;
      free = λ x. absurd (omega arith);
      held = λ x. ((c.held z).0, omega (arith, wn, (c.held z).1));
    } in
    let s1 = set_mutex id (record m { wait_queue = w }) s in
    let one : wait_for id (some p) s procs ≡ ok (s1, procs') = rw (put, e) refl in
    let waits : wait_for id procs.active_proc s procs ≡ ok (s1, procs') =
      ap (λ o. wait_for id o s procs) a ∙ one in
    (
      set_mutex id m' s1,
      procs',
      rw (in_range id b, l, waits) (rw t (rw n refl)),
      rw t wk,
      rw t refl,
      rw t c',
      d.3 ∙ rw u refl,
      d.5 ∙ ap (forget p) a ∙ self p,
      k,
    )

same_self : (o : Option ℕ) → o ≢ none → same_proc o o ≡ true
same_self none h = absurd (h refl)
same_self (some p) h = ground arith

-- Unlocking a consistent mutex that is locked once by its owner, the active process: it is free
-- again, consistent, with lock count 0 and no owner, and the other mutexes are as before.
pub kmutex_unlock_last :
    (id : ℕ) (s : Mutexes) (procs : Procs)
    → id < mutex_max
    → IsConsistent (s.mutexes id)
    → (s.mutexes id).locks ≡ 1
    → (s.mutexes id).owner ≡ procs.active_proc
    → (s' : Mutexes) × (kmutex_unlock id s procs ≡ ok (0, s', procs))
      × ((s'.mutexes id).owner ≡ none)
      × ((s'.mutexes id).locks ≡ 0)
      × IsConsistent (s'.mutexes id)
      × ((j : ℕ) → j ≢ id → s'.mutexes j ≡ s.mutexes j)
unfolding kmutex_unlock
kmutex_unlock_last id s procs b c l o =
    let m = s.mutexes id in
    let h = c.held (omega arith) in
    let t : (id == id) ≡ true = ground arith in
    let z : (m.locks == 0) ≡ false = ground arith in
    let n : dec m.locks ≡ 0 = omega arith in
    let y : same_proc m.owner procs.active_proc ≡ true =
      ap (same_proc m.owner) (sym o) ∙ same_self m.owner h.0 in
    let m' : Mutex = record m { locks = 0; owner = none } in
    let c' : IsConsistent m' = record {
      valid = c.valid;
      free = λ e. (refl, omega (arith, h.1));
      held = λ e. absurd (omega arith);
    } in
    (
      set_mutex id m' s,
      rw (in_range id b, z, y, n) (rw t refl),
      rw t refl,
      rw t refl,
      rw t c',
      λ j ne. ground arith,
    )

-- Unlocking a consistent mutex by its owner, the active process, when processes wait, the first of
-- them stands in the table, and the run queue is valid and has room: the one that waited longest
-- leaves the wait queue, becomes the owner, and stands last in the run queue, idle; the lock count
-- goes down by one and is returned, and the mutex is consistent again.
pub kmutex_unlock_passes :
    (id x e : ℕ) (xs : List ℕ) (s : Mutexes) (procs : Procs)
    → id < mutex_max
    → IsConsistent (s.mutexes id)
    → contents (s.mutexes id).wait_queue ≡ x ∷ xs
    → (s.mutexes id).owner ≡ procs.active_proc
    → (s.mutexes id).locks ≢ 0
    → pid_to_proc x procs ≡ some e
    → IsValid procs.runnable
    → procs.runnable.size < queue_size
    → (s' : Mutexes) × (procs' : Procs) × (kmutex_unlock id s procs
        ≡ ok ((s.mutexes id).locks - 1, s', procs'))
      × ((s'.mutexes id).owner ≡ some e)
      × (contents (s'.mutexes id).wait_queue ≡ xs)
      × IsConsistent (s'.mutexes id)
      × (contents procs'.runnable ≡ contents procs.runnable ++ ((procs.table e).pid ∷ []))
      × ((procs'.table e).state ≡ idle)
unfolding kmutex_unlock
kmutex_unlock_passes id x e xs s procs b c k o l f rv rr =
    let m = s.mutexes id in
    let h = c.held l in
    let (w, out, w-valid, wk, wn) = queue_out_cons m.wait_queue x xs c.valid k in
    let (procs', add, rv', rk, ri, l0, l1, l2, l3, l4) = scheduler_add_room e procs rv rr in
    let t : (id == id) ≡ true = ground arith in
    let z : (m.locks == 0) ≡ false = ==-eq_false m.locks 0 l in
    let n : dec m.locks ≡ m.locks - 1 = omega (arith, h.1, c.valid.size_in) in
    let n0 : (m.locks - 1 == 0) ≡ false = ==-eq_false _ 0 (omega (arith, h.1, wn)) in
    let y : same_proc m.owner procs.active_proc ≡ true =
      ap (same_proc m.owner) (sym o) ∙ same_self m.owner h.0 in
    let m' : Mutex = record m { locks = m.locks - 1; owner = some e; wait_queue = w } in
    let c' : IsConsistent m' = record {
      valid = w-valid;
      free = λ q. absurd (omega (arith, h.1, wn));
      held = λ q. ((λ j. some-ne-none j), omega (arith, h.1, wn));
    } in
    let s1 = set_mutex id (record m { locks = m.locks - 1 }) s in
    let s2 = set_mutex id (record m { locks = m.locks - 1; wait_queue = w }) s1 in
    (
      set_mutex id m' s2,
      procs',
      rw (in_range id b, z, y, n, n0, out, f, add) (rw t refl),
      rw t refl,
      rw t wk,
      rw t c',
      rk,
      ri,
    )
  where
    some-ne-none : some e ≡ none → ⊥
    some-ne-none e = cc

-- Unlocking a mutex that is held by another process than the active one fails and changes nothing.
kmutex_unlock_refused :
    (id p : ℕ) (s : Mutexes) (procs : Procs)
    → id < mutex_max
    → (s.mutexes id).locks ≢ 0
    → procs.active_proc ≡ some p
    → (s.mutexes id).owner ≢ some p
    → kmutex_unlock id s procs ≡ ok (minus_one, s, procs)
unfolding kmutex_unlock
kmutex_unlock_refused id p s procs b l a o =
    let z : ((s.mutexes id).locks == 0) ≡ false = ==-eq_false _ 0 l in
    let y : same_proc (s.mutexes id).owner procs.active_proc ≡ false =
      ap (same_proc (s.mutexes id).owner) a ∙ other (s.mutexes id).owner o in
    rw (in_range id b, z, y) refl
  where
    other : (q : Option ℕ) → q ≢ some p → same_proc q (some p) ≡ false
    other none ne = refl
    other (some q) ne = ==-eq_false q p (λ e. ne (ap some e))
