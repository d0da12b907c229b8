-- ===== src/Sem/Wait.antt =====
-- Waiting on and posting a semaphore of src/ksem.c.
use phase1_myunivos.Base.{
  ==-eq_false, List, NotIn, Option, Outcome, [], ap, arith, dec, false, halt, inc, none,
  null_pointer, ok, out_of_range, refl, slt, some, true, ℕ, ◌++◌, ◌+◌, ◌<◌, ◌==◌, ◌>>=◌, ◌∙◌, ◌∷◌,
  ◌≡◌, ◌≢◌,
}
use phase1_myunivos.Process.{Procs, QueueRef, absent, idle, proc_max, run_queue, sleep_queue}
use phase1_myunivos.Queue.{queue_is_empty, queue_size}
use phase1_myunivos.Queue.Fifo.{IsValid, contents}
use phase1_myunivos.Queue.Steps.{queue_out_cons}
use phase1_myunivos.Scheduler.{forget, remove_from, scheduler_remove}
use phase1_myunivos.Scheduler.Choice.{scheduler_add_room}
use phase1_myunivos.Scheduler.Remove.{scheduler_remove_unqueued}
use phase1_myunivos.Sem.{Sems, block, is_waiter, ksem_post, ksem_wait, sem_max, set_sem}

-- On an allocated semaphore on which nothing waits, with a count below 2 ^ 31 - 1: posting it and
-- then waiting on it gives back the semaphores, and neither call changes the processes; the post
-- returns the count one up, the wait the old count.
pub ksem_wait-ksem_post :
    (id : ℕ) (s : Sems) (procs : Procs)
    → id < sem_max
    → (s.semaphores id).allocated ≢ 0
    → (s.semaphores id).count < 2147483647
    → (s.semaphores id).wait_queue.size ≡ 0
    → (s' : Sems) × (s'' : Sems) × (ksem_post id s procs
        ≡ ok ((s.semaphores id).count + 1, s', procs))
      × (ksem_wait id s' procs ≡ ok ((s.semaphores id).count, s'', procs))
      × (s''.semaphores id ≡ s.semaphores id)
      × ((j : ℕ) → j ≢ id → s''.semaphores j ≡ s.semaphores j)
      × (s''.sem_queue ≡ s.sem_queue)
unfolding ksem_post ksem_wait queue_is_empty
ksem_wait-ksem_post id s procs b al c w =
    let v = s.semaphores id in
    let s' = set_sem id (record v { count = v.count + 1 }) s in
    let r : out_of_range id sem_max ≡ false = ground arith in
    let a : (v.allocated == 0) ≡ false = ==-eq_false v.allocated 0 al in
    let z : (v.wait_queue.size == 0) ≡ true = ground arith in
    let t : (id == id) ≡ true = ground arith in
    let n : inc v.count ≡ v.count + 1 = omega arith in
    let m : dec (v.count + 1) ≡ v.count = omega arith in
    let l : slt 0 (v.count + 1) ≡ true = ground arith in
    (
      s',
      set_sem id v s',
      rw (r, a, z, n, t) refl,
      rw (t, r, a, l, m) refl,
      rw t refl,
      (λ j ne. ground arith),
      refl,
    )

-- `scheduler_remove` of the active process leaves none active.
remove_from-active :
    (r : Option QueueRef) (p : ℕ) (s s' : Procs)
    → remove_from r p s ≡ ok s'
    → s'.active_proc ≡ s.active_proc
remove_from-active none p s s' e = ground arith
remove_from-active (some run_queue) p s s' e = ground arith
remove_from-active (some sleep_queue) p s s' e = ground arith

scheduler_remove-inactive :
    (p : ℕ) (s s' : Procs)
    → s.active_proc ≡ some p
    → scheduler_remove (some p) s ≡ ok s'
    → s'.active_proc ≡ none
unfolding scheduler_remove
scheduler_remove-inactive p s s' a e =
    from (remove_from (s.table p).scheduler_queue p s) (remove_from-active _ p s) e
  where
    from :
        (o : Outcome Procs)
        → ((t : Procs) → o ≡ ok t → t.active_proc ≡ s.active_proc)
        → (o >>= λ t. ok (record t { active_proc = forget p t.active_proc })) ≡ ok s'
        → s'.active_proc ≡ none
    from (ok t) same e = ground (arith, same t refl)
    from (halt x) same e = cc

blocked :
    (id p : ℕ) (s : Sems) (procs procs' : Procs)
    → procs.active_proc ≡ some p
    → scheduler_remove (some p) procs ≡ ok procs'
    → block id s procs ≡ halt null_pointer
blocked id p s procs procs' a e =
    let n = scheduler_remove-inactive p procs procs' a e in
    let e' : scheduler_remove procs.active_proc procs ≡ ok procs' =
      ap (λ o. scheduler_remove o procs) a ∙ e in
    rw (e', n) refl

-- An allocated semaphore whose count is not above 0 as an `int`, and a process that runs: its queue
-- pointer names the run queue, which is valid and does not hold it. Then `ksem_wait` does not
-- return: the call of `scheduler_remove` clears `active_proc`, through which the process is then
-- marked as waiting.
pub ksem_wait_faults :
    (id p : ℕ) (s : Sems) (procs : Procs)
    → id < sem_max
    → (s.semaphores id).allocated ≢ 0
    → slt 0 (s.semaphores id).count ≡ false
    → procs.active_proc ≡ some p
    → (procs.table p).scheduler_queue ≡ some run_queue
    → IsValid procs.runnable
    → NotIn (procs.table p).pid (contents procs.runnable)
    → ksem_wait id s procs ≡ halt null_pointer
unfolding ksem_wait
ksem_wait_faults id p s procs b al c a q v ni =
    let (procs', e, k, w) = scheduler_remove_unqueued p run_queue procs q v ni in
    let r : out_of_range id sem_max ≡ false = ground arith in
    let z : ((s.semaphores id).allocated == 0) ≡ false = ==-eq_false _ 0 al in
    rw (r, z, c) (blocked id p s procs procs' a e)

present :
    (x : ℕ) (procs : Procs)
    → x < proc_max
    → (procs.table x).state ≢ absent
    → is_waiter x procs ≡ true
present x procs h k = ground arith

-- A post on an allocated semaphore with a count below 2 ^ 31 - 1, for which a process waits, with a
-- valid run queue that has room: the process id that waited longest, a number below 20, is taken
-- from the wait queue and used as an index of the process table, and the process of that entry, in
-- any state but NONE and whatever its id is, is put at the end of the run queue, idle; the count is
-- as before.
pub ksem_post_releases :
    (id x : ℕ) (xs : List ℕ) (s : Sems) (procs : Procs)
    → id < sem_max
    → (s.semaphores id).allocated ≢ 0
    → (s.semaphores id).count < 2147483647
    → IsValid (s.semaphores id).wait_queue
    → contents (s.semaphores id).wait_queue ≡ x ∷ xs
    → x < proc_max
    → (procs.table x).state ≢ absent
    → IsValid procs.runnable
    → procs.runnable.size < queue_size
    → (s' : Sems) × (procs' : Procs) × (ksem_post id s procs
        ≡ ok ((s.semaphores id).count, s', procs'))
      × (contents (s'.semaphores id).wait_queue ≡ xs)
      × (contents procs'.runnable ≡ contents procs.runnable ++ ((procs.table x).pid ∷ []))
      × ((procs'.table x).state ≡ idle)
      × ((s'.semaphores id).count ≡ (s.semaphores id).count)
unfolding ksem_post queue_is_empty
ksem_post_releases id x xs s procs b al c v k xb st rv rr =
    let w = s.semaphores id in
    let (q, out, v', k', n) = queue_out_cons w.wait_queue x xs v k in
    let (procs', add, rv', rk, ri, rest, l1, l2, l3, l4) = scheduler_add_room x procs rv rr in
    let r : out_of_range id sem_max ≡ false = ground arith in
    let a : (w.allocated == 0) ≡ false = ==-eq_false _ 0 al in
    let z : (w.wait_queue.size == 0) ≡ false = ==-eq_false _ 0 (omega arith) in
    let t : (id == id) ≡ true = ground arith in
    let i : is_waiter x procs ≡ true = present x procs xb st in
    let m : dec (inc w.count) ≡ w.count = omega arith in
    let s1 = set_sem id (record w { count = inc w.count }) s in
    let s2 = set_sem id (record w { count = inc w.count; wait_queue = q }) s1 in
    (
      set_sem id (record w { wait_queue = q }) s2,
      procs',
      rw (t, r, a, z, out, i, add) (rw t (rw m refl)),
      rw t k',
      rk,
      ri,
      rw t refl,
    )
