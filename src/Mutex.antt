-- ===== src/Mutex.antt =====
-- src/kmutex.c and include/kmutex.h: the kernel's mutexes, beside the scheduler's state.
pub mod Locking
pub mod Allocation
pub mod RoundTrip
use phase1_myunivos.Base.{
  ℕ, zero, suc, ◌+◌, Bool, true, false, Option, none, some, ◌==◌, if◌then◌else◌, update, inc, dec,
  slt, out_of_range, minus_one, or_keep, Outcome, ok, ◌>>=◌,
}
use phase1_myunivos.Queue.{Queue, queue_init, queue_in, queue_out, queue_is_empty}
use phase1_myunivos.Process.{Procs, waiting, set_proc, pid_to_proc}
use phase1_myunivos.Scheduler.{scheduler_add, scheduler_remove}

abbrev pub mutex_max : ℕ
mutex_max = 16

-- `mutex_t`; the owner is an entry of the process table.
pub record Mutex : Type 0 where
  pub allocated : ℕ
  pub locks : ℕ
  pub owner : Option ℕ
  pub wait_queue : Queue

-- The variables of src/kmutex.c.
pub record Mutexes : Type 0 where
  pub mutexes : ℕ → Mutex
  pub mutex_queue : Queue

abbrev pub set_mutex : ℕ → Mutex → Mutexes → Mutexes
set_mutex id v s = record s { mutexes = update s.mutexes id v }

-- `memset(mutex, 0, sizeof(mutex_t))`; the queue of all zeroes is what `queue_init` makes.
abbrev pub zero_mutex : Mutex
zero_mutex = record { allocated = 0; locks = 0; owner = none; wait_queue = queue_init }

-- The loop of `kmutexes_init`, with the rounds left.
unfoldable pub fill_mutexes : ℕ → ℕ → Queue → Queue
fill_mutexes zero i q = q
fill_mutexes (suc n) i q = fill_mutexes n (i + 1) (or_keep (queue_in q i) q)

unfoldable pub kmutexes_init : Mutexes
unfolding fill_mutexes
kmutexes_init = record {
  mutexes = λ i. zero_mutex;
  mutex_queue = fill_mutexes mutex_max 0 queue_init;
}

-- `kmutex_init` tests whether the queue is empty after it has taken an id out.
abbrev pub allocate : Mutexes → Option (ℕ × Queue) → ℕ × Mutexes
allocate s none = (minus_one, s)
allocate s (some (id, q)) =
    let s' = record s { mutex_queue = q } in
    if queue_is_empty q
    then (minus_one, s')
    else if out_of_range id mutex_max
    then (minus_one, s')
    else (id, set_mutex id (record zero_mutex { allocated = 1 }) s')

unfoldable pub kmutex_init : Mutexes → ℕ × Mutexes
kmutex_init s = allocate s (queue_out s.mutex_queue)

unfoldable pub kmutex_destroy : ℕ → Mutexes → ℕ × Mutexes
kmutex_destroy id s =
    if out_of_range id mutex_max
    then (minus_one, s)
    else if slt 0 (s.mutexes id).locks
    then (minus_one, s)
    else (
      0,
      set_mutex id zero_mutex
          (record s { mutex_queue = or_keep (queue_in s.mutex_queue id) s.mutex_queue }),
    )

-- The part of `kmutex_lock` for a mutex that is held: the active process, if any, waits. The result
-- of `queue_in` is ignored.
abbrev pub wait_for : ℕ → Option ℕ → Mutexes → Procs → Outcome (Mutexes × Procs)
wait_for id none s procs = ok (s, procs)
wait_for id (some p) s procs =
    let m = s.mutexes id in
    let s' =
      set_mutex id
        (record m { wait_queue = or_keep (queue_in m.wait_queue (procs.table p).pid) m.wait_queue })
        s in
    scheduler_remove (some p) (set_proc p (record (procs.table p) { state = waiting }) procs)
    >>= λ procs'. ok (s', procs')

abbrev pub count_lock : ℕ → Mutexes × Procs → ℕ × Mutexes × Procs
count_lock id (s, procs) =
    let n = inc (s.mutexes id).locks in
    (n, set_mutex id (record (s.mutexes id) { locks = n }) s, procs)

unfoldable pub kmutex_lock : ℕ → Mutexes → Procs → Outcome (ℕ × Mutexes × Procs)
kmutex_lock id s procs =
    let taken = set_mutex id (record (s.mutexes id) { owner = procs.active_proc }) s in
    if out_of_range id mutex_max
    then ok (minus_one, s, procs)
    else (if slt 0 (s.mutexes id).locks
        then wait_for id procs.active_proc s procs
        else ok (taken, procs))
      >>= λ r. ok (count_lock id r)

-- Two process pointers are the same.
abbrev pub same_proc : Option ℕ → Option ℕ → Bool
same_proc none none = true
same_proc none (some q) = false
same_proc (some p) none = false
same_proc (some p) (some q) = p == q

-- The process found for the one that was taken from the wait queue becomes the owner.
abbrev pub pass_to : ℕ → Option ℕ → Mutexes → Procs → Outcome (Mutexes × Procs)
pass_to id none s procs = ok (s, procs)
pass_to id (some p) s procs = scheduler_add (some p) procs >>= λ procs'.
    ok (set_mutex id (record (s.mutexes id) { owner = some p }) s, procs')

-- The part of `kmutex_unlock` for a mutex with locks left.
abbrev pub pass_on : ℕ → Mutexes → Procs → Option (ℕ × Queue) → Outcome (Mutexes × Procs)
pass_on id s procs none = ok (s, procs)
pass_on id s procs (some (pid, q)) =
    pass_to id (pid_to_proc pid procs) (set_mutex id (record (s.mutexes id) { wait_queue = q }) s)
      procs

unfoldable pub kmutex_unlock : ℕ → Mutexes → Procs → Outcome (ℕ × Mutexes × Procs)
kmutex_unlock id s procs =
    let m = s.mutexes id in
    let n = dec m.locks in
    let s' = set_mutex id (record m { locks = n }) s in
    let freed = set_mutex id (record m { locks = n; owner = none }) s in
    if out_of_range id mutex_max
    then ok (minus_one, s, procs)
    else if m.locks == 0
    then ok (0, s, procs)
    else if same_proc m.owner procs.active_proc
    then ((if n == 0 then ok (freed, procs) else pass_on id s' procs (queue_out m.wait_queue))
        >>= λ r. ok ((r.0.mutexes id).locks, r.0, r.1))
    else ok (minus_one, s, procs)
