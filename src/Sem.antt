-- ===== src/Sem.antt =====
-- src/ksem.c and include/ksem.h: the kernel's semaphores. The functions that touch processes take the
-- scheduler's state beside the semaphores'; a return value stands first.
pub mod Wait
pub mod Free
use phase1_myunivos.Base.{
  ℕ, zero, suc, ◌+◌, Bool, ◌||◌, ◌&&◌, not, Option, none, some, ◌==◌, if◌then◌else◌, update, inc,
  dec, slt, out_of_range, minus_one, or_keep, Outcome, ok, ◌>>=◌, deref,
}
use phase1_myunivos.Queue.{Queue, queue_init, queue_in, queue_out, queue_is_empty}
use phase1_myunivos.Process.{Procs, proc_max, waiting, is_absent, set_proc}
use phase1_myunivos.Scheduler.{scheduler_add, scheduler_remove}

abbrev pub sem_max : ℕ
sem_max = 16

-- `sem_t`
pub record Sem : Type 0 where
  pub allocated : ℕ
  pub count : ℕ
  pub wait_queue : Queue

-- The variables of src/ksem.c.
pub record Sems : Type 0 where
  pub semaphores : ℕ → Sem
  pub sem_queue : Queue

abbrev pub set_sem : ℕ → Sem → Sems → Sems
set_sem id v s = record s { semaphores = update s.semaphores id v }

-- The loop of `ksemaphores_init`, with the rounds left.
unfoldable pub fill_sems : ℕ → ℕ → Sems → Sems
fill_sems zero i s = s
fill_sems (suc n) i s =
    fill_sems n (i + 1)
      (record (set_sem i (record { allocated = 0; count = 0; wait_queue = queue_init }) s) {
        sem_queue = or_keep (queue_in s.sem_queue i) s.sem_queue;
      })

unfoldable pub ksemaphores_init : Sems → Sems
unfolding fill_sems
ksemaphores_init s = fill_sems sem_max 0 (record s { sem_queue = queue_init })

-- An id that is taken from the queue and out of range is not put back.
abbrev pub allocate : ℕ → Sems → Option (ℕ × Queue) → ℕ × Sems
allocate value s none = (minus_one, s)
allocate value s (some (id, q)) =
    let s' = record s { sem_queue = q } in
    if out_of_range id sem_max
    then (minus_one, s')
    else (id, set_sem id (record { allocated = 1; count = value; wait_queue = queue_init }) s')

unfoldable pub ksem_init : ℕ → Sems → ℕ × Sems
ksem_init value s = allocate value s (queue_out s.sem_queue)

-- `id < 0 || id >= SEM_MAX || semaphores[id].allocated == 0`
abbrev pub bad_id : ℕ → Sems → Bool
bad_id id s = out_of_range id sem_max || (s.semaphores id).allocated == 0

unfoldable pub ksem_destroy : ℕ → Sems → ℕ × Sems
ksem_destroy id s =
    if bad_id id s
    then (minus_one, s)
    else if queue_is_empty (s.semaphores id).wait_queue
    then (
      0,
      record (set_sem id (record (s.semaphores id) { allocated = 0 }) s) {
        sem_queue = or_keep (queue_in s.sem_queue id) s.sem_queue;
      },
    )
    else (minus_one, s)

-- The last part of `ksem_wait`, which blocks the process. `active_proc` is read again after the
-- call of `scheduler_remove`.
abbrev pub block : ℕ → Sems → Procs → Outcome (ℕ × Sems × Procs)
block id s procs = scheduler_remove procs.active_proc procs >>= λ procs'.
    deref procs'.active_proc >>= λ p.
    let v = record (s.semaphores id) {
      wait_queue =
          or_keep (queue_in (s.semaphores id).wait_queue (procs'.table p).pid)
            (s.semaphores id).wait_queue;
    } in
    ok (0, set_sem id v s, set_proc p (record (procs'.table p) { state = waiting }) procs')

unfoldable pub ksem_wait : ℕ → Sems → Procs → Outcome (ℕ × Sems × Procs)
ksem_wait id s procs =
    let count = (s.semaphores id).count in
    if bad_id id s
    then ok (minus_one, s, procs)
    else if slt 0 count
    then ok (dec count, set_sem id (record (s.semaphores id) { count = dec count }) s, procs)
    else block id s procs

-- `pid >= 0 && pid < PROC_MAX && proc_table[pid].state != NONE`: the process id is used as the index
-- of the table.
abbrev pub is_waiter : ℕ → Procs → Bool
is_waiter pid procs = not (out_of_range pid proc_max) && not (is_absent (procs.table pid).state)

-- The part of `ksem_post` for a wait queue that is not empty; the count has gone up already.
abbrev pub release : ℕ → Sems → Procs → Option (ℕ × Queue) → Outcome (ℕ × Sems × Procs)
release id s procs none = ok (minus_one, s, procs)
release id s procs (some (pid, q)) =
    let s' = set_sem id (record (s.semaphores id) { wait_queue = q }) s in
    let count = dec (s'.semaphores id).count in
    if is_waiter pid procs
    then (scheduler_add (some pid) procs >>= λ procs'.
        ok (count, set_sem id (record (s'.semaphores id) { count = count }) s', procs'))
    else ok (minus_one, s', procs)

unfoldable pub ksem_post : ℕ → Sems → Procs → Outcome (ℕ × Sems × Procs)
ksem_post id s procs =
    let s' = set_sem id (record (s.semaphores id) { count = inc (s.semaphores id).count }) s in
    if bad_id id s
    then ok (minus_one, s, procs)
    else if queue_is_empty (s.semaphores id).wait_queue
    then ok ((s'.semaphores id).count, s', procs)
    else release id s' procs (queue_out (s'.semaphores id).wait_queue)
