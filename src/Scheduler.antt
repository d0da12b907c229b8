-- ===== src/Scheduler.antt =====
-- src/scheduler.c: the run queue, the sleep queue and the choice of the process to run. Log messages
-- are left out, except where one reads through a pointer.
pub mod Removal
pub mod Remove
pub mod Choice
pub mod Progress
pub mod RoundTrip
pub mod Wake
pub mod Frames
pub mod Room
use phase1_myunivos.Base.{
  ℕ, zero, suc, ◌+◌, ◌≡◌, Bool, true, false, Option, none, some, ◌==◌, if◌then◌else◌, inc, dec, slt,
  sle, is_negative, not, update, minus_one, Outcome, ok, halt, panic, null_pointer, out_of_fuel,
  ◌>>=◌, deref, or_panic, or_keep,
}
use phase1_myunivos.Queue.{Queue, queue_size, queue_init, queue_in, queue_out}
use phase1_myunivos.Process.{
  ProcState, absent, idle, active, sleeping, waiting, is_active, is_sleeping, QueueRef, run_queue,
  sleep_queue, Proc, Procs, set_proc, get_queue, set_queue, pid_to_proc,
}

abbrev pub scheduler_timeslice : ℕ
scheduler_timeslice = 10

-- The queue of the outcome of `queue_in`, where -1 leads to a panic.
abbrev pub put_runnable : Procs → Option Queue → Outcome Procs
put_runnable s none = halt panic
put_runnable s (some q) = ok (record s { runnable = q })

unfoldable pub scheduler_add : Option ℕ → Procs → Outcome Procs
scheduler_add none s = halt panic
scheduler_add (some p) s =
    let s' =
      set_proc p
        (record (s.table p) { scheduler_queue = some run_queue; state = idle; cpu_time = 0 }) s in
    put_runnable s' (queue_in s'.runnable (s.table p).pid)

-- The loop of `scheduler_remove` over one queue, from the round `i` on, with fuel. One round takes
-- the oldest item out, and puts it back unless it is `pid`.
abbrev pub remove_round : ℕ → Option (ℕ × Queue) → Outcome Queue
remove_round pid none = halt panic
remove_round pid (some (x, q)) = if pid == x then ok q else or_panic (queue_in q x)

unfoldable pub remove_loop : ℕ → ℕ → ℕ → Queue → Outcome Queue
remove_loop zero pid i q = halt out_of_fuel
remove_loop (suc f) pid i q =
    let rest = remove_round pid (queue_out q) >>= remove_loop f pid (inc i) in
    if slt i q.size then rest else ok q

-- Fuel for one round more than a queue can hold.
abbrev pub loop_fuel : ℕ
loop_fuel = 33

abbrev pub remove_from : Option QueueRef → ℕ → Procs → Outcome Procs
remove_from none p s = ok s
remove_from (some r) p s = remove_loop loop_fuel (s.table p).pid 0 (get_queue r s) >>= λ q.
    let s' = set_queue r q s in ok (set_proc p (record (s'.table p) { scheduler_queue = none }) s')

-- `if (proc == active_proc) active_proc = NULL;`
abbrev pub forget : ℕ → Option ℕ → Option ℕ
forget p none = none
forget p (some a) = if p == a then none else some a

unfoldable pub scheduler_remove : Option ℕ → Procs → Outcome Procs
scheduler_remove none s = halt panic
scheduler_remove (some p) s = remove_from (s.table p).scheduler_queue p s >>= λ s'.
    ok (record s' { active_proc = forget p s'.active_proc })

-- The part of `scheduler_sleep` after the test for a process that sleeps already. The result of
-- `queue_in` is ignored.
abbrev pub to_sleep : ℕ → Procs → Procs
to_sleep p s =
    let s' =
      set_proc p (record (s.table p) { state = sleeping; scheduler_queue = some sleep_queue }) s in
    record s' { sleepers = or_keep (queue_in s'.sleepers (s.table p).pid) s'.sleepers }

unfoldable pub scheduler_sleep : Option ℕ → ℕ → Procs → Outcome Procs
scheduler_sleep none time s = halt panic
scheduler_sleep (some p) time s =
    let s' = set_proc p (record (s.table p) { sleep_time = time }) s in
    if is_sleeping (s.table p).state
    then ok s'
    else scheduler_remove (some p) s' >>= λ s''. ok (to_sleep p s'')

-- "Ensure that processes not in the active state aren't still scheduled"
abbrev pub drop_inactive : Option ℕ → Procs → Procs
drop_inactive none s = s
drop_inactive (some p) s =
    if is_active (s.table p).state then s else record s { active_proc = none }

-- The time slice of the active process: at its end the process goes back to the run queue, or, if
-- it is the idle task, only becomes idle.
abbrev pub check_slice : Option ℕ → Procs → Outcome Procs
check_slice none s = ok s
check_slice (some p) s =
    let s' = set_proc p (record (s.table p) { cpu_time = 0 }) s in
    let put =
      (if (s.table p).pid == 0
        then ok (set_proc p (record (s'.table p) { state = idle }) s')
        else scheduler_add (some p) s') in
    if sle scheduler_timeslice (s.table p).cpu_time
    then (put >>= λ s''. ok (record s'' { active_proc = none }))
    else ok s

-- The next process id and the queue left: process 0 if the run queue is empty.
abbrev pub next_or_idle : Queue → Option (ℕ × Queue) → ℕ × Queue
next_or_idle q none = (0, q)
next_or_idle q (some (x, q')) = (x, q')

-- The choice of a process when none is active. The message that follows the look-up reads through
-- the pointer found, so NULL faults there, before the test for it.
abbrev pub choose : Option ℕ → Procs → Outcome (ℕ × Procs)
choose (some p) s = ok (p, s)
choose none s =
    let next = next_or_idle s.runnable (queue_out s.runnable) in
    let s' = record s { runnable = next.1 } in
    deref (pid_to_proc next.0 s') >>= λ p. ok (p, record s' { active_proc = some p })

-- The last statement: the process that runs is ACTIVE.
abbrev pub activate : ℕ × Procs → Procs
activate (p, s) = set_proc p (record (s.table p) { state = active }) s

-- `scheduler_run` after its first test.
unfoldable pub schedule : Procs → Outcome Procs
schedule s = check_slice s.active_proc s >>= λ s'. choose s'.active_proc s' >>= λ r. ok (activate r)

unfoldable pub scheduler_run : Procs → Outcome Procs
scheduler_run s = schedule (drop_inactive s.active_proc s)

-- "Update the active process' run time and CPU time"
abbrev pub count_time : Option ℕ → Procs → Procs
count_time none s = s
count_time (some p) s =
    set_proc p
      (record (s.table p) {
        run_time = inc (s.table p).run_time;
        cpu_time = inc (s.table p).cpu_time;
      })
      s

-- One round of the loop of `scheduler_timer` for the process found: `sleep_time--` is tested before
-- it counts down. `x >= 0` is that x is not negative. The result of `queue_in` is ignored.
abbrev pub wake_or_wait : ℕ → Option ℕ → Procs → Outcome Procs
wake_or_wait pid none s = ok s
wake_or_wait pid (some p) s =
    let s' = set_proc p (record (s.table p) { sleep_time = dec (s.table p).sleep_time }) s in
    if is_negative (s.table p).sleep_time
    then scheduler_add (some p) s'
    else ok (record s' { sleepers = or_keep (queue_in s'.sleepers pid) s'.sleepers })

abbrev pub timer_round : Procs → Option (ℕ × Queue) → Outcome Procs
timer_round s none = ok s
timer_round s (some (pid, q)) =
    let s' = record s { sleepers = q } in wake_or_wait pid (pid_to_proc pid s') s'

unfoldable pub timer_loop : ℕ → ℕ → Procs → Outcome Procs
timer_loop zero i s = halt out_of_fuel
timer_loop (suc f) i s =
    let rest = timer_round s (queue_out s.sleepers) >>= timer_loop f (inc i) in
    if slt i s.sleepers.size then rest else ok s

unfoldable pub scheduler_timer : Procs → Outcome Procs
scheduler_timer s = timer_loop loop_fuel 0 (count_time s.active_proc s)

-- `scheduler_init`, but for the registration of `scheduler_timer` with the timer.
unfoldable pub scheduler_init : Procs → Procs
scheduler_init s = record s { runnable = queue_init; sleepers = queue_init }
