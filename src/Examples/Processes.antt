-- ===== src/Examples/Processes.antt =====
-- The scheduler and the process table with four processes.
use phase1_myunivos.Base.{[], arith, minus_one, none, ok, refl, some, ℕ, ◌++◌, ◌∷◌, ◌≡◌, ◌≢◌}
use phase1_myunivos.Examples.Data.{
  four_procs, no_items, no_items-IsValid, one_item, one_item-IsValid, procs_with, running,
  running-Ready, running_finds_1, running_finds_2, three_items, three_items-IsValid, two_items,
  two_items-IsValid,
}
use phase1_myunivos.Kproc.{kproc_destroy}
use phase1_myunivos.Kproc.Destroy.{kproc_destroy_active}
use phase1_myunivos.Process.{
  Procs, active, find_entry, get_queue, idle, pid_to_proc, run_queue, zero_proc,
}
use phase1_myunivos.Queue.Fifo.{IsValid, contents}
use phase1_myunivos.Scheduler.{scheduler_remove, scheduler_run, scheduler_timer}
use phase1_myunivos.Scheduler.Choice.{Ready, scheduler_run_preempts}
use phase1_myunivos.Scheduler.Progress.{scheduler_run_total}
use phase1_myunivos.Scheduler.Remove.{Removed, scheduler_remove_middle}
use phase1_myunivos.Scheduler.Wake.Sleeper.{
  Asleep, Awake, scheduler_timer_skips, scheduler_timer_wakes, tick_each,
}

scheduler_run_total_example :
    (e : ℕ) × (s' : Procs) × (scheduler_run running ≡ ok s')
    × (s'.active_proc ≡ some e)
    × ((s'.table e).state ≡ active)
    × Ready s'
scheduler_run_total_example = scheduler_run_total running running-Ready (omega arith)

scheduler_run_preempts_example :
    (s' : Procs) × (scheduler_run running ≡ ok s')
    × (s'.active_proc ≡ some 2)
    × ((s'.table 2).state ≡ active)
    × IsValid s'.runnable
    × (contents s'.runnable ≡ (3 ∷ 1 ∷ []))
    × (◌≢◌ {A = ℕ} 2 1 → ((s'.table 1).state ≡ idle) × ((s'.table 1).cpu_time ≡ 0))
scheduler_run_preempts_example =
    scheduler_run_preempts running 1 2 2 (3 ∷ 1 ∷ []) refl refl refl (λ e. absurd (omega arith))
      two_items-IsValid (omega arith) refl running_finds_2

scheduler_remove_middle_example :
    (s' : Procs) × (scheduler_remove (some 1) (procs_with three_items none 0) ≡ ok s')
    × (contents (get_queue run_queue s') ≡ 3 ∷ ((2 ∷ []) ++ ([])))
    × Removed 1 run_queue (procs_with three_items none 0) s'
scheduler_remove_middle_example =
    scheduler_remove_middle 1 3 run_queue (procs_with three_items none 0) (2 ∷ []) ([]) refl
      three_items-IsValid refl ((λ e. absurd (omega arith)), tt) tt

allocator-IsValid : IsValid running.allocator
allocator-IsValid = ground arith

kproc_destroy_active_example :
    (s' : Procs) × (kproc_destroy running.active_proc running ≡ ok (0, s'))
    × (s'.active_proc ≡ none)
    × (s'.table 1 ≡ zero_proc)
    × (contents s'.allocator ≡ contents running.allocator ++ (1 ∷ []))
    × (contents s'.runnable ≡ contents running.runnable)
    × ((j : ℕ) → j ≢ 1 → s'.table j ≡ running.table j)
kproc_destroy_active_example =
    kproc_destroy_active 1 running (λ e. absurd (omega arith)) (omega arith) running_finds_1 refl
      refl two_items-IsValid ((λ e. absurd (omega arith)), ((λ e. absurd (omega arith)), tt))
      allocator-IsValid (omega arith)

-- The second process runs, and the fourth one sleeps, with no time left.
abbrev one_sleeps : Procs
one_sleeps = record (procs_with no_items (some 1) 0) { sleepers = one_item }

one_sleeps-Asleep : Asleep 3 3 0 [] one_sleeps
unfolding pid_to_proc find_entry
one_sleeps-Asleep = record {
  sleep_valid = one_item-IsValid;
  queue = refl;
  entry = refl;
  time = refl;
  run_valid = no_items-IsValid;
  room = omega arith;
}

scheduler_timer_wakes_example :
    (s1 : Procs) × (s2 : Procs) × (tick_each 1 one_sleeps ≡ ok s1)
    × (contents s1.sleepers ≡ 3 ∷ [])
    × (contents s1.runnable ≡ contents one_sleeps.runnable)
    × (scheduler_timer s1 ≡ ok s2)
    × Awake 3 3 [] s1 s2
scheduler_timer_wakes_example =
    scheduler_timer_wakes 3 3 0 one_sleeps one_sleeps-Asleep (omega arith)

-- The third and the fourth sleep, and their time is over.
abbrev two_sleep : Procs
two_sleep = record (procs_with no_items (some 1) 0) {
  sleepers = two_items;
  table = λ i. record (four_procs 0 i) { sleep_time = minus_one };
}

two_sleep-Asleep : Asleep 2 2 minus_one (3 ∷ []) two_sleep
unfolding pid_to_proc find_entry
two_sleep-Asleep = record {
  sleep_valid = two_items-IsValid;
  queue = refl;
  entry = refl;
  time = refl;
  run_valid = no_items-IsValid;
  room = omega arith;
}

scheduler_timer_skips_example :
    (s' : Procs) × (scheduler_timer two_sleep ≡ ok s')
    × (contents s'.runnable ≡ contents two_sleep.runnable ++ (2 ∷ []))
    × (contents s'.sleepers ≡ 3 ∷ [])
    × ((s'.table 3).sleep_time ≡ (two_sleep.table 3).sleep_time)
scheduler_timer_skips_example =
    scheduler_timer_skips 2 2 minus_one 3 3 two_sleep two_sleep-Asleep refl
      (λ e. absurd (omega arith))
