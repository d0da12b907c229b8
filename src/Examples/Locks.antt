-- ===== src/Examples/Locks.antt =====
-- Semaphores and mutexes with four processes.
use phase1_myunivos.Base.{
  [], arith, halt, minus_one, none, null_pointer, ok, refl, some, ℕ, ◌++◌, ◌+◌, ◌-◌, ◌∷◌, ◌≡◌, ◌≢◌,
}
use phase1_myunivos.Examples.Data.{
  mutexes_with, no_items, no_items-IsValid, one_item, one_item-IsValid, procs_with, running,
  sems_with, three_items, three_items-IsValid, two_items, two_items-IsValid,
}
use phase1_myunivos.Mutex.{
  Mutexes, kmutex_destroy, kmutex_init, kmutex_lock, kmutex_unlock, zero_mutex,
}
use phase1_myunivos.Mutex.Allocation.{kmutex_destroy_frees, kmutex_init_loses}
use phase1_myunivos.Mutex.Locking.{IsConsistent, kmutex_lock_waits, kmutex_unlock_passes}
use phase1_myunivos.Process.{Procs, find_entry, idle, pid_to_proc, waiting}
use phase1_myunivos.Queue.Fifo.{contents}
use phase1_myunivos.Sem.{Sems, ksem_post, ksem_wait}
use phase1_myunivos.Sem.Free.{FreeList}
use phase1_myunivos.Sem.Wait.{ksem_post_releases, ksem_wait-ksem_post, ksem_wait_faults}

held-IsConsistent : IsConsistent ((mutexes_with 3 (some 1) two_items no_items).mutexes 7)
held-IsConsistent = record {
  valid = two_items-IsValid;
  free = λ e. absurd (omega arith);
  held = λ ne. ((λ e. cc), refl);
}

owned-IsConsistent : IsConsistent ((mutexes_with 1 (some 1) no_items no_items).mutexes 7)
owned-IsConsistent = record {
  valid = no_items-IsValid;
  free = λ e. absurd (omega arith);
  held = λ ne. ((λ e. cc), refl);
}

free-IsConsistent : IsConsistent ((mutexes_with 0 none no_items no_items).mutexes 7)
free-IsConsistent = record {
  valid = no_items-IsValid;
  free = λ e. (refl, refl);
  held = λ ne. absurd (ne refl);
}

held_by_other : IsConsistent ((mutexes_with 3 (some 2) two_items no_items).mutexes 7)
held_by_other = record {
  valid = two_items-IsValid;
  free = λ e. absurd (omega arith);
  held = λ ne. ((λ e. cc), refl);
}

kmutex_unlock_passes_example :
    (s' : Mutexes) × (procs' : Procs) × (kmutex_unlock 7
        (mutexes_with 3 (some 1) two_items no_items)
        (procs_with no_items (some 1) 0)
      ≡ ok (((mutexes_with 3 (some 1) two_items no_items).mutexes 7).locks - 1, s', procs'))
    × ((s'.mutexes 7).owner ≡ some 2)
    × (contents (s'.mutexes 7).wait_queue ≡ (3 ∷ []))
    × IsConsistent (s'.mutexes 7)
    × (contents procs'.runnable
        ≡ contents (procs_with no_items (some 1) 0).runnable
          ++ (((procs_with no_items (some 1) 0).table 2).pid ∷ []))
    × ((procs'.table 2).state ≡ idle)
kmutex_unlock_passes_example =
    kmutex_unlock_passes 7 2 2 (3 ∷ []) (mutexes_with 3 (some 1) two_items no_items)
      (procs_with no_items (some 1) 0) (omega arith) held-IsConsistent refl refl
      (λ e. absurd (omega arith)) (unfold pid_to_proc find_entry in refl) no_items-IsValid
      (omega arith)

kmutex_lock_waits_example :
    (s' : Mutexes) × (procs' : Procs) × (kmutex_lock 7
        (mutexes_with 3 (some 2) two_items no_items)
        running
      ≡ ok (((mutexes_with 3 (some 2) two_items no_items).mutexes 7).locks + 1, s', procs'))
    × (contents (s'.mutexes 7).wait_queue
        ≡ contents ((mutexes_with 3 (some 2) two_items no_items).mutexes 7).wait_queue
          ++ ((running.table 1).pid ∷ []))
    × ((s'.mutexes 7).owner ≡ ((mutexes_with 3 (some 2) two_items no_items).mutexes 7).owner)
    × IsConsistent (s'.mutexes 7)
    × ((procs'.table 1).state ≡ waiting)
    × (procs'.active_proc ≡ none)
    × (contents procs'.runnable ≡ contents running.runnable)
kmutex_lock_waits_example =
    kmutex_lock_waits 7 1 (mutexes_with 3 (some 2) two_items no_items) running (omega arith)
      held_by_other (λ e. absurd (omega arith)) (omega arith) refl refl two_items-IsValid
      ((λ e. absurd (omega arith)), ((λ e. absurd (omega arith)), tt))

kmutex_init_loses_example :
    (s' : Mutexes) × (kmutex_init (mutexes_with 0 none no_items one_item) ≡ (minus_one, s'))
    × (contents s'.mutex_queue ≡ [])
    × ((j : ℕ) → s'.mutexes j ≡ (mutexes_with 0 none no_items one_item).mutexes j)
kmutex_init_loses_example =
    kmutex_init_loses (mutexes_with 0 none no_items one_item) 3 one_item-IsValid refl

kmutex_destroy_frees_example :
    (s' : Mutexes) × (kmutex_destroy 7 (mutexes_with 0 none no_items three_items) ≡ (0, s'))
    × (contents s'.mutex_queue
        ≡ contents (mutexes_with 0 none no_items three_items).mutex_queue ++ (7 ∷ []))
    × (s'.mutexes 7 ≡ zero_mutex)
    × ((j : ℕ) → j ≢ 7 → s'.mutexes j ≡ (mutexes_with 0 none no_items three_items).mutexes j)
kmutex_destroy_frees_example =
    kmutex_destroy_frees 7 (mutexes_with 0 none no_items three_items) (omega arith) refl
      three_items-IsValid (omega arith)

two_ids-FreeList : FreeList (sems_with 1 no_items)
two_ids-FreeList = record {
  valid = two_items-IsValid;
  free = ((omega arith, refl), ((omega arith, refl), tt));
  distinct = (((λ e. absurd (omega arith)), tt), (tt, tt));
}

ksem_wait-ksem_post_example :
    (s' : Sems) × (s'' : Sems) × (ksem_post 7 (sems_with 2 no_items) running
      ≡ ok (((sems_with 2 no_items).semaphores 7).count + 1, s', running))
    × (ksem_wait 7 s' running ≡ ok (((sems_with 2 no_items).semaphores 7).count, s'', running))
    × (s''.semaphores 7 ≡ (sems_with 2 no_items).semaphores 7)
    × ((j : ℕ) → j ≢ 7 → s''.semaphores j ≡ (sems_with 2 no_items).semaphores j)
    × (s''.sem_queue ≡ (sems_with 2 no_items).sem_queue)
ksem_wait-ksem_post_example =
    ksem_wait-ksem_post 7 (sems_with 2 no_items) running (omega arith) (λ e. absurd (omega arith))
      (omega arith) refl

ksem_wait_faults_example : ksem_wait 7 (sems_with 0 no_items) running ≡ halt null_pointer
ksem_wait_faults_example =
    ksem_wait_faults 7 1 (sems_with 0 no_items) running (omega arith) (λ e. absurd (omega arith))
      refl refl refl two_items-IsValid
      ((λ e. absurd (omega arith)), ((λ e. absurd (omega arith)), tt))

ksem_post_releases_example :
    (s' : Sems) × (procs' : Procs) × (ksem_post 7
        (sems_with 0 one_item)
        (procs_with no_items (some 1) 0)
      ≡ ok (((sems_with 0 one_item).semaphores 7).count, s', procs'))
    × (contents (s'.semaphores 7).wait_queue ≡ ([]))
    × (contents procs'.runnable
        ≡ contents (procs_with no_items (some 1) 0).runnable
          ++ (((procs_with no_items (some 1) 0).table 3).pid ∷ []))
    × ((procs'.table 3).state ≡ idle)
    × ((s'.semaphores 7).count ≡ ((sems_with 0 one_item).semaphores 7).count)
ksem_post_releases_example =
    ksem_post_releases 7 3 ([]) (sems_with 0 one_item) (procs_with no_items (some 1) 0)
      (omega arith) (λ e. absurd (omega arith)) (omega arith) one_item-IsValid refl (omega arith)
      (λ e. cc) no_items-IsValid (omega arith)
