-- ===== src/Mutex/RoundTrip.antt =====
-- Locking a mutex and unlocking it again.
use phase1_myunivos.Base.{none, ok, some, sym, ℕ, ◌<◌, ◌∙◌, ◌≡◌, ◌≢◌}
use phase1_myunivos.Mutex.{Mutexes, kmutex_lock, kmutex_unlock, mutex_max}
use phase1_myunivos.Mutex.Locking.{IsConsistent, kmutex_lock_free, kmutex_unlock_last}
use phase1_myunivos.Process.{Procs}

-- Locking a free mutex and unlocking it in the same process: both calls succeed, with the counts 1
-- and 0, the processes are as before, and so are all mutexes but for the bookkeeping of this one,
-- which is free again.
pub kmutex_unlock-kmutex_lock :
    (id p : ℕ) (s : Mutexes) (procs : Procs)
    → id < mutex_max
    → IsConsistent (s.mutexes id)
    → (s.mutexes id).locks ≡ 0
    → procs.active_proc ≡ some p
    → (s' : Mutexes) × (s'' : Mutexes) × (kmutex_lock id s procs ≡ ok (1, s', procs))
      × (kmutex_unlock id s' procs ≡ ok (0, s'', procs))
      × ((s''.mutexes id).owner ≡ none)
      × ((s''.mutexes id).locks ≡ 0)
      × IsConsistent (s''.mutexes id)
      × ((j : ℕ) → j ≢ id → s''.mutexes j ≡ s.mutexes j)
kmutex_unlock-kmutex_lock id p s procs b c l a =
    let (s', e, o, n, c', others) = kmutex_lock_free id p s procs b c l a in
    let (s'', e', o', n', c'', others') = kmutex_unlock_last id s' procs b c' n (o ∙ sym a) in
    (s', s'', e, e', o', n', c'', λ j ne. others' j ne ∙ others j ne)
