-- ===== src/Mutex/Allocation.antt =====
-- Allocating and freeing a mutex of src/kmutex.c.
use phase1_myunivos.Base.{
  ==-eq_false, List, [], ap, arith, false, length, minus_one, out_of_range, refl, slt, true, ℕ,
  ◌++◌, ◌<◌, ◌==◌, ◌∷◌, ◌≡◌, ◌≢◌,
}
use phase1_myunivos.Mutex.{Mutexes, kmutex_destroy, kmutex_init, mutex_max, set_mutex, zero_mutex}
use phase1_myunivos.Queue.{queue_is_empty, queue_size}
use phase1_myunivos.Queue.Fifo.{IsValid, contents, length-contents}
use phase1_myunivos.Queue.Steps.{queue_in_room, queue_out_cons}

-- With at least two ids left in a valid queue, `kmutex_init` takes the oldest one, if it is in
-- range, returns it, and makes its mutex allocated, free and without owner; the other ids stay in
-- their order, and no other mutex changes.
kmutex_init_takes :
    (s : Mutexes) (x y : ℕ) (ys : List ℕ)
    → IsValid s.mutex_queue
    → contents s.mutex_queue ≡ x ∷ y ∷ ys
    → x < mutex_max
    → (s' : Mutexes) × (kmutex_init s ≡ (x, s'))
      × IsValid s'.mutex_queue
      × (contents s'.mutex_queue ≡ y ∷ ys)
      × (s'.mutexes x ≡ record zero_mutex { allocated = 1 })
      × ((j : ℕ) → j ≢ x → s'.mutexes j ≡ s.mutexes j)
unfolding kmutex_init queue_is_empty
kmutex_init_takes s x y ys v c b =
    let (q, out, v', c', n) = queue_out_cons s.mutex_queue x (y ∷ ys) v c in
    let z : (q.size == 0) ≡ false =
      ==-eq_false _ 0 (omega (arith, length-contents q, ap length c')) in
    let t : (x == x) ≡ true = ground arith in
    let r : out_of_range x mutex_max ≡ false = ground arith in
    (
      set_mutex x (record zero_mutex { allocated = 1 }) (record s { mutex_queue = q }),
      rw (out, z, r) refl,
      v',
      c',
      rw t refl,
      λ j ne. ground arith,
    )

-- With exactly one id left in a valid queue, `kmutex_init` takes it out of the queue and fails: the
-- id is lost, and no mutex changes.
pub kmutex_init_loses :
    (s : Mutexes) (x : ℕ)
    → IsValid s.mutex_queue
    → contents s.mutex_queue ≡ x ∷ []
    → (s' : Mutexes) × (kmutex_init s ≡ (minus_one, s'))
      × (contents s'.mutex_queue ≡ [])
      × ((j : ℕ) → s'.mutexes j ≡ s.mutexes j)
unfolding kmutex_init queue_is_empty
kmutex_init_loses s x v c =
    let (q, out, v', c', n) = queue_out_cons s.mutex_queue x [] v c in
    let e : q.size ≡ 0 = omega (arith, length-contents q, ap length c') in
    let z : (q.size == 0) ≡ true = ground arith in
    (record s { mutex_queue = q }, rw (out, z) refl, c', λ j. refl)

-- With room in the queue of free ids, `kmutex_destroy` of a mutex that is not locked, whether it was
-- allocated or not, puts its id at the end of this queue and clears it, and changes no other.
pub kmutex_destroy_frees :
    (id : ℕ) (s : Mutexes)
    → id < mutex_max
    → slt 0 (s.mutexes id).locks ≡ false
    → IsValid s.mutex_queue
    → s.mutex_queue.size < queue_size
    → (s' : Mutexes) × (kmutex_destroy id s ≡ (0, s'))
      × (contents s'.mutex_queue ≡ contents s.mutex_queue ++ (id ∷ []))
      × (s'.mutexes id ≡ zero_mutex)
      × ((j : ℕ) → j ≢ id → s'.mutexes j ≡ s.mutexes j)
unfolding kmutex_destroy
kmutex_destroy_frees id s b l v h =
    let r : out_of_range id mutex_max ≡ false = ground arith in
    let (q, put, v', c', n) = queue_in_room s.mutex_queue id v h in
    let t : (id == id) ≡ true = ground arith in
    (
      set_mutex id zero_mutex (record s { mutex_queue = q }),
      rw (r, l, put) refl,
      c',
      rw t refl,
      λ j ne. ground arith,
    )
