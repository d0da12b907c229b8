-- ===== src/Sem/Free.antt =====
-- Allocating and freeing a semaphore of src/ksem.c.
use phase1_myunivos.Base.{
  All, All-NotIn, All-append, All-except, Bool-cases, Distinct, Distinct-append, List, NotIn, [],
  arith, false, inl, inr, minus_one, or_keep, out_of_range, refl, subst, sym, true, ℕ, ◌<◌, ◌==◌,
  ◌∷◌, ◌≡◌, ◌≢◌,
}
use phase1_myunivos.Queue.{Queue, queue_in, queue_init, queue_is_empty, queue_size}
use phase1_myunivos.Queue.Fifo.{IsValid, contents, queue_in-full}
use phase1_myunivos.Queue.Steps.{queue_in_room, queue_out_cons, queue_out_empty}
use phase1_myunivos.Sem.{Sem, Sems, bad_id, ksem_destroy, ksem_init, sem_max, set_sem}

-- The id can be allocated.
abbrev pub IsFree : Sems → ℕ → Type 0
IsFree s i = (i < sem_max) × ((s.semaphores i).allocated ≡ 0)

-- The queue of ids between two calls: a valid queue of different ids, each in range and free.
pub record FreeList (s : Sems) : Type 0 where
  pub valid : IsValid s.sem_queue
  pub free : All (IsFree s) (contents s.sem_queue)
  pub distinct : Distinct (contents s.sem_queue)

in_range : (id : ℕ) → id < sem_max → out_of_range id sem_max ≡ false
in_range id h = ground arith

-- `ksem_init` on a good queue of ids that is not empty: it returns the oldest id, which is allocated
-- now with the count asked for and nothing waiting, and is in the queue no more; no other
-- semaphore changes, and the queue of ids is good again.
ksem_init_takes :
    (value x : ℕ) (xs : List ℕ) (s : Sems)
    → FreeList s
    → contents s.sem_queue ≡ x ∷ xs
    → (s' : Sems) × (ksem_init value s ≡ (x, s'))
      × ((s'.semaphores x).allocated ≡ 1)
      × ((s'.semaphores x).count ≡ value)
      × ((s'.semaphores x).wait_queue ≡ queue_init)
      × ((j : ℕ) → j ≢ x → s'.semaphores j ≡ s.semaphores j)
      × NotIn x (contents s'.sem_queue)
      × FreeList s'
unfolding ksem_init
ksem_init_takes value x xs s f c =
    let (q, out, v', c', n) = queue_out_cons s.sem_queue x xs f.valid c in
    let fr : All (IsFree s) (x ∷ xs) = subst (All (IsFree s)) c f.free in
    let di : Distinct (x ∷ xs) = subst Distinct c f.distinct in
    let t : (x == x) ≡ true = ground arith in
    let r : out_of_range x sem_max ≡ false = in_range x fr.0.0 in
    let v : Sem = record { allocated = 1; count = value; wait_queue = queue_init } in
    let s' = set_sem x v (record s { sem_queue = q }) in
    (
      s',
      rw (out, r) refl,
      rw t refl,
      rw t refl,
      rw t refl,
      (λ j ne. ground arith),
      subst (NotIn x) (sym c') di.0,
      record {
        valid = v';
        free =
            subst (All (IsFree s')) (sym c')
              (All-except (IsFree s) (IsFree s') x xs (λ y ne h. (h.0, ground arith)) di.0 fr.1);
        distinct = subst Distinct (sym c') di.1;
      },
    )

-- `ksem_init` without an id left fails and changes nothing.
pub ksem_init_none :
    (value : ℕ) (s : Sems) → s.sem_queue.size ≡ 0 → ksem_init value s ≡ (minus_one, s)
unfolding ksem_init
ksem_init_none value s z = rw (queue_out_empty s.sem_queue z) refl

good_id :
    (id : ℕ) (s : Sems) → bad_id id s ≡ false → (id < sem_max) × ((s.semaphores id).allocated ≢ 0)
good_id id s b = ground arith

-- Marking a semaphore free and putting its id back, if the queue has room, keeps the queue good.
freed :
    (id : ℕ) (s : Sems)
    → FreeList s
    → bad_id id s ≡ false
    → FreeList (record (set_sem id (record (s.semaphores id) { allocated = 0 }) s) {
      sem_queue = or_keep (queue_in s.sem_queue id) s.sem_queue;
    })
freed id s f b = elim (Bool-cases (s.sem_queue.size == queue_size)) [
  | inl e ↦
      rw (queue_in-full s.sem_queue id (ground arith))
        (record { valid = f.valid; free = kept s.sem_queue; distinct = f.distinct })
  | inr e ↦
      let (q, put, v, c, n) =
        queue_in_room s.sem_queue id f.valid (omega (arith, f.valid.size_in, ne e)) in
      rw put (record {
        valid = v;
        free = subst (All (IsFree (after q))) (sym c) (
            All-append (IsFree (after q)) (contents s.sem_queue) (id ∷ []) (kept q)
              ((g.0, rw self refl), tt));
        distinct =
            subst Distinct (sym c) (Distinct-append id (contents s.sem_queue) f.distinct out);
      })
]
  where
    g : (id < sem_max) × ((s.semaphores id).allocated ≢ 0)
    g = good_id id s b

    self : (id == id) ≡ true
    self = ground arith

    ne : (s.sem_queue.size == queue_size) ≡ false → s.sem_queue.size ≢ queue_size
    ne e = ground arith

    after : Queue → Sems
    after q = record (set_sem id (record (s.semaphores id) { allocated = 0 }) s) { sem_queue = q }

    out : NotIn id (contents s.sem_queue)
    out = All-NotIn (IsFree s) id (contents s.sem_queue) (λ h. g.1 h.1) f.free

    kept : (q : Queue) → All (IsFree (after q)) (contents s.sem_queue)
    kept q =
        All-except (IsFree s) (IsFree (after q)) id (contents s.sem_queue)
          (λ y d h. (h.0, ground arith)) out f.free

-- `ksem_destroy`, on any id and any semaphore, keeps the queue of ids good.
ksem_destroy-FreeList : (id : ℕ) (s : Sems) → FreeList s → FreeList (ksem_destroy id s).1
unfolding ksem_destroy
ksem_destroy-FreeList id s f = elim (Bool-cases (bad_id id s)) [
  | inl b ↦ rw b f
  | inr b ↦ elim (Bool-cases (queue_is_empty (s.semaphores id).wait_queue)) [
    | inr w ↦ rw (b, w) f
    | inl w ↦ rw (b, w) (freed id s f b)
  ]
]
