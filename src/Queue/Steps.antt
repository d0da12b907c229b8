-- ===== src/Queue/Steps.antt =====
-- Single calls of src/queue.c on a valid queue whose contents are known, for the loops that use it.
use phase1_myunivos.Base.{
  ℕ, suc, ◌<◌, ◌≡◌, ◌≢◌, refl, ap, ◌∙◌, List, [], ◌∷◌, ◌++◌, none, some, arith, ◌==◌, length, false,
  update, dec, inc, ==-eq_false,
}
use phase1_myunivos.Queue.{Queue, queue_size, queue_in, queue_out, advance}
use phase1_myunivos.Queue.Fifo.{IsValid, contents, length-contents, contents-store, contents-clear}

pub queue_in_room :
    (q : Queue) (x : ℕ)
    → IsValid q
    → q.size < queue_size
    → (q' : Queue) × (queue_in q x ≡ some q')
      × IsValid q'
      × (contents q' ≡ contents q ++ (x ∷ []))
      × (q'.size ≡ suc q.size)
unfolding queue_in
queue_in_room q x v h =
    let q' : Queue = record q {
      items = update q.items q.tail x;
      tail = advance q.tail;
      size = inc q.size;
    } in
    let e : (q.size == queue_size) ≡ false = ground arith in
    (q', rw e refl, ground arith, contents-store q x v h, omega arith)

head_eq : (a b : ℕ) (xs ys : List ℕ) → a ∷ xs ≡ b ∷ ys → a ≡ b
head_eq a b xs ys e = cc

tail_eq : (a b : ℕ) (xs ys : List ℕ) → a ∷ xs ≡ b ∷ ys → xs ≡ ys
tail_eq a b xs ys e = cc

pub queue_out_cons :
    (q : Queue) (x : ℕ) (xs : List ℕ)
    → IsValid q
    → contents q ≡ x ∷ xs
    → (q' : Queue) × (queue_out q ≡ some (x, q'))
      × IsValid q'
      × (contents q' ≡ xs)
      × (suc q'.size ≡ q.size)
unfolding queue_out
queue_out_cons q x xs v c =
    let q' : Queue = record q {
      items = update q.items q.head 0;
      head = advance q.head;
      size = dec q.size;
    } in
    let n : q.size ≢ 0 = omega (arith, length-contents q, ap length c) in
    let e : (q.size == 0) ≡ false = ==-eq_false q.size 0 n in
    let d = contents-clear q v n ∙ c in
    let a : q.items q.head ≡ x = head_eq _ _ _ _ d in
    (q', rw (e, ← a) refl, ground arith, tail_eq _ _ _ _ d, omega (arith, v))

pub queue_out_empty : (q : Queue) → q.size ≡ 0 → queue_out q ≡ none
unfolding queue_out
queue_out_empty q e = ground arith
