-- ===== src/Queue/Fifo.antt =====
-- The queue of src/queue.c is a bounded first-in first-out list.
use phase1_myunivos.Base.{
  ℕ, suc, ◌-◌, ◌≤◌, ◌<◌, ◌≡◌, refl, List, [], ◌∷◌, ◌++◌, Option, none, some, arith, ◌==◌,
  if◌then◌else◌, length, update, inc, dec, ap, sym, ◌≢◌, inl, inr, Bool-cases,
}
use phase1_myunivos.Base.Window.{
  IsAt, next, next-lt, window, length-window, window_of_ne_zero, window-update, window-update-suc,
}
use phase1_myunivos.Queue.{Queue, queue_size, queue_init, queue_in, queue_out, advance}

-- The representation invariant: the tail is `size` places after the head.
pub record IsValid (q : Queue) : Type 0 where
  pub head_in : q.head < queue_size
  pub tail_in : q.tail < queue_size
  pub size_in : q.size ≤ queue_size
  pub tail_at : IsAt queue_size q.head q.size q.tail

-- The items held, oldest first.
abbrev pub contents : Queue → List ℕ
contents q = window q.items queue_size q.head q.size

pub length-contents : (q : Queue) → length (contents q) ≡ q.size
length-contents q = length-window q.items queue_size q.head q.size

-- What the queue promises, on lists of at most 32 items.
unfoldable pub push : List ℕ → ℕ → Option (List ℕ)
push xs x = if length xs == queue_size then none else some (xs ++ (x ∷ []))

unfoldable pub pop : List ℕ → Option (ℕ × List ℕ)
pop [] = none
pop (x ∷ xs) = some (x, xs)

pub queue_init-IsValid : IsValid queue_init
unfolding queue_init
queue_init-IsValid = ground arith

pub contents-queue_init : contents queue_init ≡ []
unfolding queue_init
contents-queue_init = refl

-- The stored contents, one longer.
pub contents-store :
    (q : Queue) (x : ℕ)
    → IsValid q
    → q.size < queue_size
    → window (update q.items q.tail x) queue_size q.head (inc q.size) ≡ contents q ++ (x ∷ [])
contents-store q x v h =
    let e : inc q.size ≡ suc q.size = omega arith in
    rw e
      (window-update-suc q.items queue_size q.head q.size q.tail x v.head_in v.tail_in h v.tail_at)

-- The rest after the oldest item, whose cell is cleared.
pub contents-clear :
    (q : Queue)
    → IsValid q
    → q.size ≢ 0
    → q.items q.head ∷ window (update q.items q.head 0) queue_size (advance q.head) (dec q.size)
      ≡ contents q
contents-clear q v h =
    let e : dec q.size ≡ q.size - 1 = omega arith in
    let n : advance q.head ≡ next queue_size q.head = ground arith in
    rw (e, n)
      (rw
        (window-update q.items queue_size (next queue_size q.head) (q.size - 1) 31 q.head 0
          (next-lt queue_size q.head v.head_in) v.head_in (omega (arith, v)) (omega arith)
          (ground arith))
        (sym (window_of_ne_zero q.items queue_size q.head q.size h)))

pub queue_in-full : (q : Queue) (x : ℕ) → q.size ≡ queue_size → queue_in q x ≡ none
unfolding queue_in
queue_in-full q x e = ground arith

-- The views through which the two fallible operations are compared with the list ones.
abbrev pub map_contents : Option Queue → Option (List ℕ)
map_contents none = none
map_contents (some q) = some (contents q)

abbrev pub map_rest : Option (ℕ × Queue) → Option (ℕ × List ℕ)
map_rest none = none
map_rest (some (x, q)) = some (x, contents q)

-- What `queue_in` leaves, if it does not fail, is a valid queue.
abbrev pub LeavesValid : Option Queue → Type 0
LeavesValid none = Unit
LeavesValid (some q) = IsValid q

-- What `queue_in` leaves of a valid queue is valid.
queue_in-IsValid :
    (q : Queue) (x : ℕ) {q' : Queue} → IsValid q → queue_in q x ≡ some q' → IsValid q'
unfolding queue_in
queue_in-IsValid q x v e = ground arith

contents-queue_in :
    (q : Queue) (x : ℕ) → IsValid q → map_contents (queue_in q x) ≡ push (contents q) x
unfolding queue_in push
contents-queue_in q x v = elim (Bool-cases (q.size == queue_size)) [
  | inl e ↦ rw (length-contents q, e) refl
  | inr e ↦ rw (length-contents q, e) (ap some (contents-store q x v (ground arith)))
]

-- On a valid queue `queue_in` fails exactly when 32 items are held, and otherwise holds the items it
-- held followed by the new one, in a queue that is valid again.
pub queue_in-push :
    (q : Queue) (x : ℕ)
    → IsValid q
    → (map_contents (queue_in q x) ≡ push (contents q) x) × LeavesValid (queue_in q x)
queue_in-push q x v = (contents-queue_in q x v, kept (queue_in q x) refl)
  where
    kept : (o : Option Queue) → queue_in q x ≡ o → LeavesValid o
    kept none e = tt
    kept (some q') e = queue_in-IsValid q x v e

-- On a valid queue `queue_out` fails exactly when nothing is held, and otherwise gives the oldest item
-- and leaves the others in order.
pub queue_out-pop : (q : Queue) → IsValid q → map_rest (queue_out q) ≡ pop (contents q)
unfolding queue_out pop
queue_out-pop q v = elim (Bool-cases (q.size == 0)) [
  | inl e ↦ ground arith
  | inr e ↦ rw (← contents-clear q v (ground arith)) (rw e refl)
]

pub queue_out-IsValid :
    (q : Queue) {x : ℕ} {q' : Queue} → IsValid q → queue_out q ≡ some (x, q') → IsValid q'
unfolding queue_out
queue_out-IsValid q v e = ground arith
