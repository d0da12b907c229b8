-- ===== src/Queue.antt =====
-- src/queue.c and include/queue.h: the circular queue of 32 `int`s. A `queue_t *` is the queue that
-- it points to, a function that writes to it returns the new one, and `none` is the return of -1,
-- before which nothing is written. The null tests of the pointers are not modelled: the callers
-- pass the address of a variable.
pub mod Fifo
pub mod Steps
use phase1_myunivos.Base.{
  ℕ, Bool, List, [], ◌∷◌, Option, none, some, ◌==◌, if◌then◌else◌, update, inc, dec,
}

abbrev pub queue_size : ℕ
queue_size = 32

-- `queue_t`
pub record Queue : Type 0 where
  pub head : ℕ
  pub tail : ℕ
  pub size : ℕ
  pub items : ℕ → ℕ

unfoldable pub queue_init : Queue
queue_init = record { head = 0; tail = 0; size = 0; items = λ i. 0 }

unfoldable pub queue_is_empty : Queue → Bool
queue_is_empty q = q.size == 0

-- `tail++`, or 0 at the end of the array.
abbrev pub advance : ℕ → ℕ
advance i = if inc i == queue_size then 0 else inc i

unfoldable pub queue_in : Queue → ℕ → Option Queue
queue_in q item =
    if q.size == queue_size
    then none
    else some
        (record q { items = update q.items q.tail item; tail = advance q.tail; size = inc q.size })

-- The number beside the queue goes through `item`.
unfoldable pub queue_out : Queue → Option (ℕ × Queue)
queue_out q =
    if q.size == 0
    then none
    else some (
      q.items q.head,
      record q { items = update q.items q.head 0; head = advance q.head; size = dec q.size },
    )
