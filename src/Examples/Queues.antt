-- ===== src/Examples/Queues.antt =====
-- The queue: items across the end of the array.
use phase1_myunivos.Base.{◌≡◌}
use phase1_myunivos.Examples.Data.{three_items, three_items-IsValid}
use phase1_myunivos.Queue.{queue_in, queue_out}
use phase1_myunivos.Queue.Fifo.{
  LeavesValid, contents, map_contents, map_rest, pop, push, queue_in-push, queue_out-pop,
}

queue_in-push_example :
    (map_contents (queue_in three_items 9) ≡ push (contents three_items) 9)
    × LeavesValid (queue_in three_items 9)
queue_in-push_example = queue_in-push three_items 9 three_items-IsValid

queue_out-pop_example : map_rest (queue_out three_items) ≡ pop (contents three_items)
queue_out-pop_example = queue_out-pop three_items three_items-IsValid
