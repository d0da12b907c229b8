-- ===== src/Scheduler/RoundTrip.antt =====
-- Adding a process to the scheduler and removing it again.
use phase1_myunivos.Base.{
  NotIn, [], ap, none, ok, some, subst, sym, ℕ, ◌++◌, ◌<◌, ◌∙◌, ◌∷◌, ◌≡◌, ◌≢◌,
}
use phase1_myunivos.Process.{Procs, idle, run_queue}
use phase1_myunivos.Queue.{queue_size}
use phase1_myunivos.Queue.Fifo.{IsValid, contents}
use phase1_myunivos.Scheduler.{forget, scheduler_add, scheduler_remove}
use phase1_myunivos.Scheduler.Choice.{scheduler_add_room}
use phase1_myunivos.Scheduler.Remove.{scheduler_remove_last}

-- A process whose id the run queue does not hold, added with room in the queue and then removed: both
-- calls return, the run queue has the items that it had in the same order, the process is idle
-- without a queue, it is not the active one, and the other entries of the table are as before.
pub scheduler_remove-scheduler_add :
    (p : ℕ) (s : Procs)
    → IsValid s.runnable
    → s.runnable.size < queue_size
    → NotIn (s.table p).pid (contents s.runnable)
    → (s' : Procs) × (s'' : Procs) × (scheduler_add (some p) s ≡ ok s')
      × (scheduler_remove (some p) s' ≡ ok s'')
      × (contents s''.runnable ≡ contents s.runnable)
      × ((s''.table p).scheduler_queue ≡ none)
      × ((s''.table p).state ≡ idle)
      × (s''.active_proc ≡ forget p s.active_proc)
      × ((j : ℕ) → j ≢ p → s''.table j ≡ s.table j)
scheduler_remove-scheduler_add p s v room ni =
    let (s', e, v', c, st, cpu, q, others, pids, a) = scheduler_add_room p s v room in
    let id : (s'.table p).pid ≡ (s.table p).pid = sym (pids p) in
    let (s'', e', c', (v'', q'', id'', st'', others'', a'', al)) =
      scheduler_remove_last p run_queue s' (contents s.runnable) q v'
        (c ∙ ap (λ x. contents s.runnable ++ (x ∷ [])) (sym id))
        (subst (λ x. NotIn x (contents s.runnable)) (sym id) ni) in
    (s', s'', e, e', c', q'', st'' ∙ st, a'' ∙ ap (forget p) a, λ j ne. others'' j ne ∙ others j ne)
