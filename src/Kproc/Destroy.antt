-- ===== src/Kproc/Destroy.antt =====
-- What `kproc_destroy` of src/kproc.c does.
use phase1_myunivos.Base.{
  ==-eq_false, NotIn, [], ap, arith, false, is_negative, minus_one, none, ok, refl, some, subst,
  sym, true, ℕ, ℕ_discrete, ◌++◌, ◌<◌, ◌==◌, ◌∙◌, ◌∷◌, ◌≡◌, ◌≢◌,
}
use phase1_myunivos.Kproc.{kproc_destroy}
use phase1_myunivos.Process.{
  Proc, Procs, QueueRef, entry_or_error, find_entry, pid_to_proc, proc_max, proc_to_entry,
  run_queue, set_proc, zero_proc,
}
use phase1_myunivos.Process.Lookup.{SamePids, find_entry-cong}
use phase1_myunivos.Queue.{queue_in, queue_size}
use phase1_myunivos.Queue.Fifo.{IsValid, contents}
use phase1_myunivos.Queue.Steps.{queue_in_room}
use phase1_myunivos.Scheduler.{forget}
use phase1_myunivos.Scheduler.Remove.{Removed, scheduler_remove_unqueued}

entry_back :
    (p : ℕ) (s s' : Procs)
    → pid_to_proc (s.table p).pid s ≡ some p
    → SamePids s s'
    → proc_to_entry (some p) s' ≡ p
unfolding proc_to_entry pid_to_proc
entry_back p s s' f same = ap entry_or_error (
    ap (λ x. find_entry s'.table x proc_max 0) (sym (same p))
    ∙ sym (find_entry-cong s.table s'.table (s.table p).pid proc_max 0 same)
    ∙ f)

pids_kept : (p : ℕ) (r : QueueRef) (s s' : Procs) → Removed p r s s' → SamePids s s'
pids_kept p r s s' w j = elim (ℕ_discrete j p) [
  | yes e ↦ subst (λ i. (s.table i).pid ≡ (s'.table i).pid) (sym e) (sym w.2)
  | no d ↦ ap (λ (x : Proc). x.pid) (sym (w.4 j d))
]

self : (p : ℕ) → forget p (some p) ≡ none
self p = ground arith

-- The active process, not the idle task: its queue pointer names the run queue, which is valid and
-- does not hold it, its id is looked up to its own entry, and the allocator is valid with room.
-- `kproc_destroy` returns 0 and leaves no active process, the entry cleared and put at the end of
-- the allocator, and the run queue and the other entries as they were.
pub kproc_destroy_active :
    (p : ℕ) (s : Procs)
    → (s.table p).pid ≢ 0
    → p < proc_max
    → pid_to_proc (s.table p).pid s ≡ some p
    → s.active_proc ≡ some p
    → (s.table p).scheduler_queue ≡ some run_queue
    → IsValid s.runnable
    → NotIn (s.table p).pid (contents s.runnable)
    → IsValid s.allocator
    → s.allocator.size < queue_size
    → (s' : Procs) × (kproc_destroy s.active_proc s ≡ ok (0, s'))
      × (s'.active_proc ≡ none)
      × (s'.table p ≡ zero_proc)
      × (contents s'.allocator ≡ contents s.allocator ++ (p ∷ []))
      × (contents s'.runnable ≡ contents s.runnable)
      × ((j : ℕ) → j ≢ p → s'.table j ≡ s.table j)
unfolding kproc_destroy
kproc_destroy_active p s ne b f a q v ni av ar =
    let (s1, e, k, w) = scheduler_remove_unqueued p run_queue s q v ni in
    let z : ((s.table p).pid == 0) ≡ false = ==-eq_false _ 0 ne in
    let i : proc_to_entry (some p) s1 ≡ p = entry_back p s s1 f (pids_kept p run_queue s s1 w) in
    let small : is_negative p ≡ false = ground arith in
    let al : s1.allocator ≡ s.allocator = w.6 in
    let (r, put, rv, rk, rn) = queue_in_room s.allocator p av ar in
    let put1 : queue_in s1.allocator p ≡ some r = ap (λ q. queue_in q p) al ∙ put in
    let t : (p == p) ≡ true = ground arith in
    let done : kproc_destroy (some p) s
        ≡ ok (0, record (set_proc p zero_proc s1) { allocator = r }) =
      rw (z, e, i, small, put1) refl in
    (
      record (set_proc p zero_proc s1) { allocator = r },
      ap (λ o. kproc_destroy o s) a ∙ done,
      w.5 ∙ ap (forget p) a ∙ self p,
      rw t refl,
      rk,
      k,
      λ j d. rw (==-eq_false p j (λ h. d (sym h))) (w.4 j d),
    )

-- The idle task cannot be destroyed: -1, and nothing changes.
pub kproc_destroy_idle :
    (p : ℕ) (s : Procs) → (s.table p).pid ≡ 0 → kproc_destroy (some p) s ≡ ok (minus_one, s)
unfolding kproc_destroy
kproc_destroy_idle p s z = let e : ((s.table p).pid == 0) ≡ true = ground arith in rw e refl
