-- ===== src/Kproc/Create.antt =====
-- What `kproc_create` of src/kproc.c does.
use phase1_myunivos.Base.{
  ==-eq_false, List, [], arith, false, inc, minus_one, ok, refl, some, true, ℕ, ◌++◌, ◌<◌, ◌==◌,
  ◌∷◌, ◌≡◌, ◌≢◌,
}
use phase1_myunivos.Kproc.{Machine, kproc_create, new_proc}
use phase1_myunivos.Process.{ProcType, Procs, run_queue, set_proc}
use phase1_myunivos.Queue.{queue_size}
use phase1_myunivos.Queue.Fifo.{IsValid, contents}
use phase1_myunivos.Queue.Steps.{queue_in_room, queue_out_cons, queue_out_empty}
use phase1_myunivos.Scheduler.{scheduler_add}
use phase1_myunivos.Vga.{put}

-- With an entry left in a valid allocator, room in a valid run queue, and a program and a name that
-- are not NULL, `kproc_create` returns the next process id and counts it up; the oldest free entry
-- leaves the allocator and holds a new process with that id, idle, with the name, the type, the
-- start time, a trapframe at the start of the program and its own stack; its id stands last in the
-- run queue; both queues are valid, and no other entry, nor the sleep queue or the active process,
-- changes.
pub kproc_create_fresh :
    (m : Machine) (ticks proc_ptr entry : ℕ) (name : List ℕ) (type : ProcType) (s : Procs)
    (rest : List ℕ)
    → proc_ptr ≢ 0
    → IsValid s.allocator
    → contents s.allocator ≡ entry ∷ rest
    → IsValid s.runnable
    → s.runnable.size < queue_size
    → (s' : Procs) × (kproc_create m ticks proc_ptr (some name) type s ≡ ok (s.next_pid, s'))
      × (s'.next_pid ≡ inc s.next_pid)
      × (contents s'.allocator ≡ rest)
      × (contents s'.runnable ≡ contents s.runnable ++ (s.next_pid ∷ []))
      × (s'.table entry ≡ record (new_proc m ticks proc_ptr name type s.next_pid entry) {
        scheduler_queue = some run_queue;
      })
      × ((j : ℕ) → j ≢ entry → s'.table j ≡ s.table j)
      × IsValid s'.allocator
      × IsValid s'.runnable
      × (s'.sleepers ≡ s.sleepers)
      × (s'.active_proc ≡ s.active_proc)
unfolding kproc_create scheduler_add
kproc_create_fresh m ticks proc_ptr entry name type s rest ne av ac rv rr =
    let (q, out, v, c, n) = queue_out_cons s.allocator entry rest av ac in
    let (r, put, v', c', n') = queue_in_room s.runnable s.next_pid rv rr in
    let z : (proc_ptr == 0) ≡ false = ==-eq_false proc_ptr 0 ne in
    let t : (entry == entry) ≡ true = ground arith in
    let new = new_proc m ticks proc_ptr name type s.next_pid entry in
    let s1 = set_proc entry new (record s { allocator = q; next_pid = inc s.next_pid }) in
    let s2 = set_proc entry (record new { scheduler_queue = some run_queue }) s1 in
    (
      record s2 { runnable = r },
      rw (z, out) (rw t (rw put (rw t refl))),
      refl,
      c,
      c',
      rw t refl,
      (λ j d. ground arith),
      v,
      v',
      refl,
      refl,
    )

-- With no entry left, `kproc_create` returns -1 and changes nothing.
pub kproc_create_full :
    (m : Machine) (ticks proc_ptr : ℕ) (name : List ℕ) (type : ProcType) (s : Procs)
    → proc_ptr ≢ 0
    → s.allocator.size ≡ 0
    → kproc_create m ticks proc_ptr (some name) type s ≡ ok (minus_one, s)
unfolding kproc_create
kproc_create_full m ticks proc_ptr name type s ne z =
    rw (==-eq_false proc_ptr 0 ne, queue_out_empty s.allocator z) refl
