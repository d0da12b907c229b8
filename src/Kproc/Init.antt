-- ===== src/Kproc/Init.antt =====
-- The processes that `kproc_init` of src/kproc.c leaves.
pub mod Run
use phase1_myunivos.Base.{
  List, Option, [], ap, ap₂, arith, below_or_not, codes, equal_or_not, false, if◌then◌else◌, inl,
  inr, length, ltb, none, ok, out_of_range, refl, some, subst, suc, sym, update_miss, zero, ℕ, ◌%◌,
  ◌++◌, ◌+◌, ◌-◌, ◌<◌, ◌==◌, ◌∙◌, ◌∷◌, ◌≡◌, ◌≢◌, ◌≤◌,
}
use phase1_myunivos.Base.Window.{window}
use phase1_myunivos.Kproc.{
  Machine, attach, fill, first_trapframe, game_tty, kproc_attach_tty, kproc_create, kproc_init,
  new_proc, spawn,
}
use phase1_myunivos.Kproc.Create.{kproc_create_fresh}
use phase1_myunivos.Process.{
  IoBuf, Proc, ProcType, Procs, Trapframe, idle, io_input, io_output, kernel, pid_to_proc, proc_max,
  run_queue, set_proc, user, zero_proc,
}
use phase1_myunivos.Process.Lookup.{pid_to_proc_lem}
use phase1_myunivos.Queue.{Queue, queue_in, queue_init, queue_size}
use phase1_myunivos.Queue.Fifo.{IsValid, contents, length-contents}
use phase1_myunivos.Scheduler.{choose}
use phase1_myunivos.Tty.{tty_get}

-- The numbers from `a` on, as many as given.
unfoldable pub count_up : ℕ → ℕ → List ℕ
count_up zero a = []
count_up (suc k) a = a ∷ count_up k (a + 1)

count_up-last : (k a : ℕ) → count_up k a ++ ((a + k) ∷ []) ≡ count_up (suc k) a
unfolding count_up
count_up-last zero a = ap (λ n. n ∷ []) (omega arith)
count_up-last (suc k) a =
    ap (λ xs. a ∷ xs)
      (ap (λ n. count_up k (a + 1) ++ (n ∷ [])) (omega arith) ∙ count_up-last k (a + 1))

-- The process in the entry `j` after it was created.
pub record Fresh (j : ℕ) (p : Proc) : Type 0 where
  pub same_pid : p.pid ≡ j
  pub is_idle : p.state ≡ idle
  pub in_queue : p.scheduler_queue ≡ some run_queue
  pub has_frame : (tf : Trapframe) × (p.trapframe ≡ some tf)

-- With `n` processes: they stand in the first entries, each in the entry of its id, and in the run
-- queue in this order, and the other entries are cleared and wait in the allocator; no process
-- sleeps or runs.
pub record Booted (n : ℕ) (s : Procs) : Type 0 where
  pub next : s.next_pid ≡ n
  pub free_valid : IsValid s.allocator
  pub free : contents s.allocator ≡ count_up (20 - n) n
  pub run_valid : IsValid s.runnable
  pub run : contents s.runnable ≡ count_up n 0
  pub sleep_valid : IsValid s.sleepers
  pub none_sleep : s.sleepers.size ≡ 0
  pub none_runs : s.active_proc ≡ none
  pub fresh : (j : ℕ) → j < n → Fresh j (s.table j)
  pub unused : (j : ℕ) → n ≤ j → s.table j ≡ zero_proc

length-count_up : (k a : ℕ) → length (count_up k a) ≡ k
unfolding count_up
length-count_up zero a = refl
length-count_up (suc k) a = ap suc (length-count_up k (a + 1))

pub Booted-size : (n : ℕ) (s : Procs) → Booted n s → s.runnable.size ≡ n
Booted-size n s b = sym (length-contents s.runnable) ∙ ap length b.run ∙ length-count_up n 0

-- Each process is found in the entry of its id.
pub Booted-find : (n j : ℕ) (s : Procs) → Booted n s → j < n → n ≤ 20 → pid_to_proc j s ≡ some j
Booted-find n j s b lt le = elim (pid_to_proc_lem j s) [
  | inr (missing, out) ↦ absurd (out j (omega arith) (b.fresh j lt).same_pid)
  | inl (e, found, small, pid, first) ↦ elim (below_or_not j e) [
    | inl after ↦ absurd (first j after (b.fresh j lt).same_pid)
    | inr le' ↦ found ∙ ap some (sym (b.fresh e (omega arith)).same_pid ∙ pid)
  ]
]

new-Fresh :
    (m : Machine) (ticks program : ℕ) (name : List ℕ) (type : ProcType) (pid entry j : ℕ) (p : Proc)
    → pid ≡ j
    → p ≡ record (new_proc m ticks program name type pid entry) { scheduler_queue = some run_queue }
    → Fresh j p
new-Fresh m ticks program name type pid entry j p h e = subst (Fresh j) (sym e) (record {
  same_pid = h;
  is_idle = refl;
  in_queue = refl;
  has_frame = (first_trapframe m program, refl);
})

-- One more process.
create-Booted :
    (m : Machine) (ticks program : ℕ) (name : List ℕ) (type : ProcType) (n : ℕ) (s : Procs)
    → program ≢ 0
    → n < 20
    → Booted n s
    → (s' : Procs) × (kproc_create m ticks program (some name) type s ≡ ok (n, s'))
      × Booted (suc n) s'
      × ((s'.table n).io 0 ≡ none)
      × ((j : ℕ) → j ≢ n → s'.table j ≡ s.table j)
create-Booted m ticks program name type n s ne lt b =
    let more : 20 - n ≡ suc (20 - suc n) = omega arith in
    let split : count_up (20 - n) n ≡ n ∷ count_up (20 - suc n) (n + 1) =
      unfold count_up in ap (λ k. count_up k n) more in
    let (s', e, next, free, run, new, others, av, rv, sl, ac) =
      kproc_create_fresh m ticks program n name type s (count_up (20 - suc n) (n + 1)) ne
        b.free_valid (b.free ∙ split) b.run_valid (omega (arith, Booted-size n s b)) in
    (
      s',
      e ∙ ap (λ k. ok (k, s')) b.next,
      record {
        next = next ∙ omega (arith, b.next);
        free_valid = av;
        free = free ∙ ap (count_up (20 - suc n)) (omega arith);
        run_valid = rv;
        run = run ∙ ap₂ (λ xs k. xs ++ (k ∷ [])) b.run (b.next ∙ omega arith) ∙ count_up-last n 0;
        sleep_valid = rw sl b.sleep_valid;
        none_sleep = rw sl b.none_sleep;
        none_runs = ac ∙ b.none_runs;
        fresh = λ j h. elim (equal_or_not j n) [
          | inl at ↦
              new-Fresh m ticks program name type s.next_pid n j (s'.table j) (b.next ∙ sym at)
                (ap s'.table at ∙ new)
          | inr ne ↦ subst (Fresh j) (sym (others j ne)) (b.fresh j (omega arith))
        ];
        unused = λ j h. others j (omega arith) ∙ b.unused j (omega arith);
      },
      rw new refl,
      others,
    )

abbrev pub Attached : Option ℕ → Proc → Type 0
Attached none p = p.io 0 ≡ none
Attached (some k) p = (p.io 0 ≡ some (io_input k)) × (p.io 1 ≡ some (io_output k))

set_io-Fresh :
    (p j : ℕ) (f : ℕ → Option IoBuf) (s : Procs)
    → Fresh j (s.table j)
    → Fresh j ((set_proc p (record (s.table p) { io = f }) s).table j)
set_io-Fresh p j f s h = record {
  same_pid = ground (arith, h.same_pid);
  is_idle = ground (arith, h.is_idle);
  in_queue = ground (arith, h.in_queue);
  has_frame = (h.has_frame.0, ground (arith, h.has_frame.1));
}

set_io-Booted :
    (n p : ℕ) (f : ℕ → Option IoBuf) (s : Procs)
    → p < n
    → Booted n s
    → Booted n (set_proc p (record (s.table p) { io = f }) s)
set_io-Booted n p f s lt b = record {
  next = b.next;
  free_valid = b.free_valid;
  free = b.free;
  run_valid = b.run_valid;
  run = b.run;
  sleep_valid = b.sleep_valid;
  none_sleep = b.none_sleep;
  none_runs = b.none_runs;
  fresh = λ j h. set_io-Fresh p j f s (b.fresh j h);
  unused =
      λ j h. update_miss s.table p (record (s.table p) { io = f }) j (omega arith) ∙ b.unused j h;
}

attach-Booted :
    (n p k : ℕ) (s : Procs)
    → Booted n s
    → p < n
    → n ≤ 20
    → k < 10
    → (s' : Procs) × (kproc_attach_tty p k s ≡ ok (0, s'))
      × Booted n s'
      × Attached (some k) (s'.table p)
      × ((j : ℕ) → j ≢ p → s'.table j ≡ s.table j)
unfolding kproc_attach_tty tty_get
attach-Booted n p k s b lt le small =
    let inside : out_of_range k 10 ≡ false = ground arith in
    (
      (attach (some p) k s).1,
      rw (inside, Booted-find n p s b lt le) refl,
      set_io-Booted n p _ s lt b,
      (ground arith, ground arith),
      λ j ne. ground arith,
    )

-- The terminals that the first `n` processes are attached to.
abbrev pub AttachedTo : (ℕ → Option ℕ) → ℕ → Procs → Type 0
AttachedTo t n s = (j : ℕ) → j < n → Attached (t j) (s.table j)

-- The process `n`, of the round `i`, gets the terminal that is meant for it.
abbrev Chosen : (ℕ → ℕ → ℕ) → (ℕ → Option ℕ) → ℕ → ℕ → Type 0
Chosen choose t i n = (choose i n < 10) × (t n ≡ some (choose i n))

subst_both : (P : ℕ → ℕ → Type 0) (a b c d : ℕ) → a ≡ c → b ≡ d → P a b → P c d
subst_both P a b c d e e' p = subst (P c) e' (subst (λ x. P x b) e p)

-- A loop of `kproc_init` that creates `k` processes from the `n`-th on.
spawn-Booted :
    (m : Machine) (ticks program : ℕ) (name : List ℕ) (choose : ℕ → ℕ → ℕ) (t : ℕ → Option ℕ)
    (k i n : ℕ) (s : Procs)
    → program ≢ 0
    → n + k ≤ 20
    → ((j : ℕ) → j < k → Chosen choose t (i + j) (n + j))
    → Booted n s
    → AttachedTo t n s
    → (s' : Procs) × (spawn m ticks program name choose k i s ≡ ok s')
      × Booted (n + k) s'
      × AttachedTo t (n + k) s'
unfolding spawn
spawn-Booted m ticks program name choose t zero i n s ne le at b a =
    let z : n ≡ n + 0 = omega arith in
    (s, refl, subst (λ k. Booted k s) z b, subst (λ k. AttachedTo t k s) z a)
spawn-Booted m ticks program name choose t (suc k) i n s ne le at b a =
    let (s1, e1, b1, io1, same1) = create-Booted m ticks program name user n s ne (omega arith) b in
    let here =
      subst_both (Chosen choose t) (i + 0) (n + 0) i n (omega arith) (omega arith)
        (at 0 (omega arith)) in
    let (s2, e2, b2, io2, same2) =
      attach-Booted (suc n) n (choose i n) s1 b1 (omega arith) (omega arith) here.0 in
    let a2 : AttachedTo t (suc n) s2 = λ j h. elim (equal_or_not j n) [
      | inl now ↦
          subst (λ k. Attached (t k) (s2.table k)) (sym now)
            (subst (λ o. Attached o (s2.table n)) (sym here.1) io2)
      | inr old ↦ subst (Attached (t j)) (sym (same2 j old ∙ same1 j old)) (a j (omega arith))
    ] in
    let (s3, e3, b3, a3) =
      spawn-Booted m ticks program name choose t k (i + 1) (suc n) s2 ne (omega arith)
        (λ j h.
          subst_both (Chosen choose t) (i + suc j) (n + suc j) (i + 1 + j) (suc n + j) (omega arith)
            (omega arith) (at (suc j) (omega arith)))
        b2 a2 in
    let z : suc n + k ≡ n + suc k = omega arith in
    (s3, rw (e1, e2) e3, subst (λ k. Booted k s3) z b3, subst (λ k. AttachedTo t k s3) z a3)

-- The terminal meant for each process: none for the first, the idle task; its own number for each of
-- the four shells; and the last two in turn for the games.
abbrev pub terminal_of : ℕ → Option ℕ
terminal_of j = if j == 0 then none else if ltb j 5 then some j else some (9 - j % 2)

filled : IsValid (fill 20 0 queue_init) × (contents (fill 20 0 queue_init) ≡ count_up 20 0)
unfolding fill queue_in queue_init count_up
filled = (ground arith, refl)

no_contents : (q : Queue) → q.size ≡ 0 → contents q ≡ count_up 0 0
unfolding count_up
no_contents q e = ap (window q.items queue_size q.head) e

-- From an empty scheduler, with programs that are not NULL, `kproc_init` returns with 11 processes: the
-- ids 0 to 10, each in the entry of its id, idle, with a saved trapframe, in the run queue in this
-- order; the other 9 entries are cleared and wait in the allocator; no process sleeps or runs; the
-- first process is attached to no terminal, the next four to the terminals 1 to 4, and the others by
-- turns to 8 and 9.
pub kproc_init_boots :
    (m : Machine) (ticks : ℕ) (s : Procs)
    → m.kproc_idle ≢ 0
    → m.prog_shell ≢ 0
    → m.prog_ping ≢ 0
    → m.prog_pong ≢ 0
    → s.next_pid ≡ 0
    → s.active_proc ≡ none
    → IsValid s.runnable
    → s.runnable.size ≡ 0
    → IsValid s.sleepers
    → s.sleepers.size ≡ 0
    → (s' : Procs) × (kproc_init m ticks s ≡ ok s') × Booted 11 s' × AttachedTo terminal_of 11 s'
unfolding kproc_init
kproc_init_boots m ticks s hi hs hp hq next none_runs rv rs sv ss =
    let s0 = record s { allocator = fill proc_max 0 queue_init; table = λ i. zero_proc } in
    let b0 : Booted 0 s0 = record {
      next = next;
      free_valid = filled.0;
      free = filled.1;
      run_valid = rv;
      run = no_contents s.runnable rs;
      sleep_valid = sv;
      none_sleep = ss;
      none_runs = none_runs;
      fresh = λ j h. absurd (omega arith);
      unused = λ j h. refl;
    } in
    let (s1, e1, b1, io1, same1) =
      create-Booted m ticks m.kproc_idle (codes "idle") kernel 0 s0 hi (omega arith) b0 in
    let first : AttachedTo terminal_of 1 s1 = λ j h.
      let start : 0 ≡ j = omega arith in
      subst (λ k. Attached (terminal_of k) (s1.table k)) start io1 in
    let (s2, e2, b2, a2) =
      spawn-Booted m ticks m.prog_shell (codes "shell") (λ i pid. i) terminal_of 4 1 1 s1 hs
        (omega arith) (λ j h. (omega arith, ground arith)) b1 first in
    let (s3, e3, b3, a3) =
      spawn-Booted m ticks m.prog_ping (codes "ping") (λ i pid. game_tty pid) terminal_of 3 0 5 s2
        hp (omega arith) (λ j h. (ground arith, ground arith)) b2 a2 in
    let (s4, e4, b4, a4) =
      spawn-Booted m ticks m.prog_pong (codes "pong") (λ i pid. game_tty pid) terminal_of 3 0 8 s3
        hq (omega arith) (λ j h. (ground arith, ground arith)) b3 a3 in
    (s4, rw (e1, e2, e3) e4, b4, a4)
