-- ===== src/Scheduler/Wake/Sleeper.antt =====
-- How long a process sleeps, in ticks of `scheduler_timer` of src/scheduler.c.
use phase1_myunivos.Base.{
  List, Option, Outcome, [], ap, arith, dec, false, inc, inl, inr, is_negative, length, none, ok,
  refl, sign_bit, slt, some, some-inj, subst, suc, sym, true, update_hit, update_miss, zero, ℕ,
  ◌++◌, ◌<◌, ◌>>=◌, ◌∙◌, ◌∷◌, ◌≡◌, ◌≢◌, ◌≤◌,
}
use phase1_myunivos.Kernel.Handlers.{act}
use phase1_myunivos.Process.{Proc, Procs, idle, pid_to_proc, set_proc}
use phase1_myunivos.Process.Lookup.{pid_to_proc-cong, pid_to_proc-set_proc, pid_to_proc_lem}
use phase1_myunivos.ProgUser.Shell.Reading.{round}
use phase1_myunivos.Queue.{queue_out, queue_size}
use phase1_myunivos.Queue.Fifo.{IsValid, contents, length-contents}
use phase1_myunivos.Queue.Steps.{queue_in_room, queue_out_cons}
use phase1_myunivos.Scheduler.{count_time, scheduler_timer, timer_loop, timer_round}
use phase1_myunivos.Scheduler.Choice.{scheduler_add_room}
use phase1_myunivos.Scheduler.Wake.Round.{add-sleepers}
use phase1_myunivos.Vga.{put}

-- The process `x`, in the entry `p`, is the first in the sleep queue, before the processes `xs`, and
-- has the time `t` left; the run queue has room.
pub record Asleep (x p t : ℕ) (xs : List ℕ) (s : Procs) : Type 0 where
  pub sleep_valid : IsValid s.sleepers
  pub queue : contents s.sleepers ≡ x ∷ xs
  pub entry : pid_to_proc x s ≡ some p
  pub time : (s.table p).sleep_time ≡ t
  pub run_valid : IsValid s.runnable
  pub room : s.runnable.size < queue_size

-- The process `x` stands last in the run queue and is idle; the processes `xs` sleep.
pub record Awake (x p : ℕ) (xs : List ℕ) (s s' : Procs) : Type 0 where
  pub run : contents s'.runnable ≡ contents s.runnable ++ (x ∷ [])
  pub is_idle : (s'.table p).state ≡ idle
  pub rest : contents s'.sleepers ≡ xs
  pub others : (j : ℕ) → j ≢ p → (s'.table j).sleep_time ≡ (s.table j).sleep_time

none-ne-some : {e : ℕ} → none ≡ some e → ⊥
none-ne-some h = cc

entry_pid : (x p : ℕ) (s : Procs) → pid_to_proc x s ≡ some p → (s.table p).pid ≡ x
entry_pid x p s f = elim (pid_to_proc_lem x s) [
  | inl (e, found, small, pid, first) ↦ ap (λ j. (s.table j).pid) (some-inj (sym f ∙ found)) ∙ pid
  | inr w ↦ absurd (none-ne-some (sym w.0 ∙ f))
]

-- The time of the active process is counted.
count_time-Asleep :
    (x p t : ℕ) (xs : List ℕ) (s : Procs) (o : Option ℕ)
    → Asleep x p t xs s
    → Asleep x p t xs (count_time o s)
      × ((count_time o s).runnable ≡ s.runnable)
      × ((j : ℕ) → ((count_time o s).table j).sleep_time ≡ (s.table j).sleep_time)
count_time-Asleep x p t xs s none a = (a, refl, λ j. refl)
count_time-Asleep x p t xs s (some e) a =
    let v : Proc = record (s.table e) {
      run_time = inc (s.table e).run_time;
      cpu_time = inc (s.table e).cpu_time;
    } in
    let same = λ (j : ℕ). same_sleep j in
    (
      record {
        sleep_valid = a.sleep_valid;
        queue = a.queue;
        entry = pid_to_proc-set_proc x e v s refl ∙ a.entry;
        time = same p ∙ a.time;
        run_valid = a.run_valid;
        room = a.room;
      },
      refl,
      same,
    )
  where
    same_sleep : (j : ℕ) → ((count_time (some e) s).table j).sleep_time ≡ (s.table j).sleep_time
    same_sleep j = ground arith

-- A round for a process whose time is not over yet: it goes back to the queue, the only one in it.
wait_round :
    (x p t : ℕ) (s : Procs)
    → Asleep x p t [] s
    → is_negative t ≡ false
    → (s' : Procs) × (timer_round s (queue_out s.sleepers) ≡ ok s')
      × Asleep x p (dec t) [] s'
      × (s'.runnable ≡ s.runnable)
      × (s'.sleepers.size ≡ 1)
wait_round x p t s a more =
    let (q, out, v, c, n) = queue_out_cons s.sleepers x [] a.sleep_valid a.queue in
    let empty : q.size ≡ 0 = sym (length-contents q) ∙ ap length c in
    let s1 = record s { sleepers = q } in
    let found : pid_to_proc x s1 ≡ some p = pid_to_proc-cong s1 s x (λ j. refl) ∙ a.entry in
    let w : Proc = record (s.table p) { sleep_time = dec (s.table p).sleep_time } in
    let (q', put, v', c', n') = queue_in_room q x v (omega (arith, empty)) in
    let left : is_negative (s.table p).sleep_time ≡ false = ap is_negative a.time ∙ more in
    let s2 = record (set_proc p w s1) { sleepers = q' } in
    (
      s2,
      rw (out, found, left, put) refl,
      record {
        sleep_valid = v';
        queue = c' ∙ ap (λ r. r ++ (x ∷ [])) c;
        entry = pid_to_proc-cong s2 s1 x (λ j. ground arith) ∙ found;
        time = ap (λ r. r.sleep_time) (update_hit s.table p w p refl) ∙ ap dec a.time;
        run_valid = a.run_valid;
        room = a.room;
      },
      refl,
      omega (arith, n', empty),
    )

-- A round for a process whose time is over.
wake_round :
    (x p t : ℕ) (xs : List ℕ) (s : Procs)
    → Asleep x p t xs s
    → is_negative t ≡ true
    → (s' : Procs) × (timer_round s (queue_out s.sleepers) ≡ ok s')
      × Awake x p xs s s'
      × (s'.sleepers.size ≡ length xs)
wake_round x p t xs s a over =
    let (q, out, v, c, n) = queue_out_cons s.sleepers x xs a.sleep_valid a.queue in
    let s1 = record s { sleepers = q } in
    let found : pid_to_proc x s1 ≡ some p = pid_to_proc-cong s1 s x (λ j. refl) ∙ a.entry in
    let w : Proc = record (s.table p) { sleep_time = dec (s.table p).sleep_time } in
    let s2 = set_proc p w s1 in
    let due : is_negative (s.table p).sleep_time ≡ true = ap is_negative a.time ∙ over in
    let id : (s2.table p).pid ≡ x =
      ap (λ r. r.pid) (update_hit s.table p w p refl) ∙ entry_pid x p s a.entry in
    let (s', add, v', run, st, cpu, queue, others, pids, act) =
      scheduler_add_room p s2 a.run_valid a.room in
    let z = add-sleepers p s2 s' add in
    (
      s',
      rw (out, found, due) add,
      record {
        run = run ∙ ap (λ i. contents s.runnable ++ (i ∷ [])) id;
        is_idle = st;
        rest = ap contents z ∙ c;
        others = λ j ne. ap (λ r. r.sleep_time) (others j ne ∙ update_miss s.table p w j ne);
      },
      ap (λ r. r.size) z ∙ sym (length-contents q) ∙ ap length c,
    )

-- The loop after one round that leaves no more processes than were counted.
loop_once :
    (f : ℕ) (s s' : Procs)
    → s.sleepers.size ≢ 0
    → s.sleepers.size ≤ queue_size
    → timer_round s (queue_out s.sleepers) ≡ ok s'
    → s'.sleepers.size ≤ 1
    → timer_loop (suc (suc f)) 0 s ≡ ok s'
unfolding timer_loop
loop_once f s s' some_sleep small round last =
    let first : slt 0 s.sleepers.size ≡ true = ground arith in
    let done : slt (inc 0) s'.sleepers.size ≡ false = ground arith in rw (first, round, done) refl

-- One tick for the only process that sleeps, when its time is not over.
tick_waits :
    (x p t : ℕ) (s : Procs)
    → Asleep x p t [] s
    → is_negative t ≡ false
    → (s' : Procs) × (scheduler_timer s ≡ ok s')
      × Asleep x p (dec t) [] s'
      × (s'.runnable ≡ s.runnable)
unfolding scheduler_timer
tick_waits x p t s a more =
    let s0 = count_time s.active_proc s in
    let (a0, q0, same) = count_time-Asleep x p t [] s s.active_proc a in
    let (s', round, a', q, n) = wait_round x p t s0 a0 more in
    (
      s',
      loop_once 31 s0 s' (omega (arith, length-contents s0.sleepers, ap length a0.queue))
          (omega (arith, length-contents s0.sleepers, ap length a0.queue)) round (omega (arith, n)),
      a',
      q ∙ q0,
    )

-- One tick for a process whose time is over, when at most one other process sleeps behind it.
tick_wakes :
    (x p t : ℕ) (xs : List ℕ) (s : Procs)
    → Asleep x p t xs s
    → is_negative t ≡ true
    → length xs ≤ 1
    → (s' : Procs) × (scheduler_timer s ≡ ok s') × Awake x p xs s s'
unfolding scheduler_timer
tick_wakes x p t xs s a over few =
    let s0 = count_time s.active_proc s in
    let (a0, q0, same) = count_time-Asleep x p t xs s s.active_proc a in
    let (s', round, w, n) = wake_round x p t xs s0 a0 over in
    (
      s',
      loop_once 31 s0 s' (omega (arith, length-contents s0.sleepers, ap length a0.queue))
          (omega (arith, length-contents s0.sleepers, ap length a0.queue, few)) round
          (omega (arith, n, few)),
      record {
        run = w.run ∙ ap (λ q. contents q ++ (x ∷ [])) q0;
        is_idle = w.is_idle;
        rest = w.rest;
        others = λ j ne. w.others j ne ∙ same j;
      },
    )

-- Ticks of the scheduler one after the other.
unfoldable pub tick_each : ℕ → Procs → Outcome Procs
tick_each zero s = ok s
tick_each (suc n) s = scheduler_timer s >>= tick_each n

-- A process that is found under its id and sleeps alone, with the time `t` left, which is not
-- negative, when both queues are valid and the run queue has room: for `t + 1` ticks of the
-- scheduler it sleeps and the run queue stays as it is; the tick after them puts it last into the
-- run queue, idle, and leaves the sleep queue empty. All these ticks return.
pub scheduler_timer_wakes :
    (x p t : ℕ) (s : Procs)
    → Asleep x p t [] s
    → t < sign_bit
    → (s1 : Procs) × (s2 : Procs) × (tick_each (suc t) s ≡ ok s1)
      × (contents s1.sleepers ≡ x ∷ [])
      × (contents s1.runnable ≡ contents s.runnable)
      × (scheduler_timer s1 ≡ ok s2)
      × Awake x p [] s1 s2
unfolding tick_each
scheduler_timer_wakes x p zero s a small =
    let (s1, e, a1, q) = tick_waits x p 0 s a refl in
    let (s2, e2, w) = tick_wakes x p (dec 0) [] s1 a1 refl (omega arith) in
    (s1, s2, rw e refl, a1.queue, ap contents q, e2, w)
scheduler_timer_wakes x p (suc t) s a small =
    let (s', e, a', q) = tick_waits x p (suc t) s a (ground arith) in
    let less : dec (suc t) ≡ t = omega arith in
    let (s1, s2, run, asleep, same, e2, w) =
      scheduler_timer_wakes x p t s' (subst (λ r. Asleep x p r [] s') less a') (omega arith) in
    (s1, s2, rw e run, asleep, same ∙ ap contents q, e2, w)

-- Two processes sleep, the time of the first, `x`, which is found in the entry `p`, is over, both
-- queues are valid and the run queue has room: the tick returns, `x` stands last in the run queue,
-- the second one still sleeps, and the sleep time of every entry but `p` is as before, so that no
-- time is counted for the second one.
pub scheduler_timer_skips :
    (x p t y p' : ℕ) (s : Procs)
    → Asleep x p t (y ∷ []) s
    → is_negative t ≡ true
    → p' ≢ p
    → (s' : Procs) × (scheduler_timer s ≡ ok s')
      × (contents s'.runnable ≡ contents s.runnable ++ (x ∷ []))
      × (contents s'.sleepers ≡ y ∷ [])
      × ((s'.table p').sleep_time ≡ (s.table p').sleep_time)
scheduler_timer_skips x p t y p' s a over ne =
    let (s', e, w) = tick_wakes x p t (y ∷ []) s a over (omega arith) in
    (s', e, w.run, w.rest, w.others p' ne)
