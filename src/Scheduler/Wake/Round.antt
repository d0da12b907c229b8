-- ===== src/Scheduler/Wake/Round.antt =====
-- One round of the loop of `scheduler_timer`.
use phase1_myunivos.Base.{
  All, All-append, All-map, Bool-cases, List, Option, [], ap, arith, dec, halt, inl, inr,
  is_negative, length, length-append, none, ok, panic, refl, some, subst, suc, sym, ℕ, ◌+◌, ◌<◌,
  ◌∙◌, ◌∷◌, ◌≡◌, ◌≢◌, ◌≤◌,
}
use phase1_myunivos.Process.{Procs, idle, pid_to_proc, run_queue, set_proc}
use phase1_myunivos.Process.Lookup.{Found, Found-cong, SamePids}
use phase1_myunivos.Queue.{Queue, queue_in, queue_out, queue_size}
use phase1_myunivos.Queue.Fifo.{IsValid, contents, length-contents}
use phase1_myunivos.Queue.Steps.{queue_in_room, queue_out_cons}
use phase1_myunivos.Scheduler.{put_runnable, scheduler_add, timer_round, wake_or_wait}
use phase1_myunivos.Scheduler.Choice.{Ready, scheduler_add_room}
use phase1_myunivos.Scheduler.Progress.{Found_entry, Ready-cong}
use phase1_myunivos.Vga.{put}

-- What the tick relies on: the scheduler's invariant, a valid sleep queue, and room in the run queue
-- for all that sleep and for one process more.
pub record Timed (s : Procs) : Type 0 where
  pub ready : Ready s
  pub asleep : IsValid s.sleepers
  pub room : s.runnable.size + s.sleepers.size < queue_size

-- What a round of the tick keeps, from the state `s` without the process that it took out.
pub record Kept (s s' : Procs) : Type 0 where
  pub timed : Timed s'
  pub same_active : s'.active_proc ≡ s.active_proc
  pub no_longer : s'.runnable.size + s'.sleepers.size ≤ s.runnable.size + suc s.sleepers.size

put-sleepers :
    (s s' : Procs) (q : Option Queue) → put_runnable s q ≡ ok s' → s'.sleepers ≡ s.sleepers
put-sleepers s s' none h = absurd (halt-ne-ok h)
  where
    halt-ne-ok : halt panic ≡ ok s' → ⊥
    halt-ne-ok h = cc
put-sleepers s s' (some q) h = ground arith

pub add-sleepers :
    (p : ℕ) (s s' : Procs) → scheduler_add (some p) s ≡ ok s' → s'.sleepers ≡ s.sleepers
unfolding scheduler_add
add-sleepers p s s' h =
    let s1 =
      set_proc p
        (record (s.table p) { scheduler_queue = some run_queue; state = idle; cpu_time = 0 }) s in
    put-sleepers s1 s' (queue_in s.runnable (s.table p).pid) h

-- A process that wakes goes to the run queue.
wake :
    (s : Procs) (p : ℕ)
    → Timed s
    → Found s (s.table p).pid
    → s.runnable.size + suc s.sleepers.size < queue_size
    → (s' : Procs) × (scheduler_add (some p) s ≡ ok s') × Kept s s'
wake s p t f room =
    let (s', e, v, c, st, cpu, q, others, pids, a) =
      scheduler_add_room p s t.ready.valid (omega (arith, room)) in
    let z = add-sleepers p s s' e in
    let n : s'.runnable.size ≡ suc s.runnable.size = omega (
      arith,
      length-contents s'.runnable,
      ap length c,
      length-append (contents s.runnable) ((s.table p).pid ∷ []),
      length-contents s.runnable,
    ) in
    (
      s',
      e,
      record {
        timed = record {
          ready = record {
            valid = v;
            queued = subst (All (Found s')) (sym c) (
                All-append (Found s') (contents s.runnable) ((s.table p).pid ∷ [])
                  (All-map (Found s) (Found s') (contents s.runnable) (Found-cong s s' pids)
                    t.ready.queued)
                  (Found-cong s s' pids (s.table p).pid f, tt));
            idle_task = Found-cong s s' pids 0 t.ready.idle_task;
            running = λ j h.
                Found-cong s s' pids (s'.table j).pid
                  (subst (Found s) (pids j) (t.ready.running j (sym a ∙ h)));
          };
          asleep = rw z t.asleep;
          room = omega (arith, n, ap (λ (q : Queue). q.size) z, room);
        };
        same_active = a;
        no_longer = omega (arith, n, ap (λ (q : Queue). q.size) z);
      },
    )

-- Another sleep queue, no longer, and the process table with the same process ids.
pub Timed-cong :
    (s s' : Procs)
    → s'.runnable ≡ s.runnable
    → s'.active_proc ≡ s.active_proc
    → SamePids s s'
    → IsValid s'.sleepers
    → s'.sleepers.size ≤ s.sleepers.size
    → Timed s
    → Timed s'
Timed-cong s s' q a same v le t = record {
  ready = Ready-cong s s' q a same t.ready;
  asleep = v;
  room = omega (arith, ap (λ (r : Queue). r.size) q, t.room, le);
}

count_down : ℕ → Procs → Procs
count_down p s = set_proc p (record (s.table p) { sleep_time = dec (s.table p).sleep_time }) s

count_down-pids : (p : ℕ) (s : Procs) → SamePids s (count_down p s)
unfolding count_down
count_down-pids p s j = ground arith

-- The process taken out of the sleep queue, `pid`, found or not: it is woken, put back, or, when no
-- entry has its id, dropped.
wake_or_wait-Kept :
    (pid : ℕ) (o : Option ℕ) (s : Procs)
    → pid_to_proc pid s ≡ o
    → Timed s
    → s.runnable.size + suc s.sleepers.size < queue_size
    → (s' : Procs) × (wake_or_wait pid o s ≡ ok s') × Kept s s'
unfolding count_down
wake_or_wait-Kept pid none s f t room =
    (s, refl, record { timed = t; same_active = refl; no_longer = omega arith })
wake_or_wait-Kept pid (some p) s f t room = elim (Bool-cases (is_negative (s.table p).sleep_time)) [
  | inl awake ↦
      let s1 = count_down p s in
      let t1 = Timed-cong s s1 refl refl (count_down-pids p s) t.asleep (omega arith) t in
      let g =
        Found-cong s s1 (count_down-pids p s) (s1.table p).pid
          (subst (Found s) (count_down-pids p s p) (Found_entry s pid p f)) in
      let (s', e, k) = wake s1 p t1 g room in
      (
        s',
        rw awake e,
        record { timed = k.timed; same_active = k.same_active; no_longer = k.no_longer },
      )
  | inr asleep ↦
      let (q, put, v, c, n) = queue_in_room s.sleepers pid t.asleep (omega (arith, room)) in
      (
        record (count_down p s) { sleepers = q },
        rw (asleep, put) refl,
        record {
          timed = record {
            ready =
                Ready-cong s (record (count_down p s) { sleepers = q }) refl refl
                  (count_down-pids p s) t.ready;
            asleep = v;
            room = omega (arith, room, n);
          };
          same_active = refl;
          no_longer = omega (arith, n);
        },
      )
]

pub round-Kept :
    (s : Procs)
    → Timed s
    → s.sleepers.size ≢ 0
    → (s' : Procs) × (timer_round s (queue_out s.sleepers) ≡ ok s')
      × Timed s'
      × (s'.active_proc ≡ s.active_proc)
      × (s'.runnable.size + s'.sleepers.size ≤ s.runnable.size + s.sleepers.size)
round-Kept s t ne = from (contents s.sleepers) refl
  where
    from :
        (ys : List ℕ)
        → contents s.sleepers ≡ ys
        → (s' : Procs) × (timer_round s (queue_out s.sleepers) ≡ ok s')
          × Timed s'
          × (s'.active_proc ≡ s.active_proc)
          × (s'.runnable.size + s'.sleepers.size ≤ s.runnable.size + s.sleepers.size)
    from [] c = absurd (ne (sym (length-contents s.sleepers) ∙ ap length c))
    from (x ∷ xs) c =
        let (q, out, v, c', n) = queue_out_cons s.sleepers x xs t.asleep c in
        let s1 = record s { sleepers = q } in
        let t1 = Timed-cong s s1 refl refl (λ j. refl) v (omega (arith, n)) t in
        let (s', e, k) =
          wake_or_wait-Kept x (pid_to_proc x s1) s1 refl t1 (omega (arith, n, t.room)) in
        (s', rw out e, k.timed, k.same_active, omega (arith, n, k.no_longer))
