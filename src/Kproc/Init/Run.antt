-- ===== src/Kproc/Init/Run.antt =====
-- What `kproc_init` leaves is what the tick of src/scheduler.c relies on.
use phase1_myunivos.Base.{
  All, ap, arith, below_or_not, inl, inr, none, some, some-inj, subst, suc, sym, zero, ℕ, ◌+◌, ◌<◌,
  ◌∙◌, ◌≡◌,
}
use phase1_myunivos.Kproc.Init.{Booted, Booted-find, Booted-size, count_up}
use phase1_myunivos.Process.{Procs}
use phase1_myunivos.Process.Lookup.{Found, pid_to_proc_lem}
use phase1_myunivos.Scheduler.Frames.{AllFramed}
use phase1_myunivos.Scheduler.Wake.Round.{Timed}

All-count_up : (P : ℕ → Type 0) (k a : ℕ) → ((j : ℕ) → j < a + k → P j) → All P (count_up k a)
unfolding count_up
All-count_up P zero a h = tt
All-count_up P (suc k) a h =
    (h a (omega arith), All-count_up P k (a + 1) (λ j lt. h j (omega arith)))

-- With some processes and no more than the table holds.
pub Booted-Timed : (n : ℕ) (s : Procs) → Booted (suc n) s → n < 20 → Timed s
Booted-Timed n s b le =
    let find = λ (j : ℕ) (lt : j < suc n). Booted-find (suc n) j s b lt le in
    record {
      ready = record {
        valid = b.run_valid;
        queued =
            subst (All (Found s)) (sym b.run)
              (All-count_up (Found s) (suc n) 0 (λ j lt. (j, find j (omega arith))));
        idle_task = (0, find 0 (omega arith));
        running = λ p e. absurd (none-ne-some (sym b.none_runs ∙ e));
      };
      asleep = b.sleep_valid;
      room = omega (arith, Booted-size (suc n) s b, b.none_sleep);
    }
  where
    none-ne-some : {p : ℕ} → none ≡ some p → ⊥
    none-ne-some h = cc

-- Every process that is found has a trapframe: an unused entry has the id 0, under which the first
-- entry is found.
pub Booted-AllFramed : (n : ℕ) (s : Procs) → Booted (suc n) s → AllFramed s
Booted-AllFramed n s b x e f = elim (pid_to_proc_lem x s) [
  | inr (missing, out) ↦ absurd (none-ne-some (sym missing ∙ f))
  | inl (e', found, small, pid, first) ↦ elim (below_or_not e (suc n)) [
    | inl used ↦ (b.fresh e used).has_frame
    | inr free ↦
        let at : e' ≡ e = some-inj (sym found ∙ f) in
        let id : x ≡ 0 =
          sym pid ∙ ap (λ j. (s.table j).pid) at ∙ ap (λ p. p.pid) (b.unused e free) in
        absurd (first 0 (omega arith) ((b.fresh 0 (omega arith)).same_pid ∙ sym id))
  ]
]
  where
    none-ne-some : {p : ℕ} → none ≡ some p → ⊥
    none-ne-some h = cc
