-- ===== src/Process/Lookup.antt =====
-- The look-ups in the process table of src/kproc.c.
use phase1_myunivos.Base.{
  ◌∙◌, sym, ℕ_discrete, Option-cases, ℕ, zero, suc, ◌+◌, ◌≤◌, ◌<◌, ◌≡◌, ◌≢◌, ◌⊎◌, inl, inr, refl,
  none, some, arith, update,
}
use phase1_myunivos.Process.{Proc, Procs, proc_max, find_entry, pid_to_proc, set_proc}

-- A table with the same process ids gives the same look-ups.
pub find_entry-cong :
    (t t' : ℕ → Proc) (pid n i : ℕ)
    → ((j : ℕ) → (t j).pid ≡ (t' j).pid)
    → find_entry t pid n i ≡ find_entry t' pid n i
unfolding find_entry
find_entry-cong t t' pid zero i h = refl
find_entry-cong t t' pid (suc n) i h = rw (h i, find_entry-cong t t' pid n (i + 1) h) refl

pub pid_to_proc-set_proc :
    (pid p : ℕ) (v : Proc) (s : Procs)
    → v.pid ≡ (s.table p).pid
    → pid_to_proc pid (set_proc p v s) ≡ pid_to_proc pid s
unfolding pid_to_proc
pid_to_proc-set_proc pid p v s e =
    find_entry-cong (update s.table p v) s.table pid proc_max 0 (λ j. ground arith)

-- What is found has the process id, is in the range searched, and is the first such entry.
find_entry_sound :
    (t : ℕ → Proc) (pid n i e : ℕ)
    → find_entry t pid n i ≡ some e
    → ((t e).pid ≡ pid) × (i ≤ e) × (e < i + n)
unfolding find_entry
find_entry_sound t pid zero i e h = cc
find_entry_sound t pid (suc n) i e h = ground (arith, find_entry_sound t pid n (i + 1) e)

find_entry_first :
    (t : ℕ → Proc) (pid n i e j : ℕ)
    → find_entry t pid n i ≡ some e
    → i ≤ j
    → j < e
    → (t j).pid ≢ pid
unfolding find_entry
find_entry_first t pid zero i e j h a b = cc
find_entry_first t pid (suc n) i e j h a b = elim (ℕ_discrete i j) [
  | yes r ↦ ground arith
  | no r ↦ ground (arith, find_entry_first t pid n (i + 1) e j)
]

find_entry_absent :
    (t : ℕ → Proc) (pid n i j : ℕ)
    → find_entry t pid n i ≡ none
    → i ≤ j
    → j < i + n
    → (t j).pid ≢ pid
unfolding find_entry
find_entry_absent t pid zero i j h a b = absurd (omega arith)
find_entry_absent t pid (suc n) i j h a b = elim (ℕ_discrete i j) [
  | yes r ↦ ground arith
  | no r ↦ ground (arith, find_entry_absent t pid n (i + 1) j)
]

-- `pid_to_proc` returns an entry of the table that has the process id and before which no entry has
-- it, or it returns NULL and no entry of the table has it.
pub pid_to_proc_lem :
    (pid : ℕ) (s : Procs)
    → ((e : ℕ) × (pid_to_proc pid s ≡ some e)
        × (e < proc_max)
        × ((s.table e).pid ≡ pid)
        × ((j : ℕ) → j < e → (s.table j).pid ≢ pid))
      ⊎ ((pid_to_proc pid s ≡ none) × ((j : ℕ) → j < proc_max → (s.table j).pid ≢ pid))
unfolding pid_to_proc
pid_to_proc_lem pid s = elim (Option-cases (find_entry s.table pid proc_max 0)) [
  | inl h ↦ inr (h, λ j b. find_entry_absent s.table pid proc_max 0 j h (omega arith) (omega arith))
  | inr (e, h) ↦
      let w = find_entry_sound s.table pid proc_max 0 e h in
      inl (
        e,
        h,
        omega (arith, w),
        w.0,
        λ j b. find_entry_first s.table pid proc_max 0 e j h (omega arith) b,
      )
]

-- An entry that is there is found, at it or before it.
pub pid_to_proc-some :
    (pid j : ℕ) (s : Procs)
    → j < proc_max
    → (s.table j).pid ≡ pid
    → (e : ℕ) × (pid_to_proc pid s ≡ some e)
pid_to_proc-some pid j s b h = elim (pid_to_proc_lem pid s) [
  | inl w ↦ (w.0, w.1)
  | inr w ↦ absurd (w.1 j b h)
]

-- The process id stands in the table.
abbrev pub Found : Procs → ℕ → Type 0
Found s pid = (e : ℕ) × (pid_to_proc pid s ≡ some e)

abbrev pub SamePids : Procs → Procs → Type 0
SamePids s s' = (j : ℕ) → (s.table j).pid ≡ (s'.table j).pid

pub pid_to_proc-cong :
    (s s' : Procs) (pid : ℕ) → SamePids s s' → pid_to_proc pid s ≡ pid_to_proc pid s'
unfolding pid_to_proc
pid_to_proc-cong s s' pid h = find_entry-cong s.table s'.table pid proc_max 0 h

pub Found-cong : (s s' : Procs) → SamePids s s' → (pid : ℕ) → Found s pid → Found s' pid
Found-cong s s' h pid (e, f) = (e, sym (pid_to_proc-cong s s' pid h) ∙ f)
