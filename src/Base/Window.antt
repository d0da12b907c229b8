-- ===== src/Base/Window.antt =====
-- A circular array of `cap` cells: the cells read from an index on, going round at the end.
use Prim.Native.Nat.{ℕ, zero, suc, ◌+◌, ◌-◌, ◌≤◌, ◌<◌}
use mathlib.Core.Path.{◌≡◌, refl, ap, ap₂}
use mathlib.Core.Logic.{◌≢◌, ◌⊎◌}
use mathlib.Core.List.{List, [], ◌∷◌, ◌++◌}
use native.Mathlib.Nat.{le_refl}
use native.Mathlib.Omega.{arith}
use phase1_myunivos.Base.Tests.{◌==◌, if◌then◌else◌}
use phase1_myunivos.Base.Lists.{length, update}

-- The index after `h`: one more, or 0 at the end of the array.
abbrev pub next : ℕ → ℕ → ℕ
next cap h = if (h + 1) == cap then 0 else h + 1

-- `i` is the index `k` places after `h`.
abbrev pub IsAt : ℕ → ℕ → ℕ → ℕ → Type 0
IsAt cap h k i = (i ≡ h + k) ⊎ (i + cap ≡ h + k)

-- One step of the index keeps the place of `i`.
IsAt-next : (cap h k i : ℕ) → h < cap → i < cap → IsAt cap h (suc k) i → IsAt cap (next cap h) k i
IsAt-next cap h k i hh hi e = ground arith

pub next-lt : (cap h : ℕ) → h < cap → next cap h < cap
next-lt cap h hh = ground arith

module _ {ℓ} {A : Type ℓ} where
  abbrev pub window : (ℕ → A) → ℕ → ℕ → ℕ → List A
  window f cap h zero = []
  window f cap h (suc n) = f h ∷ window f cap (next cap h) n

  pub length-window : (f : ℕ → A) (cap h n : ℕ) → length (window f cap h n) ≡ n
  length-window f cap h zero = refl
  length-window f cap h (suc n) = ap suc (length-window f cap (next cap h) n)

  -- The code tests `size == 0`, the window matches on `suc`.
  pub window_of_ne_zero :
      (f : ℕ → A) (cap h n : ℕ) → n ≢ 0 → window f cap h n ≡ f h ∷ window f cap (next cap h) (n - 1)
  window_of_ne_zero f cap h zero p = absurd (p refl)
  window_of_ne_zero f cap h (suc n) p = ap (λ k. window f cap h (suc k)) (omega arith)

  -- A write past the window changes nothing in it.
  pub window-update :
      (f : ℕ → A) (cap h n m i : ℕ) (x : A)
      → h < cap
      → i < cap
      → n ≤ m
      → m < cap
      → IsAt cap h m i
      → window (update f i x) cap h n ≡ window f cap h n
  window-update f cap h zero m i x hh hi hn hm e = refl
  window-update f cap h (suc n) zero i x hh hi hn hm e = absurd (omega arith)
  window-update f cap h (suc n) (suc m) i x hh hi hn hm e = ap₂ ◌∷◌ (ground arith) (
      window-update f cap (next cap h) n m i x (next-lt cap h hh) hi (omega arith) (omega arith)
        (IsAt-next cap h m i hh hi e))

  -- A window one longer ends in the cell after it.
  pub window-suc :
      (f : ℕ → A) (cap h n i : ℕ)
      → h < cap
      → i < cap
      → n < cap
      → IsAt cap h n i
      → window f cap h (suc n) ≡ window f cap h n ++ (f i ∷ [])
  window-suc f cap h zero i hh hi hn e = ap (λ k. f k ∷ []) (ground arith)
  window-suc f cap h (suc n) i hh hi hn e =
      ap (λ r. f h ∷ r)
        (window-suc f cap (next cap h) n i (next-lt cap h hh) hi (omega arith)
          (IsAt-next cap h n i hh hi e))

  -- Writing the cell after a window extends it by what is written.
  pub window-update-suc :
      (f : ℕ → A) (cap h n i : ℕ) (x : A)
      → h < cap
      → i < cap
      → n < cap
      → IsAt cap h n i
      → window (update f i x) cap h (suc n) ≡ window f cap h n ++ (x ∷ [])
  window-update-suc f cap h n i x hh hi hn e =
      rw
        (
          window-suc (update f i x) cap h n i hh hi hn e,
          window-update f cap h n n i x hh hi (le_refl n) hn e,
        )
        (ground arith)
