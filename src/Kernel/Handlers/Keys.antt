-- ===== src/Kernel/Handlers/Keys.antt =====
-- The log level under the keys that `keyboard_irq_handler` of src/keyboard.c acts on.
use phase1_myunivos.Base.{
  Outcome, arith, halt, if◌then◌else◌, ok, refl, ℕ, ◌+◌, ◌-◌, ◌==◌, ◌>>=◌, ◌≡◌, ◌≤◌,
}
use phase1_myunivos.Interrupts.{Ports}
use phase1_myunivos.Kernel.{Callback, Kernel}
use phase1_myunivos.Kernel.Handlers.{act}
use phase1_myunivos.Kernel.Log.{kernel_get_log_level, kernel_set_log_level, log_level_all}
use phase1_myunivos.Keyboard.{
  Action, break_here, create_test, destroy_active, key, key_null, lower_log_level, raise_log_level,
  select_tty,
}
use phase1_myunivos.Kproc.{Machine}
use phase1_myunivos.Process.{Procs}
use phase1_myunivos.Tty.{tty_select}

-- The level after an action.
abbrev pub next_level : Action → ℕ → ℕ
next_level raise_log_level level = if level == log_level_all then log_level_all else level + 1
next_level lower_log_level level = level - 1
next_level _ level = level

-- If the action returns, the level is this one.
abbrev pub HasLevel : ℕ → Outcome (ℕ × Kernel) → Type 0
HasLevel level (ok r) = r.1.kernel_log_level ≡ level
HasLevel level (halt h) = Unit {0}

bind-HasLevel :
    {A : Type 0} (level : ℕ) (r : Outcome A) (f : A → ℕ × Kernel)
    → ((a : A) → (f a).1.kernel_log_level ≡ level)
    → HasLevel level (r >>= λ a. ok (f a))
bind-HasLevel level (ok a) f same = same a
bind-HasLevel level (halt h) f same = tt

module _ (m : Machine) (kproc_test : ℕ) (breakpoint : Kernel → Outcome Kernel) where
  -- What a key does besides its character, at a log level from 0 to 6, if `breakpoint` leaves the
  -- level: when it returns, the level is one more, but not above 6, after the key that raises it, one
  -- less, but not below 0, after the key that lowers it, and the same after any other.
  act_level :
      (hw : Ports) (test : Callback → Kernel → hw.State → Outcome (Kernel × hw.State)) (a : Action)
      (k : Kernel)
      → ((k : Kernel) → HasLevel k.kernel_log_level (breakpoint k >>= λ k'. ok (0, k')))
      → k.kernel_log_level ≤ log_level_all
      → HasLevel (next_level a k.kernel_log_level) (act hw m kproc_test breakpoint test a k)
  unfolding kernel_set_log_level kernel_get_log_level
  act_level hw test key_null k keeps le = refl
  act_level hw test (key c) k keeps le = refl
  act_level hw test (select_tty n) k keeps le =
      bind-HasLevel _ (tty_select n k.ttys) (λ t. (0, record k { ttys = t })) (λ t. refl)
  act_level hw test raise_log_level k keeps le = ground arith
  act_level hw test lower_log_level k keeps le = ground arith
  act_level hw test create_test k keeps le =
      bind-HasLevel _ _ (λ (r : ℕ × Procs). (0, record k { procs = r.1 })) (λ r. refl)
  act_level hw test destroy_active k keeps le =
      bind-HasLevel _ _ (λ (r : ℕ × Procs). (0, record k { procs = r.1 })) (λ r. refl)
  act_level hw test break_here k keeps le = keeps k
