-- ===== src/Tty/Scroll.antt =====
-- What the scrolling loops of `tty_update` do to the screen.
use phase1_myunivos.Base.{
  ap, arith, equal_or_not, inl, inr, refl, suc, update_hit, update_miss, zero, ℕ, ◌*◌, ◌+◌, ◌-◌,
  ◌<◌, ◌∙◌, ◌≡◌, ◌≢◌, ◌≤◌,
}
use phase1_myunivos.Tty.{clear_row, scroll_column, scroll_columns}

-- A column: the rows from `y` on move up by one.
pub column_kept :
    (n y x j : ℕ) (b : ℕ → ℕ)
    → ((k : ℕ) → y ≤ k → k < y + n → j ≢ 80 * (k - 1) + x)
    → scroll_column n y x b j ≡ b j
unfolding scroll_column
column_kept zero y x j b h = refl
column_kept (suc n) y x j b h =
    column_kept n (y + 1) x j _ (λ k lo hi. h k (omega arith) (omega arith))
    ∙ update_miss b _ _ j (h y (omega arith) (omega arith))

column_moved :
    (n y x k : ℕ) (b : ℕ → ℕ)
    → 1 ≤ y
    → y ≤ k
    → k < y + n
    → scroll_column n y x b (80 * (k - 1) + x) ≡ b (80 * k + x)
unfolding scroll_column
column_moved zero y x k b one lo hi = absurd (omega arith)
column_moved (suc n) y x k b one lo hi = elim (equal_or_not y k) [
  | inl e ↦
      column_kept n (y + 1) x (80 * (k - 1) + x) _ (λ k' lo' hi' q. omega arith)
      ∙ update_hit b _ _ _ (omega arith)
      ∙ ap b (omega arith)
  | inr e ↦
      column_moved n (y + 1) x k _ (omega arith) (omega arith) (omega arith)
      ∙ update_miss b _ _ (80 * k + x) (omega arith)
]

-- A column is as it was, where the other columns are scrolled.
columns_kept :
    (m x r c : ℕ) (b : ℕ → ℕ)
    → x + m ≤ 80
    → c < x
    → scroll_columns m x b (80 * r + c) ≡ b (80 * r + c)
unfolding scroll_columns
columns_kept zero x r c b fits lt = refl
columns_kept (suc m) x r c b fits lt =
    columns_kept m (x + 1) r c _ (omega arith) (omega arith)
    ∙ column_kept 24 1 x (80 * r + c) b (λ k lo hi q. omega arith)

pub columns_moved :
    (m x r c : ℕ) (b : ℕ → ℕ)
    → x + m ≤ 80
    → x ≤ c
    → c < x + m
    → r < 24
    → scroll_columns m x b (80 * r + c) ≡ b (80 * (r + 1) + c)
unfolding scroll_columns
columns_moved zero x r c b fits lo hi row = absurd (omega arith)
columns_moved (suc m) x r c b fits lo hi row = elim (equal_or_not x c) [
  | inl e ↦
      columns_kept m (x + 1) r c _ (omega arith) (omega arith)
      ∙ ap (scroll_column 24 1 x b) (omega arith)
      ∙ column_moved 24 1 x (r + 1) b (omega arith) (omega arith) (omega arith)
      ∙ ap b (omega arith)
  | inr ne ↦
      columns_moved m (x + 1) r c _ (omega arith) (omega arith) (omega arith) row
      ∙ column_kept 24 1 x (80 * (r + 1) + c) b (λ k lo' hi' q. omega arith)
]

pub row_kept : (m x j : ℕ) (b : ℕ → ℕ) → j < 1920 → clear_row m x b j ≡ b j
unfolding clear_row
row_kept zero x j b lt = refl
row_kept (suc m) x j b lt = row_kept m (x + 1) j _ lt ∙ update_miss b _ _ j (omega arith)

row_before : (m x c : ℕ) (b : ℕ → ℕ) → c < x → clear_row m x b (1920 + c) ≡ b (1920 + c)
unfolding clear_row
row_before zero x c b lt = refl
row_before (suc m) x c b lt =
    row_before m (x + 1) c _ (omega arith) ∙ update_miss b _ _ (1920 + c) (omega arith)

pub row_cleared : (m x c : ℕ) (b : ℕ → ℕ) → x ≤ c → c < x + m → clear_row m x b (1920 + c) ≡ b' '
unfolding clear_row
row_cleared zero x c b lo hi = absurd (omega arith)
row_cleared (suc m) x c b lo hi = elim (equal_or_not x c) [
  | inl e ↦ row_before m (x + 1) c _ (omega arith) ∙ update_hit b _ _ (1920 + c) (omega arith)
  | inr ne ↦ row_cleared m (x + 1) c _ (omega arith) (omega arith)
]

-- The whole screen after the three loops.
pub scrolled :
    (b : ℕ → ℕ) (r c : ℕ)
    → c < 80
    → r < 24
    → clear_row 80 0 (scroll_columns 80 0 b) (80 * r + c) ≡ b (80 * (r + 1) + c)
scrolled b r c lt row =
    row_kept 80 0 (80 * r + c) _ (omega arith)
    ∙ columns_moved 80 0 r c b (omega arith) (omega arith) (omega arith) row

pub last_row :
    (b : ℕ → ℕ) (c : ℕ) → c < 80 → clear_row 80 0 (scroll_columns 80 0 b) (1920 + c) ≡ b' '
last_row b c lt = row_cleared 80 0 c _ (omega arith) (omega arith)
