-- ===== src/Vga/Cells.antt =====
-- What the two loops over video memory do, cell by cell.
use phase1_myunivos.Base.{
  ap, arith, equal_or_not, inl, inr, refl, suc, update, update_hit, update_miss, zero, ℕ, ◌+◌, ◌<◌,
  ◌∙◌, ◌≡◌, ◌≤◌, ◌⊎◌,
}
use phase1_myunivos.Vga.{copy_up, fill_cells}

copy_up_kept : (n i j : ℕ) (f : ℕ → ℕ) → (j < i) ⊎ (i + n ≤ j) → copy_up n i f j ≡ f j
unfolding copy_up
copy_up_kept zero i j f h = refl
copy_up_kept (suc n) i j f h =
    copy_up_kept n (i + 1) j (update f i (f (80 + i))) (omega arith)
    ∙ update_miss f i (f (80 + i)) j (omega arith)

pub copy_up_moved : (n i j : ℕ) (f : ℕ → ℕ) → i ≤ j → j < i + n → copy_up n i f j ≡ f (80 + j)
unfolding copy_up
copy_up_moved zero i j f lo hi = absurd (omega arith)
copy_up_moved (suc n) i j f lo hi = elim (equal_or_not j i) [
  | inl e ↦
      copy_up_kept n (i + 1) j (update f i (f (80 + i))) (inl (omega arith))
      ∙ update_hit f i (f (80 + i)) j e
      ∙ ap f (omega arith)
  | inr ne ↦
      copy_up_moved n (i + 1) j (update f i (f (80 + i))) (omega arith) (omega arith)
      ∙ update_miss f i (f (80 + i)) (80 + j) (omega arith)
]

pub copy_up_beyond : (n j : ℕ) (f : ℕ → ℕ) → n ≤ j → copy_up n 0 f j ≡ f j
copy_up_beyond n j f h = copy_up_kept n 0 j f (inr (omega arith))

pub fill_cells_kept :
    (n i d w j : ℕ) (f : ℕ → ℕ) → (j < i + d) ⊎ (i + d + n ≤ j) → fill_cells n i d w f j ≡ f j
unfolding fill_cells
fill_cells_kept zero i d w j f h = refl
fill_cells_kept (suc n) i d w j f h =
    fill_cells_kept n (i + 1) d w j (update f (i + d) w) (omega arith)
    ∙ update_miss f (i + d) w j (omega arith)

pub fill_cells_filled :
    (n i d w j : ℕ) (f : ℕ → ℕ) → i + d ≤ j → j < i + d + n → fill_cells n i d w f j ≡ w
unfolding fill_cells
fill_cells_filled zero i d w j f lo hi = absurd (omega arith)
fill_cells_filled (suc n) i d w j f lo hi = elim (equal_or_not j (i + d)) [
  | inl e ↦
      fill_cells_kept n (i + 1) d w j (update f (i + d) w) (inl (omega arith))
      ∙ update_hit f (i + d) w j e
  | inr ne ↦ fill_cells_filled n (i + 1) d w j (update f (i + d) w) (omega arith) (omega arith)
]
