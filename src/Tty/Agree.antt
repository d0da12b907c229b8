-- ===== src/Tty/Agree.antt =====
-- The scrolling of `tty_update` of src/tty.c, column by column, against that of `vga_putc` of
-- src/vga.c, cell by cell.
use phase1_myunivos.Base.{
  ap, arith, below_or_not, inl, inr, refl, suc, sym, update, update_miss, zero, ℕ, ◌%◌, ◌+◌, ◌-◌,
  ◌/◌, ◌<◌, ◌∙◌, ◌≡◌, ◌≤◌,
}
use phase1_myunivos.Tty.{clear_row, scroll_column, scroll_columns}
use phase1_myunivos.Tty.Scroll.{column_kept, columns_moved, row_cleared, row_kept}
use phase1_myunivos.Vga.{copy_up, fill_cells}
use phase1_myunivos.Vga.Cells.{copy_up_beyond, copy_up_moved, fill_cells_filled, fill_cells_kept}

columns_beyond : (m x j : ℕ) (b : ℕ → ℕ) → x + m ≤ 80 → 1920 ≤ j → scroll_columns m x b j ≡ b j
unfolding scroll_columns
columns_beyond zero x j b fits far = refl
columns_beyond (suc m) x j b fits far =
    columns_beyond m (x + 1) j (scroll_column 24 1 x b) (omega arith) far
    ∙ column_kept 24 1 x j b (λ k lo hi q. omega arith)

row_beyond : (m x j : ℕ) (b : ℕ → ℕ) → x + m ≤ 80 → 2000 ≤ j → clear_row m x b j ≡ b j
unfolding clear_row
row_beyond zero x j b fits far = refl
row_beyond (suc m) x j b fits far =
    row_beyond m (x + 1) j (update b (1920 + x) b' ') (omega arith) far
    ∙ update_miss b (1920 + x) b' ' j (omega arith)

-- The rows before the last one.
moved_agree : (b : ℕ → ℕ) (j : ℕ) → j < 1920 → scroll_columns 80 0 b j ≡ copy_up 1920 0 b j
moved_agree b j h =
    ap (scroll_columns 80 0 b) (omega arith)
    ∙ columns_moved 80 0 (j / 80) (j % 80) b (omega arith) (omega arith) (omega arith) (omega arith)
    ∙ ap b (omega arith)
    ∙ sym (copy_up_moved 1920 0 j b (omega arith) (omega arith))

last_agree :
    (b b' : ℕ → ℕ) (j : ℕ)
    → 1920 ≤ j
    → j < 2000
    → clear_row 80 0 b j ≡ fill_cells 80 0 1920 b' ' b' j
last_agree b b' j lo hi =
    ap (clear_row 80 0 b) (omega arith)
    ∙ row_cleared 80 0 (j - 1920) b (omega arith) (omega arith)
    ∙ sym (fill_cells_filled 80 0 1920 b' ' j b' (omega arith) (omega arith))

-- The nested loops by which `tty_update` scrolls its array, and the two loops by which `vga_putc`
-- scrolls video memory, with a blank for the last row, are the same function of the cells, in the
-- 2000 cells of the screen and past them.
pub scroll_columns-eq-copy_up :
    (b : ℕ → ℕ) (j : ℕ)
    → clear_row 80 0 (scroll_columns 80 0 b) j ≡ fill_cells 80 0 1920 b' ' (copy_up 1920 0 b) j
scroll_columns-eq-copy_up b j = elim (below_or_not j 1920) [
  | inl low ↦
      row_kept 80 0 j (scroll_columns 80 0 b) low
      ∙ moved_agree b j low
      ∙ sym (fill_cells_kept 80 0 1920 b' ' j (copy_up 1920 0 b) (inl (omega arith)))
  | inr high ↦ elim (below_or_not j 2000) [
    | inl last ↦ last_agree (scroll_columns 80 0 b) (copy_up 1920 0 b) j high last
    | inr far ↦
        row_beyond 80 0 j (scroll_columns 80 0 b) (omega arith) far
        ∙ columns_beyond 80 0 j b (omega arith) high
        ∙ sym (copy_up_beyond 1920 j b high)
        ∙ sym (fill_cells_kept 80 0 1920 b' ' j (copy_up 1920 0 b) (inr (omega arith)))
  ]
]
