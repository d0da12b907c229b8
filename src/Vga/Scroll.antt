-- ===== src/Vga/Scroll.antt =====
-- Scrolling in `vga_putc`.
use phase1_myunivos.Base.{ap, arith, false, inl, refl, ℕ, ◌*◌, ◌+◌, ◌<◌, ◌==◌, ◌∙◌, ◌≡◌, ◌≢◌}
use phase1_myunivos.Interrupts.{Ports}
use phase1_myunivos.Vga.{Vga, copy_up, fill_cells, put, vga_char, vga_putc}
use phase1_myunivos.Vga.Cells.{copy_up_moved, fill_cells_filled, fill_cells_kept}

-- The screen after the two loops.
cells_moved :
    (w : ℕ) (f : ℕ → ℕ) (r c : ℕ)
    → r < 24
    → c < 80
    → fill_cells 80 0 1920 w (copy_up 1920 0 f) (80 * r + c) ≡ f (80 * (r + 1) + c)
cells_moved w f r c row col =
    fill_cells_kept 80 0 1920 w (80 * r + c) (copy_up 1920 0 f) (inl (omega arith))
    ∙ copy_up_moved 1920 0 (80 * r + c) f (omega arith) (omega arith)
    ∙ ap f (omega arith)

-- With scrolling on, a line feed in the last row: every row takes the cells of the row below it, the
-- last row is blank in the current colors, the position is the start of the last row, and nothing
-- else changes.
vga_putc_scrolls :
    (hw : Ports) (v : Vga) (s : hw.State)
    → v.vga_scroll ≢ 0
    → v.vga_pos_y ≡ 24
    → let v' = (vga_putc hw b'\n' v s).0 in
      ((r c : ℕ) → r < 24 → c < 80 → v'.cells (80 * r + c) ≡ v.cells (80 * (r + 1) + c))
      × ((c : ℕ) → c < 80 → v'.cells (1920 + c) ≡ vga_char v.vga_color_bg v.vga_color_fg b' ')
      × (v' ≡ record v { cells = v'.cells; vga_pos_x = 0; vga_pos_y = 24 })
unfolding vga_putc put
vga_putc_scrolls hw v s on y =
    let z : (v.vga_scroll == 0) ≡ false = ground arith in
    rw (y, z)
      (
        (λ r c row col. cells_moved _ v.cells r c row col),
        (λ c col.
            fill_cells_filled 80 0 1920 _ (1920 + c) (copy_up 1920 0 v.cells) (omega arith)
              (omega arith)),
        refl,
      )
