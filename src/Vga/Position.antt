-- ===== src/Vga/Position.antt =====
-- Where `vga_putc` and `vga_set_xy` leave the position, and the cells that they write.
use phase1_myunivos.Base.{
  Bool-cases, List, [], arith, inl, inr, refl, sle, sym, ℕ, ◌<◌, ◌==◌, ◌∙◌, ◌∷◌, ◌≡◌, ◌≢◌, ◌≤◌,
}
use phase1_myunivos.Interrupts.{Ports}
use phase1_myunivos.Vga.{
  Vga, copy_up, end_line, end_rows, put, put_all, put_char, vga_cursor_update, vga_height, vga_putc,
  vga_set_xy, vga_width,
}
use phase1_myunivos.Vga.Cells.{copy_up_beyond, fill_cells_kept}

-- The position is a place of the screen.
pub record OnScreen (v : Vga) : Type 0 where
  pub column : v.vga_pos_x < vga_width
  pub row : v.vga_pos_y < vga_height

-- What printing a character keeps, with scrolling on.
put-OnScreen : (c : ℕ) (v : Vga) → v.vga_scroll ≢ 0 → OnScreen v → OnScreen (put c v)
unfolding put
put-OnScreen c v on h = ground arith

put_char_beyond :
    (c : ℕ) (v : Vga) (j : ℕ) → OnScreen v → 2000 ≤ j → (put_char c v).cells j ≡ v.cells j
put_char_beyond c v j h far = ground arith

end_line_beyond : (v : Vga) (j : ℕ) → (end_line v).cells j ≡ v.cells j
end_line_beyond v j = ground arith

end_rows_beyond : (v : Vga) (j : ℕ) → 2000 ≤ j → (end_rows v).cells j ≡ v.cells j
end_rows_beyond v j far = elim (Bool-cases (v.vga_scroll == 0)) [
  | inl off ↦ rw off refl
  | inr on ↦ elim (Bool-cases (sle vga_height v.vga_pos_y)) [
    | inl over ↦
        rw (on, over)
          (fill_cells_kept 80 0 1920 _ j (copy_up 1920 0 v.cells) (inr (omega arith))
            ∙ copy_up_beyond 1920 j v.cells (omega arith))
    | inr fits ↦ rw (on, fits) refl
  ]
]

put_beyond : (c : ℕ) (v : Vga) (j : ℕ) → OnScreen v → 2000 ≤ j → (put c v).cells j ≡ v.cells j
unfolding put
put_beyond c v j h far =
    end_rows_beyond (end_line (put_char c v)) j far
    ∙ end_line_beyond (put_char c v) j
    ∙ put_char_beyond c v j h far

pub put-scroll : (c : ℕ) (v : Vga) → (put c v).vga_scroll ≡ v.vga_scroll
unfolding put
put-scroll c v = ground arith

-- With scrolling on and the position on the screen, printing any string leaves the position on the
-- screen, scrolling on, and every cell past the 2000 of the screen as it was.
pub put_all-OnScreen :
    (hw : Ports) (cs : List ℕ) (v : Vga) (s : hw.State)
    → v.vga_scroll ≢ 0
    → OnScreen v
    → let v' = (put_all hw cs v s).0 in
      OnScreen v' × (v'.vga_scroll ≡ v.vga_scroll) × ((j : ℕ) → 2000 ≤ j → v'.cells j ≡ v.cells j)
unfolding put_all vga_putc
put_all-OnScreen hw [] v s on h = (h, refl, λ j far. refl)
put_all-OnScreen hw (c ∷ cs) v s on h =
    let e = put-scroll c v in
    let (h', e', k) =
      put_all-OnScreen hw cs (put c v) (vga_cursor_update hw (put c v) s) (λ z. on (sym e ∙ z))
        (put-OnScreen c v on h) in
    (h', e' ∙ e, λ j far. k j far ∙ put_beyond c v j h far)

-- `vga_set_xy`, at any two `int`s, leaves the position on the screen; an `int` in the range is taken
-- as it is.
vga_set_xy-OnScreen :
    (hw : Ports) (x y : ℕ) (v : Vga) (s : hw.State)
    → OnScreen (vga_set_xy hw x y v s).0
      × (x < vga_width → (vga_set_xy hw x y v s).0.vga_pos_x ≡ x)
      × (y < vga_height → (vga_set_xy hw x y v s).0.vga_pos_y ≡ y)
unfolding vga_set_xy
vga_set_xy-OnScreen hw x y v s = ground arith
