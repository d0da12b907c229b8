-- ===== src/Examples/Screen.antt =====
-- The screen: a character, a text, a scroll and a refresh.
use phase1_myunivos.Base.{arith, codes, ok, refl, ℕ, ◌<◌, ◌≡◌, ◌≤◌, ◌*◌, ◌+◌}
use phase1_myunivos.Examples.Data.{all_masked, ports, terminals}
use phase1_myunivos.Tty.{Ttys, clear_row, scroll_columns, set_tty}
use phase1_myunivos.Tty.Agree.{scroll_columns-eq-copy_up}
use phase1_myunivos.Tty.Refresh.{tty_refresh}
use phase1_myunivos.Tty.Refresh.Shows.{IsText, tty_refresh_shows}
use phase1_myunivos.Vga.{Vga, copy_up, fill_cells, put_all}
use phase1_myunivos.Vga.Position.{OnScreen, put_all-OnScreen}

abbrev screen : Vga
screen = record {
  vga_pos_x = 78;
  vga_pos_y = 24;
  vga_color_bg = 0;
  vga_color_fg = 7;
  vga_cursor = 1;
  vga_scroll = 1;
  cells = λ i. i;
}

abbrev still : Vga
still = record screen { vga_scroll = 0 }

abbrev asking : Ttys
asking = record (terminals 5) {
  tty_table = λ n. record ((terminals 5).tty_table n) { refresh = 1 };
}

asking-IsText : IsText (asking.tty_table 3)
asking-IsText j lt = ((omega arith, omega arith, omega arith, omega arith), omega arith)

scroll_columns-eq-copy_up_example :
    clear_row 80 0 (scroll_columns 80 0 (λ (i : ℕ). i)) 1919
    ≡ fill_cells 80 0 1920 b' ' (copy_up 1920 0 (λ (i : ℕ). i)) 1919
scroll_columns-eq-copy_up_example = scroll_columns-eq-copy_up (λ (i : ℕ). i) 1919

put_all-OnScreen_example :
    let v' = (put_all ports (codes "abc") screen all_masked).0 in
    OnScreen v'
    × (v'.vga_scroll ≡ screen.vga_scroll)
    × ((j : ℕ) → 2000 ≤ j → v'.cells j ≡ screen.cells j)
put_all-OnScreen_example =
    put_all-OnScreen ports (codes "abc") screen all_masked (λ e. absurd (omega arith))
      (record { column = omega arith; row = omega arith })

tty_refresh_shows_example :
    (v' : Vga) × (tty_refresh ports asking still all_masked
      ≡ ok (set_tty 3 (record (asking.tty_table 3) { refresh = 0 }) asking, v', all_masked))
    × (v' ≡ record still { cells = v'.cells })
    × ((j : ℕ) → j < 2000 → v'.cells j ≡ (0 * 16 + 7) * 256 + (asking.tty_table 3).buf j)
    × ((j : ℕ) → 2000 ≤ j → v'.cells j ≡ still.cells j)
tty_refresh_shows_example =
    tty_refresh_shows ports asking still all_masked 3 refl refl (λ e. absurd (omega arith)) refl
      asking-IsText (omega arith) (omega arith) refl
