-- ===== src/Examples/Terminals.antt =====
-- The terminals and the timers.
use phase1_myunivos.Base.{[], ◌∷◌, arith, halt, ok, out_of_bounds, refl, ℕ, ◌*◌, ◌+◌, ◌<◌, ◌≡◌, ◌≢◌}
use phase1_myunivos.Examples.Data.{terminals}
use phase1_myunivos.Tty.{Ttys, tty_update}
use phase1_myunivos.Tty.Update.{update_all, tty_update_overruns, tty_update_scrolls}

tty_update_scrolls_example :
    (s' : Ttys) × (tty_update b'\n' (terminals 5) ≡ ok s')
    × ((r c : ℕ)
        → r < 24
        → c < 80
        → (s'.tty_table 3).buf (80 * r + c) ≡ ((terminals 5).tty_table 3).buf (80 * (r + 1) + c))
    × ((c : ℕ) → c < 80 → (s'.tty_table 3).buf (1920 + c) ≡ b' ')
    × ((s'.tty_table 3).pos_x ≡ 0)
    × ((s'.tty_table 3).pos_y ≡ 24)
    × ((j : ℕ) → j ≢ 3 → s'.tty_table j ≡ (terminals 5).tty_table j)
tty_update_scrolls_example = tty_update_scrolls (terminals 5) 3 refl refl

tty_update_overruns_example :
    (s' : Ttys) × (update_all (b'a' ∷ b'b' ∷ []) (terminals 78) ≡ ok s')
    × (tty_update b'c' s' ≡ halt out_of_bounds)
tty_update_overruns_example =
    tty_update_overruns (b'a' ∷ b'b' ∷ []) b'c' 3 78 (terminals 78) (omega arith, (omega arith, tt))
      (omega arith) refl (refl, refl, refl, refl)
