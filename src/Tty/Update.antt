-- ===== src/Tty/Update.antt =====
-- What a character does to the active terminal.
use phase1_myunivos.Base.{
  All, List, Outcome, [], arith, halt, inc, length, ok, out_of_bounds, refl, some, subst, true,
  update, ℕ, ◌*◌, ◌+◌, ◌<◌, ◌==◌, ◌>>=◌, ◌∷◌, ◌≡◌, ◌≢◌, ◌≤◌,
}
use phase1_myunivos.Tty.{Ttys, clear_row, scroll_columns, set_tty, tty_update}
use phase1_myunivos.Tty.Scroll.{last_row, scrolled}

-- A line feed in the last row: every row takes the text of the row below it, the last row is blank,
-- and the position is the start of the last row; the other
-- terminals are as before.
pub tty_update_scrolls :
    (s : Ttys) (n : ℕ)
    → s.active_tty ≡ some n
    → (s.tty_table n).pos_y ≡ 24
    → (s' : Ttys) × (tty_update b'\n' s ≡ ok s')
      × ((r c : ℕ)
          → r < 24
          → c < 80
          → (s'.tty_table n).buf (80 * r + c) ≡ (s.tty_table n).buf (80 * (r + 1) + c))
      × ((c : ℕ) → c < 80 → (s'.tty_table n).buf (1920 + c) ≡ b' ')
      × ((s'.tty_table n).pos_x ≡ 0)
      × ((s'.tty_table n).pos_y ≡ 24)
      × ((j : ℕ) → j ≢ n → s'.tty_table j ≡ s.tty_table j)
unfolding tty_update
tty_update_scrolls s n a y =
    let t = s.tty_table n in
    let t' = record t {
      buf = clear_row 80 0 (scroll_columns 80 0 t.buf);
      pos_x = 0;
      pos_y = 24;
      refresh = 1;
    } in
    let same : (n == n) ≡ true = ground arith in
    (
      set_tty n t' s,
      rw (a, y) refl,
      rw same (λ r c row col. scrolled t.buf r c col row),
      rw same (λ c col. last_row t.buf c col),
      rw same refl,
      rw same refl,
      λ j ne. ground arith,
    )

-- One character after another.
abbrev pub update_all : List ℕ → Ttys → Outcome Ttys
update_all [] s = ok s
update_all (c ∷ cs) s = tty_update c s >>= update_all cs

-- The active terminal is `n`, not scrolled back, with the position in the column `x` of the last row.
abbrev pub IsInLastRow : ℕ → ℕ → Ttys → Type 0
IsInLastRow n x s =
    (s.active_tty ≡ some n)
    × ((s.tty_table n).pos_scroll ≡ 0)
    × ((s.tty_table n).pos_y ≡ 24)
    × ((s.tty_table n).pos_x ≡ x)

-- A printing character moves the position one column on.
tty_update_moves :
    (c n x : ℕ) (s : Ttys)
    → b' ' ≤ c
    → x < 80
    → IsInLastRow n x s
    → (s' : Ttys) × (tty_update c s ≡ ok s') × IsInLastRow n (x + 1) s'
unfolding tty_update
tty_update_moves c n x s printing lt (a, z, y, at) =
    let t = s.tty_table n in
    let t' = record t { buf = update t.buf (x + 24 * 80) c; pos_x = inc x; refresh = 1 } in
    let same : (n == n) ≡ true = ground arith in
    (
      set_tty n t' s,
      rw (a, z, y, at) (ground arith),
      (rw a refl, rw same z, rw same y, rw same (omega arith)),
    )

tty_update_faults :
    (c n : ℕ) (s : Ttys) → b' ' ≤ c → IsInLastRow n 80 s → tty_update c s ≡ halt out_of_bounds
unfolding tty_update
tty_update_faults c n s printing (a, z, y, at) = rw (a, z, y, at) (ground arith)

-- The active terminal is not scrolled back, and its position is in the column `x` of the last row.
-- When printing characters fill the row up to its end, with no line feed between them, they are all
-- written; one more printing character is written past the end of the screen's array.
pub tty_update_overruns :
    (cs : List ℕ) (c n x : ℕ) (s : Ttys)
    → All (λ d. b' ' ≤ d) cs
    → b' ' ≤ c
    → x + length cs ≡ 80
    → IsInLastRow n x s
    → (s' : Ttys) × (update_all cs s ≡ ok s') × (tty_update c s' ≡ halt out_of_bounds)
tty_update_overruns [] c n x s all printing fills at =
    let e : x ≡ 80 = omega (arith, fills) in
    (s, refl, tty_update_faults c n s printing (subst (λ i. IsInLastRow n i s) e at))
tty_update_overruns (d ∷ cs) c n x s all printing fills at =
    let (s1, e, at') = tty_update_moves d n x s all.0 (omega (arith, fills)) at in
    let (s', go, faults) =
      tty_update_overruns cs c n (x + 1) s1 all.1 printing (omega (arith, fills)) at' in
    (s', rw e go, faults)
