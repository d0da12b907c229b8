-- ===== src/Tty/Refresh/Shows.antt =====
-- What `tty_refresh` of src/tty.c shows on the screen.
use phase1_myunivos.Base.{
  ap, ap₂, arith, equal_or_not, false, inc, inl, inr, ltb, ok, refl, some, suc, sym, true, wrap,
  zero, ℕ, ◌*◌, ◌+◌, ◌<◌, ◌==◌, ◌>>=◌, ◌∙◌, ◌≡◌, ◌≢◌, ◌≤◌, ◌⊎◌,
}
use phase1_myunivos.Interrupts.{Ports}
use phase1_myunivos.RingBuf.{ringbuf_is_empty}
use phase1_myunivos.Tty.{Tty, Ttys, set_tty}
use phase1_myunivos.Tty.Refresh.{column_of, drain, draw, line_of, refresh_at, show, tty_refresh}
use phase1_myunivos.Vga.{Vga, vga_char, vga_putc_at}
use phase1_myunivos.Vga.At.{IsPrinted, vga_putc_at-cell, vga_putc_at-restores}
use phase1_myunivos.Vga.Colors.{bit_and-bg, bit_and-fg, vga_char_lem}
use Prim.Native.Nat.{bit_and}

-- Every character of the screen's array is printed, not one that moves the position.
abbrev IsPrintable : Tty → Type 0
IsPrintable t = (j : ℕ) → j < 2000 → IsPrinted (t.buf j)

-- The same of characters below 0x80.
abbrev pub IsText : Tty → Type 0
IsText t = (j : ℕ) → j < 2000 → IsPrinted (t.buf j) × (t.buf j < 0x80)

-- The cell that `vga_putc_at` makes of a character of a terminal: VGA_CHAR, with the character sign
-- extended, of the colors without the highest bit of the background.
abbrev shown : Tty → ℕ → ℕ
shown t j = vga_char (bit_and t.color_bg 0x7) (bit_and t.color_fg 0xf) (t.buf j)

place_of :
    (i x y : ℕ)
    → i < 2000
    → x ≤ 80
    → i ≡ x + y * 80
    → (column_of x < 80) × (line_of x y < 25) × (i ≡ column_of x + line_of x y * 80)
place_of i x y lt hx e = ground arith

module _ (hw : Ports) (t : Tty) (w : hw.State) (top : t.pos_scroll ≡ 0) (text : IsPrintable t) where
  abbrev round : ℕ → ℕ → ℕ → Vga → Vga × hw.State
  round i x y v = vga_putc_at hw (column_of x) (line_of x y) t.color_bg t.color_fg (t.buf i) v w

  draw_step :
      (n i x y : ℕ) (v : Vga)
      → i < 2000
      → draw hw (suc n) i x y t v w
        ≡ draw hw n (i + 1) (inc (column_of x)) (line_of x y) t (round i x y v).0 (round i x y v).1
  unfolding draw
  draw_step n i x y v lt =
      let k : wrap (t.pos_scroll * 80 + i) ≡ i = omega arith in
      let inside : ltb i 2000 ≡ true = ground arith in rw k (rw inside refl)

  -- The loop from the cell `i` on draws this cell and those after it.
  draw_lem :
      (n i x y : ℕ) (v : Vga)
      → v.vga_scroll ≡ 0
      → i + n ≡ 2000
      → x ≤ 80
      → i ≡ x + y * 80
      → (v' : Vga) × (draw hw n i x y t v w ≡ ok (v', w))
        × (v' ≡ record v { cells = v'.cells })
        × ((j : ℕ) → i ≤ j → j < 2000 → v'.cells j ≡ shown t j)
        × ((j : ℕ) → (j < i) ⊎ (2000 ≤ j) → v'.cells j ≡ v.cells j)
  draw_lem zero i x y v off all hx e =
      (v, unfold draw in refl, refl, (λ j lo hi. absurd (omega arith)), λ j out. refl)
  draw_lem (suc n) i x y v off all hx e =
      let (hc, hl, e') = place_of i x y (omega arith) hx e in
      let r = round i x y v in
      let (same, quiet) =
        vga_putc_at-restores hw (column_of x) (line_of x y) t.color_bg t.color_fg (t.buf i) v w in
      let (hit, miss) =
        vga_putc_at-cell hw (column_of x) (line_of x y) t.color_bg t.color_fg (t.buf i) v w off
          (text i (omega arith)) hc hl in
      let (v', go, keep, after, before) =
        draw_lem n (i + 1) (inc (column_of x)) (line_of x y) r.0 (ap (λ z. z.vga_scroll) same ∙ off)
          (omega arith) (omega arith) (omega arith) in
      (
        v',
        draw_step n i x y v (omega arith)
            ∙ ap (draw hw n (i + 1) (inc (column_of x)) (line_of x y) t r.0) quiet
            ∙ go,
        keep ∙ ap {A = Vga} {B = Vga} (λ z. record z { cells = v'.cells }) same,
        (λ j lo hi. elim (equal_or_not j i) [
          | inl at ↦
              before j (inl (omega arith)) ∙ ap r.0.cells (at ∙ e') ∙ hit ∙ ap (shown t) (sym at)
          | inr ne ↦ after j (omega arith) hi
        ]),
        λ j out. before j (omega arith) ∙ miss j (omega arith),
      )

drain_empty :
    (f n : ℕ) (s : Ttys) → (s.tty_table n).tty_io_output.size ≡ 0 → drain (suc f) n s ≡ ok s
unfolding drain ringbuf_is_empty
drain_empty f n s empty =
    let e : ((s.tty_table n).tty_io_output.size == 0) ≡ true = ground arith in rw e refl

-- With no output waiting, the active terminal is shown.
pub refresh_drained :
    (hw : Ports) (s : Ttys) (v : Vga) (w : hw.State) (n : ℕ)
    → s.active_tty ≡ some n
    → (s.tty_table n).tty_io_output.size ≡ 0
    → tty_refresh hw s v w ≡ show hw n s v w
unfolding tty_refresh
refresh_drained hw s v w n a empty =
    ap (λ o. refresh_at hw o s v w) a
    ∙ ap (λ r. r >>= λ s'. show hw n s' v w) (drain_empty 2048 n s empty)

-- The cells after a refresh, of any printed characters and in any colors.
refresh_cells :
    (hw : Ports) (s : Ttys) (v : Vga) (w : hw.State) (n : ℕ)
    → s.active_tty ≡ some n
    → (s.tty_table n).tty_io_output.size ≡ 0
    → (s.tty_table n).refresh ≢ 0
    → (s.tty_table n).pos_scroll ≡ 0
    → IsPrintable (s.tty_table n)
    → v.vga_scroll ≡ 0
    → (v' : Vga) × (tty_refresh hw s v w
        ≡ ok (set_tty n (record (s.tty_table n) { refresh = 0 }) s, v', w))
      × (v' ≡ record v { cells = v'.cells })
      × ((j : ℕ) → j < 2000 → v'.cells j ≡ shown (s.tty_table n) j)
      × ((j : ℕ) → 2000 ≤ j → v'.cells j ≡ v.cells j)
refresh_cells hw s v w n a empty asks top text off =
    let t = s.tty_table n in
    let z : (t.refresh == 0) ≡ false = ground arith in
    let (v', go, keep, after, before) =
      draw_lem hw t w top text 2000 0 0 0 v off (omega arith) (omega arith) (omega arith) in
    (
      v',
      refresh_drained hw s v w n a empty ∙ rw (z, go) refl,
      keep,
      (λ j lt. after j (omega arith) lt),
      λ j far. before j (inr far),
    )

-- When the active terminal asks for a refresh, no output waits, its array is shown from the first
-- row on and holds printed characters below 0x80, its background color is below 8 and its foreground
-- color below 16, and scrolling of the screen is off: `tty_refresh` returns, and each of the 2000
-- cells of the screen holds the character at its place in the terminal's array, in its low byte, the
-- foreground color in the 4 bits above and the background color in the highest 4. The terminal does
-- not ask any more; nothing else of the terminals, of the screen's variables, of video memory and of
-- the ports changes.
pub tty_refresh_shows :
    (hw : Ports) (s : Ttys) (v : Vga) (w : hw.State) (n : ℕ)
    → s.active_tty ≡ some n
    → (s.tty_table n).tty_io_output.size ≡ 0
    → (s.tty_table n).refresh ≢ 0
    → (s.tty_table n).pos_scroll ≡ 0
    → IsText (s.tty_table n)
    → (s.tty_table n).color_bg < 8
    → (s.tty_table n).color_fg < 16
    → v.vga_scroll ≡ 0
    → let t = s.tty_table n in
      (v' : Vga) × (tty_refresh hw s v w ≡ ok (set_tty n (record t { refresh = 0 }) s, v', w))
      × (v' ≡ record v { cells = v'.cells })
      × ((j : ℕ) → j < 2000 → v'.cells j ≡ (t.color_bg * 16 + t.color_fg) * 256 + t.buf j)
      × ((j : ℕ) → 2000 ≤ j → v'.cells j ≡ v.cells j)
tty_refresh_shows hw s v w n a empty asks top text hb hf off =
    let t = s.tty_table n in
    let (v', go, keep, drawn, rest) =
      refresh_cells hw s v w n a empty asks top (λ j lt. (text j lt).0) off in
    (
      v',
      go,
      keep,
      (λ j lt.
          drawn j lt
          ∙ ap₂ (λ b f. vga_char b f (t.buf j)) (bit_and-bg t.color_bg hb)
              (bit_and-fg t.color_fg hf)
          ∙ vga_char_lem t.color_bg t.color_fg (t.buf j) hb hf (text j lt).1),
      rest,
    )
