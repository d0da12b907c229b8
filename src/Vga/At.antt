-- ===== src/Vga/At.antt =====
-- Printing at a place: `vga_putc_at` and `vga_puts_at`.
use phase1_myunivos.Base.{
  List, [], arith, refl, sym, update_hit, update_miss, ℕ, ◌*◌, ◌+◌, ◌<◌, ◌∙◌, ◌∷◌, ◌≡◌, ◌≢◌,
}
use phase1_myunivos.Interrupts.{Ports}
use phase1_myunivos.Vga.{
  Vga, aim, cell_at, into_range, put, put_all, put_cell, vga_char, vga_cursor_update, vga_height,
  vga_putc, vga_putc_at, vga_puts_at, vga_width,
}
use phase1_myunivos.Vga.Position.{put-scroll}
use Prim.Native.Nat.{bit_and}

-- With the cursor off nothing goes to the ports.
cursor_off : (hw : Ports) (v : Vga) (s : hw.State) → v.vga_cursor ≡ 0 → vga_cursor_update hw v s ≡ s
unfolding vga_cursor_update
cursor_off hw v s e = ground arith

put-cursor : (c : ℕ) (v : Vga) → (put c v).vga_cursor ≡ v.vga_cursor
unfolding put
put-cursor c v = ground arith

-- `vga_putc_at`, of any character and at any place, changes nothing but cells of video memory: the
-- position, the colors and the cursor are as before, and nothing goes to the ports.
pub vga_putc_at-restores :
    (hw : Ports) (x y bg fg c : ℕ) (v : Vga) (s : hw.State)
    → let (v', s') = vga_putc_at hw x y bg fg c v s in
      (v' ≡ record v { cells = v'.cells }) × (s' ≡ s)
unfolding vga_putc_at vga_putc
vga_putc_at-restores hw x y bg fg c v s = (
  rw (put-scroll c (aim x y bg fg v)) refl,
  cursor_off hw (put c (aim x y bg fg v)) s (put-cursor c (aim x y bg fg v)),
)

-- Not one of the four characters that only move the position.
abbrev pub IsPrinted : ℕ → Type 0
IsPrinted c = (c ≢ 8) × (c ≢ 9) × (c ≢ 13) × (c ≢ 10)

put_printed :
    (c : ℕ) (v : Vga) (j : ℕ)
    → IsPrinted c
    → v.vga_scroll ≡ 0
    → (put c v).cells j ≡ (put_cell c v).cells j
unfolding put
put_printed c v j p off = ground arith

-- With scrolling off, a printed character at a place of the screen: the cell of this place holds the
-- character in the given colors, the background without its highest bit, and no other cell changes.
pub vga_putc_at-cell :
    (hw : Ports) (x y bg fg c : ℕ) (v : Vga) (s : hw.State)
    → v.vga_scroll ≡ 0
    → IsPrinted c
    → x < vga_width
    → y < vga_height
    → let f = (vga_putc_at hw x y bg fg c v s).0.cells in
      (f (x + y * 80) ≡ vga_char (bit_and bg 0x7) (bit_and fg 0xf) c)
      × ((j : ℕ) → j ≢ x + y * 80 → f j ≡ v.cells j)
unfolding vga_putc_at vga_putc
vga_putc_at-cell hw x y bg fg c v s off p hx hy =
    let w = vga_char (bit_and bg 0x7) (bit_and fg 0xf) c in
    let at : cell_at (into_range 80 x) (into_range 25 y) ≡ x + y * 80 = ground arith in
    let go = λ (j : ℕ). put_printed c (aim x y bg fg v) j p off in
    (
      go (x + y * 80) ∙ update_hit v.cells _ w (x + y * 80) (sym at),
      λ j ne. go j ∙ update_miss v.cells _ w j (λ e. ne (e ∙ at)),
    )

put_all_quiet :
    (hw : Ports) (cs : List ℕ) (v : Vga) (s : hw.State)
    → v.vga_cursor ≡ 0
    → ((put_all hw cs v s).1 ≡ s) × ((put_all hw cs v s).0.vga_scroll ≡ v.vga_scroll)
unfolding put_all vga_putc
put_all_quiet hw [] v s off = (refl, refl)
put_all_quiet hw (c ∷ cs) v s off =
    let off' = put-cursor c v ∙ off in
    let (a, b) = put_all_quiet hw cs (put c v) (vga_cursor_update hw (put c v) s) off' in
    (a ∙ cursor_off hw (put c v) s off', b ∙ put-scroll c v)

-- `vga_puts_at` changes cells of video memory, and turns off the variable of the cursor, whatever it
-- was: the position and the colors are as before, and nothing goes to the ports.
vga_puts_at-loses_cursor :
    (hw : Ports) (x y bg fg : ℕ) (cs : List ℕ) (v : Vga) (s : hw.State)
    → let (v', s') = vga_puts_at hw x y bg fg cs v s in
      (v' ≡ record v { cells = v'.cells; vga_cursor = 0 }) × (s' ≡ s)
unfolding vga_puts_at
vga_puts_at-loses_cursor hw x y bg fg cs v s =
    let (a, b) = put_all_quiet hw cs (aim x y bg fg v) s refl in (rw b refl, a)
