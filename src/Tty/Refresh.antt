-- ===== src/Tty/Refresh.antt =====
-- `tty_refresh` of src/tty.c: the output of the processes goes to the active terminal, and the
-- terminal to the screen.
pub mod Shows
pub mod Drains
use phase1_myunivos.Base.{
  Option, Outcome, halt, if◌then◌else◌, inc, ltb, none, ok, out_of_bounds, out_of_fuel, panic, sle,
  some, suc, wrap, zero, ℕ, ◌*◌, ◌+◌, ◌==◌, ◌>>=◌,
}
use phase1_myunivos.Interrupts.{Ports}
use phase1_myunivos.RingBuf.{RingBuf, ringbuf_is_empty, ringbuf_read}
use phase1_myunivos.Tty.{Tty, Ttys, set_tty, tty_buf_size, tty_update, tty_width}
use phase1_myunivos.Vga.{Vga, vga_putc_at, vga_width}

-- A byte of the output ring goes to `tty_update`.
abbrev pub read_next : Option (ℕ × RingBuf) → ℕ → Ttys → Outcome Ttys
read_next none n s = ok s
read_next (some (c, b)) n s =
    tty_update c (set_tty n (record (s.tty_table n) { tty_io_output = b }) s)

-- "Handle new I/O", with fuel.
unfoldable pub drain : ℕ → ℕ → Ttys → Outcome Ttys
drain zero n s = halt out_of_fuel
drain (suc f) n s =
    let rest = read_next (ringbuf_read (s.tty_table n).tty_io_output) n s >>= drain f n in
    if ringbuf_is_empty (s.tty_table n).tty_io_output then ok s else rest

-- One round of the loop that draws: the place of the cell `i` is found from that of the one before.
abbrev pub column_of : ℕ → ℕ
column_of x = if sle vga_width x then 0 else x

abbrev pub line_of : ℕ → ℕ → ℕ
line_of x y = if sle vga_width x then inc y else y

module _ (hw : Ports) where
  open hw use {State}

  -- The loop that draws, from the cell `i` at the place `x`, `y` on, with the rounds left.
  unfoldable pub draw : ℕ → ℕ → ℕ → ℕ → Tty → Vga → State → Outcome (Vga × State)
  draw zero i x y t v w = ok (v, w)
  draw (suc n) i x y t v w =
      let k = wrap (t.pos_scroll * tty_width + i) in
      let r = vga_putc_at hw (column_of x) (line_of x y) t.color_bg t.color_fg (t.buf k) v w in
      let rest = draw n (i + 1) (inc (column_of x)) (line_of x y) t r.0 r.1 in
      if ltb k tty_buf_size then rest else halt out_of_bounds

  -- A terminal is drawn if its refresh flag is set, and the flag is cleared.
  abbrev pub show : ℕ → Ttys → Vga → State → Outcome (Ttys × Vga × State)
  show n s v w =
      if (s.tty_table n).refresh == 0
      then ok (s, v, w)
      else draw tty_buf_size 0 0 0 (s.tty_table n) v w >>= λ r.
          ok (set_tty n (record (s.tty_table n) { refresh = 0 }) s, r.0, r.1)

  -- Fuel for one round more than a ring holds.
  abbrev pub refresh_at : Option ℕ → Ttys → Vga → State → Outcome (Ttys × Vga × State)
  refresh_at none s v w = halt panic
  refresh_at (some n) s v w = drain 2049 n s >>= λ s'. show n s' v w

  unfoldable pub tty_refresh : Ttys → Vga → State → Outcome (Ttys × Vga × State)
  tty_refresh s v w = refresh_at s.active_tty s v w
