-- ===== src/Tty.antt =====
-- src/tty.c and include/tty.h: the virtual terminals. `tty_refresh` is in the module Refresh.
pub mod Scroll
pub mod Update
pub mod Agree
pub mod Refresh
use phase1_myunivos.Base.{
  Option, Outcome, dec, halt, if◌then◌else◌, inc, ltb, minus_one, none, ok, or_keep, out_of_bounds,
  out_of_range, panic, sle, some, suc, to_stop, update, wrap, zero, ℕ, ◌*◌, ◌+◌, ◌-◌, ◌==◌, ◌>>=◌,
}
use phase1_myunivos.RingBuf.{RingBuf, ringbuf_write}

abbrev pub tty_max : ℕ
tty_max = 10

abbrev pub tty_width : ℕ
tty_width = 80

abbrev pub tty_height : ℕ
tty_height = 25

abbrev pub tty_buf_size : ℕ
tty_buf_size = 2000

-- `tty_t`
pub record Tty : Type 0 where
  pub id : ℕ
  pub buf : ℕ → ℕ
  pub refresh : ℕ
  pub color_bg : ℕ
  pub color_fg : ℕ
  pub pos_x : ℕ
  pub pos_y : ℕ
  pub pos_scroll : ℕ
  pub echo : ℕ
  pub tty_io_input : RingBuf
  pub tty_io_output : RingBuf

-- `tty_table` and `active_tty`, the number of an entry of it.
pub record Ttys : Type 0 where
  pub tty_table : ℕ → Tty
  pub active_tty : Option ℕ

abbrev pub set_tty : ℕ → Tty → Ttys → Ttys
set_tty n t s = record s { tty_table = update s.tty_table n t }

unfoldable pub tty_select : ℕ → Ttys → Outcome Ttys
tty_select n s =
    if out_of_range n tty_max
    then halt panic
    else ok (record (set_tty n (record (s.tty_table n) { refresh = 1 }) s) { active_tty = some n })

-- An entry of the table after `tty_init`: zeroes, the number and the colors.
abbrev pub new_tty : ℕ → Tty
new_tty i =
    let zeroes : RingBuf = record { head = 0; tail = 0; size = 0; bytes = λ i. 0 } in
    record {
      id = i;
      buf = λ j. 0;
      refresh = 0;
      color_bg = 0;
      color_fg = 7;
      pos_x = 0;
      pos_y = 0;
      pos_scroll = 0;
      echo = 0;
      tty_io_input = zeroes;
      tty_io_output = zeroes;
    }

-- `tty_init`, but for the registration of `tty_refresh` with the timer.
unfoldable pub tty_init : Ttys → Outcome Ttys
tty_init s = tty_select 0 (record s { tty_table = new_tty })

-- A `tty_t *`, as the number of the entry.
unfoldable pub tty_get : ℕ → Outcome ℕ
tty_get tty = if out_of_range tty tty_max then halt panic else ok tty

abbrev pub active_id : Option ℕ → Ttys → ℕ
active_id none s = minus_one
active_id (some n) s = (s.tty_table n).id

unfoldable pub tty_get_active : Ttys → ℕ
tty_get_active s = active_id s.active_tty s

-- Into the input ring, and with `echo` into the output ring; a full ring drops the character.
abbrev pub take_input : ℕ → Tty → Tty
take_input c t =
    let t' = record t { tty_io_input = or_keep (ringbuf_write t.tty_io_input c) t.tty_io_input } in
    if t.echo == 0
    then t'
    else record t' { tty_io_output = or_keep (ringbuf_write t.tty_io_output c) t.tty_io_output }

abbrev pub input_to : ℕ → Option ℕ → Ttys → Ttys
input_to c none s = s
input_to c (some n) s = set_tty n (take_input c (s.tty_table n)) s

unfoldable pub tty_input : ℕ → Ttys → Ttys
tty_input c s = input_to c s.active_tty s

-- The inner loop of the scrolling in the column `x`, from the row `y` on, with the rounds left.
unfoldable pub scroll_column : ℕ → ℕ → ℕ → (ℕ → ℕ) → ℕ → ℕ
scroll_column zero y x b = b
scroll_column (suc n) y x b =
    scroll_column n (y + 1) x (update b (tty_width * (y - 1) + x) (b (tty_width * y + x)))

-- The loop over the columns from `x` on.
unfoldable pub scroll_columns : ℕ → ℕ → (ℕ → ℕ) → ℕ → ℕ
scroll_columns zero x b = b
scroll_columns (suc m) x b = scroll_columns m (x + 1) (scroll_column 24 1 x b)

-- The loop that clears the last row; `y` is 25 after the loops before it.
unfoldable pub clear_row : ℕ → ℕ → (ℕ → ℕ) → ℕ → ℕ
clear_row zero x b = b
clear_row (suc m) x b = clear_row m (x + 1) (update b (tty_width * (25 - 1) + x) b' ')

-- "if (tty->pos_y >= TTY_HEIGHT)", and the refresh at the end.
abbrev pub scroll : Tty → Tty
scroll t =
    if sle tty_height t.pos_y
    then record t {
      buf = clear_row tty_width 0 (scroll_columns tty_width 0 t.buf);
      pos_y = tty_height - 1;
      refresh = 1;
    }
    else record t { refresh = 1 }

-- A character is stored at the position; past the end of the array the write goes out of bounds.
abbrev pub print : ℕ → Tty → Outcome Tty
print c t =
    let i = wrap (t.pos_scroll * tty_width + (t.pos_x + t.pos_y * tty_width)) in
    if ltb i tty_buf_size
    then ok (record t { buf = update t.buf i c; pos_x = inc t.pos_x })
    else halt out_of_bounds

-- The `switch` of `tty_update`.
abbrev pub place : ℕ → Tty → Outcome Tty
place c t =
    if c == 9
    then ok (record t { pos_x = wrap (t.pos_x + to_stop t.pos_x) })
    else if c == 8
    then ok (
        if t.pos_x == 0
        then (if t.pos_y == 0 then t else record t { pos_y = dec t.pos_y; pos_x = tty_width - 1 })
        else record t { pos_x = dec t.pos_x })
    else if c == 13
    then ok (record t { pos_x = 0 })
    else if c == 10
    then ok (record t { pos_y = inc t.pos_y; pos_x = 0 })
    else print c t

abbrev pub update_at : ℕ → Option ℕ → Ttys → Outcome Ttys
update_at c none s = ok s
update_at c (some n) s = place c (s.tty_table n) >>= λ t. ok (set_tty n (scroll t) s)

unfoldable pub tty_update : ℕ → Ttys → Outcome Ttys
tty_update c s = update_at c s.active_tty s
