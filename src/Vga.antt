-- ===== src/Vga.antt =====
-- src/vga.c and include/vga.h: the text screen. Video memory is a function of the number of the
-- 16-bit cell from 0xB8000 on; cells past the 2000 of the screen are memory that is not shown. A
-- string is the list of its characters before the final 0. The registers of the cursor are behind the
-- ports of the machine.
pub mod At
pub mod Cells
pub mod Colors
pub mod Position
pub mod Scroll
use phase1_myunivos.Base.{
  List, Option, [], dec, if◌then◌else◌, inc, is_negative, none, sign_bit, sign_extend, sle, some,
  suc, take, to_stop, update, wrap, zero, ℕ, ◌%◌, ◌&&◌, ◌*◌, ◌+◌, ◌-◌, ◌/◌, ◌==◌, ◌∷◌,
}
use phase1_myunivos.Interrupts.{Ports}
use Prim.Native.Nat.{bit_and, bit_or}

abbrev pub vga_width : ℕ
vga_width = 80

abbrev pub vga_height : ℕ
vga_height = 25

abbrev pub vga_port_addr : ℕ
vga_port_addr = 0x3d4

abbrev pub vga_port_data : ℕ
vga_port_data = 0x3d5

-- The variables of src/vga.c, and video memory.
pub record Vga : Type 0 where
  pub vga_pos_x : ℕ
  pub vga_pos_y : ℕ
  pub vga_color_bg : ℕ
  pub vga_color_fg : ℕ
  pub vga_cursor : ℕ
  pub vga_scroll : ℕ
  pub cells : ℕ → ℕ

-- VGA_ATTR
abbrev pub vga_attr : ℕ → ℕ → ℕ
vga_attr bg fg = bit_or (bit_and bg 0xf * 16) (bit_and fg 0xf)

-- VGA_CHAR, stored in an `unsigned short`; the character is a `char`, which is negative from 0x80 on.
unfoldable pub vga_char : ℕ → ℕ → ℕ → ℕ
vga_char bg fg c = bit_or (vga_attr (bit_and bg 0xf) (bit_and fg 0xf) * 256) (sign_extend c) % 65536

-- The cell `vga_pos_x + vga_pos_y * VGA_WIDTH`: an `int` times the two bytes of a cell, as an address.
abbrev pub cell_at : ℕ → ℕ → ℕ
cell_at x y = (x + y * vga_width) % sign_bit

-- A write at the position, in the current colors.
abbrev pub put_cell : ℕ → Vga → Vga
put_cell c v = record v {
  cells =
      update v.cells (cell_at v.vga_pos_x v.vga_pos_y) (vga_char v.vga_color_bg v.vga_color_fg c);
}

-- `if (x < 0) … else if (x >= n) …`
abbrev pub into_range : ℕ → ℕ → ℕ
into_range n x = if is_negative x then 0 else if sle n x then n - 1 else x

-- The `switch` of `vga_putc`.
abbrev pub put_char : ℕ → Vga → Vga
put_char c v =
    if c == 8
    then put_cell 0 (
        if v.vga_pos_x == 0
        then (if v.vga_pos_y == 0
            then v
            else record v { vga_pos_y = dec v.vga_pos_y; vga_pos_x = vga_width - 1 })
        else record v { vga_pos_x = dec v.vga_pos_x })
    else if c == 9
    then record v { vga_pos_x = wrap (v.vga_pos_x + to_stop v.vga_pos_x) }
    else if c == 13
    then record v { vga_pos_x = 0 }
    else if c == 10
    then record v { vga_pos_x = 0; vga_pos_y = inc v.vga_pos_y }
    else let v' = put_cell c v in record v' { vga_pos_x = inc v'.vga_pos_x }

-- "Handle end of lines"
abbrev pub end_line : Vga → Vga
end_line v =
    if sle vga_width v.vga_pos_x then record v { vga_pos_x = 0; vga_pos_y = inc v.vga_pos_y } else v

-- The loop that copies each row to the previous one, from the cell `i` on, with the rounds left.
unfoldable pub copy_up : ℕ → ℕ → (ℕ → ℕ) → ℕ → ℕ
copy_up zero i f = f
copy_up (suc n) i f = copy_up n (i + 1) (update f i (f (vga_width + i)))

-- The loop that fills cells with the value `w`, from the cell `i + d` on.
unfoldable pub fill_cells : ℕ → ℕ → ℕ → ℕ → (ℕ → ℕ) → ℕ → ℕ
fill_cells zero i d w f = f
fill_cells (suc n) i d w f = fill_cells n (i + 1) d w (update f (i + d) w)

-- "Handle end of rows", if scrolling is on.
abbrev pub end_rows : Vga → Vga
end_rows v =
    if v.vga_scroll == 0
    then v
    else if sle vga_height v.vga_pos_y
    then record v {
      cells =
          fill_cells vga_width 0 1920 (vga_char v.vga_color_bg v.vga_color_fg b' ')
            (copy_up 1920 0 v.cells);
      vga_pos_y = vga_height - 1;
    }
    else v

-- `vga_putc` but for the cursor.
unfoldable pub put : ℕ → Vga → Vga
put c v = end_rows (end_line (put_char c v))

-- `vga_set_xy` but for the cursor.
abbrev pub move_to : ℕ → ℕ → Vga → Vga
move_to x y v = record v { vga_pos_x = into_range vga_width x; vga_pos_y = into_range vga_height y }

unfoldable pub vga_set_bg : ℕ → Vga → Vga
vga_set_bg bg v = if sle 0 bg && sle bg 0xf then record v { vga_color_bg = bg } else v

unfoldable pub vga_set_fg : ℕ → Vga → Vga
vga_set_fg fg v = if sle 0 fg && sle fg 0xf then record v { vga_color_fg = fg } else v

unfoldable pub vga_get_x : Vga → ℕ
vga_get_x v = v.vga_pos_x

unfoldable pub vga_get_y : Vga → ℕ
vga_get_y v = v.vga_pos_y

unfoldable pub vga_get_bg : Vga → ℕ
vga_get_bg v = v.vga_color_bg

unfoldable pub vga_get_fg : Vga → ℕ
vga_get_fg v = v.vga_color_fg

unfoldable pub vga_setc : ℕ → Vga → Vga
vga_setc c v = put_cell c v

-- The position and the colors that the two `…_at` functions set, with the cursor off.
abbrev pub aim : ℕ → ℕ → ℕ → ℕ → Vga → Vga
aim x y bg fg v = record v {
  vga_pos_x = into_range vga_width x;
  vga_pos_y = into_range vga_height y;
  vga_color_bg = bit_and bg 0x7;
  vga_color_fg = bit_and fg 0xf;
  vga_cursor = 0;
}

-- What they put back: the position and the colors of `v`, and the cursor `cursor`.
abbrev pub restore : Vga → ℕ → Vga → Vga
restore v cursor v' = record v' {
  vga_pos_x = v.vga_pos_x;
  vga_pos_y = v.vga_pos_y;
  vga_color_bg = v.vga_color_bg;
  vga_color_fg = v.vga_color_fg;
  vga_cursor = cursor;
}

module _ (hw : Ports) where
  open hw use {State, inportb, outportb}

  -- The position goes to the registers as an `unsigned short`, in two bytes.
  unfoldable pub vga_cursor_update : Vga → State → State
  vga_cursor_update v s =
      let pos = (v.vga_pos_x + v.vga_pos_y * vga_width) % 65536 in
      if v.vga_cursor == 0
      then s
      else outportb vga_port_data (pos / 256) (
          outportb vga_port_addr 0x0e
            (outportb vga_port_data (pos % 256) (outportb vga_port_addr 0x0f s)))

  unfoldable pub vga_set_xy : ℕ → ℕ → Vga → State → Vga × State
  vga_set_xy x y v s = let v' = move_to x y v in (v', vga_cursor_update v' s)

  unfoldable pub vga_clear : Vga → State → Vga × State
  vga_clear v s =
      vga_set_xy 0 0
        (record v {
          cells = fill_cells 2000 0 0 (vga_char v.vga_color_bg v.vga_color_fg 0) v.cells;
        })
        s

  unfoldable pub vga_cursor_enable : Vga → State → Vga × State
  vga_cursor_enable v s =
      let s' = outportb vga_port_addr 0x0a s in
      let s'' = outportb vga_port_data (bit_or (bit_and (inportb vga_port_data s') 0xc0) 0xe) s' in
      let t = outportb vga_port_addr 0x0b s'' in
      (
        record v { vga_cursor = 1 },
        outportb vga_port_data (bit_or (bit_and (inportb vga_port_data t) 0xe0) 0xf) t,
      )

  unfoldable pub vga_cursor_disable : Vga → State → Vga × State
  vga_cursor_disable v s =
      (record v { vga_cursor = 0 }, outportb vga_port_data 0x20 (outportb vga_port_addr 0x0a s))

  unfoldable pub vga_init : Vga → State → Vga × State
  vga_init v s =
      let (v', s') = if v.vga_cursor == 0 then vga_cursor_disable v s else vga_cursor_enable v s in
      vga_clear v' s'

  unfoldable pub vga_putc : ℕ → Vga → State → Vga × State
  vga_putc c v s = let v' = put c v in (v', vga_cursor_update v' s)

  -- The loop of `vga_puts` and `vga_puts_at`.
  unfoldable pub put_all : List ℕ → Vga → State → Vga × State
  put_all [] v s = (v, s)
  put_all (c ∷ cs) v s = let (v', s') = vga_putc c v s in put_all cs v' s'

  unfoldable pub vga_puts : Option (List ℕ) → Vga → State → Vga × State
  vga_puts none v s = (v, s)
  vga_puts (some cs) v s = put_all cs v s

  -- `vga_printf`, given the whole text that `snprintf` makes; the buffer holds one cell less than the
  -- screen has, and the 0 at the end.
  unfoldable pub vga_printf : List ℕ → Vga → State → Vga × State
  vga_printf text v s = vga_puts (some (take (vga_width * vga_height - 1) text)) v s

  unfoldable pub vga_putc_at : ℕ → ℕ → ℕ → ℕ → ℕ → Vga → State → Vga × State
  vga_putc_at x y bg fg c v s =
      let (v', s') = vga_putc c (aim x y bg fg v) s in (restore v v.vga_cursor v', s')

  -- The cursor is put back as 0.
  unfoldable pub vga_puts_at : ℕ → ℕ → ℕ → ℕ → List ℕ → Vga → State → Vga × State
  vga_puts_at x y bg fg cs v s =
      let (v', s') = put_all cs (aim x y bg fg v) s in (restore v 0 v', s')
