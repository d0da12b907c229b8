-- ===== src/Keyboard.antt =====
-- src/keyboard.c: decoding scan codes. What a key makes the kernel do besides is an action, which
-- the caller carries out; trace messages are left out.
pub mod Maps
pub mod Keys
use phase1_myunivos.Base.{
  Bool, Outcome, exited, get_or, halt, if◌then◌else◌, inc, leb, ltb, minus_one, not, ok,
  out_of_bounds, sign_extend, xor, ℕ, ◌&&◌, ◌-◌, ◌==◌, ◌||◌,
}
use Maps.{keyboard_map_primary, keyboard_map_secondary}
use Prim.Native.Nat.{bit_and, bit_or, bit_xor}

-- `kbd_status`, the bits of the keys that change others, and `esc_status`.
pub record Keyboard : Type 0 where
  pub kbd_status : ℕ
  pub esc_status : ℕ

pub data Action : Type 0 where
  -- KEY_NULL is returned, and nothing else is done.
  key_null : Action
  -- The character is returned.
  key : ℕ → Action
  -- KEY_NULL is returned after the call of `tty_select`, `kernel_set_log_level` with a level one
  -- higher or one lower, `kproc_create` of the test process, `kproc_destroy` of the active process,
  -- or `breakpoint`.
  select_tty : ℕ → Action
  raise_log_level : Action
  lower_log_level : Action
  create_test : Action
  destroy_active : Action
  break_here : Action

abbrev pub status_ctrl : ℕ
status_ctrl = 0x01

abbrev pub status_alt : ℕ
status_alt = 0x02

abbrev pub status_shift : ℕ
status_shift = 0x04

abbrev pub status_caps : ℕ
status_caps = 0x08

abbrev pub status_numlock : ℕ
status_numlock = 0x10

-- `(stat & test) != 0`
abbrev pub has : ℕ → ℕ → Bool
has stat test = not (bit_and stat test == 0)

-- KEY_PRESSED
abbrev pub key_pressed : ℕ → Bool
key_pressed c = bit_and c 0x80 == 0

-- `|= bit` on a press, `&= ~bit` on a release.
abbrev pub hold : ℕ → Bool → Keyboard → Keyboard
hold bit pressed k = record k {
  kbd_status = if pressed then bit_or k.kbd_status bit else bit_and k.kbd_status (minus_one - bit);
}

-- `^= bit` on a press.
abbrev pub toggle : ℕ → Bool → Keyboard → Keyboard
toggle bit pressed k = if pressed then record k { kbd_status = bit_xor k.kbd_status bit } else k

-- The map that the status selects, at a scan code.
unfoldable pub map_key : ℕ → ℕ → ℕ
map_key status c = sign_extend (
    if leb 0x47 c && leb c 0x53
    then (if has status status_numlock
        then get_or keyboard_map_secondary c 0
        else get_or keyboard_map_primary c 0)
    else if xor (has status status_shift) (has status status_caps)
    then get_or keyboard_map_secondary c 0
    else get_or keyboard_map_primary c 0)

-- The commands under CTRL, and otherwise the character itself.
abbrev pub command : ℕ → ℕ → Action
command status c =
    let plain = (if c == 0 then key_null else key c) in
    if has status status_ctrl
    then (if c == b'+' || c == b'='
        then raise_log_level
        else if c == b'-' || c == b'_'
        then lower_log_level
        else if c == b'n' || c == b'N'
        then create_test
        else if c == b'q' || c == b'Q'
        then destroy_active
        else if c == b'b' || c == b'B'
        then break_here
        else plain)
    else plain

-- The escape key, of which the third in a row ends the kernel; any other character starts the count
-- anew.
abbrev pub after_escape : ℕ → Keyboard → Outcome (Keyboard × Action)
after_escape c k =
    let n = inc k.esc_status in
    if c == 0x1b
    then (if n == 3 then halt exited else ok (record k { esc_status = n }, key_null))
    else ok (if c == 0 then k else record k { esc_status = 0 }, command k.kbd_status c)

-- A key that is mapped to the character `c`.
unfoldable pub mapped : ℕ → Keyboard → Outcome (Keyboard × Action)
mapped c k =
    if has k.kbd_status status_alt && (leb b'0' c && leb c b'9')
    then ok (k, select_tty (c - b'0'))
    else after_escape c k

-- The `default` case; the maps have 128 entries.
abbrev pub other_key : ℕ → Bool → Keyboard → Outcome (Keyboard × Action)
other_key c pressed k =
    if not pressed
    then ok (k, key_null)
    else if ltb c 128
    then mapped (map_key k.kbd_status c) k
    else halt out_of_bounds

unfoldable pub keyboard_decode : ℕ → Keyboard → Outcome (Keyboard × Action)
keyboard_decode c k =
    let pressed = key_pressed c in
    let code = bit_and c 0xffffff7f in
    if code == 0x1d || code == 0xe01d
    then ok (hold status_ctrl pressed k, key_null)
    else if code == 0x38 || code == 0xe038
    then ok (hold status_alt pressed k, key_null)
    else if code == 0x2a || code == 0x36
    then ok (hold status_shift pressed k, key_null)
    else if code == 0x3a
    then ok (toggle status_caps pressed k, key_null)
    else if code == 0x45
    then ok (toggle status_numlock pressed k, key_null)
    else other_key c pressed k

-- `keyboard_poll`, given what the status port and the data port hold.
unfoldable pub keyboard_poll : ℕ → ℕ → Keyboard → Outcome (Keyboard × Action)
keyboard_poll stat data_byte k =
    if bit_and stat 1 == 0 then ok (k, key_null) else keyboard_decode data_byte k
