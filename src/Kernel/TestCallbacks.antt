-- ===== src/Kernel/TestCallbacks.antt =====
-- include/test.h: the callbacks that draw the state of the system on the screen.
use phase1_myunivos.Base.{
  Arg, List, Outcome, [], codes, if◌then◌else◌, inc, int, not, ok, str, suc, take, zero, ℕ, ◌%◌,
  ◌+◌, ◌-◌, ◌==◌, ◌∷◌,
}
use phase1_myunivos.Interrupts.{Ports}
use phase1_myunivos.Kernel.{
  Callback, Kernel, call_scheduler_timer, call_test_proc_list, call_test_spinner, call_test_timer,
  call_tty_refresh,
}
use phase1_myunivos.Ksyscall.Dispatch.{ksyscall_sys_get_time, text_of}
use phase1_myunivos.Process.{
  Proc, ProcState, absent, active, idle, is_absent, proc_max, sleeping, waiting,
}
use phase1_myunivos.Timer.{magnitude, timer_get_ticks}
use phase1_myunivos.Tty.{tty_get_active}
use phase1_myunivos.Vga.{
  Vga, vga_height, vga_printf, vga_putc_at, vga_puts_at, vga_set_xy, vga_width,
}
use Prim.Native.String.{String}

-- The text of `snprintf` in a zeroed buffer of the given size, up to its 0.
abbrev pub printed : ℕ → List ℕ → List ℕ
printed size text = take (size - 1) text

-- `spin[count % sizeof(spin)]`, whose operands are unsigned.
unfoldable pub spin : ℕ → ℕ
spin count =
    let n = count % 4 in
    if n == 0 then b'|' else if n == 1 then b'/' else if n == 2 then b'-' else 0x5c

-- The letter of a state, and its color.
abbrev pub state_letter : ProcState → ℕ
state_letter idle = b'I'
state_letter active = b'A'
state_letter sleeping = b'S'
state_letter waiting = b'W'
state_letter absent = b'?'

abbrev pub state_color : ProcState → ℕ
state_color idle = 0xf
state_color active = 0x2
state_color sleeping = 0xe
state_color waiting = 0x6
state_color absent = 0x8

-- The parameters: the machine, and the whole text that `snprintf` makes.
module _ (hw : Ports) (snprintf : String → List Arg → List ℕ) where
  open hw use {State}

  unfoldable pub test_spinner : Kernel → State → Kernel × State
  test_spinner k s =
      let (v, s') = vga_putc_at hw (vga_width - 1) 0 0x0 0x2 (spin k.spin_count) k.vga s in
      (record k { vga = v; spin_count = inc k.spin_count }, s')

  unfoldable pub test_timer : Kernel → State → Kernel × State
  test_timer k s =
      let (v, s') = vga_set_xy hw 73 0 k.vga s in
      let (v', s'') = vga_printf hw (snprintf "%5d" (int (ksyscall_sys_get_time k) ∷ [])) v s' in
      (record k { vga = v' }, s'')

  -- The two loops that clear the screen below its first row, with the columns and rows left.
  unfoldable pub clear_columns : ℕ → ℕ → ℕ → Vga → State → Vga × State
  clear_columns zero c r v s = (v, s)
  clear_columns (suc n) c r v s =
      let (v', s') = vga_putc_at hw c r 0x0 0x7 b' ' v s in clear_columns n (c + 1) r v' s'

  unfoldable pub clear_rows : ℕ → ℕ → Vga → State → Vga × State
  clear_rows zero r v s = (v, s)
  clear_rows (suc n) r v s =
      let (v', s') = clear_columns vga_width 0 r v s in clear_rows n (r + 1) v' s'

  -- What the loop over the processes carries: the row, the color, the screen and the ports.
  pub record Listing : Type 0 where
    pub row : ℕ
    pub fg_color : ℕ
    pub screen : Vga
    pub rest : State

  abbrev pub put_row : List ℕ → Listing → Listing
  put_row buf l =
      let (v, s) = vga_puts_at hw 0 l.row 0x0 l.fg_color (printed vga_width buf) l.screen l.rest in
      record l { screen = v; rest = s }

  -- The row of a process; one without a state leaves a blank, in the color of the one before, which
  -- the next process overwrites.
  abbrev pub list_proc : ℕ → Proc → Listing → Listing
  list_proc i p l =
      if is_absent p.state
      then put_row (snprintf "%*s" (int vga_width ∷ str (codes " ") ∷ [])) l
      else let l' =
          put_row
            (snprintf "%5d  %5d  %4c  %8d  %6d    %s" (
              int i
              ∷ int p.pid
              ∷ int (state_letter p.state)
              ∷ int p.run_time
              ∷ int p.cpu_time
              ∷ str (text_of p.name)
              ∷ []))
            (record l { fg_color = state_color p.state }) in
        record l' { row = l'.row + 1 }

  -- The loop over the table, with the rounds left; no number in it is out of range.
  unfoldable pub list_procs : ℕ → ℕ → (ℕ → Proc) → Listing → Listing
  list_procs zero i table l = l
  list_procs (suc n) i table l = list_procs n (i + 1) table (list_proc i (table i) l)

  unfoldable pub test_proc_list : Kernel → State → Kernel × State
  test_proc_list k s =
      if not (tty_get_active k.ttys == 0)
      then (k, s)
      else let (v, s') =
          (if magnitude (timer_get_ticks k.timers_of) % 100 == 0
            then clear_rows (vga_height - 1) 1 k.vga s
            else (k.vga, s)) in
        let (v', s'') =
          vga_puts_at hw 0 0 0x0 0x7
            (printed vga_width (snprintf "Entry    PID   State    Time     CPU    Name" [])) v s' in
        let l =
          list_procs proc_max 0 k.procs.table
            (record { row = 1; fg_color = 0x7; screen = v'; rest = s'' }) in
        (record k { vga = l.screen }, l.rest)

  -- The callbacks that `test_init` registers; the other two are those of the kernel.
  unfoldable pub test_callback : Callback → Kernel → State → Outcome (Kernel × State)
  test_callback call_test_spinner k s = ok (test_spinner k s)
  test_callback call_test_timer k s = ok (test_timer k s)
  test_callback call_test_proc_list k s = ok (test_proc_list k s)
  test_callback call_scheduler_timer k s = ok (k, s)
  test_callback call_tty_refresh k s = ok (k, s)
