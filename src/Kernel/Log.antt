-- ===== src/Kernel/Log.antt =====
-- The log of src/kernel.c: its level, and the messages on the console of the host.
pub mod Levels
use phase1_myunivos.Base.{
  Arg, List, Outcome, [], codes, exited, halt, if◌then◌else◌, int, panic, slt, str, ℕ, ◌++◌, ◌∷◌,
}
use phase1_myunivos.Interrupts.{Ports}
use phase1_myunivos.Kernel.{Kernel}
use phase1_myunivos.Vga.{Vga, vga_printf, vga_set_bg, vga_set_fg, vga_set_xy}
use Prim.Native.String.{String}

-- The last of `log_level_t`, KERNEL_LOG_LEVEL_ALL; KERNEL_LOG_LEVEL_NONE is 0.
abbrev pub log_level_all : ℕ
log_level_all = 6

unfoldable pub kernel_get_log_level : Kernel → ℕ
kernel_get_log_level k = k.kernel_log_level

abbrev pub clamp_level : ℕ → ℕ
clamp_level level =
    if slt level 0 then 0 else if slt log_level_all level then log_level_all else level

unfoldable pub kernel_set_log_level : ℕ → Kernel → ℕ × Kernel
kernel_set_log_level level k =
    (clamp_level level, record k { kernel_log_level = clamp_level level })

-- A message with its prefix, given the text that `vprintf` makes of it.
abbrev pub message : String → List ℕ → List ℕ
message prefix text = codes prefix ++ text ++ codes "\n"

-- The five functions, on the log level and what the console shows.
unfoldable pub kernel_log_error : List ℕ → ℕ → List ℕ → List ℕ
kernel_log_error text level console =
    if slt level 1 then console else console ++ message "error: " text

unfoldable pub kernel_log_warn : List ℕ → ℕ → List ℕ → List ℕ
kernel_log_warn text level console =
    if slt level 2 then console else console ++ message "warn: " text

unfoldable pub kernel_log_info : List ℕ → ℕ → List ℕ → List ℕ
kernel_log_info text level console =
    if slt level 3 then console else console ++ message "info: " text

unfoldable pub kernel_log_debug : List ℕ → ℕ → List ℕ → List ℕ
kernel_log_debug text level console =
    if slt level 4 then console else console ++ message "debug: " text

unfoldable pub kernel_log_trace : List ℕ → ℕ → List ℕ → List ℕ
kernel_log_trace text level console =
    if slt level 5 then console else console ++ message "trace: " text

-- `kernel_panic`, which does not look at the level: what the console shows, and the halt.
unfoldable pub kernel_panic : {A : Type 0} → List ℕ → List ℕ → List ℕ × Outcome A
kernel_panic text console = (console ++ message "panic: " text, halt panic)

-- `kernel_init` only greets, with the two texts that `vprintf` makes.
unfoldable pub kernel_init : List ℕ → List ℕ → ℕ → List ℕ → List ℕ
kernel_init welcome text level console =
    kernel_log_info text level (kernel_log_info welcome level console)

-- `kernel_exit` on the console, the screen and the ports, given the texts of `printf` and `snprintf`.
module _ (hw : Ports) (snprintf : String → List Arg → List ℕ) where
  unfoldable pub kernel_exit :
      List ℕ → List ℕ → Vga → hw.State → List ℕ × Vga × hw.State × Outcome (Unit {0})
  kernel_exit os_name console v s =
      let console' = console ++ snprintf "Exiting %s...\n" (str os_name ∷ []) in
      let (v1, s1) = vga_set_xy hw 0 0 (vga_set_fg 0xf (vga_set_bg 0x4 v)) s in
      let (v2, s2) = vga_printf hw (snprintf "%*s" (int 80 ∷ str [] ∷ [])) v1 s1 in
      let (v3, s3) = vga_set_xy hw 0 0 v2 s2 in
      let (v4, s4) = vga_printf hw (snprintf "Exiting %s...\n" (str os_name ∷ [])) v3 s3 in
      (console', v4, s4, halt exited)
