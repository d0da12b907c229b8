-- ===== src/Kernel/Log/Levels.antt =====
-- What the log of src/kernel.c shows, and its level under the keys that change it.
use phase1_myunivos.Base.{
  List, [], ap, append-nil, append_assoc, arith, below_or_not, false, if◌then◌else◌, inl, inr, leb,
  refl, slt, sym, true, ℕ, ◌++◌, ◌∙◌, ◌∷◌, ◌≡◌, ◌≤◌,
}
use phase1_myunivos.Kernel.Log.{
  kernel_log_debug, kernel_log_error, kernel_log_info, kernel_log_trace, kernel_log_warn,
  log_level_all, message,
}
use Prim.Native.String.{String}

-- The functions that print messages, from the most severe one on.
pub data Severity : Type 0 where
  error warn info debug trace : Severity

abbrev pub number : Severity → ℕ
number error = 1
number warn = 2
number info = 3
number debug = 4
number trace = 5

abbrev pub prefix : Severity → String
prefix error = "error: "
prefix warn = "warn: "
prefix info = "info: "
prefix debug = "debug: "
prefix trace = "trace: "

abbrev pub log : Severity → List ℕ → ℕ → List ℕ → List ℕ
log error = kernel_log_error
log warn = kernel_log_warn
log info = kernel_log_info
log debug = kernel_log_debug
log trace = kernel_log_trace

-- Calls of these functions, one after the other.
unfoldable pub log_all : List (Severity × List ℕ) → ℕ → List ℕ → List ℕ
log_all [] level console = console
log_all ((s, text) ∷ ms) level console = log_all ms level (log s text level console)

-- The lines of the messages whose number is at most the level.
unfoldable pub shown : List (Severity × List ℕ) → ℕ → List ℕ
shown [] level = []
shown ((s, text) ∷ ms) level =
    (if leb (number s) level then message (prefix s) text else []) ++ shown ms level

gate :
    (needed level : ℕ) (m console : List ℕ)
    → needed ≤ log_level_all
    → level ≤ log_level_all
    → (if slt level needed then console else console ++ m)
      ≡ console ++ (if leb needed level then m else [])
gate needed level m console small le = elim (below_or_not level needed) [
  | inl lt ↦
      let below : slt level needed ≡ true = ground arith in
      let hidden : leb needed level ≡ false = ground arith in
      rw (below, hidden) (sym (append-nil console))
  | inr ge ↦
      let below : slt level needed ≡ false = ground arith in
      let seen : leb needed level ≡ true = ground arith in rw (below, seen) refl
]

log_one :
    (s : Severity) (text : List ℕ) (level : ℕ) (console : List ℕ)
    → level ≤ log_level_all
    → log s text level console
      ≡ console ++ (if leb (number s) level then message (prefix s) text else [])
unfolding kernel_log_error kernel_log_warn kernel_log_info kernel_log_debug kernel_log_trace
log_one error text level console le = gate 1 level (message "error: " text) console (omega arith) le
log_one warn text level console le = gate 2 level (message "warn: " text) console (omega arith) le
log_one info text level console le = gate 3 level (message "info: " text) console (omega arith) le
log_one debug text level console le = gate 4 level (message "debug: " text) console (omega arith) le
log_one trace text level console le = gate 5 level (message "trace: " text) console (omega arith) le

-- The messages of any sequence of calls, at a level from 0 to 6: the console shows, after what it
-- showed before, the lines of the messages whose number is at most the level, in order, each with
-- its prefix.
log_all-shown :
    (ms : List (Severity × List ℕ)) (level : ℕ) (console : List ℕ)
    → level ≤ log_level_all
    → log_all ms level console ≡ console ++ shown ms level
unfolding log_all shown
log_all-shown [] level console le = sym (append-nil console)
log_all-shown ((s, text) ∷ ms) level console le =
    let line = if leb (number s) level then message (prefix s) text else [] in
    ap (log_all ms level) (log_one s text level console le)
    ∙ log_all-shown ms level (console ++ line) le
    ∙ append_assoc console line (shown ms level)
