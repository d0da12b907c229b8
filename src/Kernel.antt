-- ===== src/Kernel.antt =====
-- The whole system: the variables of all components together, with the log level of src/kernel.c, the
-- count of `test_spinner` and the memory of the processes, the byte at each address.
pub mod Boot
pub mod Enter
pub mod Handlers
pub mod Log
pub mod TestCallbacks
use phase1_myunivos.Base.{ℕ}
use phase1_myunivos.Keyboard.{Keyboard}
use phase1_myunivos.Mutex.{Mutexes}
use phase1_myunivos.Process.{Procs}
use phase1_myunivos.Sem.{Sems}
use phase1_myunivos.Timer.{Timers}
use phase1_myunivos.Tty.{Ttys}
use phase1_myunivos.Vga.{Vga}

-- The functions that the system registers with the timer.
pub data Callback : Type 0 where
  call_scheduler_timer : Callback
  call_tty_refresh : Callback
  call_test_spinner : Callback
  call_test_timer : Callback
  call_test_proc_list : Callback

pub record Kernel : Type 0 where
  pub procs : Procs
  pub sems : Sems
  pub mutexes_of : Mutexes
  pub ttys : Ttys
  pub vga : Vga
  pub timers_of : Timers Callback
  pub keyboard : Keyboard
  pub kernel_log_level : ℕ
  pub spin_count : ℕ
  pub memory : ℕ → ℕ

abbrev pub with_procs : ℕ × Procs → Kernel → ℕ × Kernel
with_procs (rc, p) k = (rc, record k { procs = p })

abbrev pub with_ttys : ℕ × Ttys → Kernel → ℕ × Kernel
with_ttys (rc, t) k = (rc, record k { ttys = t })

abbrev pub with_sems : ℕ × Sems → Kernel → ℕ × Kernel
with_sems (rc, s) k = (rc, record k { sems = s })

abbrev pub with_mutexes : ℕ × Mutexes → Kernel → ℕ × Kernel
with_mutexes (rc, m) k = (rc, record k { mutexes_of = m })
