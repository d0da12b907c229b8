-- ===== src/Syscall.antt =====
-- src/syscall.c: the calls as a process makes them. The stub puts the number of the call and the
-- arguments into registers, as `int`s; the interrupt saves the registers as a trapframe.
use phase1_myunivos.Base.{ℕ}
use phase1_myunivos.Process.{Trapframe}

unfoldable pub syscall0 : ℕ → Trapframe → Trapframe
syscall0 syscall tf = record tf { eax = syscall }

unfoldable pub syscall1 : ℕ → ℕ → Trapframe → Trapframe
syscall1 syscall arg1 tf = record tf { eax = syscall; ebx = arg1 }

unfoldable pub syscall2 : ℕ → ℕ → ℕ → Trapframe → Trapframe
syscall2 syscall arg1 arg2 tf = record tf { eax = syscall; ebx = arg1; ecx = arg2 }

unfoldable pub syscall3 : ℕ → ℕ → ℕ → ℕ → Trapframe → Trapframe
syscall3 syscall arg1 arg2 arg3 tf = record tf { eax = syscall; ebx = arg1; ecx = arg2; edx = arg3 }

-- A call of one of the functions, with its arguments; a pointer is an address.
pub data Call : Type 0 where
  sys_get_time : Call
  sys_get_name : ℕ → Call
  proc_sleep : ℕ → Call
  proc_exit : ℕ → Call
  proc_get_pid : Call
  proc_get_name : ℕ → Call
  io_write : ℕ → ℕ → ℕ → Call
  io_read : ℕ → ℕ → ℕ → Call
  io_flush : ℕ → Call
  mutex_init : Call
  mutex_destroy : ℕ → Call
  mutex_lock : ℕ → Call
  mutex_unlock : ℕ → Call
  sem_init : ℕ → Call
  sem_destroy : ℕ → Call
  sem_wait : ℕ → Call
  sem_post : ℕ → Call

-- The bodies of the functions: the registers at the interrupt, from those before.
unfoldable pub registers : Call → Trapframe → Trapframe
unfolding syscall0 syscall1 syscall2 syscall3
registers sys_get_time = syscall0 4
registers (sys_get_name name) = syscall1 5 name
registers (proc_sleep secs) = syscall1 6 secs
registers (proc_exit exitcode) = syscall1 7 exitcode
registers proc_get_pid = syscall0 8
registers (proc_get_name name) = syscall1 9 name
registers (io_write io buf n) = syscall3 2 io buf n
registers (io_read io buf n) = syscall3 1 io buf n
registers (io_flush io) = syscall1 3 io
registers mutex_init = syscall0 10
registers (mutex_destroy mutex) = syscall1 11 mutex
registers (mutex_lock mutex) = syscall1 12 mutex
registers (mutex_unlock mutex) = syscall1 13 mutex
registers (sem_init value) = syscall1 14 value
registers (sem_destroy sem) = syscall1 15 sem
registers (sem_wait sem) = syscall1 16 sem
registers (sem_post sem) = syscall1 17 sem
