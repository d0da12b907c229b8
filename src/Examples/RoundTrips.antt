-- ===== src/Examples/RoundTrips.antt =====
-- The round trips of locks, of the scheduler and of input and output.
use phase1_myunivos.Base.{arith, if◌then◌else◌, ltb, none, ok, refl, some, ℕ, ◌%◌, ◌+◌, ◌≡◌, ◌≢◌}
use phase1_myunivos.Examples.Data.{
  mutexes_with, no_items, no_items-IsValid, running, two_items-IsValid,
}
use phase1_myunivos.Ksyscall.{ksyscall_io_read, ksyscall_io_write}
use phase1_myunivos.Ksyscall.Io.{ksyscall_io_read-ksyscall_io_write}
use phase1_myunivos.Mutex.{Mutexes, kmutex_lock, kmutex_unlock}
use phase1_myunivos.Mutex.Locking.{IsConsistent}
use phase1_myunivos.Mutex.RoundTrip.{kmutex_unlock-kmutex_lock}
use phase1_myunivos.Process.{Procs, idle, io_output}
use phase1_myunivos.Queue.Fifo.{contents}
use phase1_myunivos.RingBuf.{RingBuf}
use phase1_myunivos.RingBuf.Transfer.{bytes_from}
use phase1_myunivos.Scheduler.{forget, scheduler_add, scheduler_remove}
use phase1_myunivos.Scheduler.RoundTrip.{scheduler_remove-scheduler_add}
use phase1_myunivos.Tty.{Ttys}
use phase1_myunivos.RingBuf

free-IsConsistent : IsConsistent ((mutexes_with 0 none no_items no_items).mutexes 7)
free-IsConsistent = record {
  valid = no_items-IsValid;
  free = λ e. (refl, refl);
  held = λ ne. absurd (ne refl);
}

kmutex_unlock-kmutex_lock_example :
    (s' : Mutexes) × (s'' : Mutexes) × (kmutex_lock 7
        (mutexes_with 0 none no_items no_items)
        running
      ≡ ok (1, s', running))
    × (kmutex_unlock 7 s' running ≡ ok (0, s'', running))
    × ((s''.mutexes 7).owner ≡ none)
    × ((s''.mutexes 7).locks ≡ 0)
    × IsConsistent (s''.mutexes 7)
    × ((j : ℕ) → j ≢ 7 → s''.mutexes j ≡ (mutexes_with 0 none no_items no_items).mutexes j)
kmutex_unlock-kmutex_lock_example =
    kmutex_unlock-kmutex_lock 7 1 (mutexes_with 0 none no_items no_items) running (omega arith)
      free-IsConsistent refl refl

scheduler_remove-scheduler_add_example :
    (s' : Procs) × (s'' : Procs) × (scheduler_add (some 1) running ≡ ok s')
    × (scheduler_remove (some 1) s' ≡ ok s'')
    × (contents s''.runnable ≡ contents running.runnable)
    × ((s''.table 1).scheduler_queue ≡ none)
    × ((s''.table 1).state ≡ idle)
    × (s''.active_proc ≡ forget 1 running.active_proc)
    × ((j : ℕ) → j ≢ 1 → s''.table j ≡ running.table j)
scheduler_remove-scheduler_add_example =
    scheduler_remove-scheduler_add 1 running two_items-IsValid (omega arith)
      ((λ e. absurd (omega arith)), ((λ e. absurd (omega arith)), tt))

-- A process that runs, with the output of terminal 3 as its buffers 0 and 1.
abbrev attached : Procs
attached = record running {
  table = λ i. record (running.table i) { io = λ k. if ltb k 2 then some (io_output 3) else none };
}

abbrev empty_ring : RingBuf
empty_ring = record { head = 2040; tail = 2040; size = 0; bytes = λ i. 0 }

abbrev terminals : Ttys
terminals = record {
  tty_table = λ n. record {
    id = n;
    buf = λ i. 0;
    refresh = 0;
    color_bg = 0;
    color_fg = 7;
    pos_x = 0;
    pos_y = 0;
    pos_scroll = 0;
    echo = 0;
    tty_io_input = empty_ring;
    tty_io_output = empty_ring;
  };
  active_tty = some 3;
}

abbrev text : ℕ → ℕ
text i = 65 + i % 26

empty_ring-IsValid : RingBuf.Fifo.IsValid empty_ring
empty_ring-IsValid = ground arith

ksyscall_io_read-ksyscall_io_write_example :
    (s' : Ttys) × (ksyscall_io_write 1 text 20 attached terminals ≡ (0, s'))
    × ((ksyscall_io_read 0 20 attached s').0 ≡ 20)
    × ((ksyscall_io_read 0 20 attached s').1 ≡ bytes_from text 0 20)
ksyscall_io_read-ksyscall_io_write_example =
    ksyscall_io_read-ksyscall_io_write 1 0 1 1 20 text attached attached terminals (io_output 3)
      (omega arith) (omega arith) refl refl refl refl empty_ring-IsValid refl (omega arith)
