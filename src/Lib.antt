-- ===== src/Lib.antt =====
-- A small teaching kernel for the i386, verified by a shallow embedding of its C code.
--
-- The program. Processes (include/kproc.h, src/kproc.c) stand in a table of 20 entries, which are
-- handed out by a queue of free entries. The scheduler (src/scheduler.c) keeps a run queue and a sleep
-- queue of process ids and chooses `active_proc`; semaphores (src/ksem.c) and mutexes
-- (src/kmutex.c) take processes off the scheduler and put them back. All these, and the timers
-- (src/timer.c), share one circular queue of 32 `int`s (src/queue.c). Processes and terminals
-- exchange bytes through rings (src/ringbuf.c). Interrupts enter through `kernel_context_enter` of
-- src/kernel.c, which saves the registers of the process that was interrupted, runs the handler that
-- src/interrupts.c has for it, and lets the scheduler choose a process to go on with. The timer's
-- handler wakes processes and refreshes the screen; the keyboard's scan codes are decoded by
-- src/keyboard.c; a system call (src/syscall.c, src/ksyscall.c) is an interrupt of the process itself.
-- Characters are kept in the virtual terminals of src/tty.c, and drawn on the screen by src/vga.c.
--
-- The files.
--   Base: lists, tables, machine words, the outcome of kernel code, a window of a circular array.
--   Queue: src/queue.c and include/queue.h; Fifo relates it to lists, Steps gives one operation at a
--     time.
--   RingBuf: src/ringbuf.c and include/ringbuf.h; Fifo is on single bytes, Transfer on the bulk
--     operations.
--   Process: the types of include/kproc.h and include/trapframe.h and the look-ups of src/kproc.c;
--     Lookup is on these.
--   Scheduler: src/scheduler.c; Removal and Remove are on `scheduler_remove`, Choice and Progress
--     on `scheduler_run`, RoundTrip on adding and removing, Wake on the tick
--     (Sleeper on the time that a process sleeps), Frames on the saved trapframes, Room on the length
--     of the queues.
--   Sem: src/ksem.c; Wait is on waiting and posting, Free on the queue of ids.
--   Mutex: src/kmutex.c; Locking and RoundTrip are on locking and unlocking, Allocation on the queue of
--     ids.
--   Kproc: the rest of src/kproc.c; Create and Destroy are on the two operations of these names, Init
--     on the processes at the start.
--   Timer: src/timer.c; Tick is on its interrupt handler.
--   Tty: src/tty.c and include/tty.h; Scroll is on the loops of `tty_update`, Update on what it does,
--     Refresh models and treats `tty_refresh`, Agree compares the scrolling with that of the screen.
--   Vga: src/vga.c and include/vga.h; Cells is on its loops, Colors on the bits of a cell, Scroll
--     and Position on `vga_putc`, At on printing at a place.
--   Ksyscall: the system calls of src/ksyscall.c for input and output, sleep, exit and the process id;
--     Io is on reading and writing, Dispatch models the other calls and `ksyscall_irq_handler`, and
--     treats it.
--   Syscall: the stubs of src/syscall.c.
--   Kernel: the variables of all components together; Log and Enter model src/kernel.c, Handlers the
--     handlers of the three interrupts and the callbacks of the timer on the whole system,
--     TestCallbacks those of include/test.h, and Boot `main` of src/main.c; the modules below them are
--     on what these do.
--   ProgUser: src/prog_user.c, as the system calls that a program makes; Shell and PingPong model the
--     programs. Below Shell, Batches, Reading and Overflow are on the line that is read, Commands on the
--     choice of a command, Turn on a whole turn, Locks, Plain, Guarded and Discipline on the use of the
--     mutex; below PingPong, Counts and Turns are on the order of the calls.
--   Bit: src/bit_util.c; Digits is on binary digits, Test and Count on the functions.
--   Keyboard: src/keyboard.c; Maps holds its two tables, Keys is on the decoding.
--   Interrupts: src/interrupts.c; Masks is on the mask registers.
--   Examples: the theorems at concrete values.
--
-- The correspondence. A function of the code is the definition of the same name. Global variables
-- are passed as records (`Procs`, `Sems`, `Mutexes`, `Timers`, `Keyboard`, `Ttys`, `Vga`, and
-- `Kernel` for all of them) and returned changed. An `int`, an `unsigned int` and a `size_t` are
-- bit patterns below 2 ^ 32, with the wrap-around and the sign written out; -1 is `minus_one`. An
-- array is a function of the index, with the range tests of the code. A `proc_t *` is the index of
-- an entry of the table, or `none` for NULL. A queue or ring operation that can return -1 returns
-- an `Option`; code that can stop the machine returns an `Outcome`, whose `halt` tells a panic, an
-- exit, a null pointer, a division that faults, and an access out of bounds.
--
-- Fuel. The loops of `scheduler_remove` and `scheduler_timer` run while their counters are below the
-- size of a queue, which never grows in them; the fuel of 33 rounds is one more than a queue holds.
-- The loop of `tty_refresh` that drains a ring has fuel for 2049 rounds, one more than a ring holds.
-- The loop of `bit_count` has fuel for 32 rounds, enough for an `int` that is not negative; for others no
-- fuel is enough. The other loops are bounded by constants or take a round per byte.
--
-- User programs. A program is a function of the calls made so far; the system that answers them is a
-- parameter, and so is the text that `snprintf` makes of a format. A call may not return. The endless
-- loops take the number of their rounds; the loop of the shell that reads a line takes a round of fuel
-- for each call of `io_read`, and ends only with a newline, so that no bound serves every input.
--
-- Not modelled: the switch of contexts in assembly, the text that the `printf` functions of the host
-- make, the messages that components log, which are output only, `keyboard_getc`, which nothing calls,
-- and the instructions that switch interrupts on and off. Ports, the descriptor table and
-- `breakpoint` are parameters.
pub mod Base
pub mod Queue
pub mod RingBuf
pub mod Process
pub mod Scheduler
pub mod Sem
pub mod Mutex
pub mod Kproc
pub mod Timer
pub mod Keyboard
pub mod Interrupts
pub mod Examples
pub mod Tty
pub mod Vga
pub mod Ksyscall
pub mod Syscall
pub mod Bit
pub mod Kernel
pub mod ProgUser
