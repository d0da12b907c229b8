-- ===== src/Examples/Data.antt =====
-- Concrete values: queues that wrap around the end of the array, four processes of which the second
-- runs, and the tables of semaphores and mutexes.
use phase1_myunivos.Base.{
  Option, Outcome, arith, codes, if◌then◌else◌, ltb, none, ok, refl, some, some-inj, sym, update, ℕ,
  ◌%◌, ◌+◌, ◌==◌, ◌≡◌,
}
use phase1_myunivos.Interrupts.{Ports}
use phase1_myunivos.Kernel.{Callback, Kernel}
use phase1_myunivos.Kproc.{Machine}
use phase1_myunivos.Mutex.{Mutexes, zero_mutex}
use phase1_myunivos.Process.{
  Proc, Procs, active, find_entry, idle, pid_to_proc, run_queue, zero_proc,
}
use phase1_myunivos.Queue.{Queue}
use phase1_myunivos.Queue.Fifo.{IsValid}
use phase1_myunivos.RingBuf.{RingBuf}
use phase1_myunivos.Scheduler.Choice.{Ready}
use phase1_myunivos.Sem.{Sems}
use phase1_myunivos.Timer.{timer_init}
use phase1_myunivos.Tty.{Ttys}

abbrev pub three_items : Queue
three_items = record {
  head = 31;
  tail = 2;
  size = 3;
  items = λ i. if i == 31 then 2 else if i == 0 then 1 else if i == 1 then 3 else 0;
}

abbrev pub two_items : Queue
two_items = record {
  head = 31;
  tail = 1;
  size = 2;
  items = λ i. if i == 31 then 2 else if i == 0 then 3 else 0;
}

abbrev pub one_item : Queue
one_item = record { head = 5; tail = 6; size = 1; items = λ i. if i == 5 then 3 else 0 }

abbrev pub no_items : Queue
no_items = record { head = 7; tail = 7; size = 0; items = λ i. 0 }

pub three_items-IsValid : IsValid three_items
three_items-IsValid = ground arith

pub two_items-IsValid : IsValid two_items
two_items-IsValid = ground arith

pub one_item-IsValid : IsValid one_item
one_item-IsValid = ground arith

pub no_items-IsValid : IsValid no_items
no_items-IsValid = ground arith

-- The process table with the process ids 0 to 3 in the first entries, the second one running for
-- the given time.
abbrev pub four_procs : ℕ → ℕ → Proc
four_procs time i =
    if ltb i 4
    then record zero_proc {
      pid = i;
      state = if i == 1 then active else idle;
      cpu_time = if i == 1 then time else 0;
      scheduler_queue = some run_queue;
    }
    else zero_proc

abbrev pub procs_with : Queue → Option ℕ → ℕ → Procs
procs_with q a time = record {
  next_pid = 4;
  allocator = record { head = 4; tail = 20; size = 16; items = λ i. if ltb 3 i then i else 0 };
  table = four_procs time;
  runnable = q;
  sleepers = no_items;
  active_proc = a;
}

-- The second process runs, the third and the fourth are ready.
abbrev pub running : Procs
running = procs_with two_items (some 1) 10

pub running_finds_0 : pid_to_proc 0 running ≡ some 0
unfolding pid_to_proc find_entry
running_finds_0 = refl

pub running_finds_1 : pid_to_proc 1 running ≡ some 1
unfolding pid_to_proc find_entry
running_finds_1 = refl

pub running_finds_2 : pid_to_proc 2 running ≡ some 2
unfolding pid_to_proc find_entry
running_finds_2 = refl

pub running_finds_3 : pid_to_proc 3 running ≡ some 3
unfolding pid_to_proc find_entry
running_finds_3 = refl

abbrev pub sems_with : ℕ → Queue → Sems
sems_with count q = record {
  semaphores = λ i.
      if i == 7
      then record { allocated = 1; count = count; wait_queue = q }
      else record { allocated = 0; count = 0; wait_queue = no_items };
  sem_queue = two_items;
}

abbrev pub mutexes_with : ℕ → Option ℕ → Queue → Queue → Mutexes
mutexes_with locks owner waiters free = record {
  mutexes = λ i.
      if i == 7
      then record { allocated = 1; locks = locks; owner = owner; wait_queue = waiters }
      else zero_mutex;
  mutex_queue = free;
}

-- Ports that keep the last byte written.
abbrev pub ports : Ports
ports = record {
  State = ℕ → ℕ;
  inportb = λ p s. s p % 256;
  outportb = λ p v s. update s p v;
  byte = λ p s. omega arith;
  read_back = λ p v s e h. ground arith;
  apart = λ p q v s e ne. ground arith;
}

abbrev pub all_masked : ℕ → ℕ
all_masked p = 0xfb

pub running-Ready : Ready running
running-Ready = record {
  valid = two_items-IsValid;
  queued = ((2, running_finds_2), ((3, running_finds_3), tt));
  idle_task = (0, running_finds_0);
  running = λ p e. rw (sym (some-inj e)) (1, running_finds_1);
}

-- A machine, with programs that are not NULL.
abbrev pub machine : Machine
machine = record {
  get_cs = 8;
  get_ds = 16;
  get_es = 16;
  get_fs = 16;
  get_gs = 16;
  start_flags = 514;
  kproc_idle = 4096;
  prog_shell = 8192;
  prog_ping = 12288;
  prog_pong = 16384;
  os_name = codes "MyOS";
}

abbrev pub empty_ring : RingBuf
empty_ring = record { head = 0; tail = 0; size = 0; bytes = λ i. 0 }

-- Terminal 3 at a column of the last row.
abbrev pub terminals : ℕ → Ttys
terminals x = record {
  tty_table = λ n. record {
    id = n;
    buf = λ i. 65 + i % 26;
    refresh = 0;
    color_bg = 0;
    color_fg = 7;
    pos_x = x;
    pos_y = 24;
    pos_scroll = 0;
    echo = 0;
    tty_io_input = empty_ring;
    tty_io_output = empty_ring;
  };
  active_tty = some 3;
}

-- The variables of the image, but for those that are set before they are read.
abbrev pub image : Kernel
image = record {
  procs = record (procs_with no_items none 0) { next_pid = 0 };
  sems = sems_with 0 no_items;
  mutexes_of = mutexes_with 0 none no_items no_items;
  ttys = terminals 0;
  vga = record {
    vga_pos_x = 0;
    vga_pos_y = 0;
    vga_color_bg = 0;
    vga_color_fg = 7;
    vga_cursor = 0;
    vga_scroll = 0;
    cells = λ i. 0;
  };
  timers_of = timer_init;
  keyboard = record { kbd_status = 0; esc_status = 0 };
  kernel_log_level = 4;
  spin_count = 0;
  memory = λ i. 0;
}

abbrev pub no_breakpoint : Kernel → Outcome Kernel
no_breakpoint k = ok k

abbrev pub no_test : Callback → Kernel → (ℕ → ℕ) → Outcome (Kernel × (ℕ → ℕ))
no_test c k s = ok (k, s)
