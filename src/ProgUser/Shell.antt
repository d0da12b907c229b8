-- ===== src/ProgUser/Shell.antt =====
-- `prog_shell` of src/prog_user.c. The array `shell_mutex` is read and written by every shell; here
-- it is that of one shell, and what others write to it meanwhile is left out. A process id is not
-- negative.
pub mod Batches
pub mod Reading
pub mod Overflow
pub mod Commands
pub mod Turn
pub mod Locks
pub mod Plain
pub mod Guarded
pub mod Discipline
use phase1_myunivos.Base.{
  Arg, Bool, List, Option, [], codes, false, if◌then◌else◌, int, is_negative, ltb, minus_one, str,
  suc, true, update, zero, ℕ, ◌%◌, ◌&&◌, ◌*◌, ◌+◌, ◌==◌, ◌||◌, ◌∷◌,
}
use phase1_myunivos.Ksyscall.Dispatch.{store, text_of}
use phase1_myunivos.ProgUser.{
  Answer, User, UserCall, call, fault, io_flush, io_read, io_write, mutex_init, mutex_lock,
  mutex_unlock, pprintf, proc_exit, proc_get_name, proc_get_pid, proc_sleep, return, spins,
  sys_get_name, sys_get_time, ◌>>=◌, ◌>>◌,
}
use phase1_myunivos.RingBuf.Transfer.{bytes_from}
use Prim.Native.String.{String}

abbrev pub buf_size : ℕ
buf_size = 128

abbrev pub input_size : ℕ
input_size = 128

-- The variables of `prog_shell` that stay the same after its start; the name is the text up to the
-- first 0.
pub record Session : Type 0 where
  pub pid : ℕ
  pub os_name : List ℕ
  pub mutex : ℕ
  pub sleep_seconds : ℕ

-- The line that is read: `input`, `input_len` and `reading`.
pub record Line : Type 0 where
  pub input : ℕ → ℕ
  pub input_len : ℕ
  pub reading : Bool

abbrev pub new_line : Line
new_line = record { input = λ i. 0; input_len = 0; reading = true }

-- `strncmp(input + i, cmd, strlen(cmd)) == 0`
unfoldable pub starts_with : List ℕ → ℕ → (ℕ → ℕ) → Bool
starts_with [] i input = true
starts_with (c ∷ cs) i input = (input i == c) && starts_with cs (i + 1) input

-- The commands, and any other line.
pub data Command : Type 0 where
  help : Command
  sleep : Command
  time : Command
  exit : Command
  lock : Command
  other : Command

unfoldable pub command_of : (ℕ → ℕ) → Command
command_of input =
    if starts_with (codes "help") 0 input
    then help
    else if starts_with (codes "sleep") 0 input
    then sleep
    else if starts_with (codes "time") 0 input
    then time
    else if starts_with (codes "exit") 0 input
    then exit
    else if starts_with (codes "lock") 0 input
    then lock
    else other

module _ (system : List UserCall → Option Answer) (snprintf : String → List Arg → List ℕ) where
  -- Here and below, the calls and `pprintf` of this process.
  abbrev ask : UserCall → User Answer
  ask = call system snprintf

  abbrev say : String → List Arg → User (Unit {0})
  say = pprintf system snprintf

  -- The body of the `for` loop: the character `buf[i]` ends the line, or is put into it.
  abbrev pub read_char : ℕ → Line → User Line
  read_char c l =
      if (c == 10) || (c == 0)
      then (ask (io_write 1 (c ∷ [])) >> return (record l { reading = false }))
      else if ltb l.input_len input_size
      then (ask (io_write 1 (c ∷ []))
          >> return
              (record l { input = update l.input l.input_len c; input_len = l.input_len + 1 }))
      else fault

  -- The `for` loop, with the rounds left.
  unfoldable pub read_chars : ℕ → ℕ → (ℕ → ℕ) → Line → User Line
  read_chars zero i buf l = return l
  read_chars (suc n) i buf l =
      if ltb i buf_size then (read_char (buf i) l >>= read_chars n (i + 1) buf) else fault

  -- One round of `while (reading)`: the buffer and the line.
  abbrev pub read_round : ℕ → (ℕ → ℕ) → Line → User ((ℕ → ℕ) × Line)
  read_round mutex buf l =
      ask (mutex_lock mutex)
      >> (ask (io_read 0 buf_size) >>= λ a.
          let buf' = store 0 a.bytes buf in
          read_chars (if is_negative a.value then 0 else a.value) 0 buf' l >>= λ l'.
          ask (mutex_unlock mutex) >> return (buf', l'))

  -- `while (reading)`, with fuel.
  unfoldable pub read_line : ℕ → ℕ → (ℕ → ℕ) → Line → User ((ℕ → ℕ) × Line)
  read_line zero mutex buf l = λ h. spins h
  read_line (suc f) mutex buf l =
      read_round mutex buf l >>= λ r. if r.1.reading then read_line f mutex r.0 r.1 else return r

  -- "Sleeping for ..." and "... and awake", with the text of the second.
  abbrev pub nap : String → ℕ → User (Unit {0})
  nap awake seconds = ask sys_get_time >>= λ t.
      say "Sleeping for %d seconds at time %d ... " (int seconds ∷ int t.value ∷ [])
      >> (ask (proc_sleep seconds) >> (ask sys_get_time >>= λ t'. say awake (int t'.value ∷ [])))

  -- What the shell does for a command.
  abbrev pub run_command : Session → (ℕ → ℕ) → Command → User (Unit {0})
  run_command s input help =
      say "Enter one of the following commands:\n" []
      >> (say "\texit\t  exits the process\n" []
          >> (say "\tlock\t  takes a lock that may block other shells\n" []
              >> (say "\tsleep\t  puts the process to sleep for %d seconds\n"
                    (int s.sleep_seconds ∷ [])
                  >> (say "\ttime\t  displays the current system time\n" [] >> say "\n" []))))
  run_command s input sleep = nap "... and awake at time %d!\n" s.sleep_seconds
  run_command s input time =
      ask sys_get_time >>= λ t. say "The current time is %d seconds\n" (int t.value ∷ [])
  run_command s input exit =
      say "Exiting process id %d\n" (int s.pid ∷ []) >> (ask (proc_exit 0) >> return tt)
  run_command s input lock =
      say "Locking shells for %d seconds\n" (int s.sleep_seconds ∷ [])
      >> (ask (mutex_lock s.mutex)
          >> (ask (proc_sleep s.sleep_seconds) >> (ask (mutex_unlock s.mutex) >> return tt)))
  run_command s input other =
      say "You entered the following:\n%s\n" (str (text_of (bytes_from input 0 input_size)) ∷ [])

  -- One round of `while (1)`; the first number is the fuel for a line.
  abbrev pub shell_round : ℕ → Session → (ℕ → ℕ) → User (ℕ → ℕ)
  shell_round f s buf =
      say "%s[%d]$ " (str s.os_name ∷ int s.pid ∷ [])
      >> (read_line f s.mutex buf new_line >>= λ r.
          (if r.1.input_len == 0 then return tt else run_command s r.1.input (command_of r.1.input))
          >> return r.0)

  -- `while (1)`, with the rounds left.
  unfoldable pub shell_loop : ℕ → ℕ → Session → (ℕ → ℕ) → User (ℕ → ℕ)
  shell_loop zero f s buf = return buf
  shell_loop (suc n) f s buf = shell_round f s buf >>= shell_loop n f s

  -- A call that fills a name, and ends the process with -1 if it fails.
  abbrev pub named : UserCall → String → User Answer
  named c complaint = ask c >>= λ a.
      (if a.value == 0
        then return tt
        else (say complaint [] >> (ask (proc_exit minus_one) >> return tt)))
      >> return a

  -- From the call of `io_flush` to the loop.
  abbrev pub greet : List ℕ → Session → User Session
  greet name s =
      ask (io_flush 0)
      >> (ask (io_flush 1)
          >> (say "%s %s (process id %d) is running!\n" (str s.os_name ∷ str name ∷ int s.pid ∷ [])
              >> (nap "... and awake at time %d!\n\n" s.sleep_seconds >> return s)))

  -- The part of `prog_shell` before its loop. The mutex is that of `shell_mutex[pid % 2]`.
  abbrev pub shell_start : (ℕ → ℕ) → User Session
  shell_start shell_mutex = ask proc_get_pid >>= λ p.
      let pid = p.value in
      (if is_negative (shell_mutex (pid % 2))
        then (ask mutex_init >>= λ a. return a.value)
        else return (shell_mutex (pid % 2)))
      >>= λ mutex. named proc_get_name "error getting process name!" >>= λ name.
          named sys_get_name "error getting system name!" >>= λ os_name.
          greet (text_of name.bytes) (record {
            pid = pid;
            os_name = text_of os_name.bytes;
            mutex = mutex;
            sleep_seconds = (1 + pid % 4) * 4;
          })

  unfoldable pub prog_shell : ℕ → ℕ → (ℕ → ℕ) → User (ℕ → ℕ)
  prog_shell n f shell_mutex = shell_start shell_mutex >>= λ s. shell_loop n f s (λ i. 0)
