-- ===== src/ProgUser.antt =====
-- src/prog_user.c: the programs that run as processes. A program is described by the system calls
-- that it makes: it goes on from a list of calls, the last one last, and the rest of the system
-- answers each call from all calls so far, in any way. A call may also never return: that of
-- `proc_exit`, or one that waits for ever.
pub mod Shell
pub mod PingPong
use phase1_myunivos.Base.{
  Arg, List, Option, [], if◌then◌else◌, length, ltb, none, replicate, some, take, ℕ, ◌++◌, ◌-◌,
  ◌==◌, ◌∷◌,
}
use Prim.Native.String.{String}

-- The functions of include/syscall.h as a program sees them: what it passes through a pointer is a
-- list of bytes here.
pub data UserCall : Type 0 where
  sys_get_time : UserCall
  sys_get_name : UserCall
  proc_sleep : ℕ → UserCall
  proc_exit : ℕ → UserCall
  proc_get_pid : UserCall
  proc_get_name : UserCall
  io_write : ℕ → List ℕ → UserCall
  io_read : ℕ → ℕ → UserCall
  io_flush : ℕ → UserCall
  mutex_init : UserCall
  mutex_destroy : ℕ → UserCall
  mutex_lock : ℕ → UserCall
  mutex_unlock : ℕ → UserCall
  sem_init : ℕ → UserCall
  sem_destroy : ℕ → UserCall
  sem_wait : ℕ → UserCall
  sem_post : ℕ → UserCall

-- The value that a call returns, and the bytes that it stored through its pointer.
pub record Answer : Type 0 where
  pub value : ℕ
  pub bytes : List ℕ

-- How a part of a program ends, with all calls made.
pub data Run (A : Type 0) : Type 0 where
  -- it goes on with a value
  goes : A → List UserCall → Run A
  -- the last call does not return
  stops : List UserCall → Run A
  -- an access past the end of an array
  faults : List UserCall → Run A
  -- the model's own: a loop had too little fuel
  spins : List UserCall → Run A

abbrev pub User : Type 0 → Type 0
User A = List UserCall → Run A

abbrev pub return : {A : Type 0} → A → User A
return a h = goes a h

abbrev pub fault : {A : Type 0} → User A
fault h = faults h

abbrev pub and_then : {A B : Type 0} → Run A → (A → User B) → Run B
and_then (goes a h) f = f a h
and_then (stops h) f = stops h
and_then (faults h) f = faults h
and_then (spins h) f = spins h

infixl 5 ◌>>=◌ ◌>>◌
abbrev pub ◌>>=◌ : {A B : Type 0} → User A → (A → User B) → User B
◌>>=◌ m f h = and_then (m h) f

abbrev pub ◌>>◌ : {A B : Type 0} → User A → User B → User B
◌>>◌ m n h = and_then (m h) (λ a. n)

-- The size of the buffer of `pprintf`.
abbrev pub pprint_size : ℕ
pprint_size = 512

abbrev pub proc_io_in : ℕ
proc_io_in = 0

abbrev pub proc_io_out : ℕ
proc_io_out = 1

-- What `snprintf` leaves in a zeroed buffer of the given size, for a whole text: what fits before
-- the 0 at its end.
abbrev pub pprint_buf : ℕ → List ℕ → List ℕ
pprint_buf size text = take size (take (size - 1) text ++ replicate size 0)

-- The parameters: the rest of the system, and the whole text that `snprintf` makes.
module _ (system : List UserCall → Option Answer) (snprintf : String → List Arg → List ℕ) where
  abbrev pub answered : Option Answer → User Answer
  answered none h = stops h
  answered (some a) h = goes a h

  abbrev pub call : UserCall → User Answer
  call c h = answered (system (h ++ (c ∷ []))) (h ++ (c ∷ []))

  -- `pprintf`: the length that `snprintf` returns is that of the whole text, so that a longer one
  -- is read past the end of the buffer.
  abbrev pub pprintf : String → List Arg → User (Unit {0})
  pprintf fmt args =
      let text = snprintf fmt args in
      let i = length text in
      if i == 0
      then return tt
      else if ltb pprint_size i
      then fault
      else call (io_write proc_io_out (take i (pprint_buf pprint_size text))) >> return tt
