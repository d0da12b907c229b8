-- ===== src/ProgUser/PingPong.antt =====
-- `prog_ping` and `prog_pong` of src/prog_user.c. The array `pingpong_semaphores` is shared by both;
-- here it is that at the start of one, and what the other writes to it meanwhile is left out.
pub mod Counts
pub mod Turns
use phase1_myunivos.Base.{
  Arg, List, Option, [], if◌then◌else◌, int, is_negative, suc, zero, ℕ, ◌%◌, ◌+◌, ◌∷◌,
}
use phase1_myunivos.ProgUser.{
  Answer, User, UserCall, call, pprintf, proc_get_pid, proc_sleep, return, sem_init, sem_post,
  sem_wait, sys_get_time, ◌>>=◌, ◌>>◌,
}
use Prim.Native.String.{String}

module _ (system : List UserCall → Option Answer) (snprintf : String → List Arg → List ℕ) where
  -- `if (*sem < 0) *sem = sem_init(value);`
  abbrev pub ensure : ℕ → ℕ → User ℕ
  ensure sem value =
      if is_negative sem
      then (call system snprintf (sem_init value) >>= λ a. return a.value)
      else return sem

  -- The body of `while (1)` of both: the semaphore waited for, the one posted, the text, the process
  -- id and the seconds of sleep.
  abbrev pub rally_round : ℕ → ℕ → String → ℕ → ℕ → User (Unit {0})
  rally_round own their fmt pid seconds =
      call system snprintf (sem_wait own)
      >> (call system snprintf sys_get_time >>= λ t.
          pprintf system snprintf fmt (int t.value ∷ int pid ∷ [])
          >> (call system snprintf (proc_sleep seconds)
              >> (call system snprintf (sem_post their) >> return tt)))

  -- `while (1)`, with the rounds left.
  unfoldable pub rally : ℕ → ℕ → ℕ → String → ℕ → ℕ → User (Unit {0})
  rally zero own their fmt pid seconds = return tt
  rally (suc n) own their fmt pid seconds =
      rally_round own their fmt pid seconds >> rally n own their fmt pid seconds

  unfoldable pub prog_ping : ℕ → (ℕ → ℕ) → User (Unit {0})
  prog_ping n semaphores = call system snprintf proc_get_pid >>= λ p.
      ensure (semaphores 0) 1 >>= λ ping. ensure (semaphores 1) 0 >>= λ pong.
      call system snprintf (sem_post pong)
      >> rally n ping pong "%04d pingpong[%02d] ping!\n" p.value (p.value % 2 + 3)

  unfoldable pub prog_pong : ℕ → (ℕ → ℕ) → User (Unit {0})
  prog_pong n semaphores = call system snprintf proc_get_pid >>= λ p.
      ensure (semaphores 0) 0 >>= λ ping. ensure (semaphores 1) 1 >>= λ pong.
      rally n pong ping "%04d pingpong[%02d] pong!\n" p.value (p.value % 2 + 2)
