-- ===== src/ProgUser/Shell/Discipline.antt =====
-- `prog_shell` of src/prog_user.c keeps the rules of its mutex, when the mutexes serve it.
use phase1_myunivos.Base.{
  Arg, Bool, List, Option, [], arith, if◌then◌else◌, inl, inr, is_negative, minus_one, none, refl,
  some, suc, sym, true, false, zero, ℕ, ◌%◌, ◌++◌, ◌<◌, ◌==◌, ◌∙◌, ◌∷◌, ◌≡◌, ◌⊎◌,
}
use phase1_myunivos.ProgUser.{
  Answer, User, UserCall, and_then, answered, call, io_flush, mutex_init, pprintf, proc_exit,
  proc_get_name, proc_get_pid, proc_sleep, return, sys_get_name, sys_get_time, ◌>>=◌, ◌>>◌,
}
use phase1_myunivos.ProgUser.Shell.{
  Command, Session, command_of, exit, greet, help, lock, named, nap, new_line, other, prog_shell,
  read_line, run_command, shell_loop, shell_round, shell_start, sleep, time,
}
use phase1_myunivos.ProgUser.Shell.Locks.{
  Gives, IsEnd, IsPlain, Obeys, Takes, any-Gives, bind-Gives, bind-Takes, bind-Takes-knowing, free,
  free-ne-broken, held, holds, holds-ne-broken, if-Takes, plain-Takes, return-Takes, say-Takes,
}
use phase1_myunivos.ProgUser.Shell.Plain.{
  io_flush-IsPlain, mutex_init-IsPlain, proc_exit-IsPlain, proc_get_name-IsPlain,
  proc_get_pid-IsPlain, proc_sleep-IsPlain, sys_get_name-IsPlain, sys_get_time-IsPlain,
}
use phase1_myunivos.ProgUser.Shell.Guarded.{Serves, ask_lock, read_line-Takes, unlocked}
use Prim.Native.String.{String}

module _ (system : List UserCall → Option Answer) (snprintf : String → List Arg → List ℕ)
    (IsMutex : ℕ → Type 0) (serves : Serves system IsMutex) where
  -- The parts of the shell that hold nothing.
  say_free :
      (fmt : String) (args : List Arg) → Takes system free free (pprintf system snprintf fmt args)
  say_free fmt args = say-Takes system snprintf fmt args free free-ne-broken

  then_free :
      {A : Type 0} (m : User (Unit {0})) (k : User A)
      → Takes system free free m
      → Takes system free free k
      → Takes system free free (m >> k)
  then_free m k first next = bind-Takes system free free free m (λ a. k) first (λ a. next)

  plain_free :
      {A : Type 0} (c : UserCall) (f : Answer → User A)
      → IsPlain c
      → ((a : Answer) → Takes system free free (f a))
      → Takes system free free (call system snprintf c >>= f)
  plain_free c f plain next = plain-Takes system snprintf c free free f plain free-ne-broken next

  nap-Takes :
      (awake : String) (seconds : ℕ) → Takes system free free (nap system snprintf awake seconds)
  nap-Takes awake seconds = plain_free sys_get_time _ sys_get_time-IsPlain (λ t.
      then_free _ _ (say_free _ _) (
        plain_free (proc_sleep seconds) _ (proc_sleep-IsPlain seconds)
          (λ a. plain_free sys_get_time _ sys_get_time-IsPlain (λ t'. say_free _ _))))

  run_command-Takes :
      (s : Session) (input : ℕ → ℕ) (c : Command)
      → IsMutex s.mutex
      → Takes system free free (run_command system snprintf s input c)
  run_command-Takes s input help live = then_free _ _ (say_free _ _) (
      then_free _ _ (say_free _ _) (
        then_free _ _ (say_free _ _)
          (then_free _ _ (say_free _ _) (then_free _ _ (say_free _ _) (say_free _ _)))))
  run_command-Takes s input sleep live = nap-Takes _ _
  run_command-Takes s input time live =
      plain_free sys_get_time _ sys_get_time-IsPlain (λ t. say_free _ _)
  run_command-Takes s input exit live =
      then_free _ _ (say_free _ _)
        (plain_free (proc_exit 0) _ (proc_exit-IsPlain 0) (λ a. return-Takes system free tt))
  run_command-Takes s input lock live = then_free _ _ (say_free _ _) (
      bind-Takes system free (holds s.mutex) free _ _
        (ask_lock system snprintf IsMutex serves s.mutex live)
        (λ a.
          plain-Takes system snprintf (proc_sleep s.sleep_seconds) (holds s.mutex) free _
            (proc_sleep-IsPlain s.sleep_seconds) (holds-ne-broken s.mutex)
            (λ b. unlocked system snprintf IsMutex serves s.mutex live tt)))
  run_command-Takes s input other live = say_free _ _

  shell_round-Takes :
      (f : ℕ) (s : Session) (buf : ℕ → ℕ)
      → IsMutex s.mutex
      → Takes system free free (shell_round system snprintf f s buf)
  shell_round-Takes f s buf live = then_free _ _ (say_free _ _) (
      bind-Takes system free free free (read_line system snprintf f s.mutex buf new_line) _
        (read_line-Takes system snprintf IsMutex serves s.mutex live f buf new_line)
        (λ r.
          then_free _ _
            (if-Takes system (r.1.input_len == 0) free free _ _ (return-Takes system free tt)
              (run_command-Takes s r.1.input (command_of r.1.input) live))
            (return-Takes system free r.0)))

  shell_loop-Takes :
      (n f : ℕ) (s : Session) (buf : ℕ → ℕ)
      → IsMutex s.mutex
      → Takes system free free (shell_loop system snprintf n f s buf)
  unfolding shell_loop
  shell_loop-Takes zero f s buf live = return-Takes system free buf
  shell_loop-Takes (suc n) f s buf live =
      bind-Takes system free free free (shell_round system snprintf f s buf) _
        (shell_round-Takes f s buf live) (λ buf'. shell_loop-Takes n f s buf' live)

  named-Takes :
      (c : UserCall) (complaint : String)
      → IsPlain c
      → Takes system free free (named system snprintf c complaint)
  named-Takes c complaint plain = plain_free c _ plain (λ a.
      then_free _ _
        (if-Takes system (a.value == 0) free free _ _ (return-Takes system free tt) (
          then_free _ _ (say_free _ _) (
            plain_free (proc_exit minus_one) _ (proc_exit-IsPlain minus_one)
              (λ b. return-Takes system free tt))))
        (return-Takes system free a))

  greet-Takes :
      (name : List ℕ) (s : Session) → Takes system free free (greet system snprintf name s)
  greet-Takes name s = plain_free (io_flush 0) _ (io_flush-IsPlain 0) (λ a.
      plain_free (io_flush 1) _ (io_flush-IsPlain 1) (λ b.
        then_free _ _ (say_free _ _) (then_free _ _ (nap-Takes _ _) (return-Takes system free s))))

  shell_start-Takes :
      (shell_mutex : ℕ → ℕ) → Takes system free free (shell_start system snprintf shell_mutex)
  shell_start-Takes shell_mutex = plain_free proc_get_pid _ proc_get_pid-IsPlain (λ p.
      bind-Takes system free free free _ _
        (if-Takes system (is_negative (shell_mutex (p.value % 2))) free free _ _
          (plain_free mutex_init _ mutex_init-IsPlain (λ a. return-Takes system free a.value))
          (return-Takes system free (shell_mutex (p.value % 2))))
        (λ mutex.
          bind-Takes system free free free _ _ (named-Takes proc_get_name _ proc_get_name-IsPlain)
            (λ name.
              bind-Takes system free free free _ _ (named-Takes sys_get_name _ sys_get_name-IsPlain)
                (λ os. greet-Takes _ _))))

  after_any :
      {A B : Type 0} (P : B → Type 0) (m : User A) (f : A → User B)
      → ((a : A) → Gives P (f a))
      → Gives P (m >>= f)
  after_any P m f next =
      bind-Gives system (λ a. Unit {0}) P m f (any-Gives system m) (λ a p. next a)

  mutex_chosen :
      (b : Bool) (cell : ℕ)
      → is_negative cell ≡ b
      → (is_negative cell ≡ true) ⊎ IsMutex cell
      → Gives IsMutex
          (if b then (call system snprintf mutex_init >>= λ a. return a.value) else return cell)
  mutex_chosen true cell is fine = λ h. made h (system (h ++ (mutex_init ∷ []))) refl
    where
      made :
          (h : List UserCall) (o : Option Answer)
          → system (h ++ (mutex_init ∷ [])) ≡ o
          → IsEnd IsMutex
              (and_then (answered system snprintf o (h ++ (mutex_init ∷ []))) (λ a. return a.value))
      made h none is = tt
      made h (some a) is = serves.makes h a is
  mutex_chosen false cell is (inl low) = absurd (ne (sym is ∙ low))
    where
      ne : false ≡ true → ⊥
      ne e = cc
  mutex_chosen false cell is (inr live) = λ h. live

  abbrev IsInUse : Session → Type 0
  IsInUse s = IsMutex s.mutex

  greet-Gives :
      (name : List ℕ) (s : Session) → IsInUse s → Gives IsInUse (greet system snprintf name s)
  greet-Gives name s live =
      after_any {B = Session} IsInUse (call system snprintf (io_flush 0)) _ (λ a.
        after_any {B = Session} IsInUse (call system snprintf (io_flush 1)) _ (λ b.
          after_any {B = Session} IsInUse (pprintf system snprintf _ _) _
            (λ c. after_any {B = Session} IsInUse (nap system snprintf _ _) _ (λ d h. live))))

  shell_start-Gives :
      (shell_mutex : ℕ → ℕ)
      → ((i : ℕ) → i < 2 → (is_negative (shell_mutex i) ≡ true) ⊎ IsMutex (shell_mutex i))
      → Gives IsInUse (shell_start system snprintf shell_mutex)
  shell_start-Gives shell_mutex cells =
      after_any {B = Session} IsInUse (call system snprintf proc_get_pid) _ (λ p.
        let i = p.value % 2 in
        let cell = shell_mutex i in
        bind-Gives system {B = Session} IsMutex IsInUse
          (if is_negative cell
            then (call system snprintf mutex_init >>= λ a. return a.value)
            else return cell)
          _ (mutex_chosen (is_negative cell) cell refl (cells i (omega arith)))
          (λ mutex live.
            after_any {B = Session} IsInUse (named system snprintf proc_get_name _) _ (λ name.
              after_any {B = Session} IsInUse (named system snprintf sys_get_name _) _
                (λ os. greet-Gives _ _ live))))

  -- `prog_shell`, when each cell of `shell_mutex` is negative or a mutex in use, `mutex_init` gives
  -- one in use if it returns, a lock of one succeeds if it returns and the shell holds none, and an
  -- unlock of the one that it holds succeeds if it returns. However far the program comes, whatever
  -- else its calls answer: it locks a mutex only when it holds none, unlocks only the one that it
  -- holds, and reads input only while it holds one, from a lock that succeeded. It holds none at the
  -- end of a round of its endless loop.
  pub prog_shell-Obeys :
      (n f : ℕ) (shell_mutex : ℕ → ℕ)
      → ((i : ℕ) → i < 2 → (is_negative (shell_mutex i) ≡ true) ⊎ IsMutex (shell_mutex i))
      → Obeys system free (prog_shell system snprintf n f shell_mutex [])
  unfolding prog_shell held
  prog_shell-Obeys n f shell_mutex cells =
      bind-Takes-knowing system IsInUse free free free (shell_start system snprintf shell_mutex) _
        (shell_start-Gives shell_mutex cells) (shell_start-Takes shell_mutex)
        (λ s live. shell_loop-Takes n f s (λ i. 0) live) [] refl
