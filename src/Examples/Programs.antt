-- ===== src/Examples/Programs.antt =====
-- The user programs, answered by systems that look at the last call.
use phase1_myunivos.Base.{
  Arg, List, Option, [], ap, arith, codes, false, get_or, if◌then◌else◌, inl, inr, is_negative,
  length, minus_one, none, refl, replicate, some, some-inj, sym, ℕ, ◌++◌, ◌+◌, ◌-◌, ◌==◌, ◌↔◌, ◌∙◌,
  ◌∷◌, ◌≡◌, ◌≤◌,
}
use phase1_myunivos.ProgUser.{
  Answer, UserCall, goes, io_read, io_write, mutex_init, mutex_lock, mutex_unlock, proc_exit,
  sem_init, stops,
}
use phase1_myunivos.ProgUser.PingPong.{prog_ping, prog_pong, rally}
use phase1_myunivos.ProgUser.PingPong.Counts.{but_last, passed, posts, prints, total}
use phase1_myunivos.ProgUser.PingPong.Turns.{
  Names, Speaks, calls, ping_text, pingpong_turns, pong_text,
}
use phase1_myunivos.ProgUser.Shell.{
  Line, Session, command_of, exit, new_line, prog_shell, read_line, shell_round,
}
use phase1_myunivos.ProgUser.Shell.Batches.{Holds, IsAnswered, echo, has_end, typed}
use phase1_myunivos.ProgUser.Shell.Commands.{IsPrefix, command_iff, word}
use phase1_myunivos.ProgUser.Shell.Discipline.{prog_shell-Obeys}
use phase1_myunivos.ProgUser.Shell.Guarded.{Serves}
use phase1_myunivos.ProgUser.Shell.Locks.{Obeys, free}
use phase1_myunivos.ProgUser.Shell.Overflow.{Faults, read_line_overflows}
use phase1_myunivos.ProgUser.Shell.Reading.{EndsLast, Feeds, concat, read_line_collects, rounds}
use phase1_myunivos.ProgUser.Shell.Turn.{Writes, shell_round_exits}
use Prim.Native.String.{String}

abbrev final : List UserCall → Option UserCall
final [] = none
final (c ∷ []) = some c
final (c ∷ d ∷ h) = final (d ∷ h)

final-snoc : (h : List UserCall) (c : UserCall) → final (h ++ (c ∷ [])) ≡ some c
final-snoc [] c = refl
final-snoc (d ∷ []) c = refl
final-snoc (d ∷ e ∷ h) c = final-snoc (e ∷ h) c

abbrev done : Answer
done = record { value = 0; bytes = [] }

abbrev answers : List ℕ → UserCall → Option Answer
answers b (io_read io n) = some (record { value = length b; bytes = b })
answers b (proc_exit code) = none
answers b (sem_init n) = some (record { value = 4 - n; bytes = [] })
answers b c = some done

abbrev reply : List ℕ → Option UserCall → Option Answer
reply b none = none
reply b (some c) = answers b c

-- Every read brings `exit` and a newline.
abbrev system : List UserCall → Option Answer
system h = reply (codes "exit\n") (final h)

abbrev snprintf : String → List Arg → List ℕ
snprintf fmt args = codes "text"

abbrev session : Session
session = record { pid = 3; os_name = codes "MyOS"; mutex = 2; sleep_seconds = 16 }

writes : Writes system snprintf
writes b h = (done, ap (reply (codes "exit\n")) (final-snoc h (io_write 1 b)))

locks : IsAnswered system snprintf (mutex_lock 2)
locks h = (done, ap (reply (codes "exit\n")) (final-snoc h (mutex_lock 2)))

unlocks : IsAnswered system snprintf (mutex_unlock 2)
unlocks h = (done, ap (reply (codes "exit\n")) (final-snoc h (mutex_unlock 2)))

exit_typed : typed (concat (codes "exit\n" ∷ [])) ≡ codes "exit" ++ []
unfolding typed concat
exit_typed = refl

exit_ends : EndsLast (codes "exit\n" ∷ [])
unfolding has_end
exit_ends = refl

read_line_collects_example :
    (buf' : ℕ → ℕ) × (l' : Line) × (read_line system snprintf 1 2 (λ i. 0) new_line []
      ≡ goes (buf', l') ([] ++ rounds 2 (codes "exit\n" ∷ [])))
    × Holds l' (typed (concat (codes "exit\n" ∷ [])))
read_line_collects_example =
    read_line_collects system snprintf 2 (λ c. writes (c ∷ [])) locks unlocks (codes "exit\n") [] 1
      (λ i. 0) [] (omega arith, refl, tt) exit_ends (omega (arith, ap length exit_typed))
      (omega arith)

shell_round_exits_example :
    shell_round system snprintf 1 session (λ i. 0) []
    ≡ stops (
        (([] ++ (io_write 1 (codes "text") ∷ [])) ++ rounds 2 (codes "exit\n" ∷ []))
        ++ (io_write 1 (codes "text") ∷ proc_exit 0 ∷ []))
shell_round_exits_example =
    shell_round_exits system snprintf session (codes "exit\n") [] [] 1 (λ i. 0) [] writes locks
      unlocks (λ h. ap (reply (codes "exit\n")) (final-snoc h (proc_exit 0)))
      (omega arith, omega arith) (omega arith, omega arith) (omega arith, refl, tt) exit_ends
      exit_typed (omega (arith, ap length exit_typed)) (omega arith)

-- The only mutex in use has the number 0, and each of its calls answers 0.
abbrev IsFirst : ℕ → Type 0
IsFirst n = n ≡ 0

answered_done :
    (c : UserCall) (h : List UserCall) (a : Answer)
    → answers (codes "exit\n") c ≡ some done
    → system (h ++ (c ∷ [])) ≡ some a
    → a.value ≡ 0
answered_done c h a e is =
    let r : some a ≡ some done = sym is ∙ ap (reply (codes "exit\n")) (final-snoc h c) ∙ e in
    ap (λ b. b.value) (some-inj r)

not_negative : (n : ℕ) → n ≡ 0 → is_negative n ≡ false
not_negative n e = ground (arith, e)

system-Serves : Serves system IsFirst
system-Serves = record {
  makes = λ h a is. answered_done mutex_init h a refl is;
  locks = λ n h a live e is. not_negative a.value (answered_done (mutex_lock n) h a refl is);
  unlocks = λ n h a live e is. not_negative a.value (answered_done (mutex_unlock n) h a refl is);
}

prog_shell-Obeys_example : Obeys system free (prog_shell system snprintf 2 3 (λ i. minus_one) [])
prog_shell-Obeys_example =
    prog_shell-Obeys system snprintf IsFirst system-Serves 2 3 (λ i. minus_one) (λ i lt. inl refl)

abbrev exit_line : Line
exit_line = record { input = λ i. get_or (codes "exit now") i 0; input_len = 8; reading = false }

command_iff_example : (command_of exit_line.input ≡ exit) ↔ IsPrefix (word exit) (codes "exit now")
command_iff_example =
    command_iff exit (codes "exit now") exit_line (λ e. cc)
      (record { len = refl; chars = λ i. refl })

-- The first read brings as many characters as fit, the next ones one more and a newline.
abbrev long_batch : List ℕ
long_batch = replicate 128 97

abbrev is_read : UserCall → ℕ
is_read (io_read io n) = 1
is_read c = 0

abbrev reads : List UserCall → ℕ
reads [] = 0
reads (c ∷ h) = is_read c + reads h

abbrev long_system : List UserCall → Option Answer
long_system h = reply (if reads h == 1 then long_batch else codes "a\n") (final h)

long_writes : Writes long_system snprintf
long_writes b h = (
  done,
  ap (reply (if reads (h ++ (io_write 1 b ∷ [])) == 1 then long_batch else codes "a\n"))
      (final-snoc h (io_write 1 b)),
)

long_locks : IsAnswered long_system snprintf (mutex_lock 2)
long_locks h = (
  done,
  ap (reply (if reads (h ++ (mutex_lock 2 ∷ [])) == 1 then long_batch else codes "a\n"))
      (final-snoc h (mutex_lock 2)),
)

long_unlocks : IsAnswered long_system snprintf (mutex_unlock 2)
long_unlocks h = (
  done,
  ap (reply (if reads (h ++ (mutex_unlock 2 ∷ [])) == 1 then long_batch else codes "a\n"))
      (final-snoc h (mutex_unlock 2)),
)

long_fed : Feeds long_system snprintf 2 [] (long_batch ∷ codes "a\n" ∷ [])
unfolding echo
long_fed = (omega arith, refl, (omega arith, refl, tt))

long_ends : EndsLast (long_batch ∷ codes "a\n" ∷ [])
unfolding has_end
long_ends = (refl, refl)

long_typed : length (typed (concat (long_batch ∷ codes "a\n" ∷ []))) ≡ 129
unfolding typed concat
long_typed = refl

read_line_overflows_example : Faults (read_line long_system snprintf 2 2 (λ i. 0) new_line [])
read_line_overflows_example =
    read_line_overflows long_system snprintf 2 (λ c. long_writes (c ∷ [])) long_locks long_unlocks
      long_batch (codes "a\n" ∷ []) 2 (λ i. 0) [] long_fed long_ends (omega (arith, long_typed))
      (omega arith)

-- Both programs find the cells negative.
abbrev no_cells : ℕ → ℕ
no_cells i = minus_one

makes : (n : ℕ) → Names system minus_one n (4 - n)
makes n = inr (
  refl,
  λ h x e.
      ap (λ a. a.value)
        (some-inj (sym e ∙ ap (reply (codes "exit\n")) (final-snoc h (sem_init n)))),
)

-- The cells when `prog_ping` has made the semaphores.
abbrev made_cells : ℕ → ℕ
made_cells i = if i == 0 then 3 else 4

never_empty : (fmt : String) → Speaks snprintf fmt
never_empty fmt t pid = omega arith

ping_passed : passed 3 (calls (prog_ping system snprintf 1 no_cells [])) ≡ 1
unfolding prog_ping rally total but_last
ping_passed = refl

pong_posted : posts 3 (calls (prog_pong system snprintf 1 made_cells [])) ≡ 1
unfolding prog_pong rally total
pong_posted = refl

pong_passed : passed 4 (calls (prog_pong system snprintf 1 made_cells [])) ≡ 1
unfolding prog_pong rally total but_last
pong_passed = refl

ping_posted : posts 4 (calls (prog_ping system snprintf 1 no_cells [])) ≡ 2
unfolding prog_ping rally total
ping_posted = refl

pingpong_turns_example :
    (prints (calls (prog_ping system snprintf 1 no_cells []))
      ≤ 1 + prints (calls (prog_pong system snprintf 1 made_cells [])))
    × (prints (calls (prog_pong system snprintf 1 made_cells []))
        ≤ (0 + 1) + prints (calls (prog_ping system snprintf 1 no_cells [])))
pingpong_turns_example =
    pingpong_turns system system snprintf 3 4 1 0 1 1 no_cells made_cells (makes 1) (makes 0)
      (inl (refl, refl)) (inl (refl, refl)) (never_empty ping_text) (never_empty pong_text)
      (omega (arith, ping_passed, pong_posted)) (omega (arith, pong_passed, ping_posted))
