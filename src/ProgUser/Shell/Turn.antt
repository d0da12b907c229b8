-- ===== src/ProgUser/Shell/Turn.antt =====
-- One turn of `prog_shell` in src/prog_user.c: the prompt, a line, and its command.
use phase1_myunivos.Base.{
  Arg, List, Option, [], ap, append_assoc, arith, codes, false, int, length, length-append, ltb,
  none, refl, replicate, str, subst, suc, take, zero, ℕ, ◌++◌, ◌<◌, ◌==◌, ◌∙◌, ◌∷◌, ◌≡◌, ◌≢◌, ◌≤◌,
}
use phase1_myunivos.Interrupts.{line}
use phase1_myunivos.ProgUser.{
  Answer, UserCall, and_then, goes, io_write, mutex_lock, mutex_unlock, pprint_buf, pprint_size,
  pprintf, proc_exit, return, stops,
}
use phase1_myunivos.ProgUser.Shell.{
  Command, Line, Session, exit, input_size, new_line, other, read_line, run_command, shell_round,
}
use phase1_myunivos.ProgUser.Shell.Batches.{Holds, IsAnswered, typed}
use phase1_myunivos.ProgUser.Shell.Commands.{command-word, word}
use phase1_myunivos.ProgUser.Shell.Reading.{EndsLast, Feeds, concat, read_line_collects, rounds}
use Prim.Native.String.{String}

take_append : (xs ys : List ℕ) → take (length xs) (xs ++ ys) ≡ xs
take_append [] ys = refl
take_append (x ∷ xs) ys = ap (λ r. x ∷ r) (take_append xs ys)

take_all : (n : ℕ) (xs : List ℕ) → length xs ≤ n → take n xs ≡ xs
take_all zero [] le = refl
take_all zero (x ∷ xs) le = absurd (omega arith)
take_all (suc n) [] le = refl
take_all (suc n) (x ∷ xs) le = ap (λ r. x ∷ r) (take_all n xs (omega arith))

take_shorter : (m n : ℕ) (xs : List ℕ) → m ≤ n → take m (take n xs) ≡ take m xs
take_shorter zero n xs le = refl
take_shorter (suc m) zero xs le = absurd (omega arith)
take_shorter (suc m) (suc n) [] le = refl
take_shorter (suc m) (suc n) (x ∷ xs) le = ap (λ r. x ∷ r) (take_shorter m n xs (omega arith))

-- A text that fits into the buffer is read back from it.
pprint_buf_whole :
    (text : List ℕ) → length text < 512 → take (length text) (pprint_buf pprint_size text) ≡ text
pprint_buf_whole text lt =
    take_shorter (length text) 512 _ (omega arith)
    ∙ ap (λ t. take (length text) (t ++ replicate 512 0)) (take_all 511 text (omega arith))
    ∙ take_append text (replicate 512 0)

module _ (system : List UserCall → Option Answer) (snprintf : String → List Arg → List ℕ) where
  -- Every write to the output returns.
  abbrev pub Writes : Type 0
  Writes = (b : List ℕ) → IsAnswered system snprintf (io_write 1 b)

  -- The text is not empty and fits into the buffer.
  abbrev pub IsShort : List ℕ → Type 0
  IsShort text = (0 < length text) × (length text < pprint_size)

  pub pprintf_writes :
      (fmt : String) (args : List Arg) (h : List UserCall)
      → Writes
      → IsShort (snprintf fmt args)
      → pprintf system snprintf fmt args h ≡ goes tt (h ++ (io_write 1 (snprintf fmt args) ∷ []))
  pprintf_writes fmt args h writes short =
      let text = snprintf fmt args in
      let some_text : (length text == 0) ≡ false = ground (arith, short.0) in
      let fits : ltb pprint_size (length text) ≡ false = ground (arith, short.1) in
      let (a, w) = writes text h in rw (some_text, fits, pprint_buf_whole text short.1, w) refl

  -- The text of the prompt, and that of `exit`.
  abbrev pub prompt : Session → List ℕ
  prompt s = snprintf "%s[%d]$ " (str s.os_name ∷ int s.pid ∷ [])

  abbrev pub farewell : Session → List ℕ
  farewell s = snprintf "Exiting process id %d\n" (int s.pid ∷ [])

  -- A turn whose line is a command.
  shell_round_command :
      (f : ℕ) (s : Session) (buf buf' : ℕ → ℕ) (c : Command) (rest : List ℕ) (l : Line)
      (h h' : List UserCall)
      → Writes
      → IsShort (prompt s)
      → c ≢ other
      → read_line system snprintf f s.mutex buf new_line (h ++ (io_write 1 (prompt s) ∷ []))
        ≡ goes (buf', l) h'
      → Holds l (word c ++ rest)
      → 0 < length (word c)
      → shell_round system snprintf f s buf h
        ≡ and_then (run_command system snprintf s l.input c h') (λ u. return buf')
  shell_round_command f s buf buf' c rest l h h' writes short ne run k long =
      let some_line : (l.input_len == 0) ≡ false =
        ground (arith, k.len, length-append (word c) rest, long) in
      rw
        (
          pprintf_writes "%s[%d]$ " (str s.os_name ∷ int s.pid ∷ []) h writes short,
          run,
          some_line,
          command-word c rest l ne k,
        )
        refl

  -- A turn of the shell on a line that begins with `exit`, when the calls of `io_read` bring batches
  -- of at most 128 characters of which only the last has a newline or a 0, the characters but for
  -- these are at most 128 in all, the texts of `snprintf` are not empty and shorter than 512, and
  -- each other call returns but for that of `proc_exit`: the process makes the call `proc_exit(0)`
  -- after it wrote its farewell, and no call after it. Before that it wrote the prompt and read the
  -- line.
  pub shell_round_exits :
      (s : Session) (b : List ℕ) (bs : List (List ℕ)) (rest : List ℕ) (f : ℕ) (buf : ℕ → ℕ)
      (h : List UserCall)
      → Writes
      → IsAnswered system snprintf (mutex_lock s.mutex)
      → IsAnswered system snprintf (mutex_unlock s.mutex)
      → ((h : List UserCall) → system (h ++ (proc_exit 0 ∷ [])) ≡ none)
      → IsShort (prompt s)
      → IsShort (farewell s)
      → Feeds system snprintf s.mutex (h ++ (io_write 1 (prompt s) ∷ [])) (b ∷ bs)
      → EndsLast (b ∷ bs)
      → typed (concat (b ∷ bs)) ≡ codes "exit" ++ rest
      → length (typed (concat (b ∷ bs))) ≤ input_size
      → length bs < f
      → shell_round system snprintf f s buf h
        ≡ stops (
            ((h ++ (io_write 1 (prompt s) ∷ [])) ++ rounds s.mutex (b ∷ bs))
            ++ (io_write 1 (farewell s) ∷ proc_exit 0 ∷ []))
  shell_round_exits s b bs rest f buf h writes locks unlocks ends short short' fed last line fits
        fuel =
      let (buf', l, run, k) =
        read_line_collects system snprintf s.mutex (λ c. writes (c ∷ [])) locks unlocks b bs f buf
          (h ++ (io_write 1 (prompt s) ∷ [])) fed last fits fuel in
      let h' = (h ++ (io_write 1 (prompt s) ∷ [])) ++ rounds s.mutex (b ∷ bs) in
      let turn =
        shell_round_command f s buf buf' exit rest l h h' writes short (λ e. cc) run
          (subst (Holds l) line k) (omega arith) in
      turn
      ∙ rw
          (
            pprintf_writes "Exiting process id %d\n" (int s.pid ∷ []) h' writes short',
            ends (h' ++ (io_write 1 (farewell s) ∷ [])),
          )
          (ap (λ x. stops x) (append_assoc h' (io_write 1 (farewell s) ∷ []) (proc_exit 0 ∷ [])))
