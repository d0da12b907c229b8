-- ===== src/ProgUser/Shell/Overflow.antt =====
-- A line that is too long for `input` of `prog_shell` in src/prog_user.c.
use phase1_myunivos.Base.{
  Arg, Bool-cases, List, Option, [], ap, append-nil, arith, below_or_not, equal_or_not, false,
  get_or, inl, inr, is_negative, length, length-append, ltb, refl, some, subst, suc, true, zero, ℕ,
  ◌++◌, ◌+◌, ◌<◌, ◌∙◌, ◌∷◌, ◌≡◌, ◌≤◌,
}
use phase1_myunivos.Ksyscall.Dispatch.{store}
use phase1_myunivos.ProgUser.{
  Answer, Run, UserCall, faults, io_read, io_write, mutex_lock, mutex_unlock,
}
use phase1_myunivos.ProgUser.Shell.{
  Line, buf_size, input_size, new_line, read_char, read_chars, read_line, read_round,
}
use phase1_myunivos.ProgUser.Shell.Batches.{
  Echoes, Holds, IsAnswered, ends_line, length-typed_end, length-typed_more, put_char,
  put_char-Holds, read_char_end, read_char_more, read_chars_step, store_get, typed, typed-append,
}
use phase1_myunivos.ProgUser.Shell.Reading.{EndsLast, Feeds, concat, read_round_collects, round}
use Prim.Native.String.{String}

-- Some calls were made before the access past the array.
abbrev pub Faults : {A : Type 0} → Run A → Type 0
Faults r = (h : List UserCall) × (r ≡ faults h)

module _ (system : List UserCall → Option Answer) (snprintf : String → List Arg → List ℕ) where
  -- A character for which the line has no room is not written, and ends the program.
  read_char_full :
      (c : ℕ) (l : Line) (h : List UserCall)
      → ends_line c ≡ false
      → l.input_len ≡ input_size
      → read_char system snprintf c l h ≡ faults h
  read_char_full c l h more full =
      let no_room : ltb l.input_len input_size ≡ false = ground arith in rw (more, no_room) refl

  read_chars_full :
      (n i : ℕ) (buf : ℕ → ℕ) (c : ℕ) (l : Line) (h : List UserCall)
      → i < buf_size
      → buf i ≡ c
      → ends_line c ≡ false
      → l.input_len ≡ input_size
      → read_chars system snprintf (suc n) i buf l h ≡ faults h
  unfolding read_chars
  read_chars_full n i buf c l h lt is_c more full =
      let in_buf : ltb i buf_size ≡ true = ground arith in
      rw (in_buf, is_c, read_char_full c l h more full) refl

  -- The loop over a batch of characters that do not fit into the line.
  read_chars_overflow :
      (b : List ℕ) (i : ℕ) (buf : ℕ → ℕ) (l : Line) (cs : List ℕ) (h : List UserCall)
      → Echoes system snprintf
      → ((j : ℕ) → j < length b → buf (i + j) ≡ get_or b j 0)
      → i + length b ≤ buf_size
      → Holds l cs
      → length cs ≤ input_size
      → input_size < length cs + length (typed b)
      → Faults (read_chars system snprintf (length b) i buf l h)
  unfolding typed
  read_chars_overflow [] i buf l cs h e at fits k room long = absurd (omega arith)
  read_chars_overflow (c ∷ b) i buf l cs h e at fits k room long =
      let is_c : buf i ≡ c = ap buf (omega arith) ∙ at 0 (omega arith) in
      let at' : (j : ℕ) → j < length b → buf ((i + 1) + j) ≡ get_or b j 0 =
        λ j lt. ap buf (omega arith) ∙ at (suc j) (omega arith) in
      let h' = h ++ (io_write 1 (c ∷ []) ∷ []) in
      elim (Bool-cases (ends_line c)) [
        | inl ends ↦
            let l1 = record l { reading = false } in
            let (h1, f) =
              read_chars_overflow b (i + 1) buf l1 cs h' e at' (omega arith)
                (record { len = k.len; chars = k.chars }) room
                (omega (arith, length-typed_end c b ends)) in
            (
              h1,
              read_chars_step system snprintf (length b) i buf c l l1 h h' _ (omega arith) is_c
                  (read_char_end system snprintf c l h e ends) f,
            )
        | inr more ↦
            let one = length-typed_more c b more in
            elim (equal_or_not (length cs) input_size) [
              | inl full ↦
                  (h, read_chars_full (length b) i buf c l h (omega arith) is_c more (k.len ∙ full))
              | inr room_left ↦
                  let l1 = put_char c l in
                  let (h1, f) =
                    read_chars_overflow b (i + 1) buf l1 (cs ++ (c ∷ [])) h' e at' (omega arith)
                      (put_char-Holds l cs c k) (omega (arith, length-append cs (c ∷ [])))
                      (omega (arith, length-append cs (c ∷ []), one)) in
                  (
                    h1,
                    read_chars_step system snprintf (length b) i buf c l l1 h h' _ (omega arith)
                        is_c (read_char_more system snprintf c l h e more (omega (arith, k.len))) f,
                  )
            ]
      ]

  module _ (mutex : ℕ) (echoes : Echoes system snprintf)
      (locks : IsAnswered system snprintf (mutex_lock mutex))
      (unlocks : IsAnswered system snprintf (mutex_unlock mutex)) where
    read_round_overflow :
        (b cs : List ℕ) (buf : ℕ → ℕ) (l : Line) (h : List UserCall)
        → length b ≤ buf_size
        → system ((h ++ (mutex_lock mutex ∷ [])) ++ (io_read 0 buf_size ∷ []))
          ≡ some (record { value = length b; bytes = b })
        → Holds l cs
        → length cs ≤ input_size
        → input_size < length cs + length (typed b)
        → Faults (read_round system snprintf mutex buf l h)
    read_round_overflow b cs buf l h small fed k room long =
        let h2 = (h ++ (mutex_lock mutex ∷ [])) ++ (io_read 0 buf_size ∷ []) in
        let (a, w) = locks h in
        let (h1, f) =
          read_chars_overflow b 0 (store 0 b buf) l cs h2 echoes
            (λ j lt. store_get b 0 buf j lt (omega arith)) (omega arith) k room long in
        let fine : is_negative (length b) ≡ false = ground arith in (h1, rw (w, fed, fine, f) refl)

    lines_overflow :
        (b : List ℕ) (bs : List (List ℕ)) (f : ℕ) (cs : List ℕ) (buf : ℕ → ℕ) (l : Line)
        (h : List UserCall)
        → Feeds system snprintf mutex h (b ∷ bs)
        → EndsLast (b ∷ bs)
        → Holds l cs
        → l.reading ≡ true
        → length cs ≤ input_size
        → input_size < length cs + length (typed (concat (b ∷ bs)))
        → length bs < f
        → Faults (read_line system snprintf f mutex buf l h)
    unfolding read_line concat
    lines_overflow b bs zero cs buf l h fed ends k reads room long fuel = absurd (omega arith)
    lines_overflow b [] (suc f) cs buf l h fed ends k reads room long fuel =
        let long' : input_size < length cs + length (typed b) =
          subst (λ (x : List ℕ). input_size < length cs + length (typed x)) (append-nil b) long in
        let (h1, e) = read_round_overflow b cs buf l h fed.0 fed.1 k room long' in (h1, rw e refl)
    lines_overflow b (b' ∷ bs) (suc f) cs buf l h fed ends k reads room long fuel =
        let rest = concat (b' ∷ bs) in
        let n = ap length (typed-append b rest) ∙ length-append (typed b) (typed rest) in
        elim (below_or_not input_size (length cs + length (typed b))) [
          | inl over ↦
              let (h1, e) = read_round_overflow b cs buf l h fed.0 fed.1 k room over in
              (h1, rw e refl)
          | inr fits ↦
              let t =
                read_round_collects system snprintf mutex echoes locks unlocks b cs buf l h fed.0
                  fed.1 k fits in
              let go_on : t.after.reading ≡ true = ground (arith, t.reads, ends, reads) in
              let (h1, e) =
                lines_overflow b' bs f (cs ++ typed b) t.buf t.after (h ++ round mutex b) fed.2
                  ends.1 t.holds go_on (omega (arith, fits, length-append cs (typed b)))
                  (omega (arith, n, length-append cs (typed b))) (omega arith) in
              (h1, rw (t.runs, go_on) e)
        ]

    -- `while (reading)` on an empty line, when the calls of `io_read` bring batches of at most 128
    -- characters of which only the last has a newline or a 0, every other call of the loop returns,
    -- and the characters but for newlines and zeroes are more than 128 in all: with as many rounds of
    -- fuel as there are batches, the loop accesses memory past the end of `input`.
    pub read_line_overflows :
        (b : List ℕ) (bs : List (List ℕ)) (f : ℕ) (buf : ℕ → ℕ) (h : List UserCall)
        → Feeds system snprintf mutex h (b ∷ bs)
        → EndsLast (b ∷ bs)
        → input_size < length (typed (concat (b ∷ bs)))
        → length bs < f
        → Faults (read_line system snprintf f mutex buf new_line h)
    read_line_overflows b bs f buf h fed ends long fuel =
        lines_overflow b bs f [] buf new_line h fed ends (record { len = refl; chars = λ i. refl })
          refl (omega arith) (omega (arith, long)) fuel
