-- ===== src/ProgUser/Shell/Reading.antt =====
-- The line that `prog_shell` of src/prog_user.c reads, over several calls of `io_read`.
use phase1_myunivos.Base.{
  Arg, List, Option, [], ap, append-nil, append_assoc, arith, false, is_negative, length,
  length-append, not, refl, some, subst, suc, sym, true, zero, ℕ, ◌&&◌, ◌++◌, ◌+◌, ◌<◌, ◌∙◌, ◌∷◌,
  ◌≡◌, ◌≤◌,
}
use phase1_myunivos.Ksyscall.Dispatch.{store}
use phase1_myunivos.ProgUser.{Answer, Run, UserCall, goes, io_read, mutex_lock, mutex_unlock}
use phase1_myunivos.ProgUser.Shell.{Line, buf_size, input_size, new_line, read_line, read_round}
use phase1_myunivos.ProgUser.Shell.Batches.{
  Echoes, Holds, IsAnswered, echo, has_end, read_chars_collects, store_get, typed, typed-append,
}
use Prim.Native.String.{String}

-- The calls of one round, which reads the characters `b`.
abbrev pub round : ℕ → List ℕ → List UserCall
round mutex b = mutex_lock mutex ∷ io_read 0 buf_size ∷ (echo b ++ (mutex_unlock mutex ∷ []))

unfoldable pub rounds : ℕ → List (List ℕ) → List UserCall
rounds mutex [] = []
rounds mutex (b ∷ bs) = round mutex b ++ rounds mutex bs

unfoldable pub concat : List (List ℕ) → List ℕ
concat [] = []
concat (b ∷ bs) = b ++ concat bs

-- The first character that ends a line is in the last of the batches.
abbrev pub EndsLast : List (List ℕ) → Type 0
EndsLast [] = ⊥
EndsLast (b ∷ []) = has_end b ≡ true
EndsLast (b ∷ b' ∷ bs) = (has_end b ≡ false) × EndsLast (b' ∷ bs)

module _ (system : List UserCall → Option Answer) (snprintf : String → List Arg → List ℕ) where
  -- After the calls `h`, the rounds of the shell read these batches.
  abbrev pub Feeds : ℕ → List UserCall → List (List ℕ) → Type 0
  Feeds mutex h [] = Unit {0}
  Feeds mutex h (b ∷ bs) =
      (length b ≤ buf_size)
      × (system ((h ++ (mutex_lock mutex ∷ [])) ++ (io_read 0 buf_size ∷ []))
          ≡ some (record { value = length b; bytes = b }))
      × Feeds mutex (h ++ round mutex b) bs

  module _ (mutex : ℕ) (echoes : Echoes system snprintf)
      (locks : IsAnswered system snprintf (mutex_lock mutex))
      (unlocks : IsAnswered system snprintf (mutex_unlock mutex)) where
    -- One round.
    pub record Round (b cs : List ℕ) (l : Line) (h : List UserCall) (r : Run ((ℕ → ℕ) × Line))
        : Type 0 where
      pub buf : ℕ → ℕ
      pub after : Line
      pub runs : r ≡ goes (buf, after) (h ++ round mutex b)
      pub holds : Holds after (cs ++ typed b)
      pub reads : after.reading ≡ (l.reading && not (has_end b))

    pub read_round_collects :
        (b cs : List ℕ) (buf : ℕ → ℕ) (l : Line) (h : List UserCall)
        → length b ≤ buf_size
        → system ((h ++ (mutex_lock mutex ∷ [])) ++ (io_read 0 buf_size ∷ []))
          ≡ some (record { value = length b; bytes = b })
        → Holds l cs
        → length cs + length (typed b) ≤ input_size
        → Round b cs l h (read_round system snprintf mutex buf l h)
    read_round_collects b cs buf l h small fed k short =
        let h2 = (h ++ (mutex_lock mutex ∷ [])) ++ (io_read 0 buf_size ∷ []) in
        let (a, w) = locks h in
        let t =
          read_chars_collects system snprintf b 0 (store 0 b buf) l cs h2 echoes
            (λ j lt. store_get b 0 buf j lt (omega arith)) (omega arith) k short in
        let (a', w') = unlocks (h2 ++ echo b) in
        let fine : is_negative (length b) ≡ false = ground arith in
        record {
          buf = store 0 b buf;
          after = t.after;
          runs =
              rw (w, fed, fine, t.runs, w')
                (ap (λ x. goes (store 0 b buf, t.after) x) (simp append_assoc));
          holds = t.holds;
          reads = t.reads;
        }

    -- Enough fuel is one round for each batch.
    pub lines_collect :
        (b : List ℕ) (bs : List (List ℕ)) (f : ℕ) (cs : List ℕ) (buf : ℕ → ℕ) (l : Line)
        (h : List UserCall)
        → Feeds mutex h (b ∷ bs)
        → EndsLast (b ∷ bs)
        → Holds l cs
        → l.reading ≡ true
        → length cs + length (typed (concat (b ∷ bs))) ≤ input_size
        → length bs < f
        → (buf' : ℕ → ℕ) × (l' : Line) × (read_line system snprintf f mutex buf l h
            ≡ goes (buf', l') (h ++ rounds mutex (b ∷ bs)))
          × Holds l' (cs ++ typed (concat (b ∷ bs)))
    unfolding read_line rounds concat
    lines_collect b bs zero cs buf l h fed ends k reads short fuel = absurd (omega arith)
    lines_collect b [] (suc f) cs buf l h fed ends k reads short fuel =
        let none_left : b ++ [] ≡ b = append-nil b in
        let short' : length cs + length (typed b) ≤ input_size =
          subst (λ (x : List ℕ). length cs + length (typed x) ≤ input_size) none_left short in
        let t = read_round_collects b cs buf l h fed.0 fed.1 k short' in
        let stop : t.after.reading ≡ false = ground (arith, t.reads, ends) in
        (
          t.buf,
          t.after,
          rw (t.runs, stop) (ap (λ x. goes (t.buf, t.after) x) (simp append-nil)),
          subst (λ (x : List ℕ). Holds t.after (cs ++ typed x)) (sym none_left) t.holds,
        )
    lines_collect b (b' ∷ bs) (suc f) cs buf l h fed ends k reads short fuel =
        let rest = concat (b' ∷ bs) in
        let both = typed-append b rest in
        let n = ap length both ∙ length-append (typed b) (typed rest) in
        let t = read_round_collects b cs buf l h fed.0 fed.1 k (omega (arith, n)) in
        let go_on : t.after.reading ≡ true = ground (arith, t.reads, ends, reads) in
        let (buf', l', run, k') =
          lines_collect b' bs f (cs ++ typed b) t.buf t.after (h ++ round mutex b) fed.2 ends.1
            t.holds go_on (omega (arith, n, length-append cs (typed b))) (omega arith) in
        (
          buf',
          l',
          rw (t.runs, go_on)
              (run
                ∙ ap (λ x. goes (buf', l') x)
                    (append_assoc h (round mutex b) (rounds mutex (b' ∷ bs)))),
          subst (Holds l') (append_assoc cs (typed b) (typed rest) ∙ ap (λ x. cs ++ x) (sym both))
              k',
        )

    -- `while (reading)` on an empty line, when the calls of `io_read` bring batches of at most 128
    -- characters of which only the last has a newline or a 0, every other call of the loop returns,
    -- and the characters but for newlines and zeroes are at most 128 in all: with as many rounds of
    -- fuel as there are batches the loop returns. The line holds these characters in order, followed by
    -- zeroes, those behind the newline in its batch included; and the calls are, for each batch, one
    -- of `mutex_lock`, one of `io_read`, one of `io_write` for each character, and one of
    -- `mutex_unlock`.
    pub read_line_collects :
        (b : List ℕ) (bs : List (List ℕ)) (f : ℕ) (buf : ℕ → ℕ) (h : List UserCall)
        → Feeds mutex h (b ∷ bs)
        → EndsLast (b ∷ bs)
        → length (typed (concat (b ∷ bs))) ≤ input_size
        → length bs < f
        → (buf' : ℕ → ℕ) × (l' : Line) × (read_line system snprintf f mutex buf new_line h
            ≡ goes (buf', l') (h ++ rounds mutex (b ∷ bs)))
          × Holds l' (typed (concat (b ∷ bs)))
    read_line_collects b bs f buf h fed ends short fuel =
        lines_collect b bs f [] buf new_line h fed ends (record { len = refl; chars = λ i. refl })
          refl (omega (arith, short)) fuel
