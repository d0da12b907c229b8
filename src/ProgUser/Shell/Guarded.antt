-- ===== src/ProgUser/Shell/Guarded.antt =====
-- The loop of src/prog_user.c that reads a line: each batch is read under the lock.
use phase1_myunivos.Base.{
  Arg, List, Option, [], arith, is_negative, ltb, none, refl, some, suc, sym, true, false, zero, ℕ,
  ◌++◌, ◌+◌, ◌==◌, ◌||◌, ◌∙◌, ◌∷◌, ◌≡◌,
}
use phase1_myunivos.Ksyscall.Dispatch.{store}
use phase1_myunivos.ProgUser.{
  Answer, UserCall, call, fault, io_read, io_write, mutex_init, mutex_lock, mutex_unlock, return,
  ◌>>◌,
}
use phase1_myunivos.ProgUser.Shell.{
  Line, buf_size, input_size, read_char, read_chars, read_line, read_round,
}
use phase1_myunivos.ProgUser.Shell.Locks.{
  IsStep, Takes, after_call, bind-Takes, call-Takes, fault-Takes, free, free-ne-broken, holding,
  holds, holds-ne-broken, if-Takes, io_write-IsPlain, plain-Takes, return-Takes,
}
use Prim.Native.String.{String}

-- What the shell relies on. The mutexes in use are those of `IsMutex`: one that `mutex_init` gives is,
-- and a lock of one succeeds if it returns and none is held before, an unlock if this one is held.
pub record Serves (system : List UserCall → Option Answer) (IsMutex : ℕ → Type 0) : Type 0 where
  pub makes :
      (h : List UserCall) (a : Answer) → system (h ++ (mutex_init ∷ [])) ≡ some a → IsMutex a.value
  pub locks :
      (n : ℕ) (h : List UserCall) (a : Answer)
      → IsMutex n
      → holding system h ≡ free
      → system (h ++ (mutex_lock n ∷ [])) ≡ some a
      → is_negative a.value ≡ false
  pub unlocks :
      (n : ℕ) (h : List UserCall) (a : Answer)
      → IsMutex n
      → holding system h ≡ holds n
      → system (h ++ (mutex_unlock n ∷ [])) ≡ some a
      → is_negative a.value ≡ false

module _ (system : List UserCall → Option Answer) (snprintf : String → List Arg → List ℕ)
    (IsMutex : ℕ → Type 0) (serves : Serves system IsMutex) where
  module _ (n : ℕ) (live : IsMutex n) where
    read_char-Takes :
        (c : ℕ) (l : Line) → Takes system (holds n) (holds n) (read_char system snprintf c l)
    read_char-Takes c l =
        let fine = holds-ne-broken n in
        let put = λ (l' : Line).
          plain-Takes system snprintf (io_write 1 (c ∷ [])) (holds n) (holds n) (λ a. return l')
            (io_write-IsPlain 1 (c ∷ [])) fine (λ a. return-Takes system (holds n) l') in
        if-Takes system ((c == 10) || (c == 0)) (holds n) (holds n) _ _ (put _) (
          if-Takes system (ltb l.input_len input_size) (holds n) (holds n) _ fault (put _)
            (fault-Takes system Line (holds n) (holds n) fine))

    read_chars-Takes :
        (k i : ℕ) (buf : ℕ → ℕ) (l : Line)
        → Takes system (holds n) (holds n) (read_chars system snprintf k i buf l)
    unfolding read_chars
    read_chars-Takes zero i buf l = return-Takes system (holds n) l
    read_chars-Takes (suc k) i buf l =
        if-Takes system (ltb i buf_size) (holds n) (holds n) _ fault
          (bind-Takes system (holds n) (holds n) (holds n) (read_char system snprintf (buf i) l)
            (read_chars system snprintf k (i + 1) buf) (read_char-Takes (buf i) l)
            (read_chars-Takes k (i + 1) buf))
          (fault-Takes system Line (holds n) (holds n) (holds-ne-broken n))

    -- Locking, reading and unlocking.
    pub ask_lock : Takes system free (holds n) (call system snprintf (mutex_lock n))
    unfolding after_call
    ask_lock = call-Takes system snprintf (mutex_lock n) free (holds n) step
      where
        step :
            (h : List UserCall)
            → holding system h ≡ free
            → (o : Option Answer) → system (h ++ (mutex_lock n ∷ [])) ≡ o
            → IsStep (mutex_lock n) free (holds n) o
        step h e none is = free-ne-broken
        step h e (some a) is = rw (serves.locks n h a live e is) refl

    ask_unlock : Takes system (holds n) free (call system snprintf (mutex_unlock n))
    unfolding after_call
    ask_unlock = call-Takes system snprintf (mutex_unlock n) (holds n) free step
      where
        same : (n == n) ≡ true
        same = ground arith

        step :
            (h : List UserCall)
            → holding system h ≡ holds n
            → (o : Option Answer) → system (h ++ (mutex_unlock n ∷ [])) ≡ o
            → IsStep (mutex_unlock n) (holds n) free o
        step h e none is = rw same (holds-ne-broken n)
        step h e (some a) is = rw (same, serves.unlocks n h a live e is) refl

    ask_read : Takes system (holds n) (holds n) (call system snprintf (io_read 0 buf_size))
    unfolding after_call
    ask_read =
        call-Takes system snprintf (io_read 0 buf_size) (holds n) (holds n) (λ h e o is. step o)
      where
        step : (o : Option Answer) → IsStep (io_read 0 buf_size) (holds n) (holds n) o
        step none = holds-ne-broken n
        step (some a) = refl

    pub unlocked :
        {A : Type 0} (a : A)
        → Takes system (holds n) free (call system snprintf (mutex_unlock n) >> return a)
    unlocked a =
        bind-Takes system (holds n) free free _ _ ask_unlock (λ x. return-Takes system free a)

    read_round-Takes :
        (buf : ℕ → ℕ) (l : Line) → Takes system free free (read_round system snprintf n buf l)
    read_round-Takes buf l = bind-Takes system free (holds n) free _ _ ask_lock (λ x.
        bind-Takes system (holds n) (holds n) free _ _ ask_read (λ a.
          bind-Takes system (holds n) (holds n) free _ _
            (read_chars-Takes _ 0 (store 0 a.bytes buf) l) (λ l'. unlocked _)))

    pub read_line-Takes :
        (f : ℕ) (buf : ℕ → ℕ) (l : Line)
        → Takes system free free (read_line system snprintf f n buf l)
    unfolding read_line
    read_line-Takes zero buf l = λ h e b. free-ne-broken (sym e ∙ b)
    read_line-Takes (suc f) buf l =
        bind-Takes system free free free (read_round system snprintf n buf l) _
          (read_round-Takes buf l)
          (λ r.
            if-Takes system r.1.reading free free _ _ (read_line-Takes f r.0 r.1)
              (return-Takes system free r))
