-- ===== src/ProgUser/Shell/Locks.antt =====
-- How `prog_shell` of src/prog_user.c uses its mutex.
use phase1_myunivos.Base.{
  Arg, Bool, List, Option, [], ap, append_assoc, false, if◌then◌else◌, is_negative, length, ltb,
  none, not, refl, some, sym, take, true, ℕ, ◌++◌, ◌==◌, ◌∙◌, ◌∷◌, ◌≡◌, ◌≢◌,
}
use phase1_myunivos.ProgUser.{
  Answer, Run, User, UserCall, and_then, answered, call, fault, faults, goes, io_read, io_write,
  mutex_lock, mutex_unlock, pprint_buf, pprint_size, pprintf, proc_io_out, return, spins, stops,
  ◌>>=◌,
}
use Prim.Native.String.{String}

-- What a process holds after its calls; a broken rule is never mended.
pub data Hold : Type 0 where
  free : Hold
  holds : ℕ → Hold
  broken : Hold

-- The call returned a value that is not negative.
abbrev pub succeeds : Option Answer → Bool
succeeds none = false
succeeds (some a) = not (is_negative a.value)

-- The rules: a mutex is locked when none is held, the one held is unlocked, and input is read while
-- one is held. A mutex is held from a lock that succeeds to an unlock that succeeds.
unfoldable pub after_call : UserCall → Option Answer → Hold → Hold
after_call c o broken = broken
after_call (mutex_lock n) o free = if succeeds o then holds n else free
after_call (mutex_lock n) o (holds m) = broken
after_call (mutex_unlock n) o free = broken
after_call (mutex_unlock n) o (holds m) =
    if n == m then (if succeeds o then free else holds m) else broken
after_call (io_read io n) o free = broken
after_call c o s = s

pub free-ne-broken : free ≢ broken
free-ne-broken e = cc

pub holds-ne-broken : (n : ℕ) → holds n ≢ broken
holds-ne-broken n e = cc

-- If it goes on, then with a value of the property `P`.
abbrev pub IsEnd : {A : Type 0} → (A → Type 0) → Run A → Type 0
IsEnd P (goes a h) = P a
IsEnd P (stops h) = Unit
IsEnd P (faults h) = Unit
IsEnd P (spins h) = Unit

abbrev pub Gives : {A : Type 0} → (A → Type 0) → User A → Type 0
Gives P m = (h : List UserCall) → IsEnd P (m h)

module _ (system : List UserCall → Option Answer) where
  -- What is held after the calls `cs`, which follow the calls `h` and the hold `s`, with the answers
  -- of the system.
  unfoldable pub held : List UserCall → Hold → List UserCall → Hold
  held h s [] = s
  held h s (c ∷ cs) = held (h ++ (c ∷ [])) (after_call c (system (h ++ (c ∷ []))) s) cs

  held-snoc :
      (cs h : List UserCall) (c : UserCall) (s : Hold)
      → held h s (cs ++ (c ∷ [])) ≡ after_call c (system (h ++ (cs ++ (c ∷ [])))) (held h s cs)
  unfolding held
  held-snoc [] h c s = refl
  held-snoc (d ∷ cs) h c s =
      let h' = h ++ (d ∷ []) in
      held-snoc cs h' c (after_call d (system h') s)
      ∙ ap (λ l. after_call c (system l) (held h' (after_call d (system h') s) cs))
          (append_assoc h (d ∷ []) (cs ++ (c ∷ [])))

  -- What is held after all calls of the process.
  abbrev pub holding : List UserCall → Hold
  holding = held [] free

  -- However a part of the program ends, its calls keep to the rules; if it goes on, this is held.
  abbrev pub Obeys : {A : Type 0} → Hold → Run A → Type 0
  Obeys s (goes a h) = holding h ≡ s
  Obeys s (stops h) = holding h ≢ broken
  Obeys s (faults h) = holding h ≢ broken
  Obeys s (spins h) = holding h ≢ broken

  -- From holding `s`, which is lawful, to holding `s'`.
  abbrev pub Takes : {A : Type 0} → Hold → Hold → User A → Type 0
  Takes s s' m = (h : List UserCall) → holding h ≡ s → Obeys s' (m h)

  pub bind-Takes-knowing :
      {A B : Type 0} (P : A → Type 0) (s s' s'' : Hold) (m : User A) (f : A → User B)
      → Gives P m
      → Takes s s' m
      → ((a : A) → P a → Takes s' s'' (f a))
      → Takes s s'' (m >>= f)
  bind-Takes-knowing {A} P s s' s'' m f gives first next h e = after (m h) (gives h) (first h e)
    where
      after : (r : Run A) → IsEnd P r → Obeys s' r → Obeys s'' (and_then r f)
      after (goes a h) p e = next a p h e
      after (stops h) p e = e
      after (faults h) p e = e
      after (spins h) p e = e

  pub bind-Takes :
      {A B : Type 0} (s s' s'' : Hold) (m : User A) (f : A → User B)
      → Takes s s' m
      → ((a : A) → Takes s' s'' (f a))
      → Takes s s'' (m >>= f)
  bind-Takes {A} s s' s'' m f first next h e = after (m h) (first h e)
    where
      after : (r : Run A) → Obeys s' r → Obeys s'' (and_then r f)
      after (goes a h) e = next a h e
      after (stops h) e = e
      after (faults h) e = e
      after (spins h) e = e

  pub bind-Gives :
      {A B : Type 0} (P : A → Type 0) (Q : B → Type 0) (m : User A) (f : A → User B)
      → Gives P m
      → ((a : A) → P a → Gives Q (f a))
      → Gives Q (m >>= f)
  bind-Gives {A} P Q m f first next h = after (m h) (first h)
    where
      after : (r : Run A) → IsEnd P r → IsEnd Q (and_then r f)
      after (goes a h) p = next a p h
      after (stops h) p = tt
      after (faults h) p = tt
      after (spins h) p = tt

  -- Of any part of a program.
  pub any-Gives : {A : Type 0} (m : User A) → Gives (λ a. Unit {0}) m
  any-Gives {A} m h = after (m h)
    where
      after : (r : Run A) → IsEnd (λ a. Unit {0}) r
      after (goes a h) = tt
      after (stops h) = tt
      after (faults h) = tt
      after (spins h) = tt

  pub if-Takes :
      {A : Type 0} (b : Bool) (s s' : Hold) (m n : User A)
      → Takes s s' m
      → Takes s s' n
      → Takes s s' (if b then m else n)
  if-Takes true s s' m n first second = first
  if-Takes false s s' m n first second = second

  pub return-Takes : {A : Type 0} (s : Hold) (a : A) → Takes s s (return a)
  return-Takes s a h e = e

  pub fault-Takes : (A : Type 0) (s s' : Hold) → s ≢ broken → Takes s s' (fault {A = A})
  fault-Takes A s s' fine h e = λ b. fine (sym e ∙ b)

-- A call that no rule is about.
abbrev pub IsPlain : UserCall → Type 0
IsPlain c = (o : Option Answer) (s : Hold) → after_call c o s ≡ s

pub io_write-IsPlain : (io : ℕ) (b : List ℕ) → IsPlain (io_write io b)
unfolding after_call
io_write-IsPlain io b o free = refl
io_write-IsPlain io b o (holds n) = refl
io_write-IsPlain io b o broken = refl

-- What a call does to the hold, if it returns; else it breaks no rule.
abbrev pub IsStep : UserCall → Hold → Hold → Option Answer → Type 0
IsStep c s s' none = after_call c none s ≢ broken
IsStep c s s' (some a) = after_call c (some a) s ≡ s'

module _ (system : List UserCall → Option Answer) (snprintf : String → List Arg → List ℕ) where
  pub call-Takes :
      (c : UserCall) (s s' : Hold)
      → ((h : List UserCall)
          → holding system h ≡ s
          → (o : Option Answer) → system (h ++ (c ∷ [])) ≡ o
          → IsStep c s s' o)
      → Takes system s s' (call system snprintf c)
  call-Takes c s s' step h e = answer (system (h ++ (c ∷ []))) refl
    where
      after : holding system (h ++ (c ∷ [])) ≡ after_call c (system (h ++ (c ∷ []))) s
      after = held-snoc system h [] c free ∙ ap (after_call c (system (h ++ (c ∷ [])))) e

      answer :
          (o : Option Answer)
          → system (h ++ (c ∷ [])) ≡ o
          → Obeys system s' (answered system snprintf o (h ++ (c ∷ [])))
      answer none is = λ b. step h e none is (sym (after ∙ ap (λ o. after_call c o s) is) ∙ b)
      answer (some a) is = after ∙ ap (λ o. after_call c o s) is ∙ step h e (some a) is

  -- A call that no rule is about, and then the rest.
  pub plain-Takes :
      {A : Type 0} (c : UserCall) (s s' : Hold) (f : Answer → User A)
      → IsPlain c
      → s ≢ broken
      → ((a : Answer) → Takes system s s' (f a))
      → Takes system s s' (call system snprintf c >>= f)
  plain-Takes c s s' f plain fine next =
      bind-Takes system s s s' (call system snprintf c) f (call-Takes c s s (λ h e o is. step o))
        next
    where
      step : (o : Option Answer) → IsStep c s s o
      step none = λ b. fine (sym (plain none s) ∙ b)
      step (some a) = plain (some a) s

  pub say-Takes :
      (fmt : String) (args : List Arg) (s : Hold)
      → s ≢ broken
      → Takes system s s (pprintf system snprintf fmt args)
  say-Takes fmt args s fine =
      let text = snprintf fmt args in
      let written = io_write proc_io_out (take (length text) (pprint_buf pprint_size text)) in
      if-Takes system (length text == 0) s s (return tt) _ (return-Takes system s tt) (
        if-Takes system (ltb pprint_size (length text)) s s fault _
          (fault-Takes system (Unit {0}) s s fine)
          (plain-Takes written s s (λ a. return tt) (io_write-IsPlain _ _) fine
            (λ a. return-Takes system s tt)))
