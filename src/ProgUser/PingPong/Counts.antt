-- ===== src/ProgUser/PingPong/Counts.antt =====
-- How often `prog_ping` and `prog_pong` of src/prog_user.c wait, print and post.
use phase1_myunivos.Base.{
  Arg, Bool-cases, List, Option, [], ap, arith, false, if◌then◌else◌, inl, inr, int, length, ltb,
  none, refl, some, ℕ, ◌++◌, ◌+◌, ◌<◌, ◌==◌, ◌∙◌, ◌∷◌, ◌≡◌, ◌≤◌,
}
use phase1_myunivos.Base.Window.{next}
use phase1_myunivos.ProgUser.{
  Answer, Run, User, UserCall, and_then, answered, call, faults, goes, io_write, pprint_size,
  pprintf, proc_sleep, return, sem_post, sem_wait, spins, stops, sys_get_time,
}
use phase1_myunivos.ProgUser.PingPong.{rally_round}
use Prim.Native.String.{String}

-- One for a wait on the semaphore `a`, a post of it, a write to the output; 0 for other calls.
abbrev pub is_wait : ℕ → UserCall → ℕ
is_wait a (sem_wait s) = if s == a then 1 else 0
is_wait a c = 0

abbrev pub is_post : ℕ → UserCall → ℕ
is_post a (sem_post s) = if s == a then 1 else 0
is_post a c = 0

abbrev pub is_print : UserCall → ℕ
is_print (io_write io b) = if io == 1 then 1 else 0
is_print c = 0

-- The number of such calls.
unfoldable pub total : (UserCall → ℕ) → List UserCall → ℕ
total f [] = 0
total f (c ∷ h) = f c + total f h

total-snoc :
    (f : UserCall → ℕ) (h : List UserCall) (c : UserCall)
    → total f (h ++ (c ∷ [])) ≡ total f h + f c
unfolding total
total-snoc f [] c = omega arith
total-snoc f (d ∷ h) c = omega (arith, total-snoc f h c)

-- The calls that returned for certain: all but the last.
unfoldable pub but_last : List UserCall → List UserCall
but_last [] = []
but_last (c ∷ []) = []
but_last (c ∷ d ∷ h) = c ∷ but_last (d ∷ h)

but_last-snoc : (h : List UserCall) (c : UserCall) → but_last (h ++ (c ∷ [])) ≡ h
unfolding but_last
but_last-snoc [] c = refl
but_last-snoc (d ∷ []) c = refl
but_last-snoc (d ∷ e ∷ h) c = ap (λ r. d ∷ r) (but_last-snoc (e ∷ h) c)

abbrev pub waits : ℕ → List UserCall → ℕ
waits a = total (is_wait a)

abbrev pub posts : ℕ → List UserCall → ℕ
posts a = total (is_post a)

abbrev pub prints : List UserCall → ℕ
prints = total is_print

-- The waits that returned.
abbrev pub passed : ℕ → List UserCall → ℕ
passed a h = waits a (but_last h)

-- Every print comes after a wait on `a`, and every post of `b` but for the first `k` after a print.
pub record IsFair (a b k : ℕ) (h : List UserCall) : Type 0 where
  pub waited : prints h ≤ passed a h
  pub printed : posts b h ≤ prints h + k

module _ (a b k : ℕ) where
  -- The counts of the calls, which are fair so far.
  pub record At (w p q : ℕ) (h : List UserCall) : Type 0 where
    pub at_waits : waits a h ≡ w
    pub at_prints : prints h ≡ p
    pub at_posts : posts b h ≡ q
    pub fair : IsFair a b k h

  -- However a part of the program ends, its calls are fair; if it goes on, with these counts.
  abbrev pub Ends : {A : Type 0} → ℕ → ℕ → ℕ → Run A → Type 0
  Ends w p q (goes x h) = At w p q h
  Ends w p q (stops h) = IsFair a b k h
  Ends w p q (faults h) = IsFair a b k h
  Ends w p q (spins h) = IsFair a b k h

  pub bind-Ends :
      {A B : Type 0} (w p q w' p' q' : ℕ) (r : Run A) (f : A → User B)
      → Ends w p q r
      → ((x : A) (h : List UserCall) → At w p q h → Ends w' p' q' (f x h))
      → Ends w' p' q' (and_then r f)
  bind-Ends w p q w' p' q' (goes x h) f e next = next x h e
  bind-Ends w p q w' p' q' (stops h) f e next = e
  bind-Ends w p q w' p' q' (faults h) f e next = e
  bind-Ends w p q w' p' q' (spins h) f e next = e

  module _ (system : List UserCall → Option Answer) (snprintf : String → List Arg → List ℕ) where
    -- A call that keeps to the rules, and the counts after it.
    pub call-Ends :
        (c : UserCall) (w p q w' p' q' : ℕ) (h : List UserCall)
        → At w p q h
        → w + is_wait a c ≡ w'
        → p + is_print c ≡ p'
        → q + is_post b c ≡ q'
        → p' ≤ w
        → q' ≤ p' + k
        → Ends w' p' q' (call system snprintf c h)
    call-Ends c w p q w' p' q' h s ew ep eq may_print may_post = answer (system (h ++ (c ∷ [])))
      where
        passed_all : passed a (h ++ (c ∷ [])) ≡ w
        passed_all = ap (waits a) (but_last-snoc h c) ∙ s.at_waits

        now : At w' p' q' (h ++ (c ∷ []))
        now = record {
          at_waits = total-snoc (is_wait a) h c ∙ ap (λ n. n + is_wait a c) s.at_waits ∙ ew;
          at_prints = total-snoc is_print h c ∙ ap (λ n. n + is_print c) s.at_prints ∙ ep;
          at_posts = total-snoc (is_post b) h c ∙ ap (λ n. n + is_post b c) s.at_posts ∙ eq;
          fair = record {
            waited = omega (arith, passed_all, total-snoc is_print h c, s.at_prints);
            printed = omega (
              arith,
              total-snoc is_print h c,
              s.at_prints,
              total-snoc (is_post b) h c,
              s.at_posts,
            );
          };
        }

        answer : (o : Option Answer) → Ends w' p' q' (answered system snprintf o (h ++ (c ∷ [])))
        answer none = now.fair
        answer (some x) = now

    -- A text that is not empty is printed by one call.
    print-Ends :
        (fmt : String) (args : List Arg) (w p q : ℕ) (h : List UserCall)
        → 0 < length (snprintf fmt args)
        → At w p q h
        → p + 1 ≤ w
        → q ≤ p + k
        → Ends w (p + 1) q (pprintf system snprintf fmt args h)
    print-Ends fmt args w p q h some_text s pw qp =
        let text = snprintf fmt args in
        let not_empty : (length text == 0) ≡ false = ground arith in
        elim (Bool-cases (ltb pprint_size (length text))) [
          | inl long ↦ rw (not_empty, long) s.fair
          | inr fits ↦
              rw (not_empty, fits)
                (bind-Ends w (p + 1) q w (p + 1) q _ (λ x. return tt)
                  (call-Ends _ w p q w (p + 1) q h s (omega arith) refl (omega arith) pw
                    (omega arith))
                  (λ x h' s'. s'))
        ]

    pub rally_round-Ends :
        (fmt : String) (pid seconds n : ℕ) (h : List UserCall)
        → ((t : ℕ) → 0 < length (snprintf fmt (int t ∷ int pid ∷ [])))
        → At n n (n + k) h
        → Ends (n + 1) (n + 1) ((n + 1) + k) (rally_round system snprintf a b fmt pid seconds h)
    rally_round-Ends fmt pid seconds n h texts s =
        let hit : is_wait a (sem_wait a) ≡ 1 = ground arith in
        let hit' : is_post b (sem_post b) ≡ 1 = ground arith in
        bind-Ends (n + 1) n (n + k) (n + 1) (n + 1) ((n + 1) + k) _ _
          (call-Ends (sem_wait a) n n (n + k) (n + 1) n (n + k) h s (omega (arith, hit))
            (omega arith) (omega arith) (omega arith) (omega arith))
          (λ x h1 s1.
            bind-Ends (n + 1) n (n + k) (n + 1) (n + 1) ((n + 1) + k) _ _
              (call-Ends sys_get_time (n + 1) n (n + k) (n + 1) n (n + k) h1 s1 (omega arith)
                (omega arith) (omega arith) (omega arith) (omega arith))
              (λ t h2 s2.
                bind-Ends (n + 1) (n + 1) (n + k) (n + 1) (n + 1) ((n + 1) + k) _ _
                  (print-Ends fmt (int t.value ∷ int pid ∷ []) (n + 1) n (n + k) h2 (texts t.value)
                    s2 (omega arith) (omega arith))
                  (λ u h3 s3.
                    bind-Ends (n + 1) (n + 1) (n + k) (n + 1) (n + 1) ((n + 1) + k) _ _
                      (call-Ends (proc_sleep seconds) (n + 1) (n + 1) (n + k) (n + 1) (n + 1)
                        (n + k) h3 s3 (omega arith) (omega arith) (omega arith) (omega arith)
                        (omega arith))
                      (λ y h4 s4.
                        bind-Ends (n + 1) (n + 1) ((n + 1) + k) (n + 1) (n + 1) ((n + 1) + k) _ _
                          (call-Ends (sem_post b) (n + 1) (n + 1) (n + k) (n + 1) (n + 1)
                            ((n + 1) + k) h4 s4 (omega arith) (omega arith) (omega (arith, hit'))
                            (omega arith) (omega arith))
                          (λ z h5 s5. s5)))))
