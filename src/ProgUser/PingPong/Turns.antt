-- ===== src/ProgUser/PingPong/Turns.antt =====
-- The turns of `prog_ping` and `prog_pong` of src/prog_user.c.
use phase1_myunivos.Base.{
  Arg, List, Option, [], arith, false, inl, inr, int, is_negative, length, none, refl, some, subst,
  suc, sym, true, zero, ℕ, ◌%◌, ◌++◌, ◌+◌, ◌<◌, ◌∷◌, ◌≡◌, ◌≤◌, ◌⊎◌,
}
use phase1_myunivos.Base.Window.{next}
use phase1_myunivos.ProgUser.{
  Answer, Run, User, UserCall, and_then, answered, faults, goes, proc_get_pid, return, sem_init,
  sem_post, spins, stops,
}
use phase1_myunivos.ProgUser.PingPong.{ensure, prog_ping, prog_pong, rally, rally_round}
use phase1_myunivos.ProgUser.PingPong.Counts.{
  At, Ends, IsFair, bind-Ends, but_last, call-Ends, is_post, passed, posts, prints,
  rally_round-Ends, total,
}
use Prim.Native.String.{String}

abbrev pub calls : {A : Type 0} → Run A → List UserCall
calls (goes x h) = h
calls (stops h) = h
calls (faults h) = h
calls (spins h) = h

abbrev pub ping_text : String
ping_text = "%04d pingpong[%02d] ping!\n"

abbrev pub pong_text : String
pong_text = "%04d pingpong[%02d] pong!\n"

-- The cell holds the semaphore `s`, or it is negative and `sem_init` of this value returns `s`.
abbrev pub Names : (List UserCall → Option Answer) → ℕ → ℕ → ℕ → Type 0
Names system cell value s =
    ((is_negative cell ≡ false) × (cell ≡ s))
    ⊎ ((is_negative cell ≡ true)
        × ((h : List UserCall) (x : Answer)
            → system (h ++ (sem_init value ∷ [])) ≡ some x
            → x.value ≡ s))

-- No text is empty.
abbrev pub Speaks : (String → List Arg → List ℕ) → String → Type 0
Speaks snprintf fmt = (t pid : ℕ) → 0 < length (snprintf fmt (int t ∷ int pid ∷ []))

module _ (system : List UserCall → Option Answer) (snprintf : String → List Arg → List ℕ) where
  module _ (a b k : ℕ) where
    calls-IsFair :
        {A : Type 0} (w p q : ℕ) (r : Run A) → Ends a b k w p q r → IsFair a b k (calls r)
    calls-IsFair w p q (goes x h) e = e.fair
    calls-IsFair w p q (stops h) e = e
    calls-IsFair w p q (faults h) e = e
    calls-IsFair w p q (spins h) e = e

    -- The loop, from the counts of `m` rounds on.
    rally-Ends :
        (fmt : String) (pid seconds n m w : ℕ) (h : List UserCall)
        → Speaks snprintf fmt
        → w ≡ m + n
        → At a b k m m (m + k) h
        → Ends a b k w w (w + k) (rally system snprintf n a b fmt pid seconds h)
    unfolding rally
    rally-Ends fmt pid seconds zero m w h texts e s =
        let same : m ≡ w = omega arith in subst (λ x. At a b k x x (x + k) h) same s
    rally-Ends fmt pid seconds (suc n) m w h texts e s =
        bind-Ends a b k (m + 1) (m + 1) ((m + 1) + k) w w (w + k)
          (rally_round system snprintf a b fmt pid seconds h) _
          (rally_round-Ends a b k system snprintf fmt pid seconds m h (λ t. texts t pid) s)
          (λ x h1 s1. rally-Ends fmt pid seconds n (m + 1) w h1 texts (omega arith) s1)

    -- A semaphore made or found, and then the rest.
    ensure-Ends :
        {B : Type 0} (cell value s w w' p' q' : ℕ) (f : ℕ → User B) (h : List UserCall)
        → Names system cell value s
        → At a b k 0 0 0 h
        → ((h' : List UserCall) → At a b k 0 0 0 h' → Ends a b k w' p' q' (f s h'))
        → Ends a b k w' p' q' (and_then (ensure system snprintf cell value h) f)
    ensure-Ends cell value s w w' p' q' f h (inl (found, is_s)) at next =
        rw found (subst (λ x. Ends a b k w' p' q' (f x h)) (sym is_s) (next h at))
    ensure-Ends cell value s w w' p' q' f h (inr (made, is_s)) at next = rw made (
        answer (system (h ++ (sem_init value ∷ []))) refl (
          call-Ends a b k system snprintf (sem_init value) 0 0 0 0 0 0 h at (omega arith)
            (omega arith) (omega arith) (omega arith) (omega arith)))
      where
        answer :
            (o : Option Answer)
            → system (h ++ (sem_init value ∷ [])) ≡ o
            → Ends a b k 0 0 0 (answered system snprintf o (h ++ (sem_init value ∷ [])))
            → Ends a b k w' p' q' (
                and_then
                  (and_then
                    (answered system snprintf o (h ++ (sem_init value ∷ [])))
                    (λ x. return x.value))
                  f)
        answer none e at' = at'
        answer (some x) e at' =
            subst (λ v. Ends a b k w' p' q' (f v (h ++ (sem_init value ∷ [])))) (sym (is_s h x e))
              (next (h ++ (sem_init value ∷ [])) at')

  start_At : (a b k : ℕ) → At a b k 0 0 0 []
  unfolding total but_last
  start_At a b k = record {
    at_waits = refl;
    at_prints = refl;
    at_posts = refl;
    fair = record { waited = omega arith; printed = omega arith };
  }

  -- `prog_ping` with the semaphores `a` and `b`: one post of `b` comes before the first wait.
  prog_ping-Ends :
      (a b n : ℕ) (cells : ℕ → ℕ)
      → Names system (cells 0) 1 a
      → Names system (cells 1) 0 b
      → Speaks snprintf ping_text
      → Ends a b 1 n n (n + 1) (prog_ping system snprintf n cells [])
  unfolding prog_ping
  prog_ping-Ends a b n cells ping pong texts =
      let hit : is_post b (sem_post b) ≡ 1 = ground arith in
      bind-Ends a b 1 0 0 0 n n (n + 1) _ _
        (call-Ends a b 1 system snprintf proc_get_pid 0 0 0 0 0 0 [] (start_At a b 1) (omega arith)
          (omega arith) (omega arith) (omega arith) (omega arith))
        (λ p h1 s1. ensure-Ends a b 1 (cells 0) 1 a 0 n n (n + 1) _ h1 ping s1 (λ h2 s2.
          ensure-Ends a b 1 (cells 1) 0 b 0 n n (n + 1) _ h2 pong s2 (λ h3 s3.
            bind-Ends a b 1 0 0 1 n n (n + 1) _ _
              (call-Ends a b 1 system snprintf (sem_post b) 0 0 0 0 0 1 h3 s3 (omega arith)
                (omega arith) (omega (arith, hit)) (omega arith) (omega arith))
              (λ x h4 s4.
                rally-Ends a b 1 ping_text p.value (p.value % 2 + 3) n 0 n h4 texts (omega arith)
                  s4))))

  -- `prog_pong` with the same semaphores.
  prog_pong-Ends :
      (a b n : ℕ) (cells : ℕ → ℕ)
      → Names system (cells 0) 0 a
      → Names system (cells 1) 1 b
      → Speaks snprintf pong_text
      → Ends b a 0 n n (n + 0) (prog_pong system snprintf n cells [])
  unfolding prog_pong
  prog_pong-Ends a b n cells ping pong texts =
      bind-Ends b a 0 0 0 0 n n (n + 0) _ _
        (call-Ends b a 0 system snprintf proc_get_pid 0 0 0 0 0 0 [] (start_At b a 0) (omega arith)
          (omega arith) (omega arith) (omega arith) (omega arith))
        (λ p h1 s1. ensure-Ends b a 0 (cells 0) 0 a 0 n n (n + 0) _ h1 ping s1 (λ h2 s2.
          ensure-Ends b a 0 (cells 1) 1 b 0 n n (n + 0) _ h2 pong s2 (λ h3 s3.
            rally-Ends b a 0 pong_text p.value (p.value % 2 + 2) n 0 n h3 texts (omega arith) s3)))

-- Both programs, each with any system that answers it. When the cells hold the semaphores `a` and
-- `b` or `sem_init` returns them, no text of `snprintf` is empty, and each semaphore lets no more
-- waits pass than its count at the start, `i` or `j`, and the posts of the other program: however
-- far each program has come, ping has printed at most `i` lines more than pong, and pong at most
-- `j + 1` more than ping.
pub pingpong_turns :
    (system system' : List UserCall → Option Answer) (snprintf : String → List Arg → List ℕ)
    (a b i j n n' : ℕ) (cells cells' : ℕ → ℕ)
    → Names system (cells 0) 1 a
    → Names system (cells 1) 0 b
    → Names system' (cells' 0) 0 a
    → Names system' (cells' 1) 1 b
    → Speaks snprintf ping_text
    → Speaks snprintf pong_text
    → passed a (calls (prog_ping system snprintf n cells []))
      ≤ i + posts a (calls (prog_pong system' snprintf n' cells' []))
    → passed b (calls (prog_pong system' snprintf n' cells' []))
      ≤ j + posts b (calls (prog_ping system snprintf n cells []))
    → (prints (calls (prog_ping system snprintf n cells []))
        ≤ i + prints (calls (prog_pong system' snprintf n' cells' [])))
      × (prints (calls (prog_pong system' snprintf n' cells' []))
          ≤ (j + 1) + prints (calls (prog_ping system snprintf n cells [])))
pingpong_turns system system' snprintf a b i j n n' cells cells' ping pong ping' pong' texts texts'
      contract contract' =
    let fair =
      calls-IsFair system snprintf a b 1 n n (n + 1) _
        (prog_ping-Ends system snprintf a b n cells ping pong texts) in
    let fair' =
      calls-IsFair system' snprintf b a 0 n' n' (n' + 0) _
        (prog_pong-Ends system' snprintf a b n' cells' ping' pong' texts') in
    (
      omega (arith, fair.waited, fair'.printed, contract),
      omega (arith, fair'.waited, fair.printed, contract'),
    )
