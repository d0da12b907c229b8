-- ===== src/ProgUser/Shell/Commands.antt =====
-- The commands of `prog_shell` in src/prog_user.c.
use phase1_myunivos.Base.{
  All, Bool-cases, List, [], ap, ap₂, arith, codes, false, get_or, inl, inr, refl, subst, suc, sym,
  true, ℕ, ◌&&◌, ◌++◌, ◌+◌, ◌==◌, ◌↔◌, ◌∙◌, ◌∷◌, ◌≡◌, ◌≢◌,
}
use phase1_myunivos.ProgUser.Shell.{
  Command, Line, command_of, exit, help, lock, other, sleep, starts_with, time,
}
use phase1_myunivos.ProgUser.Shell.Batches.{Holds}

-- The word of a command.
abbrev pub word : Command → List ℕ
word help = codes "help"
word sleep = codes "sleep"
word time = codes "time"
word exit = codes "exit"
word lock = codes "lock"
word other = []

-- The line begins with these characters, from the `i`th on.
starts_with_lem :
    (p rest : List ℕ) (i : ℕ) (input : ℕ → ℕ)
    → ((j : ℕ) → input (i + j) ≡ get_or (p ++ rest) j 0)
    → starts_with p i input ≡ true
unfolding starts_with
starts_with_lem [] rest i input h = refl
starts_with_lem (c ∷ p) rest i input h =
    let first : input i ≡ c = ap input (omega arith) ∙ h 0 in
    let hit : (input i == c) ≡ true = ground arith in
    rw hit (starts_with_lem p rest (i + 1) input (λ j. ap input (omega arith) ∙ h (suc j)))

-- A line of which the first character is another one.
starts_with_not :
    (c : ℕ) (p : List ℕ) (input : ℕ → ℕ) → input 0 ≢ c → starts_with (c ∷ p) 0 input ≡ false
unfolding starts_with
starts_with_not c p input ne = let miss : (input 0 == c) ≡ false = ground arith in rw miss refl

-- The line begins with the word.
its_word :
    (c : Command) (rest : List ℕ) (l : Line)
    → Holds l (word c ++ rest)
    → starts_with (word c) 0 l.input ≡ true
its_word c rest l k =
    starts_with_lem (word c) rest 0 l.input (λ j. ap l.input (omega arith) ∙ k.chars j)

-- The first letter is not that of another command's word.
module _ (l : Line) (first : ℕ) (starts : l.input 0 ≡ first) where
  not_help : first ≢ 104 → starts_with (codes "help") 0 l.input ≡ false
  not_help ne = starts_with_not 104 _ l.input (λ e. ne (sym starts ∙ e))

  not_sleep : first ≢ 115 → starts_with (codes "sleep") 0 l.input ≡ false
  not_sleep ne = starts_with_not 115 _ l.input (λ e. ne (sym starts ∙ e))

  not_time : first ≢ 116 → starts_with (codes "time") 0 l.input ≡ false
  not_time ne = starts_with_not 116 _ l.input (λ e. ne (sym starts ∙ e))

  not_exit : first ≢ 101 → starts_with (codes "exit") 0 l.input ≡ false
  not_exit ne = starts_with_not 101 _ l.input (λ e. ne (sym starts ∙ e))

-- The shell takes a line for a command if it begins with the word, whatever follows the word.
pub command-word :
    (c : Command) (rest : List ℕ) (l : Line)
    → c ≢ other
    → Holds l (word c ++ rest)
    → command_of l.input ≡ c
unfolding command_of
command-word help rest l ne k = rw (its_word help rest l k) refl
command-word sleep rest l ne k =
    rw (not_help l 115 (k.chars 0) (omega arith), its_word sleep rest l k) refl
command-word time rest l ne k =
    rw
      (
        not_help l 116 (k.chars 0) (omega arith),
        not_sleep l 116 (k.chars 0) (omega arith),
        its_word time rest l k,
      )
      refl
command-word exit rest l ne k =
    rw
      (
        not_help l 101 (k.chars 0) (omega arith),
        not_sleep l 101 (k.chars 0) (omega arith),
        not_time l 101 (k.chars 0) (omega arith),
        its_word exit rest l k,
      )
      refl
command-word lock rest l ne k =
    rw
      (
        not_help l 108 (k.chars 0) (omega arith),
        not_sleep l 108 (k.chars 0) (omega arith),
        not_time l 108 (k.chars 0) (omega arith),
        not_exit l 108 (k.chars 0) (omega arith),
        its_word lock rest l k,
      )
      refl
command-word other rest l ne k = absurd (ne refl)

-- The word begins the characters.
abbrev pub IsPrefix : List ℕ → List ℕ → Type 0
IsPrefix p cs = (rest : List ℕ) × (cs ≡ p ++ rest)

both_true :
    (c : ℕ) (p : List ℕ) (i : ℕ) (input : ℕ → ℕ)
    → ((input i == c) && starts_with p (i + 1) input) ≡ true
    → (input i ≡ c) × (starts_with p (i + 1) input ≡ true)
both_true c p i input e = ground arith

starts_with-IsPrefix :
    (p cs : List ℕ) (i : ℕ) (input : ℕ → ℕ)
    → All (λ c. c ≢ 0) p
    → ((j : ℕ) → input (i + j) ≡ get_or cs j 0)
    → starts_with p i input ≡ true
    → IsPrefix p cs
unfolding starts_with
starts_with-IsPrefix [] cs i input text h e = (cs, refl)
starts_with-IsPrefix (c ∷ p) [] i input text h e =
    let first : input i ≡ 0 = ap input (omega arith) ∙ h 0 in
    let (hit, more) = both_true c p i input e in absurd (text.0 (sym hit ∙ first))
starts_with-IsPrefix (c ∷ p) (x ∷ cs) i input text h e =
    let first : input i ≡ x = ap input (omega arith) ∙ h 0 in
    let (hit, more) = both_true c p i input e in
    let (rest, e') =
      starts_with-IsPrefix p cs (i + 1) input text.1 (λ j. ap input (omega arith) ∙ h (suc j))
        more in
    (rest, ap₂ ◌∷◌ (sym first ∙ hit) e')

-- The tests of the chain: a command was found by its own.
command_tests :
    (input : ℕ → ℕ) (c : Command)
    → c ≢ other
    → command_of input ≡ c
    → starts_with (word c) 0 input ≡ true
unfolding command_of
command_tests input c ne e = elim (Bool-cases (starts_with (codes "help") 0 input)) [
  | inl t ↦ found help t (rw t refl)
  | inr f ↦ elim (Bool-cases (starts_with (codes "sleep") 0 input)) [
    | inl t ↦ found sleep t (rw (f, t) refl)
    | inr f1 ↦ elim (Bool-cases (starts_with (codes "time") 0 input)) [
      | inl t ↦ found time t (rw (f, f1, t) refl)
      | inr f2 ↦ elim (Bool-cases (starts_with (codes "exit") 0 input)) [
        | inl t ↦ found exit t (rw (f, f1, f2, t) refl)
        | inr f3 ↦ elim (Bool-cases (starts_with (codes "lock") 0 input)) [
          | inl t ↦ found lock t (rw (f, f1, f2, f3, t) refl)
          | inr f4 ↦ absurd (ne (sym e ∙ rw (f, f1, f2, f3, f4) refl))
        ]
      ]
    ]
  ]
]
  where
    found :
        (d : Command)
        → starts_with (word d) 0 input ≡ true
        → command_of input ≡ d
        → starts_with (word c) 0 input ≡ true
    found d t e' = subst (λ x. starts_with (word x) 0 input ≡ true) (sym e' ∙ e) t

word_text : (c : Command) → All (λ c. c ≢ 0) (word c)
word_text help = ground arith
word_text sleep = ground arith
word_text time = ground arith
word_text exit = ground arith
word_text lock = ground arith
word_text other = tt

-- On a line that holds some characters followed by zeroes, `prog_shell` runs one of the commands
-- help, sleep, time, exit and lock exactly if the characters begin with the command's word; what
-- follows the word in the line makes no difference.
pub command_iff :
    (c : Command) (cs : List ℕ) (l : Line)
    → c ≢ other
    → Holds l cs
    → (command_of l.input ≡ c) ↔ IsPrefix (word c) cs
command_iff c cs l ne k = (
  λ e.
      starts_with-IsPrefix (word c) cs 0 l.input (word_text c)
        (λ j. ap l.input (omega arith) ∙ k.chars j) (command_tests l.input c ne e),
  λ p. command-word c p.0 l ne (subst (Holds l) p.1 k),
)
