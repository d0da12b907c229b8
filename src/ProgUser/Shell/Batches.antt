-- ===== src/ProgUser/Shell/Batches.antt =====
-- The characters that one call of `io_read` brings to `prog_shell` of src/prog_user.c.
use phase1_myunivos.Base.{
  Arg, Bool, Bool-cases, List, Option, [], ap, append-nil, append_assoc, ap₂, arith, false, get_or,
  if◌then◌else◌, inl, inr, length, length-append, ltb, not, refl, some, subst, suc, sym, true,
  update, update_hit, update_miss, word_size, wrap, zero, ℕ, ◌&&◌, ◌++◌, ◌+◌, ◌<◌, ◌==◌, ◌||◌, ◌∙◌,
  ◌∷◌, ◌≡◌, ◌≤◌,
}
use phase1_myunivos.Ksyscall.Dispatch.{store}
use phase1_myunivos.ProgUser.{Answer, Run, UserCall, goes, io_write}
use phase1_myunivos.ProgUser.Shell.{Line, buf_size, input_size, read_char, read_chars}
use Prim.Native.String.{String}

-- A newline, or a 0.
abbrev pub ends_line : ℕ → Bool
ends_line c = (c == 10) || (c == 0)

-- The characters that do not end a line.
unfoldable pub typed : List ℕ → List ℕ
typed [] = []
typed (c ∷ cs) = if ends_line c then typed cs else c ∷ typed cs

-- A character ends the line.
unfoldable pub has_end : List ℕ → Bool
has_end [] = false
has_end (c ∷ cs) = ends_line c || has_end cs

-- The calls that write the characters, one by one.
unfoldable pub echo : List ℕ → List UserCall
echo [] = []
echo (c ∷ cs) = io_write 1 (c ∷ []) ∷ echo cs

-- The line holds these characters, followed by zeroes.
pub record Holds (l : Line) (cs : List ℕ) : Type 0 where
  pub len : l.input_len ≡ length cs
  pub chars : (i : ℕ) → l.input i ≡ get_or cs i 0

pub typed-append : (xs ys : List ℕ) → typed (xs ++ ys) ≡ typed xs ++ typed ys
unfolding typed
typed-append [] ys = refl
typed-append (x ∷ xs) ys = elim (Bool-cases (ends_line x)) [
  | inl e ↦ rw e (typed-append xs ys)
  | inr e ↦ rw e (ap (λ r. x ∷ r) (typed-append xs ys))
]

get_or-snoc :
    (cs : List ℕ) (c i : ℕ)
    → get_or (cs ++ (c ∷ [])) i 0 ≡ (if length cs == i then c else get_or cs i 0)
get_or-snoc [] c zero = ground arith
get_or-snoc [] c (suc i) = ground arith
get_or-snoc (x ∷ cs) c zero = ground arith
get_or-snoc (x ∷ cs) c (suc i) = get_or-snoc cs c i ∙ ground arith

-- The line with the character put into it.
abbrev pub put_char : ℕ → Line → Line
put_char c l = record l { input = update l.input l.input_len c; input_len = l.input_len + 1 }

pub put_char-Holds :
    (l : Line) (cs : List ℕ) (c : ℕ) → Holds l cs → Holds (put_char c l) (cs ++ (c ∷ []))
put_char-Holds l cs c k = record {
  len = omega (arith, k.len, length-append cs (c ∷ []));
  chars = λ i. rw (k.len, k.chars i, get_or-snoc cs c i) refl;
}

-- What is stored from `a` on leaves the bytes before.
store_before :
    (b : List ℕ) (a : ℕ) (mem : ℕ → ℕ) (j : ℕ)
    → j < a
    → a + length b < word_size
    → store a b mem j ≡ mem j
unfolding store
store_before [] a mem j lt small = refl
store_before (c ∷ b) a mem j lt small =
    let step : wrap (a + 1) ≡ a + 1 = omega arith in
    ap (λ k. store k b (update mem a c) j) step
    ∙ store_before b (a + 1) (update mem a c) j (omega arith) (omega arith)
    ∙ update_miss mem a c j (omega arith)

-- What was stored is read back.
pub store_get :
    (b : List ℕ) (a : ℕ) (mem : ℕ → ℕ) (j : ℕ)
    → j < length b
    → a + length b < word_size
    → store a b mem (a + j) ≡ get_or b j 0
unfolding store
store_get [] a mem j lt small = absurd (omega arith)
store_get (c ∷ b) a mem zero lt small =
    let step : wrap (a + 1) ≡ a + 1 = omega arith in
    ap (λ k. store k b (update mem a c) (a + 0)) step
    ∙ store_before b (a + 1) (update mem a c) (a + 0) (omega arith) (omega arith)
    ∙ update_hit mem a c (a + 0) (omega arith)
store_get (c ∷ b) a mem (suc j) lt small =
    let step : wrap (a + 1) ≡ a + 1 = omega arith in
    ap₂ (λ k i. store k b (update mem a c) i) step (omega arith)
    ∙ store_get b (a + 1) (update mem a c) j (omega arith) (omega arith)

pub length-typed_more :
    (c : ℕ) (b : List ℕ) → ends_line c ≡ false → length (typed (c ∷ b)) ≡ suc (length (typed b))
unfolding typed
length-typed_more c b more = rw more refl

pub length-typed_end :
    (c : ℕ) (b : List ℕ) → ends_line c ≡ true → length (typed (c ∷ b)) ≡ length (typed b)
unfolding typed
length-typed_end c b ends = rw ends refl

module _ (system : List UserCall → Option Answer) (snprintf : String → List Arg → List ℕ) where
  -- A call that returns, whatever was called before.
  abbrev pub IsAnswered : UserCall → Type 0
  IsAnswered c = (h : List UserCall) → (a : Answer) × (system (h ++ (c ∷ [])) ≡ some a)

  -- Every character is written by a call that returns.
  abbrev pub Echoes : Type 0
  Echoes = (c : ℕ) → IsAnswered (io_write 1 (c ∷ []))

  -- A round of the loop.
  pub read_chars_step :
      (n i : ℕ) (buf : ℕ → ℕ) (c : ℕ) (l l1 : Line) (h h1 : List UserCall) (r : Run Line)
      → i < buf_size
      → buf i ≡ c
      → read_char system snprintf c l h ≡ goes l1 h1
      → read_chars system snprintf n (i + 1) buf l1 h1 ≡ r
      → read_chars system snprintf (suc n) i buf l h ≡ r
  unfolding read_chars
  read_chars_step n i buf c l l1 h h1 r lt is_c one rest =
      let in_buf : ltb i buf_size ≡ true = ground arith in rw (in_buf, is_c, one) rest

  pub read_char_end :
      (c : ℕ) (l : Line) (h : List UserCall)
      → Echoes
      → ends_line c ≡ true
      → read_char system snprintf c l h
        ≡ goes (record l { reading = false }) (h ++ (io_write 1 (c ∷ []) ∷ []))
  read_char_end c l h e ends = let (a, w) = e c h in rw (ends, w) refl

  pub read_char_more :
      (c : ℕ) (l : Line) (h : List UserCall)
      → Echoes
      → ends_line c ≡ false
      → l.input_len < input_size
      → read_char system snprintf c l h ≡ goes (put_char c l) (h ++ (io_write 1 (c ∷ []) ∷ []))
  read_char_more c l h e more lt =
      let (a, w) = e c h in
      let room : ltb l.input_len input_size ≡ true = ground arith in rw (more, room, w) refl

  -- The line after some characters, and the calls made for them.
  pub record Typed (b cs : List ℕ) (l : Line) (h : List UserCall) (r : Run Line) : Type 0 where
    pub after : Line
    pub runs : r ≡ goes after (h ++ echo b)
    pub holds : Holds after (cs ++ typed b)
    pub reads : after.reading ≡ (l.reading && not (has_end b))

  Typed-end :
      (c : ℕ) (b cs : List ℕ) (l : Line) (h : List UserCall) (r : Run Line)
      → ends_line c ≡ true
      → Typed b cs (record l { reading = false }) (h ++ (io_write 1 (c ∷ []) ∷ [])) r
      → Typed (c ∷ b) cs l h r
  unfolding typed has_end echo
  Typed-end c b cs l h r ends t = record {
    after = t.after;
    runs = t.runs ∙ ap (λ x. goes t.after x) (append_assoc h (io_write 1 (c ∷ []) ∷ []) (echo b));
    holds = rw ends t.holds;
    reads = rw ends (t.reads ∙ ground arith);
  }

  Typed-more :
      (c : ℕ) (b cs : List ℕ) (l : Line) (h : List UserCall) (r : Run Line)
      → ends_line c ≡ false
      → Typed b (cs ++ (c ∷ [])) (put_char c l) (h ++ (io_write 1 (c ∷ []) ∷ [])) r
      → Typed (c ∷ b) cs l h r
  unfolding typed has_end echo
  Typed-more c b cs l h r more t = record {
    after = t.after;
    runs = t.runs ∙ ap (λ x. goes t.after x) (append_assoc h (io_write 1 (c ∷ []) ∷ []) (echo b));
    holds = rw more (subst (Holds t.after) (append_assoc cs (c ∷ []) (typed b)) t.holds);
    reads = rw more t.reads;
  }

  -- The loop over a batch of characters that fit into the line.
  pub read_chars_collects :
      (b : List ℕ) (i : ℕ) (buf : ℕ → ℕ) (l : Line) (cs : List ℕ) (h : List UserCall)
      → Echoes
      → ((j : ℕ) → j < length b → buf (i + j) ≡ get_or b j 0)
      → i + length b ≤ buf_size
      → Holds l cs
      → length cs + length (typed b) ≤ input_size
      → Typed b cs l h (read_chars system snprintf (length b) i buf l h)
  unfolding read_chars typed has_end echo
  read_chars_collects [] i buf l cs h e at fits k short = record {
    after = l;
    runs = ap (λ r. goes l r) (sym (append-nil h));
    holds = subst (Holds l) (sym (append-nil cs)) k;
    reads = ground arith;
  }
  read_chars_collects (c ∷ b) i buf l cs h e at fits k short =
      let is_c : buf i ≡ c = ap buf (omega arith) ∙ at 0 (omega arith) in
      let at' : (j : ℕ) → j < length b → buf ((i + 1) + j) ≡ get_or b j 0 =
        λ j lt. ap buf (omega arith) ∙ at (suc j) (omega arith) in
      let h' = h ++ (io_write 1 (c ∷ []) ∷ []) in
      elim (Bool-cases (ends_line c)) [
        | inl ends ↦
            let l1 = record l { reading = false } in
            let t =
              read_chars_collects b (i + 1) buf l1 cs h' e at' (omega arith)
                (record { len = k.len; chars = k.chars })
                (omega (arith, length-typed_end c b ends)) in
            Typed-end c b cs l h _ ends (
              subst (Typed b cs l1 h')
                (sym (
                  read_chars_step (length b) i buf c l l1 h h' _ (omega arith) is_c
                    (read_char_end c l h e ends) refl))
                t)
        | inr more ↦
            let one = length-typed_more c b more in
            let l1 = put_char c l in
            let t =
              read_chars_collects b (i + 1) buf l1 (cs ++ (c ∷ [])) h' e at' (omega arith)
                (put_char-Holds l cs c k) (omega (arith, length-append cs (c ∷ []), one)) in
            Typed-more c b cs l h _ more (
              subst (Typed b (cs ++ (c ∷ [])) l1 h')
                (sym (
                  read_chars_step (length b) i buf c l l1 h h' _ (omega arith) is_c
                    (read_char_more c l h e more (omega (arith, k.len, one))) refl))
                t)
      ]
