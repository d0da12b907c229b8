-- ===== src/Scheduler/Removal.antt =====
-- What the loop of `scheduler_remove` leaves of a queue.
use phase1_myunivos.Base.{
  ℕ, suc, ◌+◌, ◌≤◌, ◌<◌, ◌≡◌, ◌≢◌, refl, sym, ap, ap₂, ◌-◌, ◌∙◌, List, [], ◌∷◌, ◌++◌, arith, ◌==◌,
  length, true, false, inc, slt, NotIn, append_assoc, append-nil, length-append, ==-eq_false, ok,
}
use phase1_myunivos.Queue.{Queue, queue_size}
use phase1_myunivos.Queue.Fifo.{IsValid, contents, length-contents}
use phase1_myunivos.Queue.Steps.{queue_in_room, queue_out_cons}
use phase1_myunivos.Scheduler.{remove_loop, loop_fuel}

go_on : (i n : ℕ) → i < n → n ≤ queue_size → slt i n ≡ true
go_on i n h k = ground arith

stop : (i n : ℕ) → n ≤ i → i ≤ queue_size → slt i n ≡ false
stop i n h k = ground arith

-- The loop ends in the round that the size has come down to.
remove_loop_stop :
    (f pid i : ℕ) (q : Queue) → q.size ≤ i → i ≤ queue_size → remove_loop (suc f) pid i q ≡ ok q
unfolding remove_loop
remove_loop_stop f pid i q h k = rw (stop i q.size h k) refl

-- A round that meets the process takes it out.
remove_loop_hit :
    (f pid i : ℕ) (q : Queue) (xs : List ℕ)
    → IsValid q
    → contents q ≡ pid ∷ xs
    → i < q.size
    → (q' : Queue) × (remove_loop (suc f) pid i q ≡ remove_loop f pid (i + 1) q')
      × IsValid q'
      × (contents q' ≡ xs)
      × (suc q'.size ≡ q.size)
unfolding remove_loop
remove_loop_hit f pid i q xs v c h =
    let (q', out, v', c', n) = queue_out_cons q pid xs v c in
    let w : inc i ≡ i + 1 = omega (arith, v.size_in) in
    let t : (pid == pid) ≡ true = ground arith in
    (q', rw (go_on i q.size h v.size_in, out, t, w) refl, v', c', n)

-- A round that meets another process puts it behind the others.
remove_loop_miss :
    (f pid i x : ℕ) (q : Queue) (xs : List ℕ)
    → IsValid q
    → contents q ≡ x ∷ xs
    → x ≢ pid
    → i < q.size
    → (q' : Queue) × (remove_loop (suc f) pid i q ≡ remove_loop f pid (i + 1) q')
      × IsValid q'
      × (contents q' ≡ xs ++ (x ∷ []))
      × (q'.size ≡ q.size)
unfolding remove_loop
remove_loop_miss f pid i x q xs v c ne h =
    let (q', out, v', c', n) = queue_out_cons q x xs v c in
    let (q'', put, v'', c'', m) = queue_in_room q' x v' (omega (arith, v.size_in)) in
    let w : inc i ≡ i + 1 = omega (arith, v.size_in) in
    let t : (pid == x) ≡ false = ==-eq_false pid x (λ e. ne (sym e)) in
    (
      q'',
      rw (go_on i q.size h v.size_in, out, t, put, w) refl,
      v'',
      c'' ∙ ap (λ l. l ++ (x ∷ [])) c',
      omega arith,
    )

-- As many rounds as there are items of other processes at the front turn the queue by these.
remove_loop_turn :
    (l : List ℕ) (g f pid i : ℕ) (q : Queue) (r : List ℕ)
    → IsValid q
    → contents q ≡ l ++ r
    → NotIn pid l
    → i + length l ≤ q.size
    → f ≡ length l + g
    → (q' : Queue) × (remove_loop f pid i q ≡ remove_loop g pid (i + length l) q')
      × IsValid q'
      × (contents q' ≡ r ++ l)
      × (q'.size ≡ q.size)
remove_loop_turn [] g f pid i q r v c ni h e =
    let a : f ≡ g = omega arith in
    let b : i + 0 ≡ i = omega arith in
    (q, ap₂ (λ k j. remove_loop k pid j q) a (sym b), v, c ∙ sym (append-nil r), refl)
remove_loop_turn (x ∷ l) g f pid i q r v c ni h e =
    let (q', step, v', c', n) =
      remove_loop_miss (length l + g) pid i x q (l ++ r) v c ni.0 (omega arith) in
    let (q'', more, v'', c'', m) =
      remove_loop_turn l g (length l + g) pid (i + 1) q' (r ++ (x ∷ [])) v'
        (c' ∙ append_assoc l r (x ∷ [])) ni.1 (omega arith) refl in
    let a : f ≡ suc (length l + g) = omega arith in
    let b : i + 1 + length l ≡ i + suc (length l) = omega arith in
    let all =
      ap (λ k. remove_loop k pid i q) a ∙ step ∙ more ∙ ap (λ k. remove_loop g pid k q'') b in
    (q'', all, v'', c'' ∙ append_assoc r (x ∷ []) l, omega arith)

-- The loop over a queue that does not hold the process ends with the same items in the same order.
pub remove_loop_absent :
    (pid : ℕ) (q : Queue)
    → IsValid q
    → NotIn pid (contents q)
    → (q' : Queue) × (remove_loop loop_fuel pid 0 q ≡ ok q')
      × IsValid q'
      × (contents q' ≡ contents q)
remove_loop_absent pid q v ni =
    let n = length-contents q in
    let (q', run, v', c', m) =
      remove_loop_turn (contents q) (33 - q.size) loop_fuel pid 0 q [] v
        (sym (append-nil (contents q))) ni (omega (arith, n)) (omega (arith, n, v.size_in)) in
    let g : 33 - q.size ≡ suc (32 - q.size) = omega (arith, v.size_in) in
    let end =
      remove_loop_stop (32 - q.size) pid (0 + length (contents q)) q' (omega (arith, n, m))
        (omega (arith, n, v.size_in)) in
    (q', run ∙ ap (λ k. remove_loop k pid (0 + length (contents q)) q') g ∙ end, v', c')

-- Up to the process: the rounds before it, and the round that takes it out.
remove_loop_reach :
    (pid g f : ℕ) (q : Queue) (before rest : List ℕ)
    → IsValid q
    → contents q ≡ before ++ (pid ∷ rest)
    → NotIn pid before
    → f ≡ length before + suc g
    → (q' : Queue) × (remove_loop f pid 0 q ≡ remove_loop g pid (length before + 1) q')
      × IsValid q'
      × (contents q' ≡ rest ++ before)
      × (q'.size ≡ length before + length rest)
remove_loop_reach pid g f q before rest v c ni e =
    let n = length-contents q in
    let s : q.size ≡ length before + suc (length rest) =
      sym n ∙ ap length c ∙ length-append before (pid ∷ rest) in
    let (q', run, v', c', m) =
      remove_loop_turn before (suc g) f pid 0 q (pid ∷ rest) v c ni (omega arith) e in
    let (q'', hit, v'', c'', k) =
      remove_loop_hit g pid (0 + length before) q' (rest ++ before) v' c' (omega arith) in
    let i : 0 + length before + 1 ≡ length before + 1 = omega arith in
    (q'', run ∙ hit ∙ ap (λ j. remove_loop g pid j q'') i, v'', c'', omega arith)

-- A process at the end of the queue: the loop takes it out and keeps the order of the others.
pub remove_loop_last :
    (pid : ℕ) (q : Queue) (before : List ℕ)
    → IsValid q
    → contents q ≡ before ++ (pid ∷ [])
    → NotIn pid before
    → (q' : Queue) × (remove_loop loop_fuel pid 0 q ≡ ok q') × IsValid q' × (contents q' ≡ before)
remove_loop_last pid q before v c ni =
    let n = length-contents q in
    let s : q.size ≡ length before + 1 = sym n ∙ ap length c ∙ length-append before (pid ∷ []) in
    let (q', run, v', c', m) =
      remove_loop_reach pid (suc (31 - length before)) loop_fuel q before [] v c ni
        (omega (arith, v.size_in)) in
    let end =
      remove_loop_stop (31 - length before) pid (length before + 1) q' (omega arith)
        (omega (arith, v.size_in)) in
    (q', run ∙ end, v', c')

-- A process with others behind it: the loop takes it out, and stops one round early, so that the
-- item that was last now stands first.
pub remove_loop_middle :
    (pid z : ℕ) (q : Queue) (before after : List ℕ)
    → IsValid q
    → contents q ≡ before ++ (pid ∷ (after ++ (z ∷ [])))
    → NotIn pid before
    → NotIn pid after
    → (q' : Queue) × (remove_loop loop_fuel pid 0 q ≡ ok q')
      × IsValid q'
      × (contents q' ≡ z ∷ (before ++ after))
remove_loop_middle pid z q before after v c ni nj =
    let n = length-contents q in
    let k = length-append after (z ∷ []) in
    let s : q.size ≡ length before + suc (length (after ++ (z ∷ []))) =
      sym n ∙ ap length c ∙ length-append before (pid ∷ (after ++ (z ∷ []))) in
    let g : ℕ = 31 - length before - length after in
    let (q', run, v', c', m) =
      remove_loop_reach pid (length after + suc g) loop_fuel q before (after ++ (z ∷ [])) v c ni
        (omega (arith, v.size_in)) in
    let (q'', more, v'', c'', m') =
      remove_loop_turn after (suc g) (length after + suc g) pid (length before + 1) q' (z ∷ before)
        v' (c' ∙ append_assoc after (z ∷ []) before) nj (omega arith) refl in
    let end =
      remove_loop_stop g pid (length before + 1 + length after) q'' (omega arith)
        (omega (arith, v.size_in)) in
    (q'', run ∙ more ∙ end, v'', c'')
