-- ===== src/Tty/Refresh/Drains.antt =====
-- The loop of `tty_refresh` of src/tty.c that takes the output of the processes.
use phase1_myunivos.Base.{
  Bool-cases, Outcome, ap, arith, dec, halt, inl, inr, ok, out_of_bounds, refl, some, subst, suc,
  sym, update_hit, zero, ℕ, ◌<◌, ◌==◌, ◌>>=◌, ◌∙◌, ◌≡◌, ◌≤◌,
}
use phase1_myunivos.RingBuf.Fifo.{IsValid}
use phase1_myunivos.RingBuf.{RingBuf, advance, ringbuf_is_empty, ringbuf_read}
use phase1_myunivos.Tty.{Tty, Ttys, place, scroll, set_tty, tty_update, update_at}
use phase1_myunivos.Tty.Refresh.{drain, read_next}

-- A character was placed, with the output ring as it was, or past the end of the array.
abbrev Placed : Tty → Outcome Tty → Type 0
Placed t (ok t') = t'.tty_io_output ≡ t.tty_io_output
Placed t (halt h) = h ≡ out_of_bounds

place-Placed : (c : ℕ) (t : Tty) → Placed t (place c t)
place-Placed c t = ground arith

scroll-output : (t : Tty) → (scroll t).tty_io_output ≡ t.tty_io_output
scroll-output t = ground arith

-- The loop ended with nothing left in the output ring of the terminal `n`, the active one still, or a
-- character went past the end of the array.
abbrev pub Drained : ℕ → Outcome Ttys → Type 0
Drained n (ok s) = (s.active_tty ≡ some n) × ((s.tty_table n).tty_io_output.size ≡ 0)
Drained n (halt h) = h ≡ out_of_bounds

-- The terminal `t` after the oldest byte of its output was read.
abbrev one_read : Tty → Tty
one_read t = record t {
  tty_io_output = record t.tty_io_output {
    head = advance t.tty_io_output.head;
    size = dec t.tty_io_output.size;
  };
}

-- The rest of the loop, after a round in which the terminal `t`, the entry `n`, was read.
after_round :
    (f n : ℕ) (s : Ttys) (t : Tty) (r : Outcome Tty)
    → s.active_tty ≡ some n
    → Placed t r
    → ((s' : Ttys)
        → s'.active_tty ≡ some n
        → (s'.tty_table n).tty_io_output.size ≡ t.tty_io_output.size
        → Drained n (drain f n s'))
    → Drained n (r >>= (λ t. ok (set_tty n (scroll t) s)) >>= drain f n)
after_round f n s t (halt h) a e go = e
after_round f n s t (ok t') a e go = go (set_tty n (scroll t') s) a (
    ap (λ u. u.tty_io_output.size) (update_hit s.tty_table n (scroll t') n refl)
    ∙ ap (λ b. b.size) (scroll-output t' ∙ e))

read_next-active :
    (c : ℕ) (b : RingBuf) (n : ℕ) (s : Ttys)
    → s.active_tty ≡ some n
    → (let t : Tty = record (s.tty_table n) { tty_io_output = b } in
        read_next (some (c, b)) n s
        ≡ (place c t >>= λ t'. ok (set_tty n (scroll t') (set_tty n t s))))
unfolding tty_update
read_next-active c b n s a =
    let t : Tty = record (s.tty_table n) { tty_io_output = b } in
    let s1 = set_tty n t s in
    ap (λ o. update_at c o s1) a
    ∙ ap (λ u. place c u >>= λ t'. ok (set_tty n (scroll t') s1))
        (update_hit s.tty_table n t n refl)

drain-Drained :
    (f n : ℕ) (s : Ttys)
    → s.active_tty ≡ some n
    → (s.tty_table n).tty_io_output.size < f
    → f ≤ 2049
    → Drained n (drain f n s)
unfolding drain ringbuf_is_empty ringbuf_read
drain-Drained zero n s a fuel small = absurd (omega arith)
drain-Drained (suc f) n s a fuel small =
    let t = s.tty_table n in
    let c = t.tty_io_output.bytes t.tty_io_output.head in
    elim (Bool-cases (t.tty_io_output.size == 0)) [
      | inl empty ↦ rw empty (a, ground arith)
      | inr more ↦
          let t1 = one_read t in
          let s1 = set_tty n t1 s in
          rw more (
            subst (λ r. Drained n (r >>= drain f n))
              (sym (read_next-active c t1.tty_io_output n s a))
              (after_round f n s1 t1 (place c t1) a (place-Placed c t1)
                (λ s' a' size. drain-Drained f n s' a' (ground arith) (omega arith))))
    ]

-- When the active terminal's output ring is valid, the loop of `tty_refresh` ends, within the rounds that
-- a full ring takes: nothing is left in the ring and the same terminal is active, unless a character
-- was written past the end of the array.
pub drain_ends :
    (n : ℕ) (s : Ttys)
    → s.active_tty ≡ some n
    → IsValid (s.tty_table n).tty_io_output
    → Drained n (drain 2049 n s)
drain_ends n s a v = drain-Drained 2049 n s a (omega (arith, v.size_in)) (omega arith)
