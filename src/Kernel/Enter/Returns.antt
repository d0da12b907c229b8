-- ===== src/Kernel/Enter/Returns.antt =====
-- `kernel_context_enter` of src/kernel.c goes on with a process.
use phase1_myunivos.Base.{
  Option, Outcome, arith, equal_or_not, false, if◌then◌else◌, inl, inr, none, ok, out_of_range,
  refl, some, some-inj, subst, sym, update_hit, update_miss, ℕ, ◌-◌, ◌<◌, ◌∙◌, ◌≡◌,
}
use phase1_myunivos.Interrupts.{
  Handlers, Ports, from_pic, interrupts_irq_handler, irq_max, pic_irq_dismiss,
}
use phase1_myunivos.Kernel.{Kernel}
use phase1_myunivos.Kernel.Enter.{kernel_context_enter, save_trapframe, switch}
use phase1_myunivos.Process.{Proc, Procs, Trapframe, active}
use phase1_myunivos.Process.Lookup.{pid_to_proc-set_proc}
use phase1_myunivos.Queue.{queue_size}
use phase1_myunivos.Scheduler.{scheduler_run}
use phase1_myunivos.Scheduler.Choice.{Ready}
use phase1_myunivos.Scheduler.Frames.{AllFramed, HasFrame, HasFrames, scheduler_run-HasFrames}
use phase1_myunivos.Scheduler.Progress.{Ready-cong, scheduler_run_total}
use phase1_myunivos.Scheduler.Wake.Round.{Timed}

none-ne-some : {e : ℕ} → none ≡ some e → ⊥
none-ne-some h = cc

save-Ready : (o : Option ℕ) (tf : Trapframe) (s : Procs) → Ready s → Ready (save_trapframe o tf s)
save-Ready none tf s r = r
save-Ready (some p) tf s r =
    Ready-cong s (save_trapframe (some p) tf s) refl refl (λ j. ground arith) r

save-sizes :
    (o : Option ℕ) (tf : Trapframe) (s : Procs)
    → ((save_trapframe o tf s).runnable ≡ s.runnable)
      × ((save_trapframe o tf s).sleepers ≡ s.sleepers)
      × ((save_trapframe o tf s).active_proc ≡ s.active_proc)
save-sizes none tf s = (refl, refl, refl)
save-sizes (some p) tf s = (refl, refl, refl)

pub save-Timed :
    (o : Option ℕ) (tf : Trapframe) (s : Procs) → Timed s → Timed (save_trapframe o tf s)
save-Timed o tf s t =
    let (a, b, c) = save-sizes o tf s in
    record { ready = save-Ready o tf s t.ready; asleep = rw b t.asleep; room = rw (a, b) t.room }

-- The registers of the process that was interrupted are saved.
pub save-HasFrames :
    (tf : Trapframe) (s : Procs) → AllFramed s → HasFrames (save_trapframe s.active_proc tf s)
save-HasFrames tf s h = saved s.active_proc refl
  where
    saved : (o : Option ℕ) → s.active_proc ≡ o → HasFrames (save_trapframe o tf s)
    saved none a = record {
      framed = h;
      active_framed = λ e now. absurd (none-ne-some (sym a ∙ now));
    }
    saved (some p) a =
        let v : Proc = record (s.table p) { trapframe = some tf } in
        let here =
          λ (e : ℕ) (at : e ≡ p). subst HasFrame (sym (update_hit s.table p v e at)) (tf, refl) in
        record {
          framed = λ x e f. elim (equal_or_not e p) [
            | inl at ↦ here e at
            | inr ne ↦
                subst HasFrame (sym (update_miss s.table p v e ne))
                  (h x e (sym (pid_to_proc-set_proc x p v s refl) ∙ f))
          ];
          active_framed = λ e now. here e (some-inj (sym now ∙ a));
        }

-- What the kernel goes on with after the handler, which left the system as `k` and the ports as `s`:
-- the saved registers `tf` of the active process `e`, and the system with the processes `p` that the
-- scheduler leaves.
abbrev pub GoesOn : {S : Type 0} → Outcome (Trapframe × Kernel × S) → Kernel → S → Type 0
GoesOn r k s =
    (e : ℕ) × (p : Procs) × (tf : Trapframe) × (r ≡ ok (tf, record k { procs = p }, s))
    × (scheduler_run k.procs ≡ ok p)
    × ((p.table e).trapframe ≡ some tf)
    × (p.active_proc ≡ some e)
    × ((p.table e).state ≡ active)
    × Ready p
    × AllFramed p

-- After the handler, if the scheduler's invariant holds and the run queue has room, a process is
-- chosen.
switch-GoesOn :
    {S : Type 0} (k : Kernel) (s : S)
    → Ready k.procs
    → HasFrames k.procs
    → k.procs.runnable.size < queue_size
    → GoesOn (switch k s) k s
switch-GoesOn k s r h room =
    let (e, procs', run, a, st, r') = scheduler_run_total k.procs r room in
    let h' = scheduler_run-HasFrames k.procs procs' run h in
    let (tf, f) = h'.active_framed e a in
    (e, procs', tf, rw (run, a) (rw f refl), run, f, a, st, r', h'.framed)

-- An interrupt with a handler that returns, and leaves the scheduler's invariant, room in the run
-- queue, and a saved trapframe in every process: `kernel_context_enter` neither panics nor runs out of
-- processes, and goes on with the trapframe of a process in the state ACTIVE; the interrupt is
-- dismissed if it came from a controller, the scheduler's invariant and the trapframes are kept, and
-- nothing but the processes changes after the handler.
pub kernel_context_enter_returns :
    (hw : Ports) (handlers : Handlers Kernel hw.State)
    (f : Kernel → hw.State → Outcome (Kernel × hw.State)) (tf : Trapframe) (k k1 : Kernel)
    (s s1 : hw.State)
    → tf.interrupt < irq_max
    → handlers tf.interrupt ≡ some f
    → f (record k { procs = save_trapframe k.procs.active_proc tf k.procs }) s ≡ ok (k1, s1)
    → Ready k1.procs
    → HasFrames k1.procs
    → k1.procs.runnable.size < queue_size
    → GoesOn
        (kernel_context_enter hw handlers tf k s)
        k1
        (if from_pic tf.interrupt then pic_irq_dismiss hw (tf.interrupt - 0x20) s1 else s1)
unfolding kernel_context_enter interrupts_irq_handler
kernel_context_enter_returns hw handlers f tf k k1 s s1 range h run r frames room =
    let in_range : out_of_range tf.interrupt irq_max ≡ false = ground arith in
    let k0 = record k { procs = save_trapframe k.procs.active_proc tf k.procs } in
    let s2 = if from_pic tf.interrupt then pic_irq_dismiss hw (tf.interrupt - 0x20) s1 else s1 in
    let (e, p, t, go, chosen, fr, a, st, r', all) = switch-GoesOn k1 s2 r frames room in
    (e, p, t, rw (in_range, h, run) go, chosen, fr, a, st, r', all)
