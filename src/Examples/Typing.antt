-- ===== src/Examples/Typing.antt =====
-- Characters on their way: from a key to the terminal, and from a ring to the screen.
use phase1_myunivos.Base.{[], arith, if◌then◌else◌, ok, refl, xor, ℕ, ◌++◌, ◌==◌, ◌∷◌, ◌≡◌}
use phase1_myunivos.Examples.Data.{
  empty_ring, image, machine, no_breakpoint, no_test, ports, terminals,
}
use phase1_myunivos.Kernel.{Kernel}
use phase1_myunivos.Kernel.Handlers.{keyboard_irq_handler}
use phase1_myunivos.Kernel.Handlers.Typing.{keyboard_irq_handler_types}
use phase1_myunivos.Keyboard.{map_key}
use phase1_myunivos.Keyboard.Maps.{keyboard_map_primary, keyboard_map_secondary}
use phase1_myunivos.RingBuf.{RingBuf}
use phase1_myunivos.RingBuf.Fifo.{IsValid, contents}
use phase1_myunivos.Tty.{set_tty}
use phase1_myunivos.Tty.Refresh.{drain}
use phase1_myunivos.Tty.Refresh.Drains.{Drained, drain_ends}

abbrev typed : Kernel
typed = record image { ttys = terminals 5; keyboard = record { kbd_status = 4; esc_status = 2 } }

-- The small letter a is pressed, with SHIFT.
abbrev key_down : ℕ → ℕ
key_down p = if p == 0x60 then 0x1e else 1

empty_ring-IsValid : IsValid empty_ring
empty_ring-IsValid = ground arith

keyboard_irq_handler_types_example :
    (b : RingBuf) × (keyboard_irq_handler ports machine 4096 no_breakpoint no_test typed key_down
      ≡ ok (
        record typed {
          keyboard = record typed.keyboard { esc_status = 0 };
          ttys = set_tty 3 (record (typed.ttys.tty_table 3) { tty_io_input = b }) typed.ttys;
        },
        key_down,
      ))
    × (contents b ≡ contents (typed.ttys.tty_table 3).tty_io_input ++ (65 ∷ []))
keyboard_irq_handler_types_example =
    keyboard_irq_handler_types ports machine 4096 no_breakpoint no_test typed key_down 0x1e 65 3
      (λ e. absurd (omega arith)) refl (omega arith) refl refl refl
      (unfold map_key keyboard_map_primary keyboard_map_secondary xor in refl) (omega arith)
      (omega arith) (λ e. absurd (omega arith)) refl refl empty_ring-IsValid (omega arith)

drain_ends_example : Drained 3 (drain 2049 3 (terminals 5))
drain_ends_example = drain_ends 3 (terminals 5) refl empty_ring-IsValid
