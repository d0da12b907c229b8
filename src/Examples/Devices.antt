-- ===== src/Examples/Devices.antt =====
-- The keyboard and the interrupt controllers.
use phase1_myunivos.Base.{◌-◌, ◌≡◌}
use phase1_myunivos.Examples.Data.{all_masked, ports}
use phase1_myunivos.Interrupts.{pic_irq_disable, pic_irq_enabled}
use phase1_myunivos.Interrupts.Masks.{pic_irq_disable_flips}
use phase1_myunivos.Keyboard.{Keyboard}

abbrev some_keys : Keyboard
some_keys = record { kbd_status = 4; esc_status = 1 }

pic_irq_disable_flips_example :
    pic_irq_enabled ports 9 (pic_irq_disable ports 9 all_masked)
    ≡ 1 - pic_irq_enabled ports 9 all_masked
pic_irq_disable_flips_example = pic_irq_disable_flips ports 9 all_masked
