-- ===== src/Interrupts/Tests.antt =====
-- The theorems on idt_setup.c and pic.c at handlers of 16 bytes each, from 0x100000 on.
use koiz_os.Base.{ℕ, ◌+◌, ◌*◌, ◌≡◌, arith}
use koiz_os.Kernel.{ok}
use koiz_os.Interrupts.{InterruptDescriptor, interrupt_count, setup_idt}
use koiz_os.Interrupts.Table.{Handles, setup_idt-Handles}

abbrev isr : ℕ → ℕ
isr i = 0x100000 + 16 * i

abbrev blank : ℕ → InterruptDescriptor
blank i = record { offset_low = 0; selector = 8; unused = 0; flags = 0x8E; offset_high = 0 }

setup_idt-Handles_example :
    (idt' : ℕ → InterruptDescriptor) × (setup_idt isr blank ≡ ok idt')
    × Handles isr 0 interrupt_count blank idt'
setup_idt-Handles_example = setup_idt-Handles isr blank (λ k h. omega arith)
