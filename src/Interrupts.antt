-- ===== src/Interrupts.antt =====
-- kernel/drivers/irq/idt_setup.c and kernel/drivers/irq/pic.c: the table of interrupts, and the commands
-- for the two interrupt controllers as the bytes that are written to ports, in order.
pub mod Table
pub mod Controllers
mod Tests
use koiz_os.Base.{
  ℕ, zero, suc, ◌+◌, ◌*◌, ◌/◌, ◌%◌, ◌^◌, Bool, true, false, not, ◌||◌, List, [], ◌∷◌, ◌++◌, ◌==◌,
  ltb, leb, if◌then◌else◌, bit_or,
}
use koiz_os.Kernel.{Panic, Result, ok, panic, ◌>>=◌}

abbrev pub interrupt_count : ℕ
interrupt_count = 52

-- An entry of the table.
pub record InterruptDescriptor : Type 0 where
  pub offset_low : ℕ
  pub selector : ℕ
  pub unused : ℕ
  pub flags : ℕ
  pub offset_high : ℕ

-- The switch over the handlers; `isr i` is the address of `isr_i`, a label of the assembler.
pub isr_addr : (ℕ → ℕ) → ℕ → Result ℕ
isr_addr isr i = if ltb i interrupt_count then ok (isr i) else panic Panic.idt_misconfigured

abbrev pub set_entry : (ℕ → InterruptDescriptor) → ℕ → InterruptDescriptor → ℕ → InterruptDescriptor
set_entry idt i e k = if k == i then e else idt k

-- The loop of `_setup_idt`: the rounds left, then `i`.
pub setup_loop : ℕ → ℕ → (ℕ → ℕ) → (ℕ → InterruptDescriptor) → Result (ℕ → InterruptDescriptor)
setup_loop zero i isr idt = ok idt
setup_loop (suc n) i isr idt = do
  addr ← isr_addr isr i
  setup_loop n (i + 1) isr (
      set_entry idt i
        (record (idt i) { offset_high = addr / 2 ^ 16 % 2 ^ 16; offset_low = addr % 2 ^ 16 }))

pub setup_idt : (ℕ → ℕ) → (ℕ → InterruptDescriptor) → Result (ℕ → InterruptDescriptor)
setup_idt isr idt = setup_loop interrupt_count 0 isr idt

-- A byte that is written to a port.
pub record PortWrite : Type 0 where
  pub port : ℕ
  pub value : ℕ

abbrev pub byte_out : ℕ → ℕ → PortWrite
byte_out port value = record { port = port; value = value }

abbrev io_wait : PortWrite
io_wait = byte_out 0x80 0

abbrev pub pic1_command : ℕ
pic1_command = 0x20

abbrev pic2_command : ℕ
pic2_command = 0xA0

abbrev pic1_data : ℕ
pic1_data = pic1_command + 1

abbrev pic2_data : ℕ
pic2_data = pic2_command + 1

abbrev pub pic_eoi : ℕ
pic_eoi = 0x20

abbrev pub pic1_start_interrupt : ℕ
pic1_start_interrupt = 0x20

abbrev pub pic2_start_interrupt : ℕ
pic2_start_interrupt = 0x28

abbrev pub pic2_end_interrupt : ℕ
pic2_end_interrupt = pic2_start_interrupt + 7

pub pic_send_eoi : ℕ → List PortWrite
pic_send_eoi irq =
    (if leb 8 irq then byte_out pic2_command pic_eoi ∷ [] else [])
    ++ (byte_out pic1_command pic_eoi ∷ [])

-- `ICW1_INIT | ICW1_ICW4`
abbrev icw1 : ℕ
icw1 = bit_or 0x10 0x01

unfoldable pic_remap : List PortWrite
pic_remap =
    byte_out pic1_command icw1
    ∷ io_wait
    ∷ byte_out pic2_command icw1
    ∷ io_wait
    ∷ byte_out pic1_data pic1_start_interrupt
    ∷ io_wait
    ∷ byte_out pic2_data pic2_start_interrupt
    ∷ io_wait
    ∷ byte_out pic1_data 4
    ∷ io_wait
    ∷ byte_out pic2_data 2
    ∷ io_wait
    ∷ byte_out pic1_data 0x01
    ∷ io_wait
    ∷ byte_out pic2_data 0x01
    ∷ io_wait
    ∷ byte_out pic1_data 0xF8
    ∷ byte_out pic2_data 0xFF
    ∷ []

-- `pic_set_interrupt_masks` before the instruction `sti`.
unfoldable pic_set_interrupt_masks : List PortWrite
pic_set_interrupt_masks = byte_out pic1_data 252 ∷ byte_out pic2_data 255 ∷ []

unfoldable pub pic_acknowledge : ℕ → List PortWrite
pic_acknowledge interrupt =
    if ltb interrupt pic1_start_interrupt || ltb pic2_end_interrupt interrupt
    then []
    else (if ltb interrupt pic2_start_interrupt
        then byte_out pic1_command 0x20 ∷ []
        else byte_out pic2_command 0x20 ∷ [])
