-- ===== src/Interrupts/Controllers.antt =====
-- The two ends of an interrupt in kernel/drivers/irq/pic.c: `pic_acknowledge` and `pic_send_eoi`.
use koiz_os.Base.{ℕ, ◌+◌, ◌≤◌, ◌<◌, ◌≡◌, true, false, ◌||◌, [], ◌∷◌, ◌++◌, ltb, leb, arith, refl}
use koiz_os.Interrupts.{
  byte_out, pic1_command, pic_eoi, pic1_start_interrupt, pic2_start_interrupt, pic2_end_interrupt,
  pic_send_eoi, pic_acknowledge,
}

-- For the interrupts of the first controller `pic_acknowledge` does what `pic_send_eoi` does. For those of
-- the second one it leaves out the command to the first, and for other numbers it does nothing.
pic_acknowledge-eoi :
    (irq : ℕ)
    → (irq < 8 → pic_acknowledge (pic1_start_interrupt + irq) ≡ pic_send_eoi irq)
      × (8 ≤ irq
          → irq < 16
          → pic_send_eoi irq
            ≡ pic_acknowledge (pic1_start_interrupt + irq) ++ (byte_out pic1_command pic_eoi ∷ []))
      × (16 ≤ irq → pic_acknowledge (pic1_start_interrupt + irq) ≡ [])
unfolding pic_send_eoi pic_acknowledge
pic_acknowledge-eoi irq = (
  λ first.
      let inside : (ltb (pic1_start_interrupt + irq) pic1_start_interrupt
            || ltb pic2_end_interrupt (pic1_start_interrupt + irq))
          ≡ false =
        ground arith in
      let low : ltb (pic1_start_interrupt + irq) pic2_start_interrupt ≡ true = ground arith in
      let small : leb 8 irq ≡ false = ground arith in rw (inside, low, small) refl,
  λ second last.
      let inside : (ltb (pic1_start_interrupt + irq) pic1_start_interrupt
            || ltb pic2_end_interrupt (pic1_start_interrupt + irq))
          ≡ false =
        ground arith in
      let high : ltb (pic1_start_interrupt + irq) pic2_start_interrupt ≡ false = ground arith in
      let large : leb 8 irq ≡ true = ground arith in rw (inside, high, large) refl,
  λ beyond.
      let outside : (ltb (pic1_start_interrupt + irq) pic1_start_interrupt
            || ltb pic2_end_interrupt (pic1_start_interrupt + irq))
          ≡ true =
        ground arith in
      rw outside refl,
)
