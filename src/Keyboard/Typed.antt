-- ===== src/Keyboard/Typed.antt =====
-- `keyboard_interrupt_handler` (kernel/drivers/input/keyboard.c): what a key does to the standard input.
use koiz_os.Base.{
  ◌⊎◌, ℕ, zero, suc, ◌≤◌, ◌<◌, ◌≡◌, ◌≢◌, inl, inr, true, false, not, ◌&&◌, List, [], ◌∷◌, ◌++◌,
  ◌==◌, arith, refl, length,
}
use koiz_os.Kernel.{Result, ok, panic, Panic, ◌>>=◌}
use koiz_os.Pmem.{isinit}
use koiz_os.Stdio.{Io, io_buffer_place}
use koiz_os.Stdio.Queue.{Holds}
use koiz_os.Stdio.Place.{IsText, io_buffer_place_unflushed}
use koiz_os.Stdlib.Streams.{Streams, input_io, with_input, put_stdio_input_char}
use koiz_os.Interrupts.{byte_out, pic1_command, pic_acknowledge}
use koiz_os.Keyboard.Keys.{key_char, scan_to_ascii-key_char, released}
use koiz_os.Keyboard.{keyboard_interrupt, keyboard_interrupt_handler}

-- The streams can take input, and the queue of the standard input is `q`.
pub record TakesInput (s : Streams) (q : List ℕ) : Type 0 where
  pub started : s.pmem.initialized ≡ true
  pub output_ready : s.std_output_buf.is_initializing ≡ false
  pub holds : Holds (input_io s) q
  pub unflushed : s.std_input_buf.autoflush_to_screen ≡ false

acknowledged : pic_acknowledge keyboard_interrupt ≡ byte_out pic1_command 0x20 ∷ []
unfolding pic_acknowledge
acknowledged = refl

module _ (scan_code : ℕ) (s : Streams) {q : List ℕ} (byte : scan_code < 256)
    (h : TakesInput s q) where
  put_ready :
      (c : ℕ) (out : Result Io)
      → io_buffer_place (c ∷ []) (input_io s) ≡ out
      → put_stdio_input_char c s ≡ (out >>= λ io. ok (with_input s io))
  unfolding put_stdio_input_char isinit
  put_ready c out e =
      let started = h.started in
      let idle = h.output_ready in
      let ready : (s.pmem.initialized && not s.std_output_buf.is_initializing) ≡ true =
        ground (arith, started, idle) in
      rw (ready, e) refl

  one_char : (c : ℕ) → c ≢ 0 → IsText (c ∷ [])
  one_char c h zero low = h
  one_char c h (suc i) low = absurd (omega arith)

  -- Once pmem and the buffer of the standard input are set up, the code of a key that is released,
  -- from 128 on, and of a key without a character in the rows of the keyboard, is acknowledged only.
  -- The character of any other key is added to the queue of the standard input. When the queue is
  -- full the kernel panics.
  pub keyboard-types :
      ((128 ≤ scan_code) ⊎ (key_char scan_code ≡ 0)
        → keyboard_interrupt_handler scan_code s ≡ ok (byte_out pic1_command 0x20 ∷ [], s))
      × (key_char scan_code ≢ 0
          → length q < 4095
          → (s' : Streams) × (keyboard_interrupt_handler scan_code s
              ≡ ok (byte_out pic1_command 0x20 ∷ [], s'))
            × Holds (input_io s') (q ++ (key_char scan_code ∷ [])))
      × (key_char scan_code ≢ 0
          → 4095 ≤ length q
          → keyboard_interrupt_handler scan_code s ≡ panic Panic.stdio_overflow)
  unfolding keyboard_interrupt_handler
  keyboard-types =
      let c = key_char scan_code in
      let looked_up = scan_to_ascii-key_char scan_code byte in
      (
        λ none.
            let char : c ≡ 0 = elim none [ inl up ↦ released scan_code up | inr e ↦ e ] in
            let test : (c == 0) ≡ true = ground (arith, char) in
            rw (looked_up, test, acknowledged) refl,
        λ char room.
            let test : (c == 0) ≡ false = ground (arith, char) in
            elim (io_buffer_place_unflushed (c ∷ []) h.holds (one_char c char) h.unflushed) [
              | inl (fits, (io, e, holds)) ↦ (
                with_input s io,
                rw (looked_up, test, put_ready c (ok io) e, acknowledged) refl,
                holds,
              )
              | inr (long, e) ↦ absurd (omega arith)
            ],
        λ char full.
            let test : (c == 0) ≡ false = ground (arith, char) in
            elim (io_buffer_place_unflushed (c ∷ []) h.holds (one_char c char) h.unflushed) [
              | inl (fits, (io, e, holds)) ↦ absurd (omega arith)
              | inr (long, e) ↦
                  rw (looked_up, test, put_ready c (panic Panic.stdio_overflow) e) refl
            ],
      )
