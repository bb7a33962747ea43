-- ===== src/Stdlib/Console.antt =====
-- `std_print` and `std_error` of kernel/libc/stdlib.c: text goes to the serial line, and to the
-- standard output or straight to the screen.
use koiz_os.Base.{
  ◌⊎◌, inl, inr, ℕ, ◌≤◌, ◌<◌, ◌≡◌, true, false, not, ◌&&◌, List, ◌++◌, map, if◌then◌else◌, arith,
  refl, ◌+◌,
}
use koiz_os.Kernel.{Result, ok, ◌>>=◌}
use koiz_os.Pmem.{isinit}
use koiz_os.Stdio.{io_buffer_place}
use koiz_os.Stdio.Queue.{Holds}
use koiz_os.Stdio.Place.{IsText, Placed, io_buffer_place-Placed}
use koiz_os.Interrupts.{byte_out}
use koiz_os.Serial.{Serial, write_string}
use koiz_os.Serial.Send.{ReadyAt, write_string-sends}
use koiz_os.Stdlib.Streams.{Streams, output_io, with_output}

pub record Console : Type 0 where
  pub streams : Streams
  pub serial : Serial

abbrev pub port_com1 : ℕ
port_com1 = 0x3F8

-- The text on the screen comes from `vga_print_screen`.
abbrev pub to_screen : List ℕ → Streams → Streams
to_screen message s = record s { screen = s.screen ++ message }

-- The buffer, or the screen while there is no buffer.
route : List ℕ → Streams → Result Streams
route message s =
    if isinit s.pmem && not s.std_output_buf.is_initializing
    then (do io ← io_buffer_place message (output_io s); ok (with_output s io))
    else ok (to_screen message s)

module _ (answer : ℕ → ℕ → ℕ) (fuel : ℕ) where
  -- `std_print`, and `std_print_char` for a message of one character.
  pub std_print : List ℕ → Console → Result Console
  std_print message c = do
    serial ← write_string answer fuel port_com1 message c.serial
    streams ← route message c.streams
    ok (record { streams = streams; serial = serial })

  pub std_error : List ℕ → Console → Result Console
  std_error message c = do
    serial ← write_string answer fuel port_com1 message c.serial
    ok (record { streams = to_screen message c.streams; serial = serial })

  module _ (wait : ℕ) (enough : wait < fuel)
      (device : (n : ℕ) → (k : ℕ) × (k ≤ wait) × ReadyAt answer port_com1 (n + k)) where
    std_print-steps :
        (message : List ℕ) (c : Console) (serial : Serial) (streams : Streams)
        → write_string answer fuel port_com1 message c.serial ≡ ok serial
        → route message c.streams ≡ ok streams
        → std_print message c ≡ ok (record { streams = streams; serial = serial })
    unfolding std_print
    std_print-steps message c serial streams e1 e2 = rw (e1, e2) refl

    -- When the serial device can always take a character after a bounded number of questions, a
    -- message of non-zero bytes is sent over the serial line, whole and in order. When pmem and the
    -- output buffer are set up, and the buffer is flushed to the screen, it is also added behind
    -- what the buffer held, and what is shown and what is still in the buffer are together what they
    -- were and the message. While pmem is not set up, and while the buffer is being set up, it is
    -- shown at once. An error message is sent and shown at once in all cases.
    pub std_print_outcome :
        (message : List ℕ) (c : Console)
        → IsText message
        → ((q : List ℕ)
            → c.streams.pmem.initialized ≡ true
            → c.streams.std_output_buf.is_initializing ≡ false
            → c.streams.std_output_buf.autoflush_to_screen ≡ true
            → Holds (output_io c.streams) q
            → (c' : Console) × (std_print message c ≡ ok c')
              × Placed (output_io c.streams) q message (output_io c'.streams)
              × (c'.serial.writes ≡ c.serial.writes ++ map (byte_out port_com1) message))
          × ((c.streams.pmem.initialized ≡ false)
                ⊎ (c.streams.std_output_buf.is_initializing ≡ true)
              → (c' : Console) × (std_print message c ≡ ok c')
                × (c'.streams ≡ to_screen message c.streams)
                × (c'.serial.writes ≡ c.serial.writes ++ map (byte_out port_com1) message))
          × ((c' : Console) × (std_error message c ≡ ok c')
              × (c'.streams ≡ to_screen message c.streams)
              × (c'.serial.writes ≡ c.serial.writes ++ map (byte_out port_com1) message))
    unfolding route isinit std_error
    std_print_outcome message c text =
        let (r, sent) =
          (write_string-sends answer port_com1 fuel message c.serial).0 wait enough device in
        let serial = record (c.serial) {
          reads = r;
          writes = c.serial.writes ++ map (byte_out port_com1) message;
        } in
        (
          λ q started idle mode holds.
              let test : (c.streams.pmem.initialized
                    && not c.streams.std_output_buf.is_initializing)
                  ≡ true =
                ground (arith, started, idle) in
              let (io, e, placed) = io_buffer_place-Placed message holds text mode in
              let streams = with_output c.streams io in
              (
                record { streams = streams; serial = serial },
                std_print-steps message c serial streams sent (rw (test, e) refl),
                placed,
                refl,
              ),
          λ early.
              let test : (c.streams.pmem.initialized
                    && not c.streams.std_output_buf.is_initializing)
                  ≡ false =
                elim early [
                  | inl unset ↦ ground (arith, unset)
                  | inr starting ↦ ground (arith, starting)
                ] in
              let streams = to_screen message c.streams in
              (
                record { streams = streams; serial = serial },
                std_print-steps message c serial streams sent (rw test refl),
                refl,
                refl,
              ),
          (
            record { streams = to_screen message c.streams; serial = serial },
            rw sent refl,
            refl,
            refl,
          ),
        )
