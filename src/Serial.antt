-- ===== src/Serial.antt =====
-- kernel/drivers/serial/serial.c: the serial line. What the device answers is given by a function:
-- the byte that a port returns when it is the n-th read of all.
pub mod Send
mod Tests
use koiz_os.Base.{
  ℕ, zero, suc, ◌+◌, ◌%◌, ◌^◌, not, List, [], ◌∷◌, ◌++◌, ◌==◌, if◌then◌else◌, bit_and,
}
use koiz_os.Kernel.{Result, ok, diverge, ◌>>=◌}
use koiz_os.Interrupts.{PortWrite, byte_out}

-- `is_serial_connected`, how many reads there were, and what was written.
pub record Serial : Type 0 where
  pub connected : ℕ
  pub reads : ℕ
  pub writes : List PortWrite

-- A `uint16_t` port.
abbrev pub offset : ℕ → ℕ → ℕ
offset port k = (port + k) % 2 ^ 16

abbrev pub io_byte_out : ℕ → ℕ → Serial → Serial
io_byte_out port value s = record s { writes = s.writes ++ (byte_out port value ∷ []) }

-- The results of `serial_init`.
abbrev pub serial_success : ℕ
serial_success = 0

abbrev pub serial_error_connection_failed : ℕ
serial_error_connection_failed = 1

abbrev pub serial_error_already_connected : ℕ
serial_error_already_connected = 3

module _ (answer : ℕ → ℕ → ℕ) where
  pub io_byte_in : ℕ → Serial → ℕ × Serial
  io_byte_in port s = (answer port s.reads, record s { reads = s.reads + 1 })

  -- The writes of `serial_init` up to its test.
  unfoldable configure : ℕ → Serial → Serial
  configure port s =
      let s1 = io_byte_out (offset port 1) 0x00 s in
      let s2 = io_byte_out (offset port 3) 0x80 s1 in
      let s3 = io_byte_out (offset port 0) 0x03 s2 in
      let s4 = io_byte_out (offset port 1) 0x00 s3 in
      let s5 = io_byte_out (offset port 3) 0x03 s4 in
      let s6 = io_byte_out (offset port 2) 0xC7 s5 in
      let s7 = io_byte_out (offset port 4) 0x0B s6 in
      let s8 = io_byte_out (offset port 4) 0x1E s7 in io_byte_out port 0xAE s8

  pub init : ℕ → Serial → ℕ × Serial
  unfolding configure
  init port s =
      if not (s.connected == 0)
      then (serial_error_already_connected, s)
      else let (tested, s') = io_byte_in port (configure port s) in
        if not (tested == 0xAE)
        then (serial_error_connection_failed, s')
        else (serial_success, record (io_byte_out (offset port 4) 0x0F s') { connected = 1 })

  is_connected : Serial → ℕ
  is_connected s = s.connected

  pub is_transmit_empty : ℕ → Serial → ℕ × Serial
  is_transmit_empty port s =
      let (status, s') = io_byte_in (offset port 5) s in (bit_and status 0x20, s')

  -- The loop of `serial_write` that waits.
  pub wait_empty : ℕ → ℕ → Serial → Result Serial
  wait_empty zero port s = diverge
  wait_empty (suc fuel) port s =
      let (empty, s') = is_transmit_empty port s in
      let rest = wait_empty fuel port s' in if empty == 0 then rest else ok s'

  pub write : ℕ → ℕ → ℕ → Serial → Result Serial
  write fuel port value s = do s' ← wait_empty fuel port s; ok (io_byte_out port value s')

  pub write_string : ℕ → ℕ → List ℕ → Serial → Result Serial
  write_string fuel port [] s = ok s
  write_string fuel port (c ∷ cs) s = do s' ← write fuel port c s; write_string fuel port cs s'

  received : ℕ → Serial → ℕ × Serial
  received port s = let (status, s') = io_byte_in (offset port 5) s in (bit_and status 1, s')

  pub read : ℕ → Serial → ℕ × Serial
  read port s =
      let (ready, s') = received port s in if ready == 0 then (0, s') else io_byte_in port s'

write_noblock : ℕ → ℕ → Serial → Serial
write_noblock port value s = io_byte_out port value s
