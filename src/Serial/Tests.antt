-- ===== src/Serial/Tests.antt =====
-- The theorems on serial.c with a device that can take a character at every second question.
use koiz_os.Base.{
  ℕ, ◌+◌, ◌%◌, ◌≤◌, ◌<◌, ◌≡◌, ◌≢◌, [], ◌++◌, map, arith, ◌==◌, if◌then◌else◌, bit_and, false,
  ℕ_discrete,
}
use koiz_os.Base.Text.{codes}
use koiz_os.Kernel.{ok, diverge}
use koiz_os.Interrupts.{byte_out}
use koiz_os.Serial.{Serial, write_string}
use koiz_os.Serial.Send.{ReadyAt, write_string-sends}

abbrev com1 : ℕ
com1 = 0x3F8

-- The test byte at the port itself, the status at the port of the status.
abbrev answer : ℕ → ℕ → ℕ
answer port n = if port == com1 then 0xAE else (if n % 2 == 0 then 0x00 else 0x20)

abbrev closed : Serial
closed = record { connected = 0; reads = 0; writes = [] }

second_question : (n : ℕ) → (k : ℕ) × (k ≤ 1) × ReadyAt answer com1 (n + k)
second_question n = elim (ℕ_discrete (n % 2) 0) [
  | yes even ↦
      let test : ((n + 1) % 2 == 0) ≡ false = ground (arith, even) in
      (1, omega arith, rw test (λ e. absurd (omega (arith, e))))
  | no odd ↦
      let test : ((n + 0) % 2 == 0) ≡ false = ground (arith, odd) in
      (0, omega arith, rw test (λ e. absurd (omega (arith, e))))
]

write_string-sends_example :
    ((wait : ℕ)
      → wait < 2
      → ((n : ℕ) → (k : ℕ) × (k ≤ wait) × ReadyAt answer com1 (n + k))
      → (r : ℕ) × (write_string answer 2 com1 (codes "ok") closed
          ≡ ok (record closed { reads = r; writes = [] ++ map (byte_out com1) (codes "ok") })))
    × (((n : ℕ) → 0 ≤ n → bit_and (answer (com1 + 5) n) 0x20 ≡ 0)
        → codes "ok" ≢ []
        → write_string answer 2 com1 (codes "ok") closed ≡ diverge)
write_string-sends_example = write_string-sends answer com1 2 (codes "ok") closed

-- The device meets the condition.
sent :
    (r : ℕ) × (write_string answer 2 com1 (codes "ok") closed
      ≡ ok (record closed { reads = r; writes = [] ++ map (byte_out com1) (codes "ok") }))
sent = (write_string-sends answer com1 2 (codes "ok") closed).0 1 (omega arith) second_question
