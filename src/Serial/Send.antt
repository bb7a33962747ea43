-- ===== src/Serial/Send.antt =====
-- What the functions of kernel/drivers/serial/serial.c send, and when they end.
use koiz_os.Base.{
  ℕ, zero, suc, ◌+◌, ◌-◌, ◌≤◌, ◌<◌, ◌≡◌, ◌≢◌, true, false, List, [], ◌∷◌, ◌++◌, map, ◌==◌, arith,
  refl, sym, ap, ◌∙◌, subst, bit_and, Bool-cases, inl, inr, append_assoc, append-nil, ℕ_discrete,
}
use koiz_os.Kernel.{Result, ok, diverge, ◌>>=◌}
use koiz_os.Interrupts.{byte_out}
use koiz_os.Serial.{
  Serial, offset, io_byte_out, io_byte_in, configure, init, is_transmit_empty, wait_empty, write,
  write_string, serial_success, serial_error_connection_failed, serial_error_already_connected,
}

module _ (answer : ℕ → ℕ → ℕ) (port : ℕ) where
  -- The device can take a character when it is asked by the n-th read.
  abbrev pub ReadyAt : ℕ → Type 0
  ReadyAt n = bit_and (answer (offset port 5) n) 0x20 ≢ 0

  wait_empty-ends :
      (k fuel : ℕ) (s : Serial)
      → k < fuel
      → ReadyAt (s.reads + k)
      → (r : ℕ) × (wait_empty answer fuel port s ≡ ok (record s { reads = r }))
  unfolding wait_empty is_transmit_empty io_byte_in
  wait_empty-ends k zero s enough ready = absurd (omega arith)
  wait_empty-ends k (suc fuel) s enough ready =
      elim (Bool-cases (bit_and (answer (offset port 5) s.reads) 0x20 == 0)) [
        | inr now ↦ (s.reads + 1, rw now refl)
        | inl busy ↦ elim (ℕ_discrete k 0) [
          | yes first ↦
              let here : s.reads + k ≡ s.reads = omega (arith, first) in
              absurd (subst (λ n. ReadyAt n) here ready (ground (arith, busy)))
          | no later ↦
              let next : s.reads + k ≡ s.reads + 1 + (k - 1) = omega (arith, later) in
              let (r, e) =
                wait_empty-ends (k - 1) fuel (record s { reads = s.reads + 1 })
                  (omega (arith, later)) (subst (λ n. ReadyAt n) next ready) in
              (r, rw busy e)
        ]
      ]

  never_ready :
      (fuel : ℕ) (s : Serial)
      → ((n : ℕ) → s.reads ≤ n → bit_and (answer (offset port 5) n) 0x20 ≡ 0)
      → wait_empty answer fuel port s ≡ diverge
  unfolding wait_empty is_transmit_empty io_byte_in
  never_ready zero s busy = refl
  never_ready (suc fuel) s busy =
      let test : (bit_and (answer (offset port 5) s.reads) 0x20 == 0) ≡ true =
        ground (arith, busy s.reads (omega arith)) in
      rw test (never_ready fuel (record s { reads = s.reads + 1 }) (λ n h. busy n (omega arith)))

  write-sends :
      (wait fuel c : ℕ) (s : Serial)
      → wait < fuel
      → ((n : ℕ) → (k : ℕ) × (k ≤ wait) × ReadyAt (n + k))
      → (r : ℕ) × (write answer fuel port c s
          ≡ ok (record s { reads = r; writes = s.writes ++ (byte_out port c ∷ []) }))
  unfolding write
  write-sends wait fuel c s enough device =
      let (k, few, ready) = device s.reads in
      let (r, e) = wait_empty-ends k fuel s (omega arith) ready in (r, rw e refl)

  -- When the device can take a character again after at most `wait` questions, whenever it is
  -- asked, a string is sent whole and in order, each character once. When it never can, a string
  -- that is not empty is never sent: however long one waits, `serial_write` does not end.
  pub write_string-sends :
      (fuel : ℕ) (cs : List ℕ) (s : Serial)
      → ((wait : ℕ)
          → wait < fuel
          → ((n : ℕ) → (k : ℕ) × (k ≤ wait) × ReadyAt (n + k))
          → (r : ℕ) × (write_string answer fuel port cs s
              ≡ ok (record s { reads = r; writes = s.writes ++ map (byte_out port) cs })))
        × (((n : ℕ) → s.reads ≤ n → bit_and (answer (offset port 5) n) 0x20 ≡ 0)
            → cs ≢ []
            → write_string answer fuel port cs s ≡ diverge)
  unfolding write_string write
  write_string-sends fuel [] s = (
    λ wait enough device.
        (s.reads, ap (λ l. ok (record s { writes = l })) (sym (append-nil s.writes))),
    λ busy some_left. absurd (some_left refl),
  )
  write_string-sends fuel (c ∷ cs) s = (
    λ wait enough device.
        let (r1, e1) = write-sends wait fuel c s enough device in
        let s1 = record s { reads = r1; writes = s.writes ++ (byte_out port c ∷ []) } in
        let (r, e) = (write_string-sends fuel cs s1).0 wait enough device in
        (
          r,
          ap (λ (x : Result Serial). x >>= write_string answer fuel port cs) e1
              ∙ e
              ∙ ap (λ l. ok (record s { reads = r; writes = l }))
                  (append_assoc s.writes (byte_out port c ∷ []) (map (byte_out port) cs)),
        ),
    λ busy some_left. rw (never_ready fuel s busy) refl,
  )

  -- `serial_init` refuses a second connection and changes nothing. Without one it configures the
  -- line and tests it: when the chip returns the test byte, the line is connected, and asking once
  -- more is refused; when it returns another byte, the line stays unconnected, and one can try
  -- again.
  init-connects :
      (s : Serial)
      → (s.connected ≢ 0 → init answer port s ≡ (serial_error_already_connected, s))
        × (s.connected ≡ 0
            → answer port s.reads ≡ 0xAE
            → (s' : Serial) × (init answer port s ≡ (serial_success, s'))
              × (s'.connected ≡ 1)
              × (init answer port s' ≡ (serial_error_already_connected, s')))
        × (s.connected ≡ 0
            → answer port s.reads ≢ 0xAE
            → (s' : Serial) × (init answer port s ≡ (serial_error_connection_failed, s'))
              × (s'.connected ≡ 0))
  unfolding init io_byte_in configure
  init-connects s = (
    λ connected. let test : (s.connected == 0) ≡ false = ground (arith, connected) in rw test refl,
    λ fresh right.
        let test : (s.connected == 0) ≡ true = ground (arith, fresh) in
        let byte : (answer port s.reads == 0xAE) ≡ true = ground (arith, right) in
        let s1 = (io_byte_in answer port (configure answer port s)).1 in
        let s2 = record (io_byte_out (offset port 4) 0x0F s1) { connected = 1 } in
        (s2, rw (test, byte) refl, refl, refl),
    λ fresh wrong.
        let test : (s.connected == 0) ≡ true = ground (arith, fresh) in
        let byte : (answer port s.reads == 0xAE) ≡ false = ground (arith, wrong) in
        let s1 = (io_byte_in answer port (configure answer port s)).1 in
        (s1, rw (test, byte) refl, fresh),
  )
