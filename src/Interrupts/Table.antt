-- ===== src/Interrupts/Table.antt =====
-- `_setup_idt` (kernel/drivers/irq/idt_setup.c): the handlers that the table holds.
use koiz_os.Base.{
  ℕ, zero, suc, ◌+◌, ◌*◌, ◌/◌, ◌%◌, ◌^◌, ◌≤◌, ◌<◌, ◌≡◌, ◌⊎◌, true, false, ◌==◌, ltb, arith, refl,
  ◌∙◌, ap, sym, ℕ_discrete,
}
use koiz_os.Kernel.{ok}
use koiz_os.Interrupts.{
  InterruptDescriptor, interrupt_count, isr_addr, set_entry, setup_loop, setup_idt,
}

-- The address of a handler, as the processor reads it.
abbrev pub offset : InterruptDescriptor → ℕ
offset e = e.offset_high * 2 ^ 16 + e.offset_low

-- `idt'` is `idt` with the handlers of the entries from `i` to `j`.
pub record Handles (isr : ℕ → ℕ) (i j : ℕ) (idt idt' : ℕ → InterruptDescriptor) : Type 0 where
  pub handler : (k : ℕ) → i ≤ k → k < j → offset (idt' k) ≡ isr k
  pub widths :
      (k : ℕ) → i ≤ k → k < j → ((idt' k).offset_high < 2 ^ 16) × ((idt' k).offset_low < 2 ^ 16)
  pub same_selector : (k : ℕ) → (idt' k).selector ≡ (idt k).selector
  pub same_flags : (k : ℕ) → (idt' k).flags ≡ (idt k).flags
  pub others : (k : ℕ) → (k < i) ⊎ (j ≤ k) → idt' k ≡ idt k

setup_loop-Handles :
    (n i : ℕ) (isr : ℕ → ℕ) (idt : ℕ → InterruptDescriptor)
    → i + n ≤ interrupt_count
    → ((k : ℕ) → k < interrupt_count → isr k < 2 ^ 32)
    → (idt' : ℕ → InterruptDescriptor) × (setup_loop n i isr idt ≡ ok idt')
      × Handles isr i (i + n) idt idt'
unfolding setup_loop isr_addr
setup_loop-Handles zero i isr idt h small = (
  idt,
  refl,
  record {
    handler = λ k lo hi. absurd (omega arith);
    widths = λ k lo hi. absurd (omega arith);
    same_selector = λ k. refl;
    same_flags = λ k. refl;
    others = λ k out. refl;
  },
)
setup_loop-Handles (suc n) i isr idt h small =
    let test : ltb i interrupt_count ≡ true = ground arith in
    let e : InterruptDescriptor = record (idt i) {
      offset_high = isr i / 2 ^ 16 % 2 ^ 16;
      offset_low = isr i % 2 ^ 16;
    } in
    let next : ℕ → InterruptDescriptor = set_entry idt i e in
    let at : (k : ℕ) → k ≡ i → next k ≡ e =
      λ k here. let t : (k == i) ≡ true = ground (arith, here) in rw t refl in
    let off : (k : ℕ) → (k < i) ⊎ (i < k) → next k ≡ idt k =
      λ k away. let t : (k == i) ≡ false = ground (arith, away) in rw t refl in
    let (idt', run, r) = setup_loop-Handles n (i + 1) isr next (omega arith) small in
    let entry : idt' i ≡ e = r.others i (omega arith) ∙ at i refl in
    let keeps : (k : ℕ)
        → ((next k).selector ≡ (idt k).selector) × ((next k).flags ≡ (idt k).flags) =
      λ k. elim (ℕ_discrete k i) [
        | yes here ↦ (
          ap (λ (v : InterruptDescriptor). v.selector) (at k here)
              ∙ ap (λ j. (idt j).selector) (sym here),
          ap (λ (v : InterruptDescriptor). v.flags) (at k here)
              ∙ ap (λ j. (idt j).flags) (sym here),
        )
        | no away ↦ (
          ap (λ (v : InterruptDescriptor). v.selector) (off k (omega (arith, away))),
          ap (λ (v : InterruptDescriptor). v.flags) (off k (omega (arith, away))),
        )
      ] in
    let total : offset e ≡ isr i = omega (arith, small i (omega arith)) in
    rw test (
      idt',
      run,
      record {
        handler = λ k lo hi. elim (ℕ_discrete k i) [
          | yes here ↦ ap (λ j. offset (idt' j)) here ∙ ap offset entry ∙ total ∙ ap isr (sym here)
          | no away ↦ r.handler k (omega (arith, away)) (omega arith)
        ];
        widths = λ k lo hi. elim (ℕ_discrete k i) [
          | yes here ↦
              let high : (idt' k).offset_high ≡ isr i / 2 ^ 16 % 2 ^ 16 =
                ap (λ j. (idt' j).offset_high) here
                ∙ ap (λ (v : InterruptDescriptor). v.offset_high) entry in
              let low : (idt' k).offset_low ≡ isr i % 2 ^ 16 =
                ap (λ j. (idt' j).offset_low) here
                ∙ ap (λ (v : InterruptDescriptor). v.offset_low) entry in
              (omega (arith, high), omega (arith, low))
          | no away ↦ r.widths k (omega (arith, away)) (omega arith)
        ];
        same_selector = λ k. r.same_selector k ∙ (keeps k).0;
        same_flags = λ k. r.same_flags k ∙ (keeps k).1;
        others = λ k out. r.others k (omega (arith, out)) ∙ off k (omega (arith, out));
      },
    )

-- For handlers at addresses of 32 bits, `_setup_idt` returns, without its panic, and the halves of
-- the offset of each of the 52 entries, which fit 16 bits, make up the address of its handler.
-- Selectors and flags are kept.
pub setup_idt-Handles :
    (isr : ℕ → ℕ) (idt : ℕ → InterruptDescriptor)
    → ((k : ℕ) → k < interrupt_count → isr k < 2 ^ 32)
    → (idt' : ℕ → InterruptDescriptor) × (setup_idt isr idt ≡ ok idt')
      × Handles isr 0 interrupt_count idt idt'
unfolding setup_idt
setup_idt-Handles isr idt small = setup_loop-Handles interrupt_count 0 isr idt (omega arith) small
