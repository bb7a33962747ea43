-- ===== src/Vmem/Table.antt =====
-- The loops over a page table of vmem.c: what they store, and what they leave alone.
use koiz_os.Base.{
  ℕ, zero, suc, ◌+◌, ◌*◌, ◌%◌, ◌^◌, ◌≤◌, ◌<◌, ◌≡◌, ◌⊎◌, inl, arith, refl, ◌∙◌, add32, u32_mod,
  ℕ_discrete,
}
use koiz_os.Base.Bits.{bit_or_entry, bit_and_page, bit_or_flags}
use koiz_os.Kernel.Memory.{
  Memory, read32, read32_same, write32, write32_outside, read32-write32_self,
}
use koiz_os.Vmem.{fill_table, identity_word}

module _ (word : ℕ → ℕ) (table : ℕ) where
  pub fill_table_outside :
      (n j : ℕ) (mem : Memory) (b : ℕ)
      → table + 4 * (j + n) ≤ u32_mod
      → (b < table + 4 * j) ⊎ (table + 4 * (j + n) ≤ b)
      → fill_table word n j table mem b ≡ mem b
  unfolding fill_table
  fill_table_outside zero j mem b fits out = refl
  fill_table_outside (suc n) j mem b fits out =
      fill_table_outside n (j + 1) (write32 mem (add32 table (4 * j)) (word j)) b (omega arith)
        (omega arith)
      ∙ write32_outside mem (add32 table (4 * j)) (word j) b (omega arith)

  pub read32-fill_table :
      (n j : ℕ) (mem : Memory) (k : ℕ)
      → table + 4 * (j + n) ≤ u32_mod
      → j ≤ k
      → k < j + n
      → word k < u32_mod
      → read32 (fill_table word n j table mem) (table + 4 * k) ≡ word k
  unfolding fill_table
  read32-fill_table zero j mem k fits lo hi small = absurd (omega arith)
  read32-fill_table (suc n) j mem k fits lo hi small = elim (ℕ_discrete j k) [
    | no later ↦
        read32-fill_table n (j + 1) (write32 mem (add32 table (4 * j)) (word j)) k (omega arith)
          (omega arith) (omega arith) small
    | yes here ↦
        let at : add32 table (4 * j) ≡ table + 4 * k = omega arith in
        read32_same _ (write32 mem (add32 table (4 * j)) (word j)) (table + 4 * k) (λ d h.
          fill_table_outside n (j + 1) (write32 mem (add32 table (4 * j)) (word j))
            (table + 4 * k + d) (omega arith) (inl (omega arith)))
        ∙ (rw (at, here) (read32-write32_self mem (table + 4 * k) (word k) small))
  ]

-- The word maps page `i * 1024 + j` to itself, with the flags for present, writable and user.
pub identity_word_lem :
    (i j : ℕ) → i < 1024 → j < 1024 → identity_word i j ≡ i * 2 ^ 22 + j * 2 ^ 12 + 7
unfolding identity_word
identity_word_lem i j hi hj =
    let left : i * 2 ^ 22 % u32_mod ≡ i * 2 ^ 22 = omega arith in
    let right : j * 2 ^ 12 % u32_mod ≡ j * 2 ^ 12 = omega arith in
    rw (left, right, bit_or_entry i j hj)
      (ground (arith, bit_and_page (i * 2 ^ 22 + j * 2 ^ 12), bit_or_flags (i * 1024 + j)))
