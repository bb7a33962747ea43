-- ===== src/Tss/Loaded.antt =====
-- What `load_tss` and `set_kernel_stack` (kernel/drivers/tss/tss.c) leave in memory.
use koiz_os.Base.{
  ℕ, zero, suc, ◌+◌, ◌*◌, ◌/◌, ◌%◌, ◌^◌, ◌≤◌, ◌<◌, ◌≡◌, ◌⊎◌, true, false, ◌&&◌, ◌==◌, leb, ltb,
  if◌then◌else◌, arith, refl, sym, ap, ◌∙◌, add32, u32_mod, bit_and, ℕ_discrete,
}
use koiz_os.Base.Bits.{bit_and_low}
use koiz_os.Kernel.Memory.{
  Memory, write8, write32, read32, read32-write32_self, read32-write32_ne, write32_outside,
}
use koiz_os.Strings.{memset, memset_loop}
use koiz_os.Tss.{tss_size, load_descriptor, load_fields, load_tss, set_kernel_stack}

memset_loop-outside :
    (len p value : ℕ) (mem : Memory) (b : ℕ)
    → p + len < u32_mod
    → (b < p) ⊎ (p + len ≤ b)
    → memset_loop len p value mem b ≡ mem b
unfolding memset_loop
memset_loop-outside zero p value mem b fits out = refl
memset_loop-outside (suc len) p value mem b fits out =
    let next : add32 p 1 ≡ p + 1 = omega arith in
    let away : (p == b) ≡ false = ground (arith, out) in
    memset_loop-outside len (add32 p 1) value (write8 mem p value) b (omega (arith, next))
      (omega (arith, next, out))
    ∙ rw away refl

memset_loop-inside :
    (len p value : ℕ) (mem : Memory) (i : ℕ)
    → p + len < u32_mod
    → i < len
    → memset_loop len p value mem (p + i) ≡ value
unfolding memset_loop
memset_loop-inside zero p value mem i fits h = absurd (omega arith)
memset_loop-inside (suc len) p value mem zero fits h =
    let next : add32 p 1 ≡ p + 1 = omega arith in
    let here : (p == p + 0) ≡ true = ground arith in
    memset_loop-outside len (add32 p 1) value (write8 mem p value) (p + 0) (omega (arith, next))
      (omega (arith, next))
    ∙ rw here refl
memset_loop-inside (suc len) p value mem (suc i) fits h =
    let next : add32 p 1 ≡ p + 1 = omega arith in
    ap (memset_loop len (add32 p 1) value (write8 mem p value)) (omega (arith, next))
    ∙ memset_loop-inside len (add32 p 1) value (write8 mem p value) i (omega (arith, next))
        (omega arith)

-- The words of the segment.
abbrev Words : ℕ → (ℕ → ℕ) → Memory → Type 0
Words tss f mem = (k : ℕ) → k < 26 → read32 mem (tss + 4 * k) ≡ f k

abbrev update : (ℕ → ℕ) → ℕ → ℕ → ℕ → ℕ
update f j v k = if j == k then v else f k

Words-write32 :
    (tss j v : ℕ) (f : ℕ → ℕ) (mem : Memory)
    → v < 2 ^ 32
    → Words tss f mem
    → Words tss (update f j v) (write32 mem (tss + 4 * j) v)
Words-write32 tss j v f mem small h k hk = elim (ℕ_discrete j k) [
  | yes same ↦
      let here : (j == k) ≡ true = ground (arith, same) in
      rw here (
        ap (λ n. read32 (write32 mem (tss + 4 * j) v) (tss + 4 * n)) (sym same)
        ∙ read32-write32_self mem (tss + 4 * j) v small)
  | no other ↦
      let away : (j == k) ≡ false = ground (arith, other) in
      rw away (read32-write32_ne mem (tss + 4 * j) v (tss + 4 * k) (omega (arith, other)) ∙ h k hk)
]

-- ss0, the segments es to gs with their privilege, and 0 for every other word.
abbrev pub tss_word : ℕ → ℕ
tss_word k =
    if k == 2 then 0x10 else (if k == 19 then 0x0b else (if leb 18 k && ltb k 24 then 0x13 else 0))

fields-Words :
    (tss : ℕ) (mem : Memory) → Words tss (λ k. 0) mem → Words tss tss_word (load_fields tss mem)
unfolding load_fields
fields-Words tss mem h k hk =
    let f0 : ℕ → ℕ = λ k. 0 in
    let f1 = update f0 2 0x10 in
    let m1 = write32 mem (tss + 4 * 2) 0x10 in
    let w1 = Words-write32 tss 2 0x10 f0 mem (omega arith) h in
    let f2 = update f1 1 0x0 in
    let m2 = write32 m1 (tss + 4 * 1) 0x0 in
    let w2 = Words-write32 tss 1 0x0 f1 m1 (omega arith) w1 in
    let f3 = update f2 19 0x0b in
    let m3 = write32 m2 (tss + 4 * 19) 0x0b in
    let w3 = Words-write32 tss 19 0x0b f2 m2 (omega arith) w2 in
    let f4 = update f3 20 0x13 in
    let m4 = write32 m3 (tss + 4 * 20) 0x13 in
    let w4 = Words-write32 tss 20 0x13 f3 m3 (omega arith) w3 in
    let f5 = update f4 18 0x13 in
    let m5 = write32 m4 (tss + 4 * 18) 0x13 in
    let w5 = Words-write32 tss 18 0x13 f4 m4 (omega arith) w4 in
    let f6 = update f5 21 0x13 in
    let m6 = write32 m5 (tss + 4 * 21) 0x13 in
    let w6 = Words-write32 tss 21 0x13 f5 m5 (omega arith) w5 in
    let f7 = update f6 22 0x13 in
    let m7 = write32 m6 (tss + 4 * 22) 0x13 in
    let w7 = Words-write32 tss 22 0x13 f6 m6 (omega arith) w6 in
    let f8 = update f7 23 0x13 in
    let m8 = write32 m7 (tss + 4 * 23) 0x13 in
    let w8 = Words-write32 tss 23 0x13 f7 m7 (omega arith) w7 in w8 k hk ∙ ground (arith, hk)

-- Zeros in the segment.
zero-Words :
    (tss : ℕ) (mem : Memory)
    → tss + tss_size < u32_mod
    → Words tss (λ k. 0) (memset_loop tss_size tss 0 mem)
unfolding read32
zero-Words tss mem fits k hk =
    let at : (j : ℕ) → j < 4 → memset_loop tss_size tss 0 mem (tss + 4 * k + j) ≡ 0 = λ j hj.
      ap (memset_loop tss_size tss 0 mem) (omega arith)
      ∙ memset_loop-inside tss_size tss 0 mem (4 * k + j) fits (omega arith) in
    let first : memset_loop tss_size tss 0 mem (tss + 4 * k) ≡ 0 =
      ap (memset_loop tss_size tss 0 mem) (omega arith) ∙ at 0 (omega arith) in
    omega (arith, first, at 1 (omega arith), at 2 (omega arith), at 3 (omega arith))

fields-outside :
    (tss : ℕ) (mem : Memory) (b : ℕ)
    → (b < tss) ⊎ (tss + tss_size ≤ b)
    → load_fields tss mem b ≡ mem b
unfolding load_fields
fields-outside tss mem b out =
    let m1 = write32 mem (tss + 4 * 2) 0x10 in
    let m2 = write32 m1 (tss + 4 * 1) 0x0 in
    let m3 = write32 m2 (tss + 4 * 19) 0x0b in
    let m4 = write32 m3 (tss + 4 * 20) 0x13 in
    let m5 = write32 m4 (tss + 4 * 18) 0x13 in
    let m6 = write32 m5 (tss + 4 * 21) 0x13 in
    let m7 = write32 m6 (tss + 4 * 22) 0x13 in
    write32_outside m7 (tss + 4 * 23) 0x13 b (omega (arith, out))
    ∙ write32_outside m6 (tss + 4 * 22) 0x13 b (omega (arith, out))
    ∙ write32_outside m5 (tss + 4 * 21) 0x13 b (omega (arith, out))
    ∙ write32_outside m4 (tss + 4 * 18) 0x13 b (omega (arith, out))
    ∙ write32_outside m3 (tss + 4 * 20) 0x13 b (omega (arith, out))
    ∙ write32_outside m2 (tss + 4 * 19) 0x0b b (omega (arith, out))
    ∙ write32_outside m1 (tss + 4 * 1) 0x0 b (omega (arith, out))
    ∙ write32_outside mem (tss + 4 * 2) 0x10 b (omega (arith, out))

descriptor-outside :
    (tss gdt_tss : ℕ) (mem : Memory) (b : ℕ)
    → (b < gdt_tss) ⊎ (gdt_tss + 8 ≤ b)
    → load_descriptor tss gdt_tss mem b ≡ mem b
unfolding load_descriptor
descriptor-outside tss gdt_tss mem b out = ground (arith, out)

-- The segment and its descriptor: the parts of the base put together are the address of the
-- segment.
pub record IsLoaded (tss gdt_tss : ℕ) (mem mem' : Memory) : Type 0 where
  pub limit : mem' gdt_tss + 2 ^ 8 * mem' (gdt_tss + 1) ≡ tss_size
  pub base :
      mem' (gdt_tss + 2)
        + 2 ^ 8 * mem' (gdt_tss + 3)
        + 2 ^ 16 * mem' (gdt_tss + 4)
        + 2 ^ 24 * mem' (gdt_tss + 7)
      ≡ tss
  pub access : mem' (gdt_tss + 5) ≡ 0x89
  pub flags : mem' (gdt_tss + 6) ≡ 0x40
  pub words : (k : ℕ) → k < 26 → read32 mem' (tss + 4 * k) ≡ tss_word k
  pub outside :
      (b : ℕ)
      → (b < gdt_tss) ⊎ (gdt_tss + 8 ≤ b)
      → (b < tss) ⊎ (tss + tss_size ≤ b)
      → mem' b ≡ mem b

descriptor_bytes :
    (tss gdt_tss : ℕ) (mem : Memory)
    → tss < 2 ^ 32
    → (load_descriptor tss gdt_tss mem gdt_tss ≡ 104)
      × (load_descriptor tss gdt_tss mem (gdt_tss + 1) ≡ 0)
      × (load_descriptor tss gdt_tss mem (gdt_tss + 2) ≡ tss % 2 ^ 8)
      × (load_descriptor tss gdt_tss mem (gdt_tss + 3) ≡ tss / 2 ^ 8 % 2 ^ 8)
      × (load_descriptor tss gdt_tss mem (gdt_tss + 4) ≡ tss / 2 ^ 16 % 2 ^ 8)
      × (load_descriptor tss gdt_tss mem (gdt_tss + 5) ≡ 0x89)
      × (load_descriptor tss gdt_tss mem (gdt_tss + 6) ≡ 0x40)
      × (load_descriptor tss gdt_tss mem (gdt_tss + 7) ≡ tss / 2 ^ 24 % 2 ^ 8)
unfolding load_descriptor
descriptor_bytes tss gdt_tss mem small =
    let low = bit_and_low 16 (tss / 2 ^ 16) (tss % 2 ^ 16) (omega arith) in
    let low_eq : bit_and tss 0xFFFF ≡ tss % 2 ^ 16 =
      ap (λ t. bit_and t 0xFFFF) (omega arith) ∙ low in
    let middle : bit_and (tss / 2 ^ 16) 0xFF ≡ tss / 2 ^ 16 % 2 ^ 8 =
      ap (λ t. bit_and t 0xFF) (omega arith)
      ∙ bit_and_low 8 (tss / 2 ^ 24) (tss / 2 ^ 16 % 2 ^ 8) (omega arith) in
    let high : bit_and (tss / 2 ^ 24) 0xFF ≡ tss / 2 ^ 24 % 2 ^ 8 =
      ap (λ t. bit_and t 0xFF) (omega arith)
      ∙ bit_and_low 8 0 (tss / 2 ^ 24 % 2 ^ 8) (omega arith) in
    (
      ground arith,
      ground arith,
      ground (arith, low_eq),
      ground (arith, low_eq),
      ground (arith, middle),
      ground arith,
      ground arith,
      ground (arith, high),
    )

-- For a segment that does not lie at 0, lies within 32 bits and apart from its descriptor:
-- `load_tss` makes the descriptor one of 104 bytes at the address of the segment, with its three
-- parts put together, sets the stack segment and the segments of the processes, clears all other
-- fields, and changes nothing outside the two; `set_kernel_stack` then sets the stack of the kernel
-- and no other field.
pub load_tss-IsLoaded :
    (tss gdt_tss stack_addr : ℕ) (mem : Memory)
    → 0 < tss
    → tss + tss_size < u32_mod
    → stack_addr < u32_mod
    → (gdt_tss + 8 ≤ tss) ⊎ (tss + tss_size ≤ gdt_tss)
    → IsLoaded tss gdt_tss mem (load_tss tss gdt_tss mem)
      × ((k : ℕ)
          → k < 26
          → read32 (set_kernel_stack tss stack_addr (load_tss tss gdt_tss mem)) (tss + 4 * k)
            ≡ (if k == 1 then stack_addr else tss_word k))
unfolding load_tss memset set_kernel_stack
load_tss-IsLoaded tss gdt_tss stack_addr mem some fits small apart =
    let md = load_descriptor tss gdt_tss mem in
    let cleared = memset_loop tss_size tss 0 md in
    let last = load_fields tss cleared in
    let nonzero : (tss == 0) ≡ false = ground (arith, some) in
    let kept : (b : ℕ) → (b < tss) ⊎ (tss + tss_size ≤ b) → last b ≡ md b = λ b out.
      fields-outside tss cleared b out ∙ memset_loop-outside tss_size tss 0 md b fits out in
    let words = fields-Words tss cleared (zero-Words tss md fits) in
    let (b0, b1, b2, b3, b4, b5, b6, b7) = descriptor_bytes tss gdt_tss mem (omega arith) in
    let c0 = kept gdt_tss (omega (arith, apart)) ∙ b0 in
    let c1 = kept (gdt_tss + 1) (omega (arith, apart)) ∙ b1 in
    let c2 = kept (gdt_tss + 2) (omega (arith, apart)) ∙ b2 in
    let c3 = kept (gdt_tss + 3) (omega (arith, apart)) ∙ b3 in
    let c4 = kept (gdt_tss + 4) (omega (arith, apart)) ∙ b4 in
    let c7 = kept (gdt_tss + 7) (omega (arith, apart)) ∙ b7 in
    let loaded : IsLoaded tss gdt_tss mem last = record {
      limit = omega (arith, c0, c1);
      base = omega (arith, c2, c3, c4, c7, fits);
      access = kept (gdt_tss + 5) (omega (arith, apart)) ∙ b5;
      flags = kept (gdt_tss + 6) (omega (arith, apart)) ∙ b6;
      words = words;
      outside = λ b off_gdt off_tss. kept b off_tss ∙ descriptor-outside tss gdt_tss mem b off_gdt;
    } in
    rw nonzero
      (loaded, λ k hk. Words-write32 tss 1 stack_addr tss_word last small words k hk ∙ ground arith)
