-- ===== src/Ramdisk/Setup.antt =====
-- `ramdisk_init` (kernel/drivers/ramdisk/ramdisk.c): the pages that pmem gives out make up a disk
-- whose pages do not overlap.
use native.Mathlib.Nat.{add-zero}
use koiz_os.Base.{
  ℕ, zero, suc, ◌+◌, ◌*◌, ◌/◌, ◌%◌, ◌≤◌, ◌<◌, ◌≡◌, ◌≢◌, ◌⊎◌, inl, inr, arith, refl, ◌∙◌, ap, sym,
  subst, add32, u32_mod, ℕ_discrete, ◌==◌, ltb, true, false,
}
use koiz_os.Kernel.{Result, ok, panic, Panic, ◌>>=◌}
use koiz_os.Kernel.Memory.{
  read32_same, write32, write32_outside, read32-write32_self, read32-write32_ne,
}
use koiz_os.Pmem.{Pmem, alloc}
use koiz_os.Pmem.Valid.{IsValid, page}
use koiz_os.Pmem.Alloc.{IsFree, give, alloc_outcome, give-IsValid, give-keeps_used}
use koiz_os.Pmem.Usage.{InUse}
use koiz_os.Ramdisk.{Ramdisk, alloc_blocks, init}
use koiz_os.Ramdisk.Access.{Layout, block, Disjoint}

-- The page of pointers and the first `n` pages that it names are in use and differ.
pub record Blocks (pm : Pmem) (pointers n : ℕ) : Type 0 where
  pub valid : IsValid pm
  pub table : InUse pm pointers
  pub used : (k : ℕ) → k < n → InUse pm (block pm.mem pointers k)
  pub off : (k : ℕ) → k < n → block pm.mem pointers k ≢ pointers
  pub apart : (k l : ℕ) → k < n → l < n → k ≢ l → block pm.mem pointers k ≢ block pm.mem pointers l

InUse-Disjoint : (pm : Pmem) {a b : ℕ} → InUse pm a → InUse pm b → a ≢ b → Disjoint a b
InUse-Disjoint pm (r, hr, ur, ea) (q, hq, uq, eb) ne = omega (arith, ea, eb)

InUse-fits : {pm : Pmem} {a : ℕ} → IsValid pm → InUse pm a → a + 4096 ≤ u32_mod
InUse-fits v (r, hr, ur, ea) = omega (arith, ea)

Blocks-Layout :
    {pm : Pmem} {pointers n : ℕ} → n ≤ 1024 → Blocks pm pointers n → Layout pm.mem pointers n
Blocks-Layout {pm} few b = record {
  few = few;
  room = InUse-fits b.valid b.table;
  inside = λ k h. InUse-fits b.valid (b.used k h);
  off_table = λ k h. InUse-Disjoint pm (b.used k h) b.table (b.off k h);
  apart = λ k l hk hl ne. InUse-Disjoint pm (b.used k hk) (b.used l hl) (b.apart k l hk hl ne);
}

-- The state after one round of the loop.
abbrev linked : Pmem → ℕ → ℕ → ℕ → Pmem
linked pm pointers i e = record pm {
  curr_alloc_record = e;
  mem = write32 (give pm e).mem (pointers + 4 * i) (page pm e);
}

module _ {pm : Pmem} {pointers i e : ℕ} (b : Blocks pm pointers i) (hi : i < 1024)
    (he : e < pm.mgr_reserved_size) (free : IsFree pm e) where
  linked_record :
      (r : ℕ)
      → r < pm.mgr_reserved_size
      → (linked pm pointers i e).mem (pm.main_memory_start + r)
        ≡ (give pm e).mem (pm.main_memory_start + r)
  linked_record r h =
      write32_outside (give pm e).mem (pointers + 4 * i) (page pm e) (pm.main_memory_start + r)
        (omega (arith, b.table.3, b.valid.records_below))

  linked-InUse : {t : ℕ} → InUse pm t → InUse (linked pm pointers i e) t
  linked-InUse (r, hr, used, at) =
      (r, hr, λ is_free. give-keeps_used pm e r used (sym (linked_record r hr) ∙ is_free), at)

  linked-new : InUse (linked pm pointers i e) (page pm e)
  linked-new = (e, he, λ is_free. ground (arith, sym (linked_record e he) ∙ is_free), refl)

  -- A page in use is not the one given out.
  InUse-ne : {t : ℕ} → InUse pm t → t ≢ page pm e
  InUse-ne (r, hr, used, at) same = used (subst (λ k. IsFree pm k) (omega (arith, at, same)) free)

  linked_self : block (linked pm pointers i e).mem pointers i ≡ page pm e
  linked_self =
      read32-write32_self (give pm e).mem (pointers + 4 * i) (page pm e)
        (omega (arith, b.valid.fits, b.valid.sized))

  linked_at : (k : ℕ) → k ≡ i → block (linked pm pointers i e).mem pointers k ≡ page pm e
  linked_at k same = ap (block (linked pm pointers i e).mem pointers) same ∙ linked_self

  linked_old :
      (k : ℕ) → k < i → block (linked pm pointers i e).mem pointers k ≡ block pm.mem pointers k
  linked_old k h =
      read32-write32_ne (give pm e).mem (pointers + 4 * i) (page pm e) (pointers + 4 * k)
        (omega arith)
      ∙ read32_same (give pm e).mem pm.mem (pointers + 4 * k)
          (λ d hd. ground (arith, b.table.1, b.table.3, b.valid.records_below))

  linked-Blocks : Blocks (linked pm pointers i e) pointers (suc i)
  linked-Blocks = record {
    valid = ground (arith, b.valid);
    table = linked-InUse b.table;
    used = λ k h. elim (ℕ_discrete k i) [
      | yes new ↦ subst (InUse (linked pm pointers i e)) (sym (linked_at k new)) linked-new
      | no old ↦
          subst (InUse (linked pm pointers i e)) (sym (linked_old k (omega arith)))
            (linked-InUse (b.used k (omega arith)))
    ];
    off = λ k h. elim (ℕ_discrete k i) [
      | yes new ↦ λ same. InUse-ne b.table (sym same ∙ linked_at k new)
      | no old ↦ λ same. b.off k (omega arith) (sym (linked_old k (omega arith)) ∙ same)
    ];
    apart = λ k l hk hl ne same. elim (ℕ_discrete k i) [
      | yes new ↦
          InUse-ne (b.used l (omega arith))
            (sym (linked_old l (omega arith)) ∙ sym same ∙ linked_at k new)
      | no old ↦ elim (ℕ_discrete l i) [
        | yes new ↦
            InUse-ne (b.used k (omega arith))
              (sym (linked_old k (omega arith)) ∙ same ∙ linked_at l new)
        | no old_l ↦
            b.apart k l (omega arith) (omega arith) ne
              (sym (linked_old k (omega arith)) ∙ same ∙ linked_old l (omega arith))
      ]
    ];
  }

-- A run of the loop that gives all the pages, or runs out of memory.
abbrev BlocksOrPanics : ℕ → ℕ → Result Pmem → Type 0
BlocksOrPanics pointers n out =
    ((pm : Pmem) × (out ≡ ok pm) × Blocks pm pointers n) ⊎ (out ≡ panic Panic.pmem_out_of_memory)

alloc_blocks-Blocks :
    (n i pointers : ℕ) {pm : Pmem}
    → i + n ≤ 1024
    → Blocks pm pointers i
    → BlocksOrPanics pointers (i + n) (alloc_blocks n i pointers pm)
unfolding alloc_blocks
alloc_blocks-Blocks zero i pointers {pm} h b =
    inl (pm, refl, subst (λ k. Blocks pm pointers k) (sym (add-zero i)) b)
alloc_blocks-Blocks (suc n) i pointers {pm} h b = elim (alloc_outcome pm b.valid) [
  | inl (ptr, pm', e, g) ↦
      let slot : add32 pointers (4 * i) ≡ pointers + 4 * i =
        omega (arith, b.table.1, b.table.3, b.valid.fits, b.valid.sized) in
      let got : alloc pm ≡ ok (page pm g.entry, give pm g.entry) = cc (e, g.address, g.state) in
      let up : suc i ≡ i + 1 = omega arith in
      let total : i + 1 + n ≡ i + suc n = omega arith in
      let next = linked-Blocks b (omega arith) g.in_range g.was_free in
      rw (got, slot, alloc_blocks)
        (subst
          (λ k.
            BlocksOrPanics pointers k
              (alloc_blocks n (i + 1) pointers (linked pm pointers i g.entry)))
          total
          (alloc_blocks-Blocks n (i + 1) pointers (omega arith)
            (subst (λ k. Blocks (linked pm pointers i g.entry) pointers k) up next)))
  | inr (e, used) ↦ inr (rw e)
]

give-Blocks :
    {pm : Pmem} → IsValid pm → (e : ℕ) → e < pm.mgr_reserved_size → Blocks (give pm e) (page pm e) 0
give-Blocks {pm} v e h = record {
  valid = give-IsValid v e h;
  table = (e, h, λ is_free. ground arith, refl);
  used = λ k hk. absurd (omega arith);
  off = λ k hk. absurd (omega arith);
  apart = λ k l hk hl. absurd (omega arith);
}

-- What is left of `ramdisk_init` once its checks have passed.
abbrev fill : ℕ → Pmem → Result Ramdisk
fill n pm = do
  (pointers, pm1) ← alloc pm
  pm2 ← alloc_blocks n 0 pointers pm1
  ok (record { block_size = n; block_pointers = pointers; pmem = pm2 })

init-fill :
    (d : Ramdisk) (n : ℕ)
    → d.block_size ≡ 0
    → d.block_pointers ≡ 0
    → 0 < n
    → n ≤ 1024
    → init (n * 4096) d ≡ fill n d.pmem
unfolding init
init-fill d n no_size no_table some few =
    let nonzero : (n * 4096 == 0) ≡ false = ground arith in
    let whole : (n * 4096 % 4096 == 0) ≡ true = ground arith in
    let count : n * 4096 / 4096 ≡ n = omega arith in
    let small : ltb 1024 n ≡ false = ground arith in
    rw (nonzero, whole, count, small, no_size, no_table) refl

-- `ramdisk_init` on an initialised pmem, with no disk yet and a size in whole pages of at most
-- 1024: it either panics for lack of physical memory, or leaves a valid pmem and a disk of that
-- size, whose pages and page of pointers are in use and do not overlap.
pub init-Layout :
    (d : Ramdisk) (n : ℕ)
    → IsValid d.pmem
    → d.block_size ≡ 0
    → d.block_pointers ≡ 0
    → 0 < n
    → n ≤ 1024
    → ((d' : Ramdisk) × (init (n * 4096) d ≡ ok d')
        × (d'.block_size ≡ n)
        × Blocks d'.pmem d'.block_pointers n
        × Layout d'.pmem.mem d'.block_pointers n)
      ⊎ (init (n * 4096) d ≡ panic Panic.pmem_out_of_memory)
init-Layout d n v no_size no_table some few =
    rw (init-fill d n no_size no_table some few) (elim (alloc_outcome d.pmem v) [
      | inl (ptr, pm', e, g) ↦
          let got : alloc d.pmem ≡ ok (page d.pmem g.entry, give d.pmem g.entry) =
            cc (e, g.address, g.state) in
          elim (alloc_blocks-Blocks n 0 (page d.pmem g.entry) (omega arith)
            (give-Blocks v g.entry g.in_range)) [
              | inl (pm2, done, b0) ↦
                  let b : Blocks pm2 (page d.pmem g.entry) n =
                    subst (λ k. Blocks pm2 (page d.pmem g.entry) k) (omega arith) b0 in
                  inl (_, rw (got, done) refl, refl, b, Blocks-Layout few b)
              | inr short ↦ inr (rw (got, short) refl)
            ]
      | inr (e, used) ↦ inr (rw e refl)
    ])
