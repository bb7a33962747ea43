-- ===== src/Pmem/Init.antt =====
-- `pmem_initialize` (kernel/drivers/memory/pmem.c): the region it takes, and what it sets up.
use koiz_os.Base.{
  if◌then◌else◌, ℕ, zero, suc, ◌+◌, ◌-◌, ◌*◌, ◌/◌, ◌%◌, ◌≤◌, ◌<◌, ◌≡◌, ◌⊎◌, inl, inr, Bool-cases,
  ◌&&◌, true, List, [], ◌∷◌, ◌++◌, ap, ◌∙◌, some, arith, ◌==◌, ltb, refl, add32, u32_mod, bit_and,
}
use koiz_os.Base.Bits.{bit_and_page}
use koiz_os.Kernel.{ok}
use koiz_os.Kernel.Memory.{Memory, write8}
use koiz_os.Pmem.{
  MemoryMapEntry, MultibootInfo, Pmem, largest_region, skip_kernel, zero_records, setup_region,
  initialize, memory_available,
}
use koiz_os.Pmem.Valid.{IsValid}

-- A property of every entry of the map that is free memory.
abbrev AllAvailable {ℓ} : (MemoryMapEntry → Type ℓ) → List MemoryMapEntry → Type ℓ
AllAvailable P [] = Unit
AllAvailable P (e ∷ es) = (e.kind ≡ memory_available → P e) × AllAvailable P es

-- A property of the first choice and of every available region holds of the one that is taken.
largest_region-keeps :
    (P : ℕ → ℕ → Type 0) (es : List MemoryMapEntry) (s l : ℕ)
    → P s l
    → AllAvailable (λ e. P e.addr_low e.len_low) es
    → P (largest_region es (s, l)).0 (largest_region es (s, l)).1
unfolding largest_region
largest_region-keeps P [] s l h a = h
largest_region-keeps P (e ∷ es) s l h a =
    elim (Bool-cases ((e.kind == memory_available) && ltb l e.len_low)) [
      | inl taken ↦
          rw (taken, largest_region)
            (largest_region-keeps P es e.addr_low e.len_low (a.0 (ground arith)) a.1)
      | inr kept ↦ rw (kept, largest_region) (largest_region-keeps P es s l h a.1)
    ]

-- Regions that are not longer than the one that is taken do not change it.
largest_region-shorter :
    (es : List MemoryMapEntry) (s l : ℕ)
    → AllAvailable (λ e. e.len_low ≤ l) es
    → largest_region es (s, l) ≡ (s, l)
unfolding largest_region
largest_region-shorter [] s l short = refl
largest_region-shorter (e ∷ es) s l (here, short) =
    elim (Bool-cases ((e.kind == memory_available) && ltb l e.len_low)) [
      | inl taken ↦
          let free : e.kind ≡ memory_available = ground (arith, taken) in
          absurd (ground (arith, taken, here free))
      | inr kept ↦ rw kept (largest_region-shorter es s l short)
    ]

largest_region-append :
    (xs ys : List MemoryMapEntry) (best : ℕ × ℕ)
    → largest_region (xs ++ ys) best ≡ largest_region ys (largest_region xs best)
unfolding largest_region
largest_region-append [] ys best = refl
largest_region-append (e ∷ xs) ys (s, l) =
    largest_region-append xs ys
      (if (e.kind == memory_available) && ltb l e.len_low then (e.addr_low, e.len_low) else (s, l))

-- The first of the longest free regions of a map.
pub record IsLongest (es before : List MemoryMapEntry) (e : MemoryMapEntry)
    (after : List MemoryMapEntry) : Type 0 where
  pub place : es ≡ before ++ (e ∷ after)
  pub available : e.kind ≡ memory_available
  pub longer : AllAvailable (λ o. o.len_low < e.len_low) before
  pub longest : AllAvailable (λ o. o.len_low ≤ e.len_low) after

largest_region-IsLongest :
    (es before : List MemoryMapEntry) (e : MemoryMapEntry) (after : List MemoryMapEntry)
    → IsLongest es before e after
    → 0 < e.len_low
    → largest_region es (0, 0) ≡ (e.addr_low, e.len_low)
unfolding largest_region
largest_region-IsLongest es before e after h pos =
    let first = largest_region before (0, 0) in
    let shorter = largest_region-keeps (λ s l. l < e.len_low) before 0 0 pos h.longer in
    let available = h.available in
    let taken : ((e.kind == memory_available) && ltb first.1 e.len_low) ≡ true =
      ground (arith, available, shorter) in
    ap (λ l. largest_region l (0, 0)) h.place
    ∙ largest_region-append before (e ∷ after) (0, 0)
    ∙ rw taken (largest_region-shorter after e.addr_low e.len_low h.longest)

zero_records_below :
    (m : Memory) (start n i b : ℕ)
    → start + i + n < u32_mod
    → (b < start + i) ⊎ (start + i + n ≤ b)
    → zero_records m start n i b ≡ m b
unfolding zero_records
zero_records_below m start zero i b h o = refl
zero_records_below m start (suc n) i b h o =
    ground (arith, zero_records_below (write8 m (add32 start i) 0) start n (i + 1) b)

zero_records-zero :
    (m : Memory) (start n i b : ℕ)
    → start + i + n < u32_mod
    → start + i ≤ b
    → b < start + i + n
    → zero_records m start n i b ≡ 0
unfolding zero_records
zero_records-zero m start zero i b h lo hi = absurd (omega arith)
zero_records-zero m start (suc n) i b h lo hi = ground (
  arith,
  zero_records_below (write8 m (add32 start i) 0) start n (i + 1) b,
  zero_records-zero (write8 m (add32 start i) 0) start n (i + 1) b,
)

-- What holds of the state that `pmem_initialize` leaves, from a region that starts at or behind the
-- end of the kernel.
pub record IsSetUp (p : Pmem) (region : ℕ × ℕ) (p' : Pmem) : Type 0 where
  pub valid : IsValid p'
  pub start : p'.main_memory_start ≡ region.0
  pub inside : p'.alloc_start + p'.main_memory_length ≡ region.0 + region.1
  pub free : (r : ℕ) → r < p'.mgr_reserved_size → p'.mem (p'.main_memory_start + r) ≡ 0
  pub untouched : (b : ℕ) → (b < region.0) ⊎ (p'.alloc_start ≤ b) → p'.mem b ≡ p.mem b

module _ (p : Pmem) (s l : ℕ) where
  abbrev alloc_start_of : ℕ
  alloc_start_of = (s + l / 4096 + 4096) / 4096 * 4096

  alloc_start_mask :
      s + l < u32_mod
      → 8192 ≤ l
      → bit_and (add32 s (add32 (l / 4096) 4096)) 0xFFFFF000 ≡ alloc_start_of
  alloc_start_mask fits enough =
      omega (arith, bit_and_page (add32 s (add32 (l / 4096) 4096)) (omega arith))

  abbrev region_state : Pmem
  region_state = record p {
    initialized = true;
    main_memory_start = s;
    main_memory_length = s + l - alloc_start_of;
    alloc_start = alloc_start_of;
    mgr_reserved_size = (s + l - alloc_start_of) / 4096;
    mem = zero_records p.mem s (l / 4096) 0;
  }

  setup_region-ok :
      s + l < u32_mod → 0x12000 ≤ l → 0x100000 ≤ s → setup_region p (s, l) ≡ ok region_state
  unfolding setup_region
  setup_region-ok fits enough high = rw (alloc_start_mask fits (omega arith)) (ground arith)

  region_state-IsSetUp :
      s + l < u32_mod → 0x12000 ≤ l → p.curr_alloc_record ≡ 0 → IsSetUp p (s, l) region_state
  region_state-IsSetUp fits enough first = record {
    valid = ground arith;
    start = refl;
    inside = omega arith;
    free = λ r h.
        zero_records-zero p.mem s (l / 4096) 0 (s + r) (omega arith) (omega arith) (omega arith);
    untouched = λ b o. zero_records_below p.mem s (l / 4096) 0 b (omega arith) (ground arith);
  }

skip_kernel-ok :
    (k s l : ℕ)
    → k < u32_mod
    → s + l < u32_mod
    → k + 0x12000 ≤ s + l
    → 0x12000 ≤ l
    → (s' : ℕ) × (l' : ℕ) × (skip_kernel k (s, l) ≡ ok (s', l'))
      × (k ≤ s')
      × (s ≤ s')
      × ((s' ≡ k) ⊎ (s' ≡ s))
      × (0x12000 ≤ l')
      × (s' + l' ≡ s + l)
unfolding skip_kernel
skip_kernel-ok k s l hk fits room long = elim (Bool-cases (ltb s k)) [
  | inl low ↦
      (k, s + l - k, ground arith, omega arith, ground arith, inl refl, omega arith, ground arith)
  | inr high ↦ (s, l, ground arith, ground arith, omega arith, inr refl, omega arith, omega arith)
]

-- With a memory map, as its flag says, and the cursor at 0: when the first of the longest free
-- regions of the map ends before 2 ^ 32 and has 72 KiB, also behind the end of the kernel, which
-- lies above the reserved first megabyte, `pmem_initialize` succeeds. It sets the manager up from
-- the start of that region or from the end of the kernel, whichever is later, to the end of the
-- region, with every page free.
pub initialize-IsSetUp :
    (p : Pmem) (mbd : MultibootInfo) (before after : List MemoryMapEntry) (e : MemoryMapEntry)
    → p.mbd ≡ some mbd
    → p.curr_alloc_record ≡ 0
    → bit_and (mbd.flags / 64) 1 ≡ 1
    → 0x100000 ≤ p.kernel_reserved_end_addr
    → p.kernel_reserved_end_addr < u32_mod
    → IsLongest mbd.memory_map before e after
    → e.addr_low + e.len_low < u32_mod
    → p.kernel_reserved_end_addr + 0x12000 ≤ e.addr_low + e.len_low
    → 0x12000 ≤ e.len_low
    → (s : ℕ) × (l : ℕ) × (p' : Pmem) × (initialize p ≡ ok p')
      × IsSetUp p (s, l) p'
      × (p.kernel_reserved_end_addr ≤ s)
      × (e.addr_low ≤ s)
      × ((s ≡ p.kernel_reserved_end_addr) ⊎ (s ≡ e.addr_low))
      × (s + l ≡ e.addr_low + e.len_low)
unfolding initialize
initialize-IsSetUp p mbd before after e has first flag high small longest fits room long =
    let taken =
      largest_region-IsLongest mbd.memory_map before e after longest (omega (arith, long)) in
    let (s, l, skipped, behind, later, start, enough, same) =
      skip_kernel-ok p.kernel_reserved_end_addr e.addr_low e.len_low small fits room long in
    (
      s,
      l,
      region_state p s l,
      ground (arith, taken, skipped, setup_region-ok p s l),
      region_state-IsSetUp p s l (omega arith) enough first,
      behind,
      later,
      start,
      same,
    )

-- A free region behind the kernel that is shorter than one page passes every check of
-- `pmem_initialize`: the length of the managed memory wraps below zero, and pmem hands out pages
-- that end beyond the region and beyond the 32-bit address space.
setup_region_wraps :
    (p : Pmem) (s l : ℕ)
    → s % 4096 ≡ 0
    → 0x100000 ≤ s
    → s + 8192 < u32_mod
    → l < 4096
    → (p' : Pmem) × (setup_region p (s, l) ≡ ok p')
      × (p'.alloc_start ≡ s + 4096)
      × (p'.main_memory_length ≡ u32_mod + l - 4096)
unfolding setup_region
setup_region_wraps p s l aligned high fits short = (
  record p {
    initialized = true;
    main_memory_start = s;
    main_memory_length = u32_mod + l - 4096;
    alloc_start = s + 4096;
    mgr_reserved_size = (u32_mod + l - 4096) / 4096;
    mem = zero_records p.mem s (l / 4096) 0;
  },
  rw mask (ground arith),
  refl,
  refl,
)
  where
    mask : bit_and (add32 s (add32 (l / 4096) 4096)) 0xFFFFF000 ≡ s + 4096
    mask = omega (arith, bit_and_page (add32 s (add32 (l / 4096) 4096)) (omega arith))
