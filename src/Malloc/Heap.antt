-- ===== src/Malloc/Heap.antt =====
-- `malloc` as a whole (kernel/libc/malloc.c): every way in which a call ends.
use koiz_os.Base.{
  ℕ, ◌+◌, ◌*◌, ◌/◌, ◌^◌, ◌≤◌, ◌<◌, ◌≡◌, ◌⊎◌, false, List, arith, ◌==◌, length, length-set, set,
  get_or, refl, subst, sym, u32_mod, inl, inr, ap, get_or-set_self, get_or-set_ne, ℕ_discrete,
  dec_lt,
}
use native.Mathlib.Nat.{one-le-pow}
use koiz_os.Kernel.{Result, ok, panic, Panic, ◌>>=◌, ◌>>◌, panic_if}
use koiz_os.Pmem.{Pmem, alloc}
use koiz_os.Pmem.Valid as PmemValid
use koiz_os.Pmem.Alloc.{alloc-page, alloc-Gives}
use koiz_os.Malloc.{Slab, State, zero_slab, slab_count, take_entry, malloc}
use koiz_os.Malloc.Valid.{IsValid}
use koiz_os.Malloc.Choose.{choose_slab_fits, choose_slab-none}
use koiz_os.Malloc.Scan.{Takes, take_entry_total, take-IsValid}
use koiz_os.Malloc.Page.{
  Grows, unchanged, more, out_of_memory, grown, alloc_new_page_if_needed-Grows,
}

abbrev pub slab_at : List Slab → ℕ → Slab
slab_at slabs i = get_or slabs i zero_slab

-- Every slab is valid, and so is pmem, whose memory ends a page before 2 ^ 32.
pub record IsValidState (s : State) : Type 0 where
  pub sized : length s.slabs ≡ slab_count
  pub slabs_valid : (i : ℕ) → i < slab_count → IsValid (slab_at s.slabs i)
  pub pmem_valid : PmemValid.IsValid s.pmem
  pub below : s.pmem.alloc_start + s.pmem.main_memory_length + 4096 < u32_mod

-- The ends of a call, for a request that slab `i` with its entries of `c_size` bytes serves.
pub data Mallocs (s : State) (i c_size : ℕ) : Result (ℕ × State) → Type 0 where
  got :
      {slab slab' : Slab} {pm : Pmem} {addr : ℕ} {s' : State}
      → Grows (slab_at s.slabs i) c_size s.pmem (ok (slab, pm))
      → Takes slab addr slab'
      → s' ≡ record { slabs = set s.slabs i slab'; pmem = pm }
      → IsValidState s'
      → Mallocs s i c_size (ok (addr, s'))
  no_slot :
      (slab_at s.slabs i).free_entries ≡ 0
      → ((slab_at s.slabs i).max_entries ≡ 1000) ⊎ ((slab_at s.slabs i).current_page ≡ 100)
      → Mallocs s i c_size (panic Panic.malloc_no_slot)
  no_memory :
      (slab_at s.slabs i).free_entries ≡ 0
      → alloc s.pmem ≡ panic Panic.pmem_out_of_memory
      → Mallocs s i c_size (panic Panic.pmem_out_of_memory)

-- A page given out leaves the bounds of pmem.
alloc-bounds :
    {pm pm' : Pmem} {page : ℕ}
    → PmemValid.IsValid pm
    → alloc pm ≡ ok (page, pm')
    → (pm'.alloc_start ≡ pm.alloc_start) × (pm'.main_memory_length ≡ pm.main_memory_length)
alloc-bounds v e =
    let g = alloc-Gives v e in
    (ap (λ p. p.alloc_start) g.state, ap (λ p. p.main_memory_length) g.state)

state-set :
    {s : State}
    → IsValidState s
    → (i : ℕ) (slab : Slab) (pm : Pmem) → i < slab_count
    → IsValid slab
    → PmemValid.IsValid pm
    → pm.alloc_start + pm.main_memory_length + 4096 < u32_mod
    → IsValidState (record { slabs = set s.slabs i slab; pmem = pm })
state-set {s} v i slab pm h w pv below = record {
  sized = rw length-set v.sized;
  slabs_valid = λ j hj. elim (ℕ_discrete i j) [
    | yes same ↦
        subst (λ k. IsValid (slab_at (set s.slabs i slab) k)) same
          (rw (get_or-set_self s.slabs i slab zero_slab (omega (arith, v.sized))) w)
    | no other ↦ rw (get_or-set_ne s.slabs i j slab zero_slab other) (v.slabs_valid j hj)
  ];
  pmem_valid = pv;
  below = below;
}

-- The rest of `malloc` after the slab has grown or not.
abbrev finish : State → ℕ → Slab × Pmem → Result (ℕ × State)
finish s i (slab, pm) = do
  panic_if (slab.free_entries == 0) Panic.malloc_no_slot
  (addr, slab') ← take_entry slab.max_entries slab.current_entry slab
  ok (addr, record { slabs = set s.slabs i slab'; pmem = pm })

finish-got :
    {s : State}
    → IsValidState s
    → (i c_size : ℕ) (slab : Slab) (pm : Pmem) → i < slab_count
    → Grows (slab_at s.slabs i) c_size s.pmem (ok (slab, pm))
    → IsValid slab
    → 0 < slab.free_entries
    → PmemValid.IsValid pm
    → pm.alloc_start + pm.main_memory_length + 4096 < u32_mod
    → Mallocs s i c_size (finish s i (slab, pm))
finish-got {s} v i c_size slab pm h grows w free pv below =
    let (addr, slab', e, t) = take_entry_total w free in
    let valid' = subst IsValid (sym t.state) (take-IsValid w t.entry t.in_range t.was_free) in
    let some_free : (slab.free_entries == 0) ≡ false = ground arith in
    rw (some_free, e) (got grows t refl (state-set v i slab' pm h valid' pv below))

finish-none :
    (s : State) (i : ℕ) (slab : Slab) (pm : Pmem)
    → slab.free_entries ≡ 0
    → finish s i (slab, pm) ≡ panic Panic.malloc_no_slot
finish-none s i slab pm none_free = ground (arith, none_free)

finish-Mallocs :
    {s : State} {i c_size : ℕ} {out : Result (Slab × Pmem)}
    → IsValidState s
    → i < slab_count
    → Grows (slab_at s.slabs i) c_size s.pmem out
    → Mallocs s i c_size (out >>= finish s i)
finish-Mallocs {s} {i} {c_size} v h (unchanged why) =
    let slab = slab_at s.slabs i in
    elim (dec_lt 0 slab.free_entries) [
      | yes some_free ↦
          finish-got v i c_size slab s.pmem h (unchanged why) (v.slabs_valid i h) some_free
            v.pmem_valid v.below
      | no none_free ↦
          let zero_free : slab.free_entries ≡ 0 = omega arith in
          rw (finish-none s i slab s.pmem zero_free) (no_slot zero_free (why_full why none_free))
    ]
  where
    why_full : {a : ℕ} {P Q : Type 0} → (0 < a) ⊎ P ⊎ Q → ¬ (0 < a) → P ⊎ Q
    why_full (inl some_free) none_free = absurd (none_free some_free)
    why_full (inr full) none_free = full
finish-Mallocs {s} {i} {c_size} v h (more {page} {pm'} none_free e w free) =
    let (start, end) = alloc-bounds v.pmem_valid e in
    finish-got v i c_size (grown (slab_at s.slabs i) c_size page) pm' h (more none_free e w free) w
      free (alloc-page v.pmem_valid e).0 (omega (arith, v.below))
finish-Mallocs v h (out_of_memory none_free e) = no_memory none_free e

size_bounds : (i c : ℕ) → c * 2 ^ i ≡ 4096 → (0 < c) × (c ≤ 4096)
size_bounds i c e = (grind (arith, one-le-pow i 2), grind (arith, one-le-pow i 2))

-- In a valid state a request of at most 4096 bytes goes to the slab with the smallest entries that
-- fit. It returns an entry that was free, marks it and keeps the state valid; or it panics, either
-- because that slab is full or because pmem is. No other panic happens, and the search ends.
pub malloc-Mallocs :
    (size : ℕ) {s : State}
    → IsValidState s
    → size ≤ 4096
    → (i : ℕ) × (c_size : ℕ) × (i < slab_count)
      × (c_size * 2 ^ i ≡ 4096)
      × (size ≤ c_size)
      × ((c_size ≡ 64) ⊎ (c_size / 2 < size))
      × Mallocs s i c_size (malloc size s)
unfolding malloc
malloc-Mallocs size {s} v h =
    let (i, c_size, chosen, hi, power, fits, least) = choose_slab_fits size h in
    let (pos, small) = size_bounds i c_size power in
    (
      i,
      c_size,
      hi,
      power,
      fits,
      least,
      rw (chosen, malloc)
          (finish-Mallocs v hi (
            alloc_new_page_if_needed-Grows (v.slabs_valid i hi) c_size pos small v.pmem_valid
              v.below)),
    )

-- A larger request panics.
pub malloc_too_large :
    (size : ℕ) (s : State) → 4096 < size → malloc size s ≡ panic Panic.malloc_too_large
unfolding malloc
malloc_too_large size s h = rw (choose_slab-none size h)
