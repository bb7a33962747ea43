-- ===== src/Vmem/Identity.antt =====
-- `vmem_init` (kernel/drivers/memory/vmem.c): after every round the page directory links tables
-- that map their pages to themselves.
use native.Mathlib.Nat.{add-zero}
use koiz_os.Base.{
  ℕ, zero, suc, ◌+◌, ◌*◌, ◌/◌, ◌^◌, ◌≤◌, ◌<◌, ◌≡◌, ◌≢◌, ◌⊎◌, inl, inr, arith, refl, ◌∙◌, ap,
  bit_and, bit_or, add32, u32_mod, ℕ_discrete, sym, subst,
}
use koiz_os.Base.Bits.{bit_and_offset, bit_or_flags}
use koiz_os.Kernel.{Result, ok, panic, Panic}
use koiz_os.Kernel.Memory.{read32, read32_same, write32, write32_outside, read32-write32_self}
use koiz_os.Pmem.{Pmem, alloc}
use koiz_os.Pmem.Valid.{IsValid, page}
use koiz_os.Pmem.Usage.{InUse}
use koiz_os.Pmem.Alloc.{IsFree, give, alloc_outcome, give-keeps_used}
use koiz_os.Vmem.{fill_table, ptable_new, identity_word, map_table, map_tables, init}
use koiz_os.Vmem.Table.{fill_table_outside, read32-fill_table, identity_word_lem}

-- The table at `t` maps the `i`-th four megabytes to themselves.
abbrev MapsTable : Pmem → ℕ → ℕ → Type 0
MapsTable pm t i =
    InUse pm t × ((j : ℕ) → j < 1024 → read32 pm.mem (t + 4 * j) ≡ i * 2 ^ 22 + j * 2 ^ 12 + 7)

-- The first `n` entries of the directory at `base` link such tables, none of which is the directory.
pub record Maps (pm : Pmem) (base n : ℕ) : Type 0 where
  pub valid : IsValid pm
  pub directory : InUse pm base
  pub tables :
      (i : ℕ)
      → i < n
      → (t : ℕ) × (read32 pm.mem (base + 4 * i) ≡ t + 7) × (t ≢ base) × MapsTable pm t i

-- The state after `ptable_new` took the page of record `e`.
abbrev taken : Pmem → ℕ → Pmem
taken pm e = record pm {
  curr_alloc_record = e;
  mem = fill_table (λ _. 0) 1024 0 (page pm e) (give pm e).mem;
}

page-bound :
    {pm : Pmem} → IsValid pm → (e : ℕ) → e < pm.mgr_reserved_size → page pm e + 4096 < u32_mod
page-bound v e h = omega arith

ptable_new-taken :
    {pm : Pmem}
    → IsValid pm
    → (e : ℕ) → e < pm.mgr_reserved_size
    → alloc pm ≡ ok (page pm e, give pm e)
    → ptable_new pm ≡ ok (page pm e, taken pm e)
unfolding ptable_new
ptable_new-taken {pm} v e h got =
    let offset : bit_and (page pm e) 0xFFF ≡ 0 = omega (arith, bit_and_offset (page pm e)) in
    rw (got, offset) refl

ptable_new-panic :
    (pm : Pmem)
    → alloc pm ≡ panic Panic.pmem_out_of_memory
    → ptable_new pm ≡ panic Panic.pmem_out_of_memory
unfolding ptable_new
ptable_new-panic pm e = rw e

-- `ptable_new` takes the page of a free record, or panics for lack of memory.
abbrev NewTable : Pmem → Result (ℕ × Pmem) → Type 0
NewTable pm out =
    ((e : ℕ) × (e < pm.mgr_reserved_size) × IsFree pm e × (out ≡ ok (page pm e, taken pm e)))
    ⊎ (out ≡ panic Panic.pmem_out_of_memory)

ptable_new-NewTable : {pm : Pmem} → IsValid pm → NewTable pm (ptable_new pm)
ptable_new-NewTable {pm} v = elim (alloc_outcome pm v) [
  | inl (ptr, pm', e, g) ↦ inl (
    g.entry,
    g.in_range,
    g.was_free,
    ptable_new-taken v g.entry g.in_range (cc (e, g.address, g.state)),
  )
  | inr (e, used) ↦ inr (ptable_new-panic pm e)
]

-- Filling the page of `e` leaves the rest as `pmem_alloc` left it.
taken_outside :
    {pm : Pmem}
    → IsValid pm
    → (e a : ℕ) → e < pm.mgr_reserved_size
    → (a < page pm e) ⊎ (page pm e + 4096 ≤ a)
    → (taken pm e).mem a ≡ (give pm e).mem a
taken_outside {pm} v e a h out =
    fill_table_outside (λ _. 0) (page pm e) 1024 0 (give pm e).mem a (omega arith) (omega arith)

taken-IsValid : {pm : Pmem} → IsValid pm → (e : ℕ) → e < pm.mgr_reserved_size → IsValid (taken pm e)
taken-IsValid v e h = ground arith

-- The state after one round of the outer loop.
abbrev mapped : Pmem → ℕ → ℕ → ℕ → Pmem
mapped pm base i e = record pm {
  curr_alloc_record = e;
  mem =
      fill_table (identity_word i) 1024 0 (page pm e)
        (write32 (taken pm e).mem (base + 4 * i) (page pm e + 7));
}

module _ {pm : Pmem} {base i e : ℕ} (v : IsValid pm) (dir : InUse pm base) (hi : i < 1024)
    (he : e < pm.mgr_reserved_size) (free : IsFree pm e) where
  other : dir.0 ≢ e
  other same = dir.2 (subst (λ k. IsFree pm k) (sym same) free)

  map_table-mapped :
      ptable_new pm ≡ ok (page pm e, taken pm e) → map_table base i pm ≡ ok (mapped pm base i e)
  unfolding map_table
  map_table-mapped new =
      let slot : add32 base (4 * i) ≡ base + 4 * i = omega (arith, dir.1, dir.3) in
      let p : (page pm e / 4096) * 4096 ≡ page pm e = omega arith in
      let flags : bit_or (page pm e) 7 ≡ page pm e + 7 =
        ap (λ (x : ℕ). bit_or x 7) (sym p)
        ∙ bit_or_flags (page pm e / 4096)
        ∙ ap (λ (x : ℕ). x + 7) p in
      rw (new, slot, flags) refl

  -- What lies neither in the new page nor in the slot of the directory.
  mapped_outside :
      (a : ℕ)
      → (a < page pm e) ⊎ (page pm e + 4096 ≤ a)
      → (a < base + 4 * i) ⊎ (base + 4 * i + 4 ≤ a)
      → (mapped pm base i e).mem a ≡ (give pm e).mem a
  mapped_outside a out slot =
      fill_table_outside (identity_word i) (page pm e) 1024 0 _ a (omega arith) (omega arith)
      ∙ write32_outside (taken pm e).mem (base + 4 * i) (page pm e + 7) a slot
      ∙ taken_outside v e a he out

  -- The records.
  mapped_record :
      (r : ℕ)
      → r < pm.mgr_reserved_size
      → (mapped pm base i e).mem (pm.main_memory_start + r)
        ≡ (give pm e).mem (pm.main_memory_start + r)
  mapped_record r h = mapped_outside (pm.main_memory_start + r) (omega arith) (omega (arith, dir.3))

  mapped-keeps_used :
      (r : ℕ) → r < pm.mgr_reserved_size → ¬ IsFree pm r → ¬ IsFree (mapped pm base i e) r
  mapped-keeps_used r h used is_free =
      give-keeps_used pm e r used (sym (mapped_record r h) ∙ is_free)

  mapped-takes : ¬ IsFree (mapped pm base i e) e
  mapped-takes is_free = ground (arith, sym (mapped_record e he) ∙ is_free)

  -- A word of another page in use, but for the slot.
  mapped_word :
      (r k : ℕ)
      → r < pm.mgr_reserved_size
      → ¬ IsFree pm r
      → k < 1024
      → (r ≢ dir.0) ⊎ (k ≢ i)
      → read32 (mapped pm base i e).mem (page pm r + 4 * k) ≡ read32 pm.mem (page pm r + 4 * k)
  mapped_word r k h used hk away =
      let ne : r ≢ e = λ same. used (subst (λ k. IsFree pm k) (sym same) free) in
      read32_same _ _ _ (λ d hd.
        mapped_outside (page pm r + 4 * k + d) (omega arith) (omega (arith, dir.3, away))
        ∙ ground arith)

  mapped_slot : read32 (mapped pm base i e).mem (base + 4 * i) ≡ page pm e + 7
  mapped_slot =
      read32_same _ (write32 (taken pm e).mem (base + 4 * i) (page pm e + 7)) _ (λ d hd.
        fill_table_outside (identity_word i) (page pm e) 1024 0 _ (base + 4 * i + d) (omega arith)
          (omega (arith, dir.3, other)))
      ∙ read32-write32_self (taken pm e).mem (base + 4 * i) (page pm e + 7) (omega arith)

  mapped_table :
      (j : ℕ)
      → j < 1024
      → read32 (mapped pm base i e).mem (page pm e + 4 * j) ≡ i * 2 ^ 22 + j * 2 ^ 12 + 7
  mapped_table j hj =
      let word = identity_word_lem i j hi hj in
      read32-fill_table (identity_word i) (page pm e) 1024 0 _ j (omega arith) (omega arith) hj
        (omega (arith, word))
      ∙ word

  mapped-old_table :
      (k : ℕ)
      → k < i
      → (t : ℕ) × (read32 pm.mem (base + 4 * k) ≡ t + 7) × (t ≢ base) × MapsTable pm t k
      → (t : ℕ) × (read32 (mapped pm base i e).mem (base + 4 * k) ≡ t + 7)
        × (t ≢ base)
        × MapsTable (mapped pm base i e) t k
  mapped-old_table k hk (t, link, ne, ((r, hr, used, at), words)) =
      let apart : r ≢ dir.0 = λ same. ne (at ∙ ap (page pm) same ∙ sym dir.3) in
      (
        t,
        subst (λ a. read32 (mapped pm base i e).mem (a + 4 * k) ≡ read32 pm.mem (a + 4 * k))
              (sym dir.3) (mapped_word dir.0 k dir.1 dir.2 (omega arith) (inr (omega arith)))
            ∙ link,
        ne,
        (
          (r, hr, mapped-keeps_used r hr used, at),
          λ j hj.
              subst (λ a. read32 (mapped pm base i e).mem (a + 4 * j) ≡ read32 pm.mem (a + 4 * j))
                (sym at) (mapped_word r j hr used hj (inl apart))
              ∙ words j hj,
        ),
      )

  mapped-new_table :
      (t : ℕ) × (read32 (mapped pm base i e).mem (base + 4 * i) ≡ t + 7)
      × (t ≢ base)
      × MapsTable (mapped pm base i e) t i
  mapped-new_table = (
    page pm e,
    mapped_slot,
    λ same. other (omega (arith, same, dir.3)),
    ((e, he, mapped-takes, refl), mapped_table),
  )

  mapped-Maps : Maps pm base i → Maps (mapped pm base i e) base (suc i)
  mapped-Maps maps = record {
    valid = ground arith;
    directory = (dir.0, dir.1, mapped-keeps_used dir.0 dir.1 dir.2, dir.3);
    tables = λ k hk. elim (ℕ_discrete k i) [
      | yes same ↦
          subst
            (λ n.
              (t : ℕ) × (read32 (mapped pm base i e).mem (base + 4 * n) ≡ t + 7)
              × (t ≢ base)
              × MapsTable (mapped pm base i e) t n)
            (sym same) mapped-new_table
      | no old ↦ mapped-old_table k (omega arith) (maps.tables k (omega arith))
    ];
  }

-- A call that builds the directory up to `n` entries, or runs out of memory.
abbrev MapsOrPanics : ℕ → ℕ → Result Pmem → Type 0
MapsOrPanics base n out =
    ((pm : Pmem) × (out ≡ ok pm) × Maps pm base n) ⊎ (out ≡ panic Panic.pmem_out_of_memory)

map_table-panic :
    (base i : ℕ) (pm : Pmem)
    → ptable_new pm ≡ panic Panic.pmem_out_of_memory
    → map_table base i pm ≡ panic Panic.pmem_out_of_memory
unfolding map_table
map_table-panic base i pm e = rw e

map_table-Maps :
    (base i : ℕ) {pm : Pmem}
    → i < 1024
    → Maps pm base i
    → MapsOrPanics base (suc i) (map_table base i pm)
map_table-Maps base i {pm} hi maps = elim (ptable_new-NewTable maps.valid) [
  | inl (e, he, free, new) ↦ inl (
    mapped pm base i e,
    map_table-mapped maps.valid maps.directory hi he free new,
    mapped-Maps maps.valid maps.directory hi he free maps,
  )
  | inr e ↦ inr (map_table-panic base i pm e)
]

map_tables-Maps :
    (n i base : ℕ) {pm : Pmem}
    → i + n ≤ 1024
    → Maps pm base i
    → MapsOrPanics base (i + n) (map_tables n i base pm)
unfolding map_tables
map_tables-Maps zero i base {pm} h maps =
    inl (pm, refl, subst (λ k. Maps pm base k) (sym (add-zero i)) maps)
map_tables-Maps (suc n) i base {pm} h maps = elim (map_table-Maps base i (omega arith) maps) [
  | inl (pm', e, maps') ↦
      let up : suc i ≡ i + 1 = omega arith in
      let total : i + 1 + n ≡ i + suc n = omega arith in
      rw (e, map_tables)
        (subst (λ k. MapsOrPanics base k (map_tables n (i + 1) base pm')) total
          (map_tables-Maps n (i + 1) base (omega arith) (subst (λ k. Maps pm' base k) up maps')))
  | inr e ↦ inr (rw e)
]

taken-Maps :
    {pm : Pmem} → IsValid pm → (e : ℕ) → e < pm.mgr_reserved_size → Maps (taken pm e) (page pm e) 0
taken-Maps {pm} v e h = record {
  valid = taken-IsValid v e h;
  directory = (
    e,
    h,
    λ free.
        ground
          (arith, sym (taken_outside v e (pm.main_memory_start + e) h (inl (omega arith))) ∙ free),
    refl,
  );
  tables = λ i hi. absurd (omega arith);
}

-- On an initialised pmem `vmem_init` ends. It either panics for lack of physical memory, or builds
-- a directory all of whose 1024 entries link tables that map their pages to themselves.
pub init-Maps :
    {pm : Pmem}
    → IsValid pm
    → ((base : ℕ) × (pm' : Pmem) × (init pm ≡ ok (base, pm')) × Maps pm' base 1024)
      ⊎ (init pm ≡ panic Panic.pmem_out_of_memory)
unfolding init
init-Maps {pm} v = elim (ptable_new-NewTable v) [
  | inl (e, he, free, new) ↦
      elim (map_tables-Maps 1024 0 (page pm e) (omega arith) (taken-Maps v e he)) [
        | inl (pm', done, maps) ↦ inl (page pm e, pm', rw (new, init) (rw done), maps)
        | inr short ↦ inr (rw (new, init) (rw short))
      ]
  | inr e ↦ inr (rw e)
]
