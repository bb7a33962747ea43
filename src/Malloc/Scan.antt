-- ===== src/Malloc/Scan.antt =====
-- The search of `malloc` for a free entry (kernel/libc/malloc.c): a slab that counts a free entry
-- yields one.
use koiz_os.Base.{
  ℕ, zero, suc, ◌+◌, ◌-◌, ◌≤◌, ◌<◌, ◌≡◌, ◌≢◌, true, false, arith, length-set, set, refl, add32,
  u32_mod, inl, inr, Bool-cases, ap,
}
use koiz_os.Base.Cycle.{
  distance, next_place, next_place-lt, mod-next_place, distance-next_place, distance-lap,
  distance-lt, distance_self,
}
use koiz_os.Kernel.{ok}
use koiz_os.Malloc.{Entry, Slab, take_entry}
use koiz_os.Malloc.Valid.{IsValid, entry_at, count_free-le, free_of_count, count_free-set}

-- The slab after entry `r` is handed out.
abbrev pub take : Slab → ℕ → Slab
take s r = record s {
  entries = set s.entries r (record (entry_at s.entries r) { mem_free = false });
  current_entry = r;
  free_entries = s.free_entries - 1;
}

-- A search that succeeds hands out an entry that was free, and marks that entry alone.
pub record Takes (s : Slab) (addr : ℕ) (s' : Slab) : Type 0 where
  pub entry : ℕ
  pub in_range : entry < s.max_entries
  pub was_free : (entry_at s.entries entry).mem_free ≡ true
  pub address : addr ≡ (entry_at s.entries entry).mem_addr
  pub state : s' ≡ take s entry

module _ {s : Slab} (v : IsValid s) (some_free : 0 < s.free_entries) where
  open s use {max_entries as n, current_entry as curr}

  free-lt : s.free_entries < u32_mod
  free-lt = omega (arith, v.counted, v.within, count_free-le n s.entries)

  current-lt : curr < n
  current-lt = omega (arith, v.counted, v.current, count_free-le n s.entries)

  take_entry-free :
      (fuel c : ℕ)
      → (entry_at s.entries c).mem_free ≡ true
      → take_entry (suc fuel) c s ≡ ok ((entry_at s.entries c).mem_addr, take s c)
  unfolding take_entry
  take_entry-free fuel c free = ground (arith, free, free-lt)

  take_entry-used :
      (fuel c : ℕ)
      → c < n
      → (entry_at s.entries c).mem_free ≡ false
      → next_place n c ≢ curr
      → take_entry (suc fuel) c s ≡ take_entry fuel (next_place n c) s
  unfolding take_entry
  take_entry-used fuel c h used ne =
      let wraps : add32 c 1 ≡ c + 1 = omega (arith, v.within) in
      ground (arith, wraps, mod-next_place n c h, used, ne)

  take_entry-Takes :
      (fuel c r : ℕ)
      → c < n
      → r < n
      → (entry_at s.entries r).mem_free ≡ true
      → distance n c r < fuel
      → distance n c r ≤ distance n (next_place n c) curr
      → (addr : ℕ) × (s' : Slab) × (take_entry fuel c s ≡ ok (addr, s')) × Takes s addr s'
  take_entry-Takes zero c r hc hr free enough before = elim enough [ ]
  take_entry-Takes (suc fuel) c r hc hr free enough before =
      elim (Bool-cases (entry_at s.entries c).mem_free) [
        | inl here ↦ (
          (entry_at s.entries c).mem_addr,
          take s c,
          take_entry-free fuel c here,
          record { entry = c; in_range = hc; was_free = here; address = refl; state = refl },
        )
        | inr used ↦
            (let other : c ≢ r = λ same. cc (ap (λ k. (entry_at s.entries k).mem_free) same) in
              let step = distance-next_place n c r hc hr other in
              let next = next_place-lt n c hc in
              let going : next_place n c ≢ curr =
                λ back. omega (arith, step, distance_self n (next_place n c) curr back, before) in
              let step' = distance-next_place n (next_place n c) curr next current-lt going in
              rw (take_entry-used fuel c hc used going) (
                take_entry-Takes fuel (next_place n c) r next hr free (omega (arith, step))
                  (omega (arith, step, step', before))))
      ]

  -- A valid slab that counts a free entry hands one out: the loop of `malloc` ends before it has
  -- gone round, and neither diverges nor panics.
  pub take_entry_total :
      (addr : ℕ) × (s' : Slab) × (take_entry n curr s ≡ ok (addr, s')) × Takes s addr s'
  take_entry_total =
      let (r, hr, free) = free_of_count n s.entries (omega (arith, v.counted)) in
      let far = distance-lt n curr r current-lt hr in
      take_entry-Takes n curr r current-lt hr free far
        (omega (arith, far, distance-lap n curr current-lt))

-- Handing an entry out keeps the invariant.
pub take-IsValid :
    {s : Slab}
    → IsValid s
    → (r : ℕ) → r < s.max_entries
    → (entry_at s.entries r).mem_free ≡ true
    → IsValid (take s r)
take-IsValid {s} v r h free =
    let used : Entry = record (entry_at s.entries r) { mem_free = false } in
    record {
      sized = rw length-set v.sized;
      within = v.within;
      counted = ground (
        arith,
        v.counted,
        count_free-set s.max_entries r s.entries used h,
        v.sized,
        v.within,
        free,
      );
      current = omega arith;
      paged = v.paged;
    }
