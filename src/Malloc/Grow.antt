-- ===== src/Malloc/Grow.antt =====
-- `alloc_new_page_if_needed` (kernel/libc/malloc.c): when a slab takes one more page, and what
-- entries it makes of it.
use native.Mathlib.Nat.{div-le_self, add-zero}
use koiz_os.Base.{
  ℕ, zero, suc, ◌+◌, ◌-◌, ◌*◌, ◌/◌, ◌≤◌, ◌<◌, ◌≡◌, true, arith, length-set, set, refl, add32,
  u32_mod, ap, get_or-set_self, get_or-set_ne, min, ◌∙◌,
}
use koiz_os.Malloc.{zero_entry, Slab, add_entries, entries_to_add}
use koiz_os.Malloc.Valid.{IsValid, entry_at, count_free-le, count_free-set_last}

-- One round of the loop over the new entries.
abbrev add_entry : Slab → ℕ → Slab
add_entry s addr = record s {
  entries = set s.entries s.max_entries (record { mem_addr = addr; mem_free = true });
  max_entries = add32 s.max_entries 1;
  free_entries = add32 s.free_entries 1;
}

add_entry-IsValid :
    {s : Slab} → IsValid s → (addr : ℕ) → s.max_entries < 1000 → IsValid (add_entry s addr)
add_entry-IsValid {s} v addr room =
    let max_step : add32 s.max_entries 1 ≡ suc s.max_entries = omega arith in
    let few = count_free-le s.max_entries s.entries in
    let free_step : add32 s.free_entries 1 ≡ suc s.free_entries = omega (arith, v.counted, few) in
    record {
      sized = rw length-set v.sized;
      within = omega arith;
      counted =
          rw (max_step, free_step)
            (omega (
              arith,
              v.counted,
              count_free-set_last s.max_entries s.entries
                  (record { mem_addr = addr; mem_free = true }),
              v.sized,
            ));
      current = omega (arith, v.current);
      paged = v.paged;
    }

module _ (slab_size : ℕ) where
  pub add_entries-IsValid :
      (n c : ℕ) {s : Slab}
      → IsValid s
      → s.max_entries + n ≤ 1000
      → IsValid (add_entries n slab_size c s).0
  unfolding add_entries
  add_entries-IsValid zero c v room = v
  add_entries-IsValid (suc n) c {s} v room =
      add_entries-IsValid n (add32 c slab_size)
        (add_entry-IsValid v (add32 c slab_size) (omega arith)) (omega arith)

  pub add_entries_counts :
      (n c : ℕ) {s : Slab}
      → IsValid s
      → s.max_entries + n ≤ 1000
      → ((add_entries n slab_size c s).0.max_entries ≡ s.max_entries + n)
        × ((add_entries n slab_size c s).0.free_entries ≡ s.free_entries + n)
        × ((add_entries n slab_size c s).0.pages ≡ s.pages)
        × ((add_entries n slab_size c s).0.current_page ≡ s.current_page)
  unfolding add_entries
  add_entries_counts zero c v room = (omega arith, omega arith, refl, refl)
  add_entries_counts (suc n) c {s} v room =
      let few = count_free-le s.max_entries s.entries in
      let ih =
        add_entries_counts n (add32 c slab_size)
          (add_entry-IsValid v (add32 c slab_size) (omega arith)) (omega arith) in
      (omega (arith, ih.0), omega (arith, ih.1, few, v.counted), ih.2, ih.3)

  -- The entries that were there stay.
  add_entries_below :
      (n c j : ℕ) {s : Slab}
      → IsValid s
      → s.max_entries + n ≤ 1000
      → j < s.max_entries
      → entry_at (add_entries n slab_size c s).0.entries j ≡ entry_at s.entries j
  unfolding add_entries
  add_entries_below zero c j v room h = refl
  add_entries_below (suc n) c j {s} v room h =
      add_entries_below n (add32 c slab_size) j
        (add_entry-IsValid v (add32 c slab_size) (omega arith)) (omega arith) (omega arith)
      ∙ get_or-set_ne s.entries s.max_entries j _ zero_entry (omega arith)

  -- The `k`-th new entry is free, and its address is `k + 1` entries behind the start of the page.
  pub add_entries_address :
      (n c k : ℕ) {s : Slab}
      → IsValid s
      → s.max_entries + n ≤ 1000
      → k < n
      → c + n * slab_size < u32_mod
      → entry_at (add_entries n slab_size c s).0.entries (s.max_entries + k)
        ≡ record { mem_addr = c + (k + 1) * slab_size; mem_free = true }
  unfolding add_entries
  add_entries_address zero c k v room h fits = elim h [ ]
  add_entries_address (suc n) c zero {s} v room h fits =
      let here : add32 c slab_size ≡ c + slab_size = omega arith in
      rw (add-zero s.max_entries) (
        add_entries_below n (add32 c slab_size) s.max_entries
          (add_entry-IsValid v (add32 c slab_size) (omega arith)) (omega arith) (omega arith)
        ∙ get_or-set_self s.entries s.max_entries _ zero_entry (omega (arith, v.sized))
        ∙ ap (λ (a : ℕ). record { mem_addr = a; mem_free = true }) (omega (arith, here)))
  add_entries_address (suc n) c (suc k) {s} v room h fits =
      let place : s.max_entries + suc k ≡ add32 s.max_entries 1 + k = omega arith in
      rw place (
        add_entries_address n (add32 c slab_size) k
          (add_entry-IsValid v (add32 c slab_size) (omega arith)) (omega arith) (omega arith)
          (omega arith)
        ∙ ap (λ (a : ℕ). record { mem_addr = a; mem_free = true }) (omega arith))

  pub add_entries_end :
      (n c : ℕ) (s : Slab)
      → c + n * slab_size < u32_mod
      → (add_entries n slab_size c s).1 ≡ c + n * slab_size
  unfolding add_entries
  add_entries_end zero c s fits = omega arith
  add_entries_end (suc n) c s fits =
      add_entries_end n (add32 c slab_size) (add_entry s (add32 c slab_size)) (omega arith)
      ∙ omega arith

-- What a new page adds: the entries of a page, as far as the array has room.
pub entries_to_add-min :
    {s : Slab}
    → IsValid s
    → (slab_size : ℕ) → entries_to_add s slab_size ≡ min (4096 / slab_size) (1000 - s.max_entries)
unfolding entries_to_add
entries_to_add-min {s} v slab_size = ground (arith, div-le_self 4096 slab_size, v.within)
