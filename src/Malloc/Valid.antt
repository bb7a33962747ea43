-- ===== src/Malloc/Valid.antt =====
-- The invariant of a slab of kernel/libc/malloc.c, and the count of its free entries.
use koiz_os.Base.{
  ℕ, zero, suc, ◌+◌, ◌-◌, ◌≤◌, ◌<◌, ◌≡◌, true, Bool, List, arith, if◌then◌else◌, length, get_or,
  set, refl, ℕ_discrete, get_or-set_self, get_or-set_ne, inl, inr, Bool-cases,
}
use koiz_os.Malloc.{Entry, zero_entry, Slab, slab_entry_count, slab_max_page_count}

abbrev pub entry_at : List Entry → ℕ → Entry
entry_at es i = get_or es i zero_entry

abbrev one_if : Bool → ℕ
one_if b = if b then 1 else 0

-- How many of the first `n` entries are free.
unfoldable pub count_free : ℕ → List Entry → ℕ
count_free zero es = 0
count_free (suc n) es = count_free n es + one_if (entry_at es n).mem_free

-- The entries in use fit the array, `free_entries` counts the free ones, and the current entry is
-- one of them, or 0 while there is none.
pub record IsValid (s : Slab) : Type 0 where
  pub sized : length s.entries ≡ slab_entry_count
  pub within : s.max_entries ≤ slab_entry_count
  pub counted : s.free_entries ≡ count_free s.max_entries s.entries
  pub current : s.current_entry ≤ s.max_entries - 1
  pub paged : s.current_page ≤ slab_max_page_count

pub count_free-le : (n : ℕ) (es : List Entry) → count_free n es ≤ n
unfolding count_free
count_free-le zero es = omega arith
count_free-le (suc n) es = ground (arith, count_free-le n es)

count_free-set_above :
    (n i : ℕ) (es : List Entry) (e : Entry) → n ≤ i → count_free n (set es i e) ≡ count_free n es
unfolding count_free
count_free-set_above zero i es e h = refl
count_free-set_above (suc n) i es e h =
    ground (arith, count_free-set_above n i es e, get_or-set_ne es i n e zero_entry)

-- Replacing one entry changes the count by that entry alone.
pub count_free-set :
    (n i : ℕ) (es : List Entry) (e : Entry)
    → i < n
    → i < length es
    → count_free n (set es i e) + one_if (entry_at es i).mem_free
      ≡ count_free n es + one_if e.mem_free
unfolding count_free
count_free-set zero i es e h g = elim h [ ]
count_free-set (suc n) i es e h g = elim (ℕ_discrete i n) [
  | yes same ↦
      ground (arith, same, count_free-set_above n i es e, get_or-set_self es i e zero_entry)
  | no other ↦ ground (arith, count_free-set n i es e, get_or-set_ne es i n e zero_entry)
]

-- A new entry behind the others.
pub count_free-set_last :
    (n : ℕ) (es : List Entry) (e : Entry)
    → n < length es
    → count_free (suc n) (set es n e) ≡ count_free n es + one_if e.mem_free
unfolding count_free
count_free-set_last n es e h =
    ground (arith, count_free-set_above n n es e, get_or-set_self es n e zero_entry)

-- If the count is not zero there is a free entry.
pub free_of_count :
    (n : ℕ) (es : List Entry)
    → 0 < count_free n es
    → (r : ℕ) × (r < n) × ((entry_at es r).mem_free ≡ true)
unfolding count_free
free_of_count zero es h = elim h [ ]
free_of_count (suc n) es h = elim (Bool-cases (entry_at es n).mem_free) [
  | inl free ↦ (n, omega arith, free)
  | inr used ↦ let (r, lt, free) = free_of_count n es (ground arith) in (r, omega arith, free)
]
