-- ===== src/Malloc/Release.antt =====
-- `free_ptr_slab` (kernel/libc/malloc.c): which entry an address gives back, and what a second
-- release of it does.
use koiz_os.Base.{
  ℕ, zero, suc, ◌<◌, ◌≡◌, ◌≢◌, true, false, Option, none, some, arith, refl, ◌==◌, length-set, set,
  subst, sym, add32, inl, inr, Bool-cases, ap, get_or-set_self, ℕ_discrete, ◌∙◌, ◌∙◌,
}
use koiz_os.Kernel.{ok}
use koiz_os.Malloc.{Entry, zero_entry, Slab, free_ptr_from, free_ptr_slab, take_entry}
use koiz_os.Malloc.Valid.{IsValid, entry_at, count_free, count_free-le, count_free-set}
use koiz_os.Malloc.Scan.{take}

-- The slab after entry `i` is given back.
abbrev pub give_back : Slab → ℕ → Slab
give_back s i = record s {
  entries = set s.entries i (record (entry_at s.entries i) { mem_free = true });
  current_entry = i;
  free_entries = add32 s.free_entries 1;
}

-- The last entry of the slab that has the address is given back, or no entry has it.
pub data Releases (s : Slab) (n ptr : ℕ) : Option Slab → Type 0 where
  released :
      (i : ℕ)
      → i < n
      → (entry_at s.entries i).mem_addr ≡ ptr
      → ((j : ℕ) → i < j → j < n → (entry_at s.entries j).mem_addr ≢ ptr)
      → Releases s n ptr (some (give_back s i))
  unknown : ((j : ℕ) → j < n → (entry_at s.entries j).mem_addr ≢ ptr) → Releases s n ptr none

Releases-suc :
    {s : Slab} {n ptr : ℕ} {out : Option Slab}
    → (entry_at s.entries n).mem_addr ≢ ptr
    → Releases s n ptr out
    → Releases s (suc n) ptr out
Releases-suc {s} {n} {ptr} ne (released i h e last) = released i (omega arith) e (λ j lo hi.
    elim (ℕ_discrete j n) [
      | yes same ↦ subst (λ k. (entry_at s.entries k).mem_addr ≢ ptr) (sym same) ne
      | no other ↦ last j lo (omega arith)
    ])
Releases-suc {s} {n} {ptr} ne (unknown none_) = unknown (λ j h. elim (ℕ_discrete j n) [
  | yes same ↦ subst (λ k. (entry_at s.entries k).mem_addr ≢ ptr) (sym same) ne
  | no other ↦ none_ j (omega arith)
])

free_ptr_from-Releases : (n : ℕ) (s : Slab) (ptr : ℕ) → Releases s n ptr (free_ptr_from n s ptr)
unfolding free_ptr_from
free_ptr_from-Releases zero s ptr = unknown (λ j h. absurd (omega arith))
free_ptr_from-Releases (suc n) s ptr = elim (Bool-cases ((entry_at s.entries n).mem_addr == ptr)) [
  | inl hit ↦
      rw (hit, free_ptr_from)
        (released n (omega arith) (ground (arith, hit)) (λ j lo hi. absurd (omega arith)))
  | inr miss ↦
      rw (miss, free_ptr_from)
        (Releases-suc (ground (arith, miss)) (free_ptr_from-Releases n s ptr))
]

-- `free_ptr_slab` gives back the last entry of the slab with the address, or reports that there is
-- none.
free_ptr_slab-Releases : (s : Slab) (ptr : ℕ) → Releases s s.max_entries ptr (free_ptr_slab s ptr)
unfolding free_ptr_slab
free_ptr_slab-Releases s ptr = free_ptr_from-Releases s.max_entries s ptr

released_entry :
    {s s' : Slab} {n ptr : ℕ} {out : Option Slab}
    → Releases s n ptr out
    → out ≡ some s'
    → (i : ℕ) × (i < n) × ((entry_at s.entries i).mem_addr ≡ ptr) × (s' ≡ give_back s i)
released_entry (released i h e last) got = (i, h, e, cc)
released_entry (unknown none_) got = cc

-- Giving back an entry that is in use keeps the invariant.
give_back-IsValid :
    {s : Slab}
    → IsValid s
    → (i : ℕ) → i < s.max_entries
    → (entry_at s.entries i).mem_free ≡ false
    → IsValid (give_back s i)
give_back-IsValid {s} v i h used =
    let entry : Entry = record (entry_at s.entries i) { mem_free = true } in
    let few = count_free-le s.max_entries (set s.entries i entry) in
    record {
      sized = rw length-set v.sized;
      within = v.within;
      counted = ground (
        arith,
        v.counted,
        few,
        count_free-set s.max_entries i s.entries entry h,
        v.sized,
        v.within,
        used,
      );
      current = omega arith;
      paged = v.paged;
    }

give_back-free :
    {s : Slab}
    → IsValid s
    → (i : ℕ) → i < s.max_entries
    → (entry_at s.entries i).mem_free ≡ true
    → ((give_back s i).free_entries ≡ suc (count_free s.max_entries (give_back s i).entries))
      × ¬ IsValid (give_back s i)
give_back-free {s} v i h free =
    let entry : Entry = record (entry_at s.entries i) { mem_free = true } in
    let few = count_free-le s.max_entries s.entries in
    let over : add32 s.free_entries 1 ≡ suc (count_free s.max_entries (set s.entries i entry)) =
      ground (
        arith,
        v.counted,
        few,
        count_free-set s.max_entries i s.entries entry h,
        v.sized,
        v.within,
        free,
      ) in
    (over, λ w. omega (arith, w.counted, over))

given_back :
    {s : Slab} {n ptr : ℕ} {out : Option Slab}
    → Releases s n ptr out
    → (k : ℕ) → k < n
    → (entry_at s.entries k).mem_addr ≡ ptr
    → (i : ℕ) × (i < n) × ((entry_at s.entries i).mem_addr ≡ ptr) × (out ≡ some (give_back s i))
given_back (released i h e last) k hk addr = (i, h, e, refl)
given_back (unknown none_) k hk addr = absurd (none_ k hk addr)

-- When an entry of a valid slab has the address, and every entry that has it is free already,
-- releasing the address succeeds all the same. It breaks the invariant: the slab then counts one
-- free entry more than it has.
pub free_twice_breaks :
    (s : Slab) (ptr k : ℕ)
    → IsValid s
    → k < s.max_entries
    → (entry_at s.entries k).mem_addr ≡ ptr
    → ((j : ℕ)
        → j < s.max_entries
        → (entry_at s.entries j).mem_addr ≡ ptr
        → (entry_at s.entries j).mem_free ≡ true)
    → (s' : Slab) × (free_ptr_slab s ptr ≡ some s')
      × (s'.free_entries ≡ suc (count_free s'.max_entries s'.entries))
      × ¬ IsValid s'
free_twice_breaks s ptr k v hk at free =
    let (i, h, addr, e) = given_back (free_ptr_slab-Releases s ptr) k hk at in
    let (over, broken) = give_back-free v i h (free i h addr) in (give_back s i, e, over, broken)

take_entry-given :
    (s : Slab) (i fuel : ℕ)
    → IsValid s
    → i < s.max_entries
    → (s'' : Slab) × (take_entry (suc fuel) i (give_back s i)
        ≡ ok ((entry_at s.entries i).mem_addr, s''))
      × (s''.free_entries ≡ s.free_entries)
unfolding take_entry
take_entry-given s i fuel v h =
    let entry : Entry = record (entry_at s.entries i) { mem_free = true } in
    let few = count_free-le s.max_entries s.entries in
    (
      take (give_back s i) i,
      rw (get_or-set_self s.entries i entry zero_entry (omega (arith, v.sized, v.within)))
          (ground (arith, few, v.counted, v.within)),
      omega (arith, few, v.counted, v.within),
    )

-- In a valid slab, releasing an address that no free entry has keeps the slab valid.
free_ptr_slab-IsValid :
    (s : Slab) (ptr : ℕ) (s' : Slab)
    → IsValid s
    → ((j : ℕ)
        → j < s.max_entries
        → (entry_at s.entries j).mem_addr ≡ ptr
        → (entry_at s.entries j).mem_free ≡ false)
    → free_ptr_slab s ptr ≡ some s'
    → IsValid s'
free_ptr_slab-IsValid s ptr s' v used e =
    let (i, h, addr, same) = released_entry (free_ptr_slab-Releases s ptr) e in
    subst IsValid (sym same) (give_back-IsValid v i h (used i h addr))

-- In a valid slab, what was just given back is what the next search of the slab hands
-- out, and the count of free entries is then the old one.
take_entry-give_back :
    (s : Slab) (ptr : ℕ) (s' : Slab) (fuel : ℕ)
    → IsValid s
    → free_ptr_slab s ptr ≡ some s'
    → (s'' : Slab) × (take_entry (suc fuel) s'.current_entry s' ≡ ok (ptr, s''))
      × (s''.free_entries ≡ s.free_entries)
take_entry-give_back s ptr s' fuel v e =
    let (i, h, addr, same) = released_entry (free_ptr_slab-Releases s ptr) e in
    let (s'', got, same_count) = take_entry-given s i fuel v h in
    (
      s'',
      subst (λ t. take_entry (suc fuel) t.current_entry t ≡ ok (ptr, s'')) (sym same)
          (got ∙ ap (λ a. ok (a, s'')) addr),
      same_count,
    )
