-- ===== src/Malloc/Page.antt =====
-- `alloc_new_page_if_needed` as a whole (kernel/libc/malloc.c): it leaves a slab alone, adds a page
-- of pmem to it, or fails for lack of physical memory.
use native.Mathlib.Nat.{div-mul-le_self, mul-le-mul_right}
use koiz_os.Base.{
  ℕ, ◌+◌, ◌-◌, ◌*◌, ◌/◌, ◌≤◌, ◌<◌, ◌≡◌, ◌⊎◌, arith, set, add32, u32_mod, inl, inr, min, dec_lt,
}
use koiz_os.Kernel.{Result, ok, panic, Panic}
use koiz_os.Pmem.{Pmem, alloc}
use koiz_os.Pmem.Valid as PmemValid
use koiz_os.Pmem.Alloc.{alloc_outcome, alloc-page}
use koiz_os.Malloc.{Slab, add_entries, add_page, alloc_new_page_if_needed}
use koiz_os.Malloc.Valid.{IsValid}
use koiz_os.Malloc.Grow.{
  add_entries-IsValid, add_entries_counts, add_entries_end, entries_to_add-min,
}

-- The slab with one more page noted, before its entries are made.
abbrev pub paged : Slab → ℕ → Slab
paged s page = record s {
  pages = set s.pages s.current_page page;
  current_page = s.current_page + 1;
}

-- A slab that takes the page at `page`.
abbrev pub grown : Slab → ℕ → ℕ → Slab
grown s slab_size page =
    (add_entries (min (4096 / slab_size) (1000 - s.max_entries)) slab_size page (paged s page)).0

pub paged-IsValid :
    {s : Slab} → IsValid s → (page : ℕ) → s.current_page < 100 → IsValid (paged s page)
paged-IsValid v page h = record {
  sized = v.sized;
  within = v.within;
  counted = v.counted;
  current = v.current;
  paged = omega arith;
}

-- `0 < slab_size ≤ 4096`, and all of physical memory ends a page before 2 ^ 32.
module _ {s : Slab} (v : IsValid s) (slab_size : ℕ) (pos : 0 < slab_size)
    (small : slab_size ≤ 4096) where
  abbrev extra : ℕ
  extra = min (4096 / slab_size) (1000 - s.max_entries)

  extra-page : extra * slab_size ≤ 4096
  extra-page = omega (
    arith,
    mul-le-mul_right {m = extra} {n = 4096 / slab_size} slab_size (omega arith),
    div-mul-le_self 4096 slab_size,
  )

  extra-pos : s.max_entries < 1000 → 0 < extra
  extra-pos room = grind arith

  add_page-grown :
      (pm pm' : Pmem) (page : ℕ)
      → alloc pm ≡ ok (page, pm')
      → s.current_page < 100
      → page + 8192 < u32_mod
      → add_page extra slab_size s pm ≡ ok (grown s slab_size page, pm')
  unfolding add_page
  add_page-grown pm pm' page e h fits =
      let v' = paged-IsValid v page h in
      let counts = add_entries_counts slab_size extra page v' (omega arith) in
      let end = add_entries_end slab_size extra page (paged s page) (omega (arith, extra-page)) in
      let step : add32 s.current_page 1 ≡ s.current_page + 1 = omega arith in
      rw (e, step) (ground (arith, counts, end, extra-page))

add_page-panic :
    (additional_entries : ℕ) (s : Slab) (slab_size : ℕ) (pm : Pmem)
    → alloc pm ≡ panic Panic.pmem_out_of_memory
    → add_page additional_entries slab_size s pm ≡ panic Panic.pmem_out_of_memory
unfolding add_page
add_page-panic additional_entries s slab_size pm e = rw e

-- What a call does to a slab. The three cases are: nothing, because it has a free entry or can take no
-- page; one more page of pmem; and the panic of pmem.
pub data Grows (s : Slab) (slab_size : ℕ) (pm : Pmem) : Result (Slab × Pmem) → Type 0 where
  unchanged :
      (0 < s.free_entries) ⊎ (s.max_entries ≡ 1000) ⊎ (s.current_page ≡ 100)
      → Grows s slab_size pm (ok (s, pm))
  more :
      {page : ℕ} {pm' : Pmem}
      → s.free_entries ≡ 0
      → alloc pm ≡ ok (page, pm')
      → IsValid (grown s slab_size page)
      → 0 < (grown s slab_size page).free_entries
      → Grows s slab_size pm (ok (grown s slab_size page, pm'))
  out_of_memory :
      s.free_entries ≡ 0
      → alloc pm ≡ panic Panic.pmem_out_of_memory
      → Grows s slab_size pm (panic Panic.pmem_out_of_memory)

module _ {s : Slab} (v : IsValid s) (slab_size : ℕ) (pos : 0 < slab_size) (small : slab_size ≤ 4096)
    {pm : Pmem} (pv : PmemValid.IsValid pm)
    (below : pm.alloc_start + pm.main_memory_length + 4096 < u32_mod) where
  no_page :
      (0 < s.free_entries) ⊎ (s.max_entries ≡ 1000) ⊎ (s.current_page ≡ 100)
      → alloc_new_page_if_needed s slab_size pm ≡ ok (s, pm)
  unfolding alloc_new_page_if_needed
  no_page why =
      ground
        (arith, entries_to_add-min v slab_size, extra-page v slab_size pos small, v.within, why)

  new_page :
      s.free_entries ≡ 0
      → s.max_entries < 1000
      → s.current_page < 100
      → alloc_new_page_if_needed s slab_size pm
        ≡ add_page (min (4096 / slab_size) (1000 - s.max_entries)) slab_size s pm
  unfolding alloc_new_page_if_needed
  new_page none room pages =
      rw (entries_to_add-min v slab_size) (
        ground
          (arith, extra-page v slab_size pos small, extra-pos v slab_size pos small room, none))

  grown-free :
      (page : ℕ)
      → s.max_entries < 1000
      → s.current_page < 100
      → IsValid (grown s slab_size page) × (0 < (grown s slab_size page).free_entries)
  grown-free page room pages =
      let extra = min (4096 / slab_size) (1000 - s.max_entries) in
      let v' = paged-IsValid v page pages in
      let counts = add_entries_counts slab_size extra page v' (omega arith) in
      (
        add_entries-IsValid slab_size extra page v' (omega arith),
        omega (arith, counts.1, extra-pos v slab_size pos small room),
      )

  -- For a valid slab, entries of 1 to 4096 bytes and a valid pmem that ends a page before 2 ^ 32, a
  -- call does one of three things. It changes nothing, because the slab has a free entry or can take
  -- no page; it takes one more page, which keeps the slab valid and gives it a free entry; or it
  -- panics for lack of physical memory. No other panic happens.
  pub alloc_new_page_if_needed-Grows :
      Grows s slab_size pm (alloc_new_page_if_needed s slab_size pm)
  alloc_new_page_if_needed-Grows = elim (dec_lt 0 s.free_entries) [
    | yes some_free ↦ rw (no_page (inl some_free)) (unchanged (inl some_free))
    | no none_free ↦ elim (dec_lt s.max_entries 1000) [
      | no full ↦
          let why : s.max_entries ≡ 1000 = omega (arith, v.within) in
          rw (no_page (inr (inl why))) (unchanged (inr (inl why)))
      | yes room ↦ elim (dec_lt s.current_page 100) [
        | no pages ↦
            let why : s.current_page ≡ 100 = omega (arith, v.paged) in
            rw (no_page (inr (inr why))) (unchanged (inr (inr why)))
        | yes pages ↦
            let none : s.free_entries ≡ 0 = omega arith in
            rw (new_page none room pages) (elim (alloc_outcome pm pv) [
              | inl (page, pm', e, g) ↦
                  let (v', aligned, lo, hi) = alloc-page pv e in
                  let (w, free) = grown-free page room pages in
                  rw (add_page-grown v slab_size pos small pm pm' page e pages (omega arith))
                    (more none e w free)
              | inr (e, used) ↦ rw (add_page-panic _ s slab_size pm e) (out_of_memory none e)
            ])
      ]
    ]
  ]
