-- ===== src/Malloc/Outside.antt =====
-- Where `alloc_new_page_if_needed` puts the entries of a new page (kernel/libc/malloc.c).
use koiz_os.Base.{ℕ, ◌+◌, ◌-◌, ◌*◌, ◌/◌, ◌≤◌, ◌<◌, ◌≡◌, arith, u32_mod, min, ap, ◌∙◌, true}
use koiz_os.Malloc.{Slab}
use koiz_os.Malloc.Valid.{IsValid, entry_at}
use koiz_os.Malloc.Grow.{add_entries_address, add_entries_counts}
use koiz_os.Malloc.Page.{grown, paged-IsValid}

-- `c_addr` moves on before it is stored, so the entries that a page is divided into are shifted by
-- one. Where a valid slab has room for all the entries of a page that it takes, and their size
-- divides the page, one of them is free and starts where the page ends.
pub grown_last :
    {s : Slab} (slab_size page : ℕ)
    → IsValid s
    → 4096 / slab_size * slab_size ≡ 4096
    → s.max_entries + 4096 / slab_size ≤ 1000
    → s.current_page < 100
    → page + 4096 < u32_mod
    → (i : ℕ) × (s.max_entries ≤ i)
      × (i < (grown s slab_size page).max_entries)
      × ((entry_at (grown s slab_size page).entries i).mem_addr ≡ page + 4096)
      × ((entry_at (grown s slab_size page).entries i).mem_free ≡ true)
grown_last {s} slab_size page v whole room pages fits =
    let n = 4096 / slab_size in
    let all : min n (1000 - s.max_entries) ≡ n = omega arith in
    let pos : 0 < n = grind arith in
    let v' = paged-IsValid v page pages in
    let last =
      add_entries_address slab_size n page (n - 1) v' room (omega arith) (omega (arith, whole)) in
    let counts = add_entries_counts slab_size n page v' room in
    let end : (n - 1 + 1) * slab_size ≡ 4096 =
      ap (λ (t : ℕ). t * slab_size) (omega arith) ∙ whole in
    (
      s.max_entries + (n - 1),
      omega arith,
      rw (all, grown) (omega (arith, counts.0)),
      rw (all, grown) (ap (λ e. e.mem_addr) last ∙ ap (λ (t : ℕ). page + t) end),
      rw (all, grown) (ap (λ e. e.mem_free) last),
    )
