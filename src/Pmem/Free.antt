-- ===== src/Pmem/Free.antt =====
-- `pmem_free` (kernel/drivers/memory/pmem.c): it undoes an allocation, and refuses a second one.
use koiz_os.Base.{ℕ, ◌+◌, ◌%◌, ◌<◌, ◌≡◌, arith, fun_ext, ◌∙◌, ap, u32_mod}
use native.Mathlib.Nat.{add-zero}
use koiz_os.Kernel.{ok, panic, Panic}
use koiz_os.Kernel.Memory.{Memory, write8}
use koiz_os.Pmem.{Pmem, alloc, free, ptr_to_entry}
use koiz_os.Pmem.Valid.{IsValid, page, ptr_to_entry-page}
use koiz_os.Pmem.Alloc.{IsFree, at_record, give, alloc-Gives, give-IsValid}

-- Any address inside the page of a record in use frees that record, and changes nothing else.
pub free-page :
    {p : Pmem}
    → IsValid p
    → (r i : ℕ) → r < p.mgr_reserved_size
    → i < 4096
    → ¬ IsFree p r
    → free (page p r + i) p ≡ ok (record p { mem = write8 p.mem (p.main_memory_start + r) 0 })
unfolding free
free-page {p} v r i h hi used = ground (arith, ptr_to_entry-page v r i)

-- Any address inside the page of a free record is refused.
free_twice :
    {p : Pmem}
    → IsValid p
    → (r i : ℕ) → r < p.mgr_reserved_size
    → i < 4096
    → IsFree p r
    → free (page p r + i) p ≡ panic Panic.pmem_already_free
unfolding free
free_twice {p} v r i h hi free_ = ground (arith, ptr_to_entry-page v r i)

write8_back : (m : Memory) (a v : ℕ) → m a ≡ v → write8 (write8 m a 1) a v ≡ m
write8_back m a v h = fun_ext λ b. ground arith

free-give :
    {p : Pmem}
    → IsValid p
    → (r : ℕ) → r < p.mgr_reserved_size
    → IsFree p r
    → free (page p r) (give p r) ≡ ok (at_record p r)
free-give {p} v r h unused = rw (← add-zero (page p r)) (
    free-page (give-IsValid v r h) r 0 h (omega arith) (ground arith)
    ∙ ap (λ m. ok (record p { mem = m; curr_alloc_record = r }))
        (write8_back p.mem (p.main_memory_start + r) 0 unused))

-- On an initialised manager, freeing the page that was just given out restores every record and all of the memory.
pub free-alloc :
    {p p' : Pmem} {ptr : ℕ}
    → IsValid p
    → alloc p ≡ ok (ptr, p')
    → (r : ℕ) × (r < p.mgr_reserved_size) × (free ptr p' ≡ ok (at_record p r))
free-alloc {p} {p'} {ptr} v e =
    let g = alloc-Gives v e in
    (g.entry, g.in_range, cc (free-give v g.entry g.in_range g.was_free, g.address, g.state))

-- What lies below or beyond the managed memory is refused.
free_outside :
    {p : Pmem}
    → IsValid p
    → (ptr : ℕ) → ptr < u32_mod
    → (ptr < p.alloc_start → free ptr p ≡ panic Panic.pmem_underflow)
      × (p.alloc_start + p.main_memory_length < ptr → free ptr p ≡ panic Panic.pmem_overflow)
unfolding free ptr_to_entry
free_outside {p} v ptr h = (λ low. ground arith, λ high. ground arith)

-- The bound of `pmem_ptr_to_entry` is one too far: where the managed memory ends at a page boundary,
-- the address just behind it is taken for a record that the list does not have.
ptr_to_entry_end :
    {p : Pmem}
    → IsValid p
    → p.main_memory_length % 4096 ≡ 0
    → ptr_to_entry p (p.alloc_start + p.main_memory_length) ≡ ok p.mgr_reserved_size
unfolding ptr_to_entry
ptr_to_entry_end {p} v whole = ground arith
