-- ===== src/Malloc.antt =====
-- kernel/libc/malloc.c: the slab allocator behind `malloc` and `free`. Seven slabs hand out entries
-- of 4096, 2048, ..., 64 bytes; a slab that has no free entry asks pmem for one more page.
pub mod Valid
pub mod Choose
pub mod Grow
pub mod Page
pub mod Outside
pub mod Scan
pub mod Heap
pub mod Release
pub mod Example
mod Tests
use koiz_os.Base.{
  ℕ, zero, suc, ◌+◌, ◌-◌, ◌*◌, ◌/◌, ◌%◌, Bool, true, false, not, Option, none, some, List, [], ◌∷◌,
  map, ◌==◌, ltb, leb, if◌then◌else◌, get_or, set, replicate, add32, sub32, mul32, ltb_int32,
}
use koiz_os.Kernel.{Panic, Result, ok, panic, diverge, ◌>>=◌, ◌>>◌, panic_if}
use koiz_os.Pmem.{Pmem, phys_block_size, alloc}

abbrev pub slab_entry_count : ℕ
slab_entry_count = 1000

abbrev pub slab_max_page_count : ℕ
slab_max_page_count = 100

abbrev pub slab_count : ℕ
slab_count = 7

-- `kmemslab_entry_t`
pub record Entry : Type 0 where
  pub mem_addr : ℕ
  pub mem_free : Bool

-- A static entry before its first use.
abbrev pub zero_entry : Entry
zero_entry = record { mem_addr = 0; mem_free = false }

-- `kmemslab_t`: arrays of `slab_entry_count` entries and `slab_max_page_count` pages.
pub record Slab : Type 0 where
  pub entries : List Entry
  pub free_entries : ℕ
  pub current_entry : ℕ
  pub max_entries : ℕ
  pub pages : List ℕ
  pub current_page : ℕ

-- A slab of the static memory at boot.
abbrev pub zero_slab : Slab
zero_slab = record {
  entries = replicate slab_entry_count zero_entry;
  free_entries = 0;
  current_entry = 0;
  max_entries = 0;
  pages = replicate slab_max_page_count 0;
  current_page = 0;
}

-- The static `slabs`, and the page allocator below them.
pub record State : Type 0 where
  pub slabs : List Slab
  pub pmem : Pmem

-- The loop of `alloc_new_page_if_needed` over the new entries: the rounds left, then `c_addr`.
pub add_entries : ℕ → ℕ → ℕ → Slab → Slab × ℕ
add_entries zero slab_size c_addr slab = (slab, c_addr)
add_entries (suc n) slab_size c_addr slab =
    let c_addr' = add32 c_addr slab_size in
    add_entries n slab_size c_addr' (record slab {
      entries = set slab.entries slab.max_entries (record { mem_addr = c_addr'; mem_free = true });
      max_entries = add32 slab.max_entries 1;
      free_entries = add32 slab.free_entries 1;
    })

-- `alloc_new_page_if_needed` from the call of pmem on.
pub add_page : ℕ → ℕ → Slab → Pmem → Result (Slab × Pmem)
add_page additional_entries slab_size slab pmem = do
  (c_page, pmem') ← alloc pmem
  let paged = record slab {
    pages = set slab.pages slab.current_page c_page;
    current_page = add32 slab.current_page 1;
  }
  let (slab', c_addr) = add_entries additional_entries slab_size c_page paged
  panic_if (ltb slab_entry_count slab'.max_entries) Panic.malloc_max_entries
  panic_if (ltb (add32 c_addr phys_block_size) c_addr) Panic.malloc_page_wrap
  ok (slab', pmem')

-- How many entries a new page may add: the entries of a page, restricted to the room in the array.
pub entries_to_add : Slab → ℕ → ℕ
entries_to_add slab slab_size =
    let additional_entries = phys_block_size / slab_size in
    if ltb_int32 slab_entry_count (add32 slab.max_entries additional_entries)
    then sub32 slab_entry_count slab.max_entries
    else additional_entries

pub alloc_new_page_if_needed : Slab → ℕ → Pmem → Result (Slab × Pmem)
alloc_new_page_if_needed slab slab_size pmem =
    let additional_entries = entries_to_add slab slab_size in
    if ltb 0 slab.free_entries then ok (slab, pmem) else (do
      panic_if (ltb phys_block_size (mul32 additional_entries slab_size)) Panic.malloc_page_overflow
      if not (ltb_int32 0 additional_entries)
          then ok (slab, pmem)
          else (if slab.current_page == slab_max_page_count
              then ok (slab, pmem)
              else add_page additional_entries slab_size slab pmem))

-- The first loop of `malloc`: the rounds left, `i`, `current_size`, and the slab that was last seen
-- to fit, with its entry size.
pub choose_slab : ℕ → ℕ → ℕ → ℕ → Option (ℕ × ℕ) → Option (ℕ × ℕ)
choose_slab zero i current_size size best = best
choose_slab (suc n) i current_size size best =
    choose_slab n (i + 1) (current_size / 2) size
      (if leb size current_size then some (i, current_size) else best)

-- The `do ... while` loop of `malloc` and the panic behind it: it takes the first free entry from
-- `c_ptr` on.
pub take_entry : ℕ → ℕ → Slab → Result (ℕ × Slab)
take_entry zero c_ptr slab = diverge
take_entry (suc fuel) c_ptr slab =
    let entry = get_or slab.entries c_ptr zero_entry in
    let taken = record slab {
      entries = set slab.entries c_ptr (record entry { mem_free = false });
      current_entry = c_ptr;
      free_entries = sub32 slab.free_entries 1;
    } in
    let next = add32 c_ptr 1 % slab.max_entries in
    let rest = take_entry fuel next slab in
    if entry.mem_free
    then ok (entry.mem_addr, taken)
    else (if next == slab.current_entry then panic Panic.malloc_exhausted else rest)

require_slab : Option (ℕ × ℕ) → Result (ℕ × ℕ)
require_slab none = panic Panic.malloc_too_large
require_slab (some c) = ok c

-- The loop makes at most one round for each entry.
pub malloc : ℕ → State → Result (ℕ × State)
unfolding require_slab
malloc size s = do
  (i, c_size) ← require_slab (choose_slab slab_count 0 phys_block_size size none)
  (slab, pmem) ← alloc_new_page_if_needed (get_or s.slabs i zero_slab) c_size s.pmem
  panic_if (slab.free_entries == 0) Panic.malloc_no_slot
  (addr, slab') ← take_entry slab.max_entries slab.current_entry slab
  ok (addr, record { slabs = set s.slabs i slab'; pmem = pmem })

-- The loop of `free_ptr_slab`, downwards: the entries left to look at. `none` is its result 0.
pub free_ptr_from : ℕ → Slab → ℕ → Option Slab
free_ptr_from zero slab ptr = none
free_ptr_from (suc i) slab ptr =
    let entry = get_or slab.entries i zero_entry in
    if entry.mem_addr == ptr
    then some (record slab {
      entries = set slab.entries i (record entry { mem_free = true });
      current_entry = i;
      free_entries = add32 slab.free_entries 1;
    })
    else free_ptr_from i slab ptr

pub free_ptr_slab : Slab → ℕ → Option Slab
free_ptr_slab slab ptr = free_ptr_from slab.max_entries slab ptr

cons_freed : Slab → Option (List Slab) → Option (List Slab)
cons_freed slab none = none
cons_freed slab (some slabs) = some (slab ∷ slabs)

-- The loop of `free` over the slabs: the first one that has the address.
pub free_in : List Slab → ℕ → Option (List Slab)
unfolding cons_freed
free_in [] ptr = none
free_in (slab ∷ slabs) ptr = elim (free_ptr_slab slab ptr) [
  | some slab' ↦ some (slab' ∷ slabs)
  | none ↦ cons_freed slab (free_in slabs ptr)
]

unfoldable pub free : ℕ → State → Result State
free ptr s = elim (free_in s.slabs ptr) [
  | some slabs ↦ ok (record s { slabs = slabs })
  | none ↦ panic Panic.free_unknown
]

-- What `print_kmeminfo` prints for a slab.
pub record SlabInfo : Type 0 where
  pub size : ℕ
  pub used : ℕ
  pub max : ℕ
  pub free_count : ℕ
  pub page_count : ℕ

unfoldable kmeminfo : Slab → ℕ → SlabInfo
kmeminfo slab slab_size = record {
  size = slab_size;
  used = sub32 slab.max_entries slab.free_entries;
  max = slab.max_entries;
  free_count = slab.free_entries;
  page_count = slab.current_page;
}

kmemlist_from : List Slab → ℕ → List SlabInfo
kmemlist_from [] current_size = []
kmemlist_from (slab ∷ slabs) current_size =
    kmeminfo slab current_size ∷ kmemlist_from slabs (current_size / 2)

pub kmemlist : State → List SlabInfo
unfolding kmemlist_from
kmemlist s = kmemlist_from s.slabs phys_block_size
