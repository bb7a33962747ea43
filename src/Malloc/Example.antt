-- ===== src/Malloc/Example.antt =====
-- A heap with one free entry of 4096 bytes, for tests (kernel/libc/malloc.c).
use koiz_os.Base.{◌≡◌, true, false, [], ◌∷◌, refl}
use koiz_os.Kernel.{ok}
use koiz_os.Pmem.{Pmem}
use koiz_os.Malloc.{Slab, malloc, take_entry, choose_slab, alloc_new_page_if_needed}

-- A slab of pages with one entry.
abbrev pub slab : Slab
slab = record {
  entries = record { mem_addr = 0x7000; mem_free = true } ∷ [];
  free_entries = 1;
  current_entry = 0;
  max_entries = 1;
  pages = [];
  current_page = 0;
}

abbrev pub used_slab : Slab
used_slab = record slab {
  entries = record { mem_addr = 0x7000; mem_free = false } ∷ [];
  free_entries = 0;
}

pub malloc-slab :
    (pm : Pmem)
    → malloc 4096 (record { slabs = slab ∷ []; pmem = pm })
      ≡ ok (0x7000, record { slabs = used_slab ∷ []; pmem = pm })
unfolding malloc take_entry choose_slab alloc_new_page_if_needed
malloc-slab pm = refl
