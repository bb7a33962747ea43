-- ===== src/Pmem/Valid.antt =====
-- The invariant of an initialised pmem (kernel/drivers/memory/pmem.c), and the arithmetic of records
-- and pages under it.
use koiz_os.Base.{ℕ, ◌+◌, ◌*◌, ◌/◌, ◌%◌, ◌≤◌, ◌<◌, ◌≡◌, true, arith, add32, u32_mod}
use koiz_os.Kernel.{ok}
use koiz_os.Pmem.{Pmem, entry_to_ptr, ptr_to_entry}

-- The pages are aligned and end before 2 ^ 32, there is a record for each, the records end before
-- the first page, and the current record is one of them.
pub record IsValid (p : Pmem) : Type 0 where
  pub is_init : p.initialized ≡ true
  pub aligned : p.alloc_start % 4096 ≡ 0
  pub fits : p.alloc_start + p.main_memory_length < u32_mod
  pub sized : p.mgr_reserved_size ≡ p.main_memory_length / 4096
  pub records_below : p.main_memory_start + p.mgr_reserved_size ≤ p.alloc_start
  pub current : p.curr_alloc_record < p.mgr_reserved_size

-- The page of a record.
abbrev pub page : Pmem → ℕ → ℕ
page p r = p.alloc_start + 4096 * r

module _ {p : Pmem} (v : IsValid p) where
  entry_to_ptr-page : (r : ℕ) → r < p.mgr_reserved_size → entry_to_ptr p r ≡ ok (page p r)
  unfolding entry_to_ptr
  entry_to_ptr-page r h = ground arith

  pub ptr_to_entry-page :
      (r i : ℕ) → r < p.mgr_reserved_size → i < 4096 → ptr_to_entry p (page p r + i) ≡ ok r
  unfolding ptr_to_entry
  ptr_to_entry-page r i h hi = ground arith

  record_address :
      (r : ℕ) → r < p.mgr_reserved_size → add32 p.main_memory_start r ≡ p.main_memory_start + r
  record_address r h = omega arith
