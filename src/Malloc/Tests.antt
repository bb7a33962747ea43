-- ===== src/Malloc/Tests.antt =====
-- The theorems on malloc.c at concrete states, and runs of its functions.
use koiz_os.Base.{
  ℕ, zero, suc, ◌+◌, ◌*◌, ◌/◌, ◌^◌, ◌≤◌, ◌<◌, ◌≡◌, ◌⊎◌, true, false, none, some, ◌∷◌, arith, ◌==◌,
  if◌then◌else◌, refl, replicate,
}
use koiz_os.Pmem.{Pmem}
use koiz_os.Malloc.{
  Slab, State, zero_slab, zero_entry, slab_count, malloc, free_ptr_slab, free_ptr_from,
}
use koiz_os.Malloc.Valid.{IsValid, entry_at, count_free}
use koiz_os.Malloc.Page.{grown}
use koiz_os.Malloc.Outside.{grown_last}
use koiz_os.Malloc.Heap.{IsValidState, Mallocs, slab_at, malloc-Mallocs}
use koiz_os.Malloc.Release.{give_back, free_twice_breaks}

abbrev pages : Pmem
pages = record {
  initialized = true;
  main_memory_start = 0x100000;
  main_memory_length = 0x4000;
  alloc_start = 0x102000;
  mgr_reserved_size = 4;
  curr_alloc_record = 0;
  mbd = none;
  kernel_reserved_end_addr = 0x100000;
  mem = λ a. if a == 0x100000 then 1 else 0;
}

abbrev boot : State
boot = record { slabs = replicate 7 zero_slab; pmem = pages }

zero_slab-IsValid : IsValid zero_slab
unfolding count_free
zero_slab-IsValid = omega arith

replicate_slab : (n i : ℕ) → IsValid (slab_at (replicate n zero_slab) i)
replicate_slab zero i = zero_slab-IsValid
replicate_slab (suc n) zero = zero_slab-IsValid
replicate_slab (suc n) (suc i) = replicate_slab n i

boot-IsValidState : IsValidState boot
boot-IsValidState = record {
  sized = refl;
  slabs_valid = λ i h. replicate_slab 7 i;
  pmem_valid = ground arith;
  below = omega arith;
}

-- Three entries, the second in use, and the current entry behind it.
abbrev few : Slab
few = record zero_slab {
  entries =
      record { mem_addr = 64; mem_free = true }
      ∷ record { mem_addr = 128; mem_free = false }
      ∷ record { mem_addr = 192; mem_free = false }
      ∷ replicate 997 zero_entry;
  free_entries = 1;
  current_entry = 1;
  max_entries = 3;
  current_page = 1;
}

few-IsValid : IsValid few
unfolding count_free
few-IsValid = omega arith

grown_last_example :
    (i : ℕ) × (0 ≤ i)
    × (i < (grown zero_slab 64 0x103000).max_entries)
    × ((entry_at (grown zero_slab 64 0x103000).entries i).mem_addr ≡ 0x103000 + 4096)
    × ((entry_at (grown zero_slab 64 0x103000).entries i).mem_free ≡ true)
grown_last_example =
    grown_last 64 0x103000 zero_slab-IsValid refl (omega arith) (omega arith) (omega arith)

malloc-Mallocs_example :
    (i : ℕ) × (c_size : ℕ) × (i < slab_count)
    × (c_size * 2 ^ i ≡ 4096)
    × (100 ≤ c_size)
    × ((c_size ≡ 64) ⊎ (c_size / 2 < 100))
    × Mallocs boot i c_size (malloc 100 boot)
malloc-Mallocs_example = malloc-Mallocs 100 boot-IsValidState (omega arith)

free_two : free_ptr_slab few 128 ≡ some (give_back few 1)
unfolding free_ptr_slab free_ptr_from
free_two = refl

only_second_used :
    (j : ℕ)
    → j < 3
    → (entry_at few.entries j).mem_addr ≡ 128
    → (entry_at few.entries j).mem_free ≡ false
only_second_used zero h e = absurd (omega (arith, e))
only_second_used (suc zero) h e = refl
only_second_used (suc (suc zero)) h e = absurd (omega (arith, e))
only_second_used (suc (suc (suc j))) h e = absurd (omega arith)

free_three : free_ptr_slab few 192 ≡ some (give_back few 2)
unfolding free_ptr_slab free_ptr_from
free_three = refl

only_first_free :
    (j : ℕ)
    → j < 3
    → (entry_at few.entries j).mem_addr ≡ 64
    → (entry_at few.entries j).mem_free ≡ true
only_first_free zero h e = refl
only_first_free (suc zero) h e = absurd (omega arith)
only_first_free (suc (suc zero)) h e = absurd (omega arith)
only_first_free (suc (suc (suc j))) h e = absurd (omega arith)

free_twice_breaks_example :
    (s' : Slab) × (free_ptr_slab few 64 ≡ some s')
    × (s'.free_entries ≡ suc (count_free s'.max_entries s'.entries))
    × ¬ IsValid s'
free_twice_breaks_example =
    free_twice_breaks few 64 0 few-IsValid (omega arith) refl only_first_free
