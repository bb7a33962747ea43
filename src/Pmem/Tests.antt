-- ===== src/Pmem/Tests.antt =====
-- The theorems on pmem.c at concrete states, and runs of its functions.
use koiz_os.Base.{
  take, ℕ, ◌+◌, ◌≤◌, ◌<◌, ◌≡◌, ◌⊎◌, true, false, none, some, List, [], ◌∷◌, arith, ◌==◌,
  if◌then◌else◌, refl,
}
use koiz_os.Kernel.{ok}
use koiz_os.Pmem.{
  MemoryMapEntry, Pmem, initialize, alloc, free, entry_to_ptr, alloc_scan, next_record,
}
use koiz_os.Pmem.Valid.{IsValid, page}
use koiz_os.Pmem.Init.{IsSetUp, IsLongest, initialize-IsSetUp}
use koiz_os.Pmem.Alloc.{AllocOutcome, IsFree, at_record, alloc_outcome, alloc_keeps_used, give}
use koiz_os.Pmem.Free.{free-alloc}

-- Four pages behind a list of four records, with only the record at 0 in use.
abbrev four : Pmem
four = record {
  initialized = true;
  main_memory_start = 0x100000;
  main_memory_length = 0x4000;
  alloc_start = 0x102000;
  mgr_reserved_size = 4;
  curr_alloc_record = 0;
  mbd = none;
  kernel_reserved_end_addr = 0x100000;
  mem = λ a. if a == 0x100000 then 1 else 0;
}

four-IsValid : IsValid four
four-IsValid = ground arith

-- A memory map of a reserved region and two free ones.
abbrev memory_map : List MemoryMapEntry
memory_map =
    record { addr_low = 0; len_low = 0x9fc00; kind = 1 }
    ∷ record { addr_low = 0x9fc00; len_low = 0x400; kind = 2 }
    ∷ record { addr_low = 0x100000; len_low = 0x100000; kind = 1 }
    ∷ []

abbrev booted : Pmem
booted = record {
  initialized = false;
  main_memory_start = 0;
  main_memory_length = 0;
  alloc_start = 0;
  mgr_reserved_size = 0;
  curr_alloc_record = 0;
  mbd = some (record { flags = 0x40; memory_map = memory_map });
  kernel_reserved_end_addr = 0x140000;
  mem = λ a. 7;
}

map-IsLongest :
    IsLongest memory_map
      (take 2 memory_map)
      (record { addr_low = 0x100000; len_low = 0x100000; kind = 1 })
      []
map-IsLongest = record {
  place = refl;
  available = refl;
  longer = omega arith;
  longest = omega arith;
}

alloc_runs : alloc four ≡ ok (0x103000, give four 1)
unfolding alloc alloc_scan next_record entry_to_ptr
alloc_runs = ground arith

initialize-IsSetUp_example :
    (s : ℕ) × (l : ℕ) × (p' : Pmem) × (initialize booted ≡ ok p')
    × IsSetUp booted (s, l) p'
    × (0x140000 ≤ s)
    × (0x100000 ≤ s)
    × ((s ≡ 0x140000) ⊎ (s ≡ 0x100000))
    × (s + l ≡ 0x200000)
initialize-IsSetUp_example =
    initialize-IsSetUp booted (record { flags = 0x40; memory_map = memory_map }) (take 2 memory_map)
      [] (record { addr_low = 0x100000; len_low = 0x100000; kind = 1 }) refl refl refl (omega arith)
      (omega arith) map-IsLongest (omega arith) (omega arith) (omega arith)

alloc_outcome_example : AllocOutcome four (alloc four)
alloc_outcome_example = alloc_outcome four four-IsValid

alloc_keeps_used_example :
    ((page four 0 + 4096 ≤ 0x103000) ⊎ (0x103000 + 4096 ≤ page four 0)) × ¬ IsFree (give four 1) 0
alloc_keeps_used_example = alloc_keeps_used 0 four-IsValid (omega arith) (omega arith) alloc_runs

free-alloc_example : (r : ℕ) × (r < 4) × (free 0x103000 (give four 1) ≡ ok (at_record four r))
free-alloc_example = free-alloc four-IsValid alloc_runs
