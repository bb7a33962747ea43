-- ===== src/Pmem.antt =====
-- kernel/drivers/memory/pmem.c: pages of physical memory, one byte of a flat record list for each.
-- The record list lies in the physical memory that it manages, before the first page given out.
pub mod Valid
pub mod Init
pub mod Alloc
pub mod Free
pub mod Usage
mod Tests
use koiz_os.Base.{
  ℕ, zero, suc, ◌+◌, ◌-◌, ◌*◌, ◌/◌, bit_and, Bool, true, false, not, ◌&&◌, Option, none, some, List,
  [], ◌∷◌, ◌==◌, ltb, leb, if◌then◌else◌, add32, sub32, mul32,
}
use koiz_os.Kernel.{Panic, Result, ok, panic, diverge, ◌>>=◌, ◌>>◌, panic_if}
use koiz_os.Kernel.Memory.{Memory, write8}

abbrev pub phys_block_size : ℕ
phys_block_size = 4096

abbrev mem_reserved_section_min : ℕ
mem_reserved_section_min = 0x100000

abbrev min_mem_size : ℕ
min_mem_size = 0xFFFF

-- `MULTIBOOT_MEMORY_AVAILABLE`
abbrev pub memory_available : ℕ
memory_available = 1

-- The fields of `multiboot_memory_map_t` that pmem reads.
pub record MemoryMapEntry : Type 0 where
  pub addr_low : ℕ
  pub len_low : ℕ
  pub kind : ℕ

-- `multiboot_info_t`: its flags, and the entries that stand at `mmap_addr`.
pub record MultibootInfo : Type 0 where
  pub flags : ℕ
  pub memory_map : List MemoryMapEntry

-- The static variables of pmem.c, and the memory.
pub record Pmem : Type 0 where
  pub initialized : Bool
  pub main_memory_start : ℕ
  pub main_memory_length : ℕ
  pub alloc_start : ℕ
  pub mgr_reserved_size : ℕ
  pub curr_alloc_record : ℕ
  pub mbd : Option MultibootInfo
  pub kernel_reserved_end_addr : ℕ
  pub mem : Memory

unfoldable set_mbd : Option MultibootInfo → ℕ → Pmem → Pmem
set_mbd mbd end_addr p = record p { mbd = mbd; kernel_reserved_end_addr = end_addr }

unfoldable pub isinit : Pmem → Bool
isinit p = p.initialized

-- The loop of `pmem_initialize` over the memory map.
pub largest_region : List MemoryMapEntry → ℕ × ℕ → ℕ × ℕ
largest_region [] best = best
largest_region (cs ∷ entries) (start, length) = largest_region entries (
    if (cs.kind == memory_available) && ltb length cs.len_low
    then (cs.addr_low, cs.len_low)
    else (start, length))

-- Moves the region behind the kernel.
pub skip_kernel : ℕ → ℕ × ℕ → Result (ℕ × ℕ)
skip_kernel kernel_end (start, length) =
    if ltb start kernel_end
    then (do
      let space_to_alloc = sub32 kernel_end start
      panic_if (ltb length space_to_alloc) Panic.pmem_no_space
      ok (kernel_end, sub32 length space_to_alloc))
    else ok (start, length)

-- `for(i = 0; i < n; i++) start[i] = 0`: the rounds left, then `i`.
pub zero_records : Memory → ℕ → ℕ → ℕ → Memory
zero_records mem start zero i = mem
zero_records mem start (suc n) i = zero_records (write8 mem (add32 start i) 0) start n (i + 1)

require_mbd : Option MultibootInfo → Result MultibootInfo
require_mbd none = panic Panic.pmem_mbd_unset
require_mbd (some mbd) = ok mbd

-- `pmem_initialize` from the choice of the region on.
pub setup_region : Pmem → ℕ × ℕ → Result Pmem
setup_region p (start, length) = do
  let end_addr = add32 start length
  let mem = zero_records p.mem start (length / phys_block_size) 0
  let start_addr_alloc =
      bit_and (add32 start (add32 (length / phys_block_size) phys_block_size)) 0xFFFFF000
  let main_length = sub32 end_addr start_addr_alloc
  panic_if (ltb start mem_reserved_section_min) Panic.pmem_start_region
  panic_if (main_length == 0) Panic.pmem_length_zero
  panic_if (ltb main_length min_mem_size) Panic.pmem_not_enough
  ok (record p {
    initialized = true;
    main_memory_start = start;
    main_memory_length = main_length;
    alloc_start = start_addr_alloc;
    mgr_reserved_size = main_length / phys_block_size;
    mem = mem;
  })

-- What it prints is left out.
pub initialize : Pmem → Result Pmem
unfolding require_mbd
initialize p = do
  mbd ← require_mbd p.mbd
  panic_if (p.kernel_reserved_end_addr == 0) Panic.pmem_end_addr_zero
  panic_if (not (bit_and phys_block_size (phys_block_size - 1) == 0)) Panic.pmem_block_size
  panic_if (bit_and (mbd.flags / 64) 1 == 0) Panic.pmem_memory_map
  region ← skip_kernel p.kernel_reserved_end_addr (largest_region mbd.memory_map (0, 0))
  setup_region p region

pub ptr_to_entry : Pmem → ℕ → Result ℕ
ptr_to_entry p ptr = do
  panic_if (ltb ptr p.alloc_start) Panic.pmem_underflow
  panic_if (ltb (add32 p.alloc_start p.main_memory_length) ptr) Panic.pmem_overflow
  ok (sub32 ptr p.alloc_start / phys_block_size)

pub entry_to_ptr : Pmem → ℕ → Result ℕ
entry_to_ptr p entry = do
  panic_if (ltb p.mgr_reserved_size entry) Panic.pmem_entry_bounds
  ok (add32 (mul32 phys_block_size entry) p.alloc_start)

-- `++pmem_curr_alloc_record`, back to 0 at the end of the list.
pub next_record : Pmem → ℕ → ℕ
next_record p r = let r' = add32 r 1 in if leb p.mgr_reserved_size r' then 0 else r'

-- The `while` loop of `pmem_alloc` and the panic behind it.
pub alloc_scan : ℕ → ℕ → Pmem → Result (ℕ × Pmem)
alloc_scan zero start_record p = diverge
alloc_scan (suc fuel) start_record p =
    let curr = p.curr_alloc_record in
    let record_ptr = add32 p.main_memory_start curr in
    let used = record p { mem = write8 p.mem record_ptr 1 } in
    let found = (do pmem_addr ← entry_to_ptr used curr; ok (pmem_addr, used)) in
    let rest = alloc_scan fuel start_record (record p { curr_alloc_record = next_record p curr }) in
    if start_record == curr
    then panic Panic.pmem_out_of_memory
    else (if p.mem record_ptr == 0 then found else rest)

-- One round for each record, and one for the test that ends the loop.
pub alloc : Pmem → Result (ℕ × Pmem)
alloc p = do
  panic_if (not p.initialized) Panic.pmem_uninitialized
  alloc_scan (p.mgr_reserved_size + 1) p.curr_alloc_record
      (record p { curr_alloc_record = next_record p p.curr_alloc_record })

pub free : ℕ → Pmem → Result Pmem
free ptr p = do
  entry ← ptr_to_entry p ptr
  let record_ptr = add32 p.main_memory_start entry
  panic_if (p.mem record_ptr == 0) Panic.pmem_already_free
  ok (record p { mem = write8 p.mem record_ptr 0 })

-- The loop of `pmem_list_info` that counts the pages in use: the rounds left, then `i`.
pub pages_in_use : Memory → ℕ → ℕ → ℕ → ℕ
pages_in_use mem start zero i = 0
pages_in_use mem start (suc n) i =
    (if mem (add32 start i) == 0 then 0 else 1) + pages_in_use mem start n (i + 1)

-- What `pmem_list_info` prints.
pub record MemoryInfo : Type 0 where
  pub memory_start : ℕ
  pub memory_size_mb : ℕ
  pub in_use : ℕ
  pub total : ℕ
  pub in_use_mb : ℕ

pub list_info : Pmem → MemoryInfo
list_info p =
    let used = pages_in_use p.mem p.main_memory_start p.mgr_reserved_size 0 in
    record {
      memory_start = p.main_memory_start;
      memory_size_mb = p.main_memory_length / 1024 / 1024;
      in_use = used;
      total = p.mgr_reserved_size;
      in_use_mb = mul32 used phys_block_size / 1024 / 1024;
    }
