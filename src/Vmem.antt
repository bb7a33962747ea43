-- ===== src/Vmem.antt =====
-- kernel/drivers/memory/vmem.c: page tables in pages of pmem. A table is 1024 words of four bytes.
pub mod Table
pub mod Identity
pub mod Translate
mod Tests
use koiz_os.Base.{
  ℕ, zero, suc, ◌+◌, ◌*◌, ◌/◌, ◌%◌, ◌^◌, bit_and, bit_or, not, ◌==◌, ltb, if◌then◌else◌, add32,
  u32_mod,
}
use koiz_os.Kernel.{Panic, Result, ok, panic, ◌>>=◌, ◌>>◌, panic_if}
use koiz_os.Kernel.Memory.{Memory, read32, write32}
use koiz_os.Pmem.{Pmem, phys_block_size, alloc}

-- A loop that stores `word j` at `table[j]`: the rounds left, then `j`.
pub fill_table : (ℕ → ℕ) → ℕ → ℕ → ℕ → Memory → Memory
fill_table word zero j table mem = mem
fill_table word (suc n) j table mem =
    fill_table word n (j + 1) table (write32 mem (add32 table (4 * j)) (word j))

-- `vmem_ptable_new`: a zeroed page, with its address.
pub ptable_new : Pmem → Result (ℕ × Pmem)
ptable_new pm = do
  (ptr, pm') ← alloc pm
  panic_if (not (bit_and ptr 0xFFF == 0)) Panic.vmem_unaligned
  panic_if (ltb phys_block_size (4 * 1024)) Panic.vmem_block_size
  ok (ptr, record pm' { mem = fill_table (λ _. 0) 1024 0 ptr pm'.mem })

-- `vmem_get_phys_addr`; the result 0 says that the address is not mapped.
pub get_phys_addr : Memory → ℕ → ℕ → Result ℕ
get_phys_addr mem page_directory virtual_addr = do
  let page_dir_entry = virtual_addr / 2 ^ 22
  let page_table_entry = bit_and (virtual_addr / 2 ^ 12) 0x03FF
  panic_if (ltb 1024 page_dir_entry) Panic.vmem_dir_index
  panic_if (ltb 1024 page_table_entry) Panic.vmem_table_index
  panic_if (page_directory == 0) Panic.vmem_no_directory
  let dir_word = read32 mem (add32 page_directory (4 * page_dir_entry))
  let page_table_addr = bit_and dir_word 0xFFFFF000
  let table_word = read32 mem (add32 page_table_addr (4 * page_table_entry))
  if dir_word == 0
      then ok 0
      else (if table_word == 0
          then ok 0
          else ok (add32 (bit_and table_word 0xFFFFF000) (bit_and virtual_addr 0xFFF)))

-- The word that `vmem_init` stores at `kernel_pt[j]` of the table `i`.
pub identity_word : ℕ → ℕ → ℕ
identity_word i j =
    bit_or (bit_and (bit_or (i * 2 ^ 22 % u32_mod) (j * 2 ^ 12 % u32_mod)) 0xFFFFF000) 7

-- One round of the outer loop of `vmem_init`.
pub map_table : ℕ → ℕ → Pmem → Result Pmem
map_table base_ptr i pm = do
  (kernel_pt, pm') ← ptable_new pm
  let linked = write32 pm'.mem (add32 base_ptr (4 * i)) (bit_or kernel_pt 7)
  ok (record pm' { mem = fill_table (identity_word i) 1024 0 kernel_pt linked })

-- The rounds left, then `i`.
pub map_tables : ℕ → ℕ → ℕ → Pmem → Result Pmem
map_tables zero i base_ptr pm = ok pm
map_tables (suc n) i base_ptr pm = do
  pm' ← map_table base_ptr i pm
  map_tables n (i + 1) base_ptr pm'

-- `vmem_init`: the address of the page directory, and the memory. Loading it into the processor
-- (`vmem_enable_page_dir`, in pagedir.asm) is left out.
unfoldable pub init : Pmem → Result (ℕ × Pmem)
init pm = do
  (base_ptr, pm') ← ptable_new pm
  pm'' ← map_tables 1024 0 base_ptr pm'
  ok (base_ptr, pm'')
