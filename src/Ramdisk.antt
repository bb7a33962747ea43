-- ===== src/Ramdisk.antt =====
-- kernel/drivers/ramdisk/ramdisk.c: a disk spread over pages of pmem. A page of its own holds the
-- addresses of the pages with the data.
pub mod Access
pub mod Frame
pub mod RoundTrip
pub mod Slice
pub mod Setup
mod Tests
use koiz_os.Base.{
  ℕ, zero, suc, ◌+◌, ◌-◌, ◌*◌, ◌/◌, ◌%◌, Bool, true, false, not, List, [], ◌∷◌, ◌==◌, ltb,
  if◌then◌else◌, length, get_or, set, add32, mul32, u32_mod,
}
use koiz_os.Kernel.{Panic, Result, ok, panic, ◌>>=◌, ◌>>◌, panic_if}
use koiz_os.Kernel.Memory.{Memory, write8, read32, write32}
use koiz_os.Pmem.{Pmem, phys_block_size, alloc, free}

abbrev uint32_max : ℕ
uint32_max = 0xFFFFFFFF

-- The static variables of ramdisk.c over pmem.
pub record Ramdisk : Type 0 where
  pub block_size : ℕ
  pub block_pointers : ℕ
  pub pmem : Pmem

-- The results of an access: 0 and the two errors.
pub data Status : Type 0 where
  success error_out_of_bounds error_overflow : Status

-- The loop of `ramdisk_init`: the rounds left, then `i`.
pub alloc_blocks : ℕ → ℕ → ℕ → Pmem → Result Pmem
alloc_blocks zero i pointers pm = ok pm
alloc_blocks (suc n) i pointers pm = do
  (block, pm') ← alloc pm
  alloc_blocks n (i + 1) pointers
      (record pm' { mem = write32 pm'.mem (add32 pointers (4 * i)) block })

unfoldable pub init : ℕ → Ramdisk → Result Ramdisk
init size_in_bytes d = do
  panic_if (size_in_bytes == 0) Panic.ramdisk_size_zero
  panic_if (not (size_in_bytes % phys_block_size == 0)) Panic.ramdisk_size_unaligned
  panic_if (ltb 0 d.block_size) Panic.ramdisk_in_use
  panic_if (ltb 0 d.block_pointers) Panic.ramdisk_in_use
  let blocks = size_in_bytes / phys_block_size
  panic_if (ltb (phys_block_size / 4) blocks) Panic.ramdisk_too_big
  (pointers, pm) ← alloc d.pmem
  pm' ← alloc_blocks blocks 0 pointers pm
  ok (record { block_size = blocks; block_pointers = pointers; pmem = pm' })

-- The loop of `ramdisk_destroy`: the rounds left, then `i`.
abbrev free_blocks : ℕ → ℕ → ℕ → Pmem → Result Pmem
free_blocks zero i pointers pm = ok pm
free_blocks (suc n) i pointers pm = do
  pm' ← free (read32 pm.mem (add32 pointers (4 * i))) pm
  free_blocks n (i + 1) pointers pm'

unfoldable pub destroy : Ramdisk → Result Ramdisk
destroy d = do
  panic_if (d.block_size == 0) Panic.ramdisk_uninitialized
  panic_if (d.block_pointers == 0) Panic.ramdisk_no_pointers
  pm ← free_blocks d.block_size 0 d.block_pointers d.pmem
  pm' ← free d.block_pointers pm
  ok (record { block_size = 0; block_pointers = 0; pmem = pm' })

-- `current_page_addr + offset` of the loop of `ramdisk_internal_io`.
unfoldable pub byte_addr : ℕ → Memory → ℕ → ℕ
byte_addr pointers mem current_addr =
    add32 (read32 mem (add32 pointers (4 * (current_addr / phys_block_size))))
      (current_addr % phys_block_size)

-- The loop of `ramdisk_internal_io` that reads: the rounds left, then `start_addr + i`.
pub read_bytes : ℕ → ℕ → ℕ → Memory → List ℕ
read_bytes pointers zero current_addr mem = []
read_bytes pointers (suc n) current_addr mem =
    mem (byte_addr pointers mem current_addr) ∷ read_bytes pointers n (add32 current_addr 1) mem

-- The same loop, writing the bytes of `data`.
pub write_bytes : ℕ → List ℕ → ℕ → Memory → Memory
write_bytes pointers [] current_addr mem = mem
write_bytes pointers (byte ∷ bytes) current_addr mem =
    write_bytes pointers bytes (add32 current_addr 1)
      (write8 mem (byte_addr pointers mem current_addr) byte)

-- The checks of `ramdisk_internal_io`.
pub check : Ramdisk → ℕ → ℕ → Result Status
check d start_addr data_size = do
  panic_if (d.block_size == 0) Panic.ramdisk_uninitialized
  if ltb (mul32 d.block_size phys_block_size) (add32 start_addr data_size)
      then ok error_out_of_bounds
      else ok (if ltb (uint32_max - data_size) start_addr then error_overflow else success)

-- `ramdisk_read` returns its status and what it stores at `data`, nothing on an error.
pub read : Ramdisk → ℕ → ℕ → Result (Status × List ℕ)
read d start_addr data_size = do
  status ← check d start_addr data_size
  elim status [
    | success ↦ ok (success, read_bytes d.block_pointers data_size start_addr d.pmem.mem)
    | failed ↦ ok (failed, [])
  ]

-- The list is the `data_size` bytes at `data`.
pub write : Ramdisk → ℕ → List ℕ → Result (Status × Ramdisk)
write d start_addr bytes = do
  status ← check d start_addr (length bytes)
  elim status [
    | success ↦ ok (
      success,
      record d {
        pmem = (record (d.pmem) { mem = write_bytes d.block_pointers bytes start_addr d.pmem.mem });
      },
    )
    | failed ↦ ok (failed, d)
  ]
