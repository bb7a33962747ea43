-- ===== src/Kernel.antt =====
-- What the parts of the kernel share: the outcome of a call, with the panics of kernel/ as values,
-- and the physical memory that pmem, vmem, the ramdisk and the IO buffers read and write.
pub mod Memory
use koiz_os.Base.{ℕ, Bool, true, false, ◌≡◌, refl}

-- One constructor for each `panic(...)` call of the functions that are modelled. `overrun` is a write
-- behind an array, which the program does not notice and whose effect C leaves undefined.
pub data Panic : Type 0 where
  pmem_mbd_unset pmem_end_addr_zero pmem_block_size pmem_memory_map pmem_no_space : Panic
  pmem_start_region pmem_length_zero pmem_not_enough : Panic
  pmem_underflow pmem_overflow pmem_entry_bounds : Panic
  pmem_uninitialized pmem_out_of_memory pmem_already_free : Panic
  malloc_page_overflow malloc_max_entries malloc_page_wrap : Panic
  malloc_too_large malloc_no_slot malloc_exhausted free_unknown : Panic
  vmem_unaligned vmem_block_size vmem_dir_index vmem_table_index vmem_no_directory : Panic
  ramdisk_size_zero ramdisk_size_unaligned ramdisk_in_use ramdisk_too_big : Panic
  ramdisk_uninitialized ramdisk_no_pointers : Panic
  stdio_reentered stdio_head_moved stdio_overflow : Panic
  fat16_magic fat16_partial_write : Panic
  process_memory_leak sched_null_process : Panic
  sched_no_head sched_not_found sched_bad_priority : Panic
  idt_misconfigured fs_starting_files : Panic
  overrun : Panic

-- `diverge` is a loop that never ends (its fuel ran out).
pub data Result {ℓ} (A : Type ℓ) : Type ℓ where
  ok : A → Result A
  panic : Panic → Result A
  diverge : Result A

infixl 5 ◌>>=◌ ◌>>◌
abbrev pub ◌>>=◌ {ℓ κ} : {A : Type ℓ} {B : Type κ} → Result A → (A → Result B) → Result B
ok a >>= f = f a
panic e >>= f = panic e
diverge >>= f = diverge

abbrev pub ◌>>◌ {ℓ} : {B : Type ℓ} → Result (Unit {0}) → Result B → Result B
m >> k = m >>= λ _. k

-- `if(test) panic(...)`
abbrev pub panic_if : Bool → Panic → Result (Unit {0})
panic_if true e = panic e
panic_if false e = ok tt
