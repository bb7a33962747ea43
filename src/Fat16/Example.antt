-- ===== src/Fat16/Example.antt =====
-- A ramdisk for tests of kernel/fs/ramdisk_fat16.c, with one used cluster and no files: its page of
-- pointers is at 0x1000, its data at 0x100000.
use koiz_os.Base.{
  ℕ, ◌+◌, ◌-◌, ◌*◌, ◌/◌, ◌%◌, ◌<◌, ◌≡◌, ◌==◌, leb, ltb, ◌&&◌, true, arith, refl, none,
  if◌then◌else◌,
}
use koiz_os.Kernel.Memory.{Memory, read32}
use koiz_os.Ramdisk.{Ramdisk}
use koiz_os.Ramdisk.Access.{block}
use koiz_os.Fat16.Device.{IsDisk}

-- The byte `i` of the address of the page `k` of the data.
abbrev pointer_byte : ℕ → ℕ → ℕ
pointer_byte k i = if i == 1 then 16 * k % 256 else (if i == 2 then 16 + k / 16 else 0)

abbrev pages : Memory
pages a =
    if leb 0x1000 a && ltb a 0x2000
    then pointer_byte ((a - 0x1000) / 4) ((a - 0x1000) % 4)
    else (if a == 0x100200 then 0xF8 else 0)

pages-block : (k : ℕ) → k < 1024 → block pages 0x1000 k ≡ 0x100000 + 4096 * k
unfolding read32
pages-block k h = ground arith

abbrev pub disk : Ramdisk
disk = record {
  block_size = 1024;
  block_pointers = 0x1000;
  pmem = record {
    initialized = true;
    main_memory_start = 0x1000;
    main_memory_length = 0x600000;
    alloc_start = 0x1000;
    mgr_reserved_size = 2;
    curr_alloc_record = 0;
    mbd = none;
    kernel_reserved_end_addr = 0x1000;
    mem = pages;
  };
}

pub disk-IsDisk : IsDisk disk
disk-IsDisk = record {
  sized = refl;
  layout = record {
    few = omega arith;
    room = omega arith;
    inside = λ k h. omega (arith, pages-block k h);
    off_table = λ k h. omega (arith, pages-block k h);
    apart = λ k l hk hl ne. omega (arith, pages-block k hk, pages-block l hl, ne);
  };
}
