-- ===== src/Ramdisk/Tests.antt =====
-- The theorems on ramdisk.c at a disk of one page: the page of pointers is at 0x1000, the data at
-- 0x2000.
use koiz_os.Base.{◌*◌, ◌≡◌, ◌⊎◌, [], ◌∷◌, true, none, arith, ◌==◌, if◌then◌else◌, refl}
use koiz_os.Kernel.{Result, ok, panic, Panic}
use koiz_os.Kernel.Memory.{Memory}
use koiz_os.Ramdisk.{Ramdisk, success, write, init}
use koiz_os.Ramdisk.Access.{Layout}
use koiz_os.Pmem.Valid.{IsValid}
use koiz_os.Ramdisk.Setup.{Blocks, init-Layout}
use koiz_os.Ramdisk.RoundTrip.{Stored, write-Stored}

abbrev one_page : Ramdisk
one_page = record {
  block_size = 1;
  block_pointers = 0x1000;
  pmem = record {
    initialized = true;
    main_memory_start = 0x1000;
    main_memory_length = 0x2000;
    alloc_start = 0x1000;
    mgr_reserved_size = 2;
    curr_alloc_record = 0;
    mbd = none;
    kernel_reserved_end_addr = 0x1000;
    mem = λ a. if a == 0x1001 then 0x20 else 0;
  };
}

one_page-Layout : Layout one_page.pmem.mem 0x1000 1
unfolding koiz_os.Kernel.Memory.read32
one_page-Layout = record {
  few = omega arith;
  room = omega arith;
  inside = λ k h. ground arith;
  off_table = λ k h. ground arith;
  apart = λ k l hk hl ne. absurd (ne (omega arith));
}

write-Stored_example :
    (d' : Ramdisk) × (write one_page 0xFFD (7 ∷ 8 ∷ 9 ∷ []) ≡ ok (success, d'))
    × Stored one_page d' 0xFFD (7 ∷ 8 ∷ 9 ∷ [])
write-Stored_example =
    write-Stored one_page 0xFFD (7 ∷ 8 ∷ 9 ∷ []) one_page-Layout (omega arith) (omega arith)

-- No disk yet, over a memory of 16 pages.
abbrev no_disk : Ramdisk
no_disk = record {
  block_size = 0;
  block_pointers = 0;
  pmem = record {
    initialized = true;
    main_memory_start = 0x100000;
    main_memory_length = 0x10000;
    alloc_start = 0x101000;
    mgr_reserved_size = 16;
    curr_alloc_record = 0;
    mbd = none;
    kernel_reserved_end_addr = 0x100000;
    mem = λ a. 0;
  };
}

no_disk-IsValid : IsValid no_disk.pmem
no_disk-IsValid = ground arith

init-Layout_example :
    ((d' : Ramdisk) × (init (4 * 4096) no_disk ≡ ok d')
      × (d'.block_size ≡ 4)
      × Blocks d'.pmem d'.block_pointers 4
      × Layout d'.pmem.mem d'.block_pointers 4)
    ⊎ (init (4 * 4096) no_disk ≡ panic Panic.pmem_out_of_memory)
init-Layout_example = init-Layout no_disk 4 no_disk-IsValid refl refl (omega arith) (omega arith)
