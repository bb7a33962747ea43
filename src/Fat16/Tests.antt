-- ===== src/Fat16/Tests.antt =====
-- The theorems on ramdisk_fat16.c at a disk with one used cluster and no files.
use koiz_os.Base.{replicate, get_or, ◌⊎◌, ℕ, ◌≡◌, ◌≢◌, [], ◌∷◌, ◌++◌, List, arith, refl, take}
use koiz_os.Kernel.{Panic, ok, panic}
use koiz_os.Pmem.Valid.{IsValid}
use koiz_os.Fat16.Formatted.{IsFormatted, first_file, init_outcome}
use koiz_os.Kernel.Memory.{read32}
use koiz_os.Ramdisk.{Ramdisk, byte_addr}
use koiz_os.Fat16.{init, format, fat_success, file_read, file_write, filename_to_native}
use koiz_os.Fat16.Record.{Entry}
use koiz_os.Fat16.Example.{disk, disk-IsDisk}
use koiz_os.Fat16.Names.{stem, extension, fill, filename_to_native-fill}
use koiz_os.Fat16.Search.{first}
use koiz_os.Fat16.Save.{StoresFile}
use koiz_os.Fat16.Lookup.{entry_of, Absent, entry_of-Absent}
use koiz_os.Fat16.Files.{free_cluster, free_entry, file_write-StoresFile, file_read-file_write}

-- "A.B"
abbrev file_name : List ℕ
file_name = 65 ∷ 46 ∷ 66 ∷ []

disk_search : entry_of file_name disk ≡ 0
unfolding first byte_addr read32
disk_search = refl

disk-Absent : Absent file_name disk
disk-Absent = entry_of-Absent file_name disk disk_search

disk-cluster : free_cluster disk ≡ 1
unfolding first byte_addr read32
disk-cluster = refl

disk-entry : free_entry disk ≡ 1
unfolding first byte_addr read32
disk-entry = refl

abbrev junk : Entry
junk = record {
  entry_name = 65 ∷ 32 ∷ 32 ∷ 32 ∷ 32 ∷ 32 ∷ 32 ∷ 32 ∷ 66 ∷ 32 ∷ 32 ∷ [];
  attrib = 0;
  reserved = 0;
  creation_time_tenth_secs = 1;
  creation_time = 0x1234;
  creation_date = 2;
  last_accessed_date = 3;
  high_cluster = 0;
  last_mod_time = 4;
  last_mod_date = 5;
  low_cluster = 300;
  file_size = 0x12345;
}

filename_to_native-fill_example :
    filename_to_native (65 ∷ 46 ∷ 66 ∷ [])
    ≡ fill 8 (stem (65 ∷ 46 ∷ 66 ∷ [])) ++ fill 3 (extension (65 ∷ 46 ∷ 66 ∷ []))
filename_to_native-fill_example = filename_to_native-fill (65 ∷ 46 ∷ 66 ∷ [])

file_write-StoresFile_example :
    (d' : Ramdisk) × (file_write [] junk file_name (7 ∷ 8 ∷ []) disk ≡ ok (fat_success, d'))
    × StoresFile junk file_name (7 ∷ 8 ∷ []) (free_cluster disk) (free_entry disk) disk d'
file_write-StoresFile_example =
    file_write-StoresFile [] junk file_name (7 ∷ 8 ∷ []) disk-IsDisk (omega arith) disk-Absent
      (omega (arith, disk-cluster))

file_read-file_write_example :
    (d' : Ramdisk) × (file_write [] junk file_name (7 ∷ 8 ∷ []) disk ≡ ok (fat_success, d'))
    × (sector : List ℕ) × (file_read [] file_name [] 0 d' ≡ ok (fat_success, sector))
    × (take 2 sector ≡ 7 ∷ 8 ∷ [])
file_read-file_write_example =
    file_read-file_write [] [] [] junk file_name (7 ∷ 8 ∷ []) disk-IsDisk (omega arith)
      (omega arith) disk-Absent (omega (arith, disk-cluster)) (omega (arith, disk-entry))

-- A boot record that is only its magic number, and what lies behind `starting_sectors`.
abbrev boot_record : List ℕ
boot_record = replicate 510 0 ++ (0x55 ∷ 0xAA ∷ [])

abbrev stack : List ℕ
stack = replicate 508 7

first_file_example :
    (d1 : Ramdisk) × (format boot_record stack disk ≡ ok d1)
    × (d2 : Ramdisk) × (file_write [] junk file_name (104 ∷ 105 ∷ []) d1 ≡ ok (fat_success, d2))
    × (sector : List ℕ) × (file_read [] file_name [] 0 d2 ≡ ok (fat_success, sector))
    × (take 2 sector ≡ 104 ∷ 105 ∷ [])
first_file_example =
    first_file boot_record stack [] [] [] junk file_name (104 ∷ 105 ∷ []) disk (omega arith)
      (omega arith) disk-IsDisk (omega arith) (omega arith)

-- The kernel before its disk is made.
abbrev no_disk : Ramdisk
no_disk = record disk {
  block_size = 0;
  block_pointers = 0;
  pmem = record (disk.pmem) {
    main_memory_length = 0x20000;
    mgr_reserved_size = 32;
    alloc_start = 0x2000;
    mem = λ a. 0;
  };
}

no_disk-IsValid : IsValid no_disk.pmem
no_disk-IsValid = ground arith

init_outcome_example :
    (get_or boot_record 510 0 ≡ 0x55
      → get_or boot_record 511 0 ≡ 0xAA
      → ((d' : Ramdisk) × (init boot_record stack no_disk ≡ ok d')
          × IsFormatted boot_record stack d')
        ⊎ (init boot_record stack no_disk ≡ panic Panic.pmem_out_of_memory))
    × ((get_or boot_record 510 0 ≢ 0x55) ⊎ (get_or boot_record 511 0 ≢ 0xAA)
        → init boot_record stack no_disk ≡ panic Panic.fat16_magic)
init_outcome_example =
    init_outcome boot_record stack no_disk (omega arith) (omega arith) no_disk-IsValid refl refl
