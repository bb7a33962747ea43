-- ===== src/Fs/Tests.antt =====
-- The theorem on fs.c at a disk with no files.
use koiz_os.Base.{ℕ, ◌≡◌, ◌≢◌, List, [], take}
use koiz_os.Kernel.{ok, panic, Panic}
use koiz_os.Ramdisk.{Ramdisk}
use koiz_os.Fat16.{fat_success}
use koiz_os.Fat16.Record.{Entry, decode}
use koiz_os.Fat16.Lookup.{Absent, FirstMatch}
use koiz_os.Fat16.Files.{free_cluster, free_entry}
use koiz_os.Fat16.Example.{disk, disk-IsDisk}
use koiz_os.Fs.{starting_name, starting_contents, load_starting_files, fs_file_read}
use koiz_os.Fs.Starting.{load_starting_files_outcome}

abbrev junk : Entry
junk = decode []

load_starting_files_outcome_example :
    (Absent starting_name disk
      → free_cluster disk ≢ 0
      → free_entry disk ≢ 0
      → (d' : Ramdisk) × (load_starting_files [] junk disk ≡ ok d')
        × (sector : List ℕ) × (fs_file_read [] starting_name [] 0 d' ≡ ok (fat_success, sector))
        × (take 54 sector ≡ starting_contents))
    × ((k : ℕ)
        → FirstMatch starting_name disk k
        → load_starting_files [] junk disk ≡ panic Panic.fs_starting_files)
    × (Absent starting_name disk
        → free_cluster disk ≡ 0
        → load_starting_files [] junk disk ≡ panic Panic.fs_starting_files)
load_starting_files_outcome_example = load_starting_files_outcome [] [] [] junk disk-IsDisk
