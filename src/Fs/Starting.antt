-- ===== src/Fs/Starting.antt =====
-- `fs_load_starting_files` (kernel/fs/fs.c): the starting file can be read back.
use koiz_os.Base.{ℕ, ◌≡◌, ◌≢◌, List, take, arith, refl}
use koiz_os.Kernel.{ok, panic, Panic}
use koiz_os.Ramdisk.{Ramdisk}
use koiz_os.Fat16.{fat_success}
use koiz_os.Fat16.Record.{Entry}
use koiz_os.Fat16.Device.{IsDisk}
use koiz_os.Fat16.Lookup.{Absent, FirstMatch}
use koiz_os.Fat16.Files.{free_cluster, free_entry, file_write_refused, file_read-file_write}
use koiz_os.Fs.{starting_name, starting_contents, load_starting_files, fs_file_read}

-- On a disk of 1024 pages that do not overlap: when each of the entries 1 to 31 of the directory
-- that is in use has a character larger than the one of the name of the starting file at its place,
-- both in the directory's form of 11 characters, and a cluster and an entry are free, the file is
-- loaded, and reads back as its contents. When one of the entries 1 to 31 in use has no such
-- character, and when all have one and no cluster is free, the kernel panics.
pub load_starting_files_outcome :
    (junk_bytes other_junk old : List ℕ) (junk : Entry) {d : Ramdisk}
    → IsDisk d
    → (Absent starting_name d
        → free_cluster d ≢ 0
        → free_entry d ≢ 0
        → (d' : Ramdisk) × (load_starting_files junk_bytes junk d ≡ ok d')
          × (sector : List ℕ) × (fs_file_read other_junk starting_name old 0 d'
              ≡ ok (fat_success, sector))
          × (take 54 sector ≡ starting_contents))
      × ((k : ℕ)
          → FirstMatch starting_name d k
          → load_starting_files junk_bytes junk d ≡ panic Panic.fs_starting_files)
      × (Absent starting_name d
          → free_cluster d ≡ 0
          → load_starting_files junk_bytes junk d ≡ panic Panic.fs_starting_files)
unfolding load_starting_files fs_file_read
load_starting_files_outcome junk_bytes other_junk old junk {d} disk =
    let (there, full) = file_write_refused junk_bytes junk starting_name starting_contents disk in
    (
      λ absent cluster entry.
          let (d', e, sector, e2, same) =
            file_read-file_write junk_bytes other_junk old junk starting_name starting_contents disk
              (omega arith) (omega arith) absent cluster entry in
          (d', rw e refl, sector, e2, same),
      λ k present. rw (there k present) refl,
      λ absent none_left. rw (full absent none_left) refl,
    )
