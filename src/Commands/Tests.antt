-- ===== src/Commands/Tests.antt =====
-- The theorems on the commands of the shell in an example kernel.
use koiz_os.Base.{inl, ℕ, ◌+◌, ◌≤◌, ◌<◌, ◌≡◌, ◌≢◌, List, [], ◌∷◌, ◌++◌, All, length, arith, u32_mod}
use koiz_os.Base.Text.{codes}
use koiz_os.Kernel.{ok}
use koiz_os.Strings.Compare.{IsChar}
use koiz_os.Malloc.{State, free}
use koiz_os.Ramdisk.{Ramdisk}
use koiz_os.Ramdisk.Frame.{Off}
use koiz_os.Ramdisk.Slice.{slice}
use koiz_os.Fat16.{cluster_count}
use koiz_os.Fat16.Device.{view}
use koiz_os.Fat16.Save.{StoresFile, data_addr}
use koiz_os.Fat16.Lookup.{Absent, FirstMatch}
use koiz_os.Fat16.Files.{free_cluster, free_entry}
use koiz_os.Commands.{text, print, with_disk, with_heap, failure, sh_write, sh_read}
use koiz_os.Commands.Files.{wrote, sh_write_outcome}
use koiz_os.Commands.Reading.{cluster_at, loaded, shown, sh_read_outcome}
use koiz_os.Commands.Example.{kernel_memory, kernel_memory-block, world, junk, disk, disk-IsDisk}
use koiz_os.Malloc.Example.{used_slab, malloc-slab}

abbrev write_args : List ℕ
write_args = 0x5010 ∷ 0x5090 ∷ 0x50A0 ∷ []

-- The name is in no page of the disk: those begin at 0x100000.
name-Off : (a : ℕ) → 0x5090 ≤ a → a ≤ 0x5091 → Off kernel_memory 0x1000 1024 a
name-Off a lo hi k hk = inl (omega (arith, kernel_memory-block k hk))

sh_write_outcome_example :
    ((k : ℕ)
      → FirstMatch (codes "a") disk k
      → sh_write junk 3 write_args world ≡ ok (0, wrote (codes "a") 2 world))
    × (Absent (codes "a") disk
        → free_cluster disk ≡ 0
        → sh_write junk 3 write_args world ≡ ok (0, wrote (codes "a") 2 world))
    × (Absent (codes "a") disk
        → free_cluster disk ≢ 0
        → length (codes "hi") ≤ 512
        → (d : Ramdisk) × StoresFile junk.entry
            (codes "a")
            (codes "hi")
            (free_cluster disk)
            (free_entry disk)
            disk
            d
          × (sh_write junk 3 write_args world ≡ ok (0, wrote (codes "a") 2 (with_disk d world))))
sh_write_outcome_example =
    sh_write_outcome junk 3 write_args world (codes "a") (codes "hi") (omega arith) (omega arith)
      (omega arith) (omega arith) (omega arith) disk-IsDisk (omega arith) name-Off

abbrev heap_after : State
heap_after = record { slabs = used_slab ∷ []; pmem = disk.pmem }

sh_read_outcome_example :
    (Absent (codes "a") disk
      → sh_read junk 2 (0x5020 ∷ 0x5090 ∷ []) world
        ≡ ok (failure, print (text (codes "file does not exist\n")) (with_heap heap_after world)))
    × ((k : ℕ) (contents more : List ℕ) (s' : State)
        → FirstMatch (codes "a") disk k
        → cluster_at k disk < cluster_count
        → slice (view disk) (data_addr (cluster_at k disk)) 512 ≡ contents ++ (0 ∷ more)
        → All IsChar contents
        → 0x7000 + length (contents ++ (0 ∷ more)) < u32_mod
        → free 0x7000 heap_after ≡ ok s'
        → sh_read junk 2 (0x5020 ∷ 0x5090 ∷ []) world
          ≡ ok (
            0,
            record (shown contents (
                with_disk
                  (loaded 0x7000 (contents ++ (0 ∷ more)) disk)
                  (with_heap heap_after world))) { slabs = s'.slabs },
          ))
sh_read_outcome_example =
    sh_read_outcome junk 2 (0x5020 ∷ 0x5090 ∷ []) world (codes "a") (omega arith) 0x7000 heap_after
      (malloc-slab disk.pmem) (omega arith) (omega arith) disk-IsDisk
