-- ===== src/Commands/Reading.antt =====
-- The command `read` (kernel/shell/filesystem/sh_read.c): a file through a buffer of the heap.
use koiz_os.Base.{
  ℕ, ◌+◌, ◌≤◌, ◌<◌, ◌≡◌, false, List, ◌∷◌, ◌++◌, All, some, none, Option, ◌==◌, ltb, length,
  length-append, arith, refl, ap, ◌∙◌, u32_mod,
}
use koiz_os.Base.Text.{codes}
use koiz_os.Kernel.{Panic, ok, panic}
use koiz_os.Pmem.{Pmem}
use koiz_os.Strings.Compare.{Text, IsChar}
use koiz_os.Malloc.{Slab, State, malloc, free, free_in}
use koiz_os.Ramdisk.{Ramdisk}
use koiz_os.Ramdisk.Slice.{slice}
use koiz_os.Fat16.{fat_success, file_read, read_sector, root_addr, cluster_count}
use koiz_os.Fat16.Record.{decode}
use koiz_os.Fat16.Device.{IsDisk, view, read_into-slice}
use koiz_os.Fat16.Save.{data_addr}
use koiz_os.Fat16.Search.{file_exists-first}
use koiz_os.Fat16.Lookup.{Absent, FirstMatch, Absent-entry_of, FirstMatch-entry_of}
use koiz_os.Fs.{fs_file_exists, fs_file_read}
use koiz_os.Process.Execve.{store, load}
use koiz_os.Commands.{
  World, Junk, text, memory, print, with_disk, heap, with_heap, arg, failure, sh_read,
}
use koiz_os.Commands.Files.{string_at-Text, store-Text}

-- The cluster in an entry of the directory.
abbrev pub cluster_at : ℕ → Ramdisk → ℕ
cluster_at k d = (decode (slice (view d) (root_addr k) 32)).low_cluster

file_read-found :
    (junk name old : List ℕ) (d : Ramdisk) (k : ℕ)
    → IsDisk d
    → FirstMatch name d k
    → cluster_at k d < cluster_count
    → file_read junk name old 0 d
      ≡ ok (fat_success, slice (view d) (data_addr (cluster_at k d)) 512)
unfolding file_read read_sector
file_read-found junk name old d k disk there hc =
    let exists = file_exists-first junk name disk ∙ ap ok (FirstMatch-entry_of name d k there) in
    let found : (k == 0) ≡ false = ground (arith, there.low) in
    rw (exists, found, read_into-slice junk (root_addr k) 32 disk (omega (arith, there.high)))
      (rw (read_into-slice old (data_addr (cluster_at k d)) 512 disk (omega arith)) refl)

-- `free` does not look at pmem.
free-pmem :
    (ptr : ℕ) (s s' : State) (pm : Pmem)
    → free ptr s ≡ ok s'
    → free ptr (record s { pmem = pm }) ≡ ok (record s' { pmem = pm })
unfolding free
free-pmem ptr s s' pm e =
    elim (free_in s.slabs ptr)
        as (λ (found : Option (List Slab)).
          elim found [
            | some slabs ↦ ok (record s { slabs = slabs })
            | none ↦ panic Panic.free_unknown
          ]
            ≡ ok s'
          → elim found [
            | some slabs ↦ ok (record s { slabs = slabs; pmem = pm })
            | none ↦ panic Panic.free_unknown
          ]
            ≡ ok (record s' { pmem = pm })) [ some slabs ↦ λ e. cc | none ↦ λ e. cc ]
      e

-- The disk with the first sector of a file in the buffer.
abbrev pub loaded : ℕ → List ℕ → Ramdisk → Ramdisk
loaded buffer sector d = record d {
  pmem = record (d.pmem) { mem = store buffer sector d.pmem.mem };
}

-- What `read` prints of a file.
abbrev pub shown : List ℕ → World → World
shown contents w = print (text (contents ++ codes "\n")) w

module _ (junk : Junk) (argc : ℕ) (argv : List ℕ) (w : World) (name : List ℕ) (enough : 2 ≤ argc)
    (buffer : ℕ) (s : State) (allocated : malloc 4096 (heap w) ≡ ok (buffer, s))
    (named : Text (memory (with_heap s w)) (arg argv 1) name) (short_name : length name < u32_mod)
    (disk : IsDisk (with_heap s w).system.disk) where
  abbrev d1 : Ramdisk
  d1 = (with_heap s w).system.disk

  -- `read` with a name, on a disk of 1024 pages that do not overlap, when the heap has a buffer to
  -- give. When each of the entries 1 to 31 of the directory that is in use has a character larger
  -- than the one of the name at its place, both in the directory's form of 11 characters, the file
  -- does not exist, and the buffer is not given back. Otherwise the first of those entries without
  -- such a character is read: when its first sector lies on the disk and holds a string and its
  -- terminator, the string is printed, and the buffer, if it can be given back, is; nothing but the
  -- heap and the bytes stored in the buffer changes.
  pub sh_read_outcome :
      (Absent name d1
        → sh_read junk argc argv w
          ≡ ok (failure, print (text (codes "file does not exist\n")) (with_heap s w)))
      × ((k : ℕ) (contents more : List ℕ) (s' : State)
          → FirstMatch name d1 k
          → cluster_at k d1 < cluster_count
          → slice (view d1) (data_addr (cluster_at k d1)) 512 ≡ contents ++ (0 ∷ more)
          → All IsChar contents
          → buffer + length (contents ++ (0 ∷ more)) < u32_mod
          → free buffer s ≡ ok s'
          → sh_read junk argc argv w
            ≡ ok (
              0,
              record (shown contents
                  (with_disk (loaded buffer (contents ++ (0 ∷ more)) d1) (with_heap s w))) {
                    slabs = s'.slabs;
                  },
            ))
  unfolding sh_read fs_file_exists load fs_file_read
  sh_read_outcome =
      let test : ltb argc 2 ≡ false = ground (arith, enough) in
      let read_name =
        string_at-Text u32_mod (arg argv 1) name (memory (with_heap s w)) short_name named in
      let exists = file_exists-first junk.bytes name disk in
      (
        λ absent.
            let none_found = exists ∙ ap ok (Absent-entry_of name d1 absent) in
            rw (test, allocated, read_name, none_found) refl,
        λ k contents more s' there hc sector fine fits given_back.
            let found_at = exists ∙ ap ok (FirstMatch-entry_of name d1 k there) in
            let found : (k == 0) ≡ false = ground (arith, there.low) in
            let old = slice d1.pmem.mem buffer 512 in
            let bytes =
              file_read-found junk.bytes name old d1 k disk there hc
              ∙ ap (λ b. ok (fat_success, b)) sector in
            let d2 = loaded buffer (contents ++ (0 ∷ more)) d1 in
            let filled =
              string_at-Text u32_mod buffer contents d2.pmem.mem
                (omega (arith, fits, length-append contents (0 ∷ more)))
                (store-Text buffer contents more d1.pmem.mem fits fine) in
            rw
              (
                test,
                allocated,
                read_name,
                found_at,
                found,
                bytes,
                filled,
                free-pmem buffer s s' d2.pmem given_back,
              )
              refl,
      )
