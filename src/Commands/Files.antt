-- ===== src/Commands/Files.antt =====
-- The commands `write` and `read` (kernel/shell/filesystem): what they do to the files.
use koiz_os.Base.{
  ℕ, zero, suc, ◌+◌, ◌≤◌, ◌<◌, ◌≡◌, ◌≢◌, true, false, List, [], ◌∷◌, ◌++◌, All, ◌==◌, ltb, length,
  arith, refl, subst, ap, ◌∙◌, add32, u32_mod,
}
use koiz_os.Base.Text.{codes}
use koiz_os.Kernel.{Result, ok, ◌>>=◌}
use koiz_os.Kernel.Memory.{Memory, write8}
use koiz_os.Strings.Compare.{Text-agree, Text, IsChar, strlen_lem}
use koiz_os.Ramdisk.{Ramdisk}
use koiz_os.Ramdisk.Frame.{Off}
use koiz_os.Ramdisk.Slice.{slice}
use koiz_os.Fat16.{FatStatus, fat_success, exists_already, no_free_space, file_write}
use koiz_os.Fat16.Device.{IsDisk}
use koiz_os.Fat16.Save.{StoresFile}
use koiz_os.Fat16.Lookup.{Absent, FirstMatch}
use koiz_os.Fat16.Files.{free_cluster, free_entry, file_write_refused, file_write-StoresFile}
use koiz_os.Fs.{fs_file_write}
use koiz_os.Process.Execve.{store}
use koiz_os.Commands.{
  World, Junk, text, number, memory, print, with_disk, string_at, c_string, arg, sh_write,
}

pub string_at-Text :
    (fuel p : ℕ) (xs : List ℕ) (mem : Memory)
    → length xs < fuel
    → Text mem p xs
    → string_at fuel p mem ≡ ok xs
unfolding string_at
string_at-Text zero p xs mem enough h = absurd (omega arith)
string_at-Text (suc fuel) p [] mem enough h =
    let test : (mem p == 0) ≡ true = ground (arith, h) in rw test refl
string_at-Text (suc fuel) p (x ∷ xs) mem enough (here, char, h) =
    let test : (mem p == 0) ≡ false = ground (arith, here, char) in
    rw (test, string_at-Text fuel (add32 p 1) xs mem (omega arith) h) (ap (λ c. ok (c ∷ xs)) here)

slice-Text :
    (mem : Memory) (p : ℕ) (xs : List ℕ)
    → p + length xs < u32_mod
    → Text mem p xs
    → slice mem p (length xs) ≡ xs
slice-Text mem p [] fits h = refl
slice-Text mem p (x ∷ xs) fits (here, char, h) =
    let next : add32 p 1 ≡ p + 1 = omega arith in
    let rest = slice-Text mem (p + 1) xs (omega arith) (subst (λ q. Text mem q xs) next h) in cc

store-before :
    (at : ℕ) (bytes : List ℕ) (mem : Memory) (b : ℕ)
    → at + length bytes < u32_mod
    → b < at
    → store at bytes mem b ≡ mem b
unfolding store
store-before at [] mem b fits h = refl
store-before at (x ∷ bytes) mem b fits h =
    let away : (at == b) ≡ false = ground arith in
    let next : add32 at 1 ≡ at + 1 = omega arith in
    store-before (add32 at 1) bytes (write8 mem at x) b (omega (arith, next)) (omega (arith, next))
    ∙ rw away refl

store-here :
    (at x : ℕ) (bytes : List ℕ) (mem : Memory)
    → at + suc (length bytes) < u32_mod
    → store at (x ∷ bytes) mem at ≡ x
unfolding store
store-here at x bytes mem fits =
    let here : (at == at) ≡ true = ground arith in
    store-before (add32 at 1) bytes (write8 mem at x) at (omega arith) (omega arith) ∙ rw here refl

-- A string that ends within the bytes that are stored.
pub store-Text :
    (at : ℕ) (xs more : List ℕ) (mem : Memory)
    → at + length (xs ++ (0 ∷ more)) < u32_mod
    → All IsChar xs
    → Text (store at (xs ++ (0 ∷ more)) mem) at xs
unfolding store
store-Text at [] more mem fits fine = store-here at 0 more mem fits
store-Text at (x ∷ xs) more mem fits (char, fine) = (
  store-here at x (xs ++ (0 ∷ more)) mem fits,
  char,
  store-Text (add32 at 1) xs more (write8 mem at x) (omega arith) fine,
)

-- What `write` prints.
abbrev pub wrote : List ℕ → ℕ → World → World
wrote name file_size w =
    print (text (codes " bytes\n"))
      (print (number file_size) (print (text (codes "Wrote file " ++ name ++ codes " with ")) w))

module _ (junk : Junk) (argc : ℕ) (argv : List ℕ) (w : World) (name contents : List ℕ) where
  abbrev pub written : FatStatus × Ramdisk → Result (ℕ × World)
  written out = c_string (arg argv 1) (memory (with_disk out.1 w)) >>= λ shown.
      ok (0, wrote shown (length contents) (with_disk out.1 w))

  module _ (enough : 3 ≤ argc) (named : Text (memory w) (arg argv 1) name)
      (short_name : length name < u32_mod) (given : Text (memory w) (arg argv 2) contents)
      (short : arg argv 2 + length contents < u32_mod) where
    sh_write-steps :
        (out : FatStatus × Ramdisk)
        → file_write junk.bytes junk.entry name contents w.system.disk ≡ ok out
        → sh_write junk argc argv w ≡ written out
    unfolding sh_write fs_file_write
    sh_write-steps out e =
        let test : ltb argc 3 ≡ false = ground (arith, enough) in
        let sized = strlen_lem (memory w) (arg argv 2) contents (omega arith) (omega arith) given in
        let read_name = string_at-Text u32_mod (arg argv 1) name (memory w) short_name named in
        let bytes = slice-Text (memory w) (arg argv 2) contents short given in
        rw (test, sized, read_name, bytes, e) refl

    name_again : c_string (arg argv 1) (memory w) ≡ ok name
    name_again = string_at-Text u32_mod (arg argv 1) name (memory w) short_name named

    written_unchanged :
        (status : FatStatus)
        → written (status, w.system.disk) ≡ ok (0, wrote name (length contents) w)
    written_unchanged status = rw name_again refl

    -- On a disk of 1024 pages that do not overlap, `write` with a name and contents that lie within
    -- 32 bits, the name outside the pages of the disk. When one of the entries 1 to 31 of the
    -- directory is in use and has no character larger than the one of the name at its place, both
    -- in the directory's form of 11 characters, nothing is stored, and yet the file is reported as
    -- written. The same holds when each entry in use has such a character and no cluster is free.
    -- When each has one and a cluster is free, contents of at most 512 bytes are stored in the
    -- first free cluster, under the name, and the file is reported as written.
    pub sh_write_outcome :
        IsDisk w.system.disk
        → arg argv 1 + length name < u32_mod
        → ((a : ℕ)
            → arg argv 1 ≤ a
            → a ≤ arg argv 1 + length name
            → Off (memory w) w.system.disk.block_pointers 1024 a)
        → ((k : ℕ)
            → FirstMatch name w.system.disk k
            → sh_write junk argc argv w ≡ ok (0, wrote name (length contents) w))
          × (Absent name w.system.disk
              → free_cluster w.system.disk ≡ 0
              → sh_write junk argc argv w ≡ ok (0, wrote name (length contents) w))
          × (Absent name w.system.disk
              → free_cluster w.system.disk ≢ 0
              → length contents ≤ 512
              → (d : Ramdisk) × StoresFile junk.entry name contents
                  (free_cluster w.system.disk)
                  (free_entry w.system.disk)
                  w.system.disk
                  d
                × (sh_write junk argc argv w
                    ≡ ok (0, wrote name (length contents) (with_disk d w))))
    sh_write_outcome disk fits off =
        let (there, full) = file_write_refused junk.bytes junk.entry name contents disk in
        (
          λ k h.
              sh_write-steps (exists_already, w.system.disk) (there k h)
              ∙ written_unchanged exists_already,
          λ h none_free.
              sh_write-steps (no_free_space, w.system.disk) (full h none_free)
              ∙ written_unchanged no_free_space,
          λ h some_free few.
              let (d, e, stores) =
                file_write-StoresFile junk.bytes junk.entry name contents disk few h some_free in
              let still =
                Text-agree (memory w) d.pmem.mem (arg argv 1) name fits
                  (λ a lo hi. stores.keeps.frame.others a (off a lo hi)) named in
              let again = string_at-Text u32_mod (arg argv 1) name d.pmem.mem short_name still in
              (
                d,
                stores,
                sh_write-steps (fat_success, d) e
                    ∙ ap (λ r. r >>= λ shown. ok (0, wrote shown (length contents) (with_disk d w)))
                        again,
              ),
        )
