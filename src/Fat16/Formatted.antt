-- ===== src/Fat16/Formatted.antt =====
-- `ramdisk_fat16_format` (kernel/fs/ramdisk_fat16.c) as a whole, and the first file on a new disk.
use koiz_os.Base.{
  ℕ, zero, suc, ◌+◌, ◌*◌, ◌≤◌, ◌<◌, ◌≡◌, ◌≢◌, ◌⊎◌, inl, inr, true, false, List, [], ◌∷◌, ◌++◌,
  length, get_or, take, ◌==◌, arith, refl, sym, ap, ◌∙◌, ℕ_discrete,
}
use koiz_os.Kernel.{Panic, ok, panic, ◌>>=◌}
use koiz_os.Pmem.Valid.{IsValid}
use koiz_os.Ramdisk.{Ramdisk}
use koiz_os.Ramdisk as Disk
use koiz_os.Ramdisk.Setup.{init-Layout}
use koiz_os.Fat16.{
  init, format, zero_fats, zero_root, write_sector, write_from, starting_sectors, cluster_count,
  root_addr, fat_addr, file_write, file_read, fat_success,
}
use koiz_os.Fat16.Record.{Entry}
use koiz_os.Fat16.Device.{IsDisk, view, write_from-Saves}
use koiz_os.Fat16.Search.{first-FirstOf, first-eq, cluster_free, entry_free}
use koiz_os.Fat16.Lookup.{Absent}
use koiz_os.Fat16.Files.{free_cluster, free_entry, file_read-file_write}
use koiz_os.Fat16.Format.{zero_fats-ClearedFats, zero_root-ClearedRoot}

-- A new disk: the boot record, both FATs with their first sector, and a directory of zeros.
pub record IsFormatted (bootrecord beyond : List ℕ) (d' : Ramdisk) : Type 0 where
  pub disk : IsDisk d'
  pub boot : (i : ℕ) → i < length bootrecord → view d' i ≡ get_or bootrecord i 0
  pub first_fat : (i : ℕ) → i < 512 → view d' (512 + i) ≡ get_or (starting_sectors ++ beyond) i 0
  pub second_fat :
      (i : ℕ) → i < 512 → view d' (33 * 512 + i) ≡ get_or (starting_sectors ++ beyond) i 0
  pub other_links :
      (b : ℕ) → ((2 * 512 ≤ b) × (b < 33 * 512)) ⊎ ((34 * 512 ≤ b) × (b < 65 * 512)) → view d' b ≡ 0
  pub directory : (b : ℕ) → 65 * 512 ≤ b → b < 97 * 512 → view d' b ≡ 0

take-length : (xs : List ℕ) (n : ℕ) → n ≡ length xs → take n xs ≡ xs
take-length [] zero e = refl
take-length [] (suc n) e = refl
take-length (x ∷ xs) zero e = absurd (omega arith)
take-length (x ∷ xs) (suc n) e = ap (λ l. x ∷ l) (take-length xs n (omega arith))

module _ (bootrecord beyond : List ℕ) (short : length bootrecord ≤ 512)
    (filled : length beyond ≡ 508) where
  -- The sector that is written over the first sector of each FAT.
  head_sector : take 512 (starting_sectors ++ beyond) ≡ starting_sectors ++ beyond
  head_sector = take-length (starting_sectors ++ beyond) 512 (omega (arith, filled))

  format-steps :
      (d d1 d2 d3 d4 d5 : Ramdisk)
      → write_from 0 bootrecord d ≡ ok d1
      → zero_fats 32 0 d1 ≡ ok d2
      → zero_root 32 0 d2 ≡ ok d3
      → write_from 512 (starting_sectors ++ beyond) d3 ≡ ok d4
      → write_from (33 * 512) (starting_sectors ++ beyond) d4 ≡ ok d5
      → format bootrecord beyond d ≡ ok d5
  unfolding format write_sector
  format-steps d d1 d2 d3 d4 d5 e1 e2 e3 e4 e5 = rw (head_sector, e1, e2, e3, e4, e5) refl

  -- On a disk of 1024 pages that do not overlap, with a boot record of at most 512 bytes and 508
  -- bytes behind `starting_sectors` on the stack, formatting ends without an error: the boot record
  -- is at the start, both FATs hold the 512 bytes from `starting_sectors` on in their first sector
  -- and zeros in the others, and the directory holds zeros.
  format-IsFormatted :
      (d : Ramdisk)
      → IsDisk d
      → (d' : Ramdisk) × (format bootrecord beyond d ≡ ok d') × IsFormatted bootrecord beyond d'
  format-IsFormatted d disk =
      let sector = starting_sectors ++ beyond in
      let (d1, e1, s1) = write_from-Saves 0 bootrecord disk (omega arith) in
      let (d2, e2, c2) = zero_fats-ClearedFats 32 0 s1.disk (omega arith) in
      let (d3, e3, c3) = zero_root-ClearedRoot 32 0 c2.disk (omega arith) in
      let (d4, e4, s4) = write_from-Saves 512 sector c3.disk (omega (arith, filled)) in
      let (d5, e5, s5) = write_from-Saves (33 * 512) sector s4.disk (omega (arith, filled)) in
      (
        d5,
        format-steps d d1 d2 d3 d4 d5 e1 e2 e3 e4 e5,
        record {
          disk = s5.disk;
          boot = λ i hi.
              s5.kept i (omega arith) (omega arith)
              ∙ s4.kept i (omega arith) (omega arith)
              ∙ c3.kept i (omega arith) (omega arith)
              ∙ c2.kept i (omega arith) (omega arith)
              ∙ ap (view d1) (omega arith)
              ∙ s1.stored i hi;
          first_fat = λ i hi.
              s5.kept (512 + i) (omega arith) (omega arith) ∙ s4.stored i (omega (arith, filled));
          second_fat = λ i hi. s5.stored i (omega (arith, filled));
          other_links = λ b range.
              s5.kept b (omega (arith, range)) (omega (arith, range, filled))
              ∙ s4.kept b (omega (arith, range)) (omega (arith, range, filled))
              ∙ c3.kept b (omega (arith, range)) (omega (arith, range))
              ∙ c2.zeros b (omega (arith, range));
          directory = λ b lo hi.
              s5.kept b (omega arith) (omega (arith, filled))
              ∙ s4.kept b (omega arith) (omega (arith, filled))
              ∙ c3.zeros b (omega arith) (omega arith);
        },
      )

module _ (bootrecord beyond : List ℕ) (d : Ramdisk) (f : IsFormatted bootrecord beyond d) where
  directory_start : (k : ℕ) → k < 512 → view d (root_addr k) ≡ 0
  directory_start k h = f.directory (root_addr k) (omega arith) (omega arith)

  -- No name is found.
  formatted-Absent : (name : List ℕ) → Absent name d
  formatted-Absent name k lo hi used = absurd (used (directory_start k (omega arith)))

  formatted-free_entry : free_entry d ≡ 1
  formatted-free_entry =
      first-eq (entry_free (view d)) 31 1 1 (omega arith) (omega arith)
        (ground (arith, directory_start 1 (omega arith))) (λ k lo hi. absurd (omega arith))

  -- The first cluster is in use.
  formatted_head : cluster_free (view d) 0 ≡ false
  formatted_head =
      let low = f.first_fat 0 (omega arith) in
      let high = f.first_fat 1 (omega arith) in ground (arith, low, high)

  -- A cluster whose entry lies behind the first sector is free.
  formatted_beyond : (c : ℕ) → 256 ≤ c → c < cluster_count → cluster_free (view d) c ≡ true
  formatted_beyond c lo hi =
      let low = f.other_links (fat_addr c) (inl (omega arith)) in
      let high = f.other_links (fat_addr c + 1) (inl (omega arith)) in ground (arith, low, high)

  formatted-free_cluster : free_cluster d ≢ 0
  formatted-free_cluster e = elim (first-FirstOf (cluster_free (view d)) cluster_count 0) [
    | inl (lo, hi, pass, before) ↦
        let at_zero : cluster_free (view d) 0 ≡ true = ap (cluster_free (view d)) (sym e) ∙ pass in
        cc (formatted_head)
    | inr (zero_found, none) ↦
        let taken = none 300 (omega arith) (omega arith) in
        let free = formatted_beyond 300 (omega arith) (omega arith) in cc
  ]

-- A new disk takes a file: after formatting a disk of 1024 pages that do not overlap, a file of at
-- most 512 bytes with a name that is not empty is written with success and reads back as its bytes,
-- whatever lies behind `starting_sectors` on the stack.
pub first_file :
    (bootrecord beyond junk_bytes other_junk old : List ℕ) (junk : Entry) (file_name bytes : List ℕ)
    (d : Ramdisk)
    → length bootrecord ≤ 512
    → length beyond ≡ 508
    → IsDisk d
    → length bytes ≤ 512
    → get_or file_name 0 1 ≢ 0
    → (d1 : Ramdisk) × (format bootrecord beyond d ≡ ok d1)
      × (d2 : Ramdisk) × (file_write junk_bytes junk file_name bytes d1 ≡ ok (fat_success, d2))
      × (sector : List ℕ) × (file_read other_junk file_name old 0 d2 ≡ ok (fat_success, sector))
      × (take (length bytes) sector ≡ bytes)
first_file bootrecord beyond junk_bytes other_junk old junk file_name bytes d short filled disk few
      some_name =
    let (d1, e, f) = format-IsFormatted bootrecord beyond short filled d disk in
    let (d2, written, sector, read_back, same) =
      file_read-file_write junk_bytes other_junk old junk file_name bytes f.disk few some_name
        (formatted-Absent bootrecord beyond d1 f file_name)
        (formatted-free_cluster bootrecord beyond d1 f)
        (λ z. absurd (omega (arith, z, formatted-free_entry bootrecord beyond d1 f))) in
    (d1, e, d2, written, sector, read_back, same)

module _ (bootrecord beyond : List ℕ) (d : Ramdisk) where
  init-boot :
      get_or bootrecord 510 0 ≡ 0x55
      → get_or bootrecord 511 0 ≡ 0xAA
      → init bootrecord beyond d ≡ (Disk.init (1024 * 4096) d >>= format bootrecord beyond)
  unfolding init
  init-boot low high =
      let t1 : (get_or bootrecord 510 0 == 0x55) ≡ true = ground (arith, low) in
      let t2 : (get_or bootrecord 511 0 == 0xAA) ≡ true = ground (arith, high) in rw (t1, t2) refl

  -- `ramdisk_fat16_init` with no disk yet and an initialised pmem. With the magic number at the end
  -- of a boot record of at most 512 bytes and 508 bytes behind `starting_sectors` on the stack, it
  -- panics for lack of physical memory or leaves a formatted disk of 1024 pages that do not overlap. With
  -- another number it panics before the disk is made.
  pub init_outcome :
      length bootrecord ≤ 512
      → length beyond ≡ 508
      → IsValid d.pmem
      → d.block_size ≡ 0
      → d.block_pointers ≡ 0
      → (get_or bootrecord 510 0 ≡ 0x55
          → get_or bootrecord 511 0 ≡ 0xAA
          → ((d' : Ramdisk) × (init bootrecord beyond d ≡ ok d') × IsFormatted bootrecord beyond d')
            ⊎ (init bootrecord beyond d ≡ panic Panic.pmem_out_of_memory))
        × ((get_or bootrecord 510 0 ≢ 0x55) ⊎ (get_or bootrecord 511 0 ≢ 0xAA)
            → init bootrecord beyond d ≡ panic Panic.fat16_magic)
  unfolding init
  init_outcome short filled valid no_size no_table = (
    λ low high. elim (init-Layout d 1024 valid no_size no_table (omega arith) (omega arith)) [
      | inl (d1, e1, sized, blocks, layout) ↦
          let disk : IsDisk d1 = record { sized = sized; layout = layout } in
          let (d', e, f) = format-IsFormatted bootrecord beyond short filled d1 disk in
          inl (d', init-boot low high ∙ ap (λ r. r >>= format bootrecord beyond) e1 ∙ e, f)
      | inr e ↦ inr (init-boot low high ∙ ap (λ r. r >>= format bootrecord beyond) e)
    ],
    λ wrong. elim (ℕ_discrete (get_or bootrecord 510 0) 0x55) [
      | no low ↦
          let t1 : (get_or bootrecord 510 0 == 0x55) ≡ false = ground (arith, low) in rw t1 refl
      | yes low ↦
          let t1 : (get_or bootrecord 510 0 == 0x55) ≡ true = ground (arith, low) in
          let t2 : (get_or bootrecord 511 0 == 0xAA) ≡ false = ground (arith, low, wrong) in
          rw (t1, t2) refl
    ],
  )
