-- ===== src/Fat16/Files.antt =====
-- The files of kernel/fs/ramdisk_fat16.c: what `ramdisk_fat16_file_write` stores and
-- `ramdisk_fat16_file_read` finds.
use koiz_os.Base.{
  ℕ, ◌+◌, ◌-◌, ◌≤◌, ◌<◌, ◌≡◌, ◌≢◌, ◌^◌, inl, inr, Bool, true, false, not, ◌&&◌, List, ◌++◌, ◌==◌,
  arith, refl, ◌∙◌, ap, sym, length, get_or, take, take-append, get_or-append_left,
  get_or-append_right, add32,
}
use koiz_os.Kernel.{ok}
use koiz_os.Ramdisk.{Ramdisk}
use koiz_os.Ramdisk.Slice.{slice, slice-eq, slice_congr, take-slice}
use koiz_os.Strings.{memcmp}
use koiz_os.Strings.Compare.{memcmp-zero}
use koiz_os.Fat16.{
  fat_success, exists_already, no_free_space, root_addr, cluster_count, read_sector, file_read,
  file_write, same_name, filename_to_native, new_entry,
}
use koiz_os.Fat16.Record.{Entry, fields, encode, decode, length-encode, low_cluster-encode}
use koiz_os.Fat16.Device.{IsDisk, view, read_into-slice}
use koiz_os.Fat16.Names.{length-filename_to_native, filename_to_native-start}
use koiz_os.Fat16.Search.{
  first, first-FirstOf, first-eq, first_lt, cluster_free, entry_free, entry_named,
  find_next_free_cluster-first, file_exists-first,
}
use koiz_os.Fat16.Lookup.{entry_of, Absent, FirstMatch, Absent-entry_of, FirstMatch-entry_of}
use koiz_os.Fat16.Save.{StoresFile, file_entry, data_addr, write_file-StoresFile}

-- What the searches find on a disk: a free cluster, a free entry.
abbrev pub free_cluster : Ramdisk → ℕ
free_cluster d = first (cluster_free (view d)) cluster_count 0

abbrev pub free_entry : Ramdisk → ℕ
free_entry d = first (entry_free (view d)) 31 1

module _ (junk_bytes : List ℕ) (junk : Entry) (file_name bytes : List ℕ) {d : Ramdisk}
    (disk : IsDisk d) where
  -- On a disk of 1024 pages that do not overlap, a file whose name an entry matches, and, when none
  -- matches it, a file for which no cluster is free, are refused, and the disk is unchanged.
  pub file_write_refused :
      ((k : ℕ)
        → FirstMatch file_name d k
        → file_write junk_bytes junk file_name bytes d ≡ ok (exists_already, d))
      × (Absent file_name d
          → free_cluster d ≡ 0
          → file_write junk_bytes junk file_name bytes d ≡ ok (no_free_space, d))
  unfolding file_write
  file_write_refused =
      let exists = file_exists-first junk_bytes file_name disk in
      let free = find_next_free_cluster-first disk in
      (
        λ k there.
            let found : (entry_of file_name d == 0) ≡ false =
              ground (arith, FirstMatch-entry_of file_name d k there, there.low) in
            rw (exists, found) refl,
        λ absent full.
            let none_found : (entry_of file_name d == 0) ≡ true =
              ground (arith, Absent-entry_of file_name d absent) in
            let none_free : (free_cluster d == 0) ≡ true = ground (arith, full) in
            rw (exists, none_found, free, none_free) refl,
      )

  -- On a disk of 1024 pages that do not overlap, a file of at most 512 bytes is stored in the first
  -- free cluster and the first free entry of the directory, when a cluster is free and each of the
  -- entries 1 to 31 of the directory that is in use has a character larger than the one of the name
  -- at its place, both in the directory's form of 11 characters. All other entries and clusters
  -- keep their contents, and every other cluster is free in the first FAT exactly when it was. A
  -- full directory loses its entry 0.
  pub file_write-StoresFile :
      length bytes ≤ 512
      → Absent file_name d
      → free_cluster d ≢ 0
      → (d' : Ramdisk) × (file_write junk_bytes junk file_name bytes d ≡ ok (fat_success, d'))
        × StoresFile junk file_name bytes (free_cluster d) (free_entry d) d d'
  unfolding file_write
  file_write-StoresFile h absent some_free =
      let exists = file_exists-first junk_bytes file_name disk in
      let free = find_next_free_cluster-first disk in
      let none_found : (entry_of file_name d == 0) ≡ true =
        ground (arith, Absent-entry_of file_name d absent) in
      let found : (free_cluster d == 0) ≡ false = ground (arith, some_free) in
      let c = free_cluster d in
      let (d', e, s) =
        write_file-StoresFile junk_bytes junk file_name bytes c d disk
          (first_lt (cluster_free (view d)) cluster_count 0 (omega arith)) h in
      (d', rw (exists, none_found, free, found, e) refl, s)

-- `entry_named` on the bytes of an entry: its first byte and its name.
abbrev name_test : List ℕ → ℕ → List ℕ → Bool
name_test file_name start name = not (start == 0) && same_name (filename_to_native file_name) name

same_name_self : (name : List ℕ) → length name ≡ 11 → same_name name name ≡ true
unfolding same_name
same_name_self name len =
    let (to, from) = memcmp-zero 11 0 11 (λ a. get_or (name ++ name) a 0) in
    let same : memcmp 0 11 11 (λ a. get_or (name ++ name) a 0) ≡ 0 = from (λ k hk.
      let left = get_or-append_left name name k 0 (omega (arith, len)) in
      let right =
        ap (λ n. get_or (name ++ name) (n + k) 0) (sym len) ∙ get_or-append_right name name k 0 in
      let at_a : add32 0 k ≡ k = omega arith in
      let at_b : add32 11 k ≡ 11 + k = omega arith in
      rw (at_a, at_b) (omega (arith, left, right))) in
    ground (arith, same)

module _ (junk : Entry) (file_name bytes : List ℕ) (c r : ℕ) (d d' : Ramdisk)
    (s : StoresFile junk file_name bytes c r d d') where
  -- The bytes of the entry that was stored.
  entry_bytes : slice (view d') (root_addr r) 32 ≡ file_entry junk file_name bytes c
  unfolding new_entry
  entry_bytes =
      let len =
        length-encode (new_entry junk (filename_to_native file_name) (length bytes) c)
          (length-filename_to_native file_name) in
      ap (slice (view d') (root_addr r)) (sym len)
      ∙ slice-eq (view d') (root_addr r) (file_entry junk file_name bytes c)
          (λ i hi. s.entry i (omega (arith, len)))

  entry_name_bytes : slice (view d') (root_addr r) 11 ≡ filename_to_native file_name
  unfolding new_entry encode
  entry_name_bytes =
      let len = length-filename_to_native file_name in
      sym (take-slice (view d') (root_addr r) 11 32 (omega arith))
      ∙ ap (take 11) entry_bytes
      ∙ ap (λ n. take n (file_entry junk file_name bytes c)) (sym len)
      ∙ take-append (filename_to_native file_name)
          (fields (new_entry junk (filename_to_native file_name) (length bytes) c))

  entry-named : get_or file_name 0 1 ≢ 0 → entry_named file_name (view d') r ≡ true
  entry-named some_name =
      let native = filename_to_native file_name in
      let start : view d' (root_addr r) ≡ get_or native 0 0 =
        ap (λ l. get_or l 0 0) entry_name_bytes in
      let used : (view d' (root_addr r) == 0) ≡ false =
        ground (arith, start, filename_to_native-start file_name some_name) in
      ap (name_test file_name (view d' (root_addr r))) entry_name_bytes
      ∙ rw (used, same_name_self native (length-filename_to_native file_name)) refl

  entry_cluster : c < 2 ^ 16 → (decode (slice (view d') (root_addr r) 32)).low_cluster ≡ c
  unfolding new_entry
  entry_cluster fits = rw entry_bytes (
      low_cluster-encode (new_entry junk (filename_to_native file_name) (length bytes) c)
        (length-filename_to_native file_name) fits)

  same_entry_named :
      (k : ℕ)
      → k < 32
      → k ≢ r
      → entry_named file_name (view d') k ≡ entry_named file_name (view d) k
  same_entry_named k hk ne =
      let start : view d' (root_addr k) ≡ view d (root_addr k) =
        ap (view d') (omega arith)
        ∙ s.other_entries k hk ne 0 (omega arith)
        ∙ ap (view d) (omega arith) in
      let name : slice (view d') (root_addr k) 11 ≡ slice (view d) (root_addr k) 11 =
        slice_congr (view d') (view d) (root_addr k) 11 (λ b lo hi.
          ap (view d') (omega arith)
          ∙ s.other_entries k hk ne (b - root_addr k) (omega arith)
          ∙ ap (view d) (omega arith)) in
      ap (name_test file_name (view d' (root_addr k))) name
      ∙ ap (λ x. name_test file_name x (slice (view d) (root_addr k) 11)) start

  -- A file is found where it was stored.
  entry_of-StoresFile :
      get_or file_name 0 1 ≢ 0
      → entry_of file_name d ≡ 0
      → 0 < r
      → r < 32
      → entry_of file_name d' ≡ r
  entry_of-StoresFile some_name absent lo hi =
      let none_before : (k : ℕ) → 1 ≤ k → k < 32 → entry_named file_name (view d) k ≡ false =
        elim (first-FirstOf (entry_named file_name (view d)) 31 1) [
          | inl (low, high, pass, before) ↦ absurd (omega (arith, absent, low))
          | inr (e, none) ↦ none
        ] in
      first-eq (entry_named file_name (view d')) 31 1 r lo hi (entry-named some_name) (λ k lo' hi'.
        same_entry_named k (omega arith) (omega arith) ∙ none_before k lo' (omega arith))

  content_bytes :
      length bytes ≤ 512 → take (length bytes) (slice (view d') (data_addr c) 512) ≡ bytes
  content_bytes h =
      take-slice (view d') (data_addr c) (length bytes) 512 h
      ∙ slice-eq (view d') (data_addr c) bytes s.content

  file_read-StoresFile :
      (junk_bytes old : List ℕ)
      → get_or file_name 0 1 ≢ 0
      → entry_of file_name d ≡ 0
      → 0 < r
      → r < 32
      → c < cluster_count
      → file_read junk_bytes file_name old 0 d'
        ≡ ok (fat_success, slice (view d') (data_addr c) 512)
  unfolding file_read read_sector
  file_read-StoresFile junk_bytes old some_name absent lo hi hc =
      let exists =
        file_exists-first junk_bytes file_name s.disk
        ∙ ap ok (entry_of-StoresFile some_name absent lo hi) in
      let found : (r == 0) ≡ false = ground arith in
      rw
        (
          exists,
          found,
          read_into-slice junk_bytes (root_addr r) 32 s.disk (omega arith),
          entry_cluster (omega arith),
        )
        (rw (read_into-slice old (data_addr c) 512 s.disk (omega arith)) refl)

-- On a disk of 1024 pages that do not overlap, a file of at most 512 bytes with a name that is not
-- empty reads back as its bytes after it was written, when a cluster and an entry of the directory
-- are free and each of the entries 1 to 31 of the directory that is in use has a character larger
-- than the one of the name at its place, both in the directory's form of 11 characters.
pub file_read-file_write :
    (junk_bytes other_junk old : List ℕ) (junk : Entry) (file_name bytes : List ℕ) {d : Ramdisk}
    → IsDisk d
    → length bytes ≤ 512
    → get_or file_name 0 1 ≢ 0
    → Absent file_name d
    → free_cluster d ≢ 0
    → free_entry d ≢ 0
    → (d' : Ramdisk) × (file_write junk_bytes junk file_name bytes d ≡ ok (fat_success, d'))
      × (sector : List ℕ) × (file_read other_junk file_name old 0 d' ≡ ok (fat_success, sector))
      × (take (length bytes) sector ≡ bytes)
file_read-file_write junk_bytes other_junk old junk file_name bytes {d} disk h some_name absent
      some_cluster some_entry =
    let (d', e, s) =
      file_write-StoresFile junk_bytes junk file_name bytes disk h absent some_cluster in
    let c = free_cluster d in
    let r = free_entry d in
    let hr = first_lt (entry_free (view d)) 31 1 (omega arith) in
    let hc = first_lt (cluster_free (view d)) cluster_count 0 (omega arith) in
    (
      d',
      e,
      slice (view d') (data_addr c) 512,
      file_read-StoresFile junk file_name bytes c r d d' s other_junk old some_name
          (Absent-entry_of file_name d absent) (omega (arith, some_entry)) hr hc,
      content_bytes junk file_name bytes c r d d' s h,
    )
