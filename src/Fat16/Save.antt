-- ===== src/Fat16/Save.antt =====
-- `ramdisk_fat16_file_write` (kernel/fs/ramdisk_fat16.c) for a file of one cluster: what it changes on
-- the disk.
use koiz_os.Base.{
  ℕ, suc, ◌+◌, ◌*◌, ◌/◌, ◌%◌, ◌≤◌, ◌<◌, ◌≡◌, ◌≢◌, ◌⊎◌, ◌^◌, true, false, List, [], ◌∷◌, ◌==◌, ltb,
  if◌then◌else◌, arith, refl, ◌∙◌, ap, length, get_or,
}
use koiz_os.Kernel.{ok}
use koiz_os.Ramdisk.{Ramdisk}
use koiz_os.Stdlib.{eswap_uint16}
use koiz_os.Stdlib.Swap.{eswap_uint16-bytes}
use koiz_os.Fat16.{
  bytes16, fat_addr, root_addr, second_fat_addr, first_data_sector, write_from, write_fats,
  write_chunks, write_file, new_entry, filename_to_native, cluster_count, find_next_free_root_entry,
}
use koiz_os.Fat16.Record.{Entry, encode, length-encode}
use koiz_os.Fat16.Device.{Keeps, Keeps-refl, Keeps-trans, IsDisk, view, Saves, write_from-Saves}
use koiz_os.Fat16.Names.{length-filename_to_native}
use koiz_os.Fat16.Search.{
  first, first_lt, first_congr, cluster_free, entry_free, find_next_free_root_entry-first,
}

-- The two bytes of a cluster's entry in the first FAT, and the two where the code puts the second.
abbrev OutsideFats : ℕ → ℕ → Type 0
OutsideFats c b =
    ((b < fat_addr c) ⊎ (fat_addr c + 2 ≤ b))
    × ((b < second_fat_addr + c * 2) ⊎ (second_fat_addr + c * 2 + 2 ≤ b))

record Links (c value : ℕ) (d d' : Ramdisk) : Type 0 where
  disk : IsDisk d'
  low : view d' (fat_addr c) ≡ value % 2 ^ 8
  high : view d' (fat_addr c + 1) ≡ value / 2 ^ 8 % 2 ^ 8
  kept : (b : ℕ) → b < 2 ^ 22 → OutsideFats c b → view d' b ≡ view d b
  keeps : Keeps d d'

write_fats-Links :
    (c value : ℕ) {d : Ramdisk}
    → IsDisk d
    → c < cluster_count
    → (d' : Ramdisk) × (write_fats c value d ≡ ok d') × Links c value d d'
unfolding write_fats
write_fats-Links c value {d} disk hc =
    let (d1, e1, s1) = write_from-Saves (fat_addr c) (bytes16 value) disk (omega arith) in
    let (d2, e2, s2) =
      write_from-Saves (second_fat_addr + c * 2) (bytes16 value) s1.disk (omega arith) in
    (
      d2,
      rw (e1, e2) refl,
      record {
        disk = s2.disk;
        low =
            s2.kept (fat_addr c) (omega arith) (omega arith)
            ∙ ap (view d1) (omega arith)
            ∙ s1.stored 0 (omega arith);
        high = s2.kept (fat_addr c + 1) (omega arith) (omega arith) ∙ s1.stored 1 (omega arith);
        kept = λ b hb (out1, out2). s2.kept b hb out2 ∙ s1.kept b hb out1;
        keeps = Keeps-trans s1.keeps s2.keeps;
      },
    )

abbrev pub data_addr : ℕ → ℕ
data_addr c = (first_data_sector + c) * 512

-- The data of a file of at most one cluster, in cluster `c`.
write_data-Saves :
    (c : ℕ) (bytes : List ℕ) {d : Ramdisk}
    → IsDisk d
    → c < cluster_count
    → length bytes ≤ 512
    → (d' : Ramdisk) × ((if ltb 0 (length bytes) then write_from (data_addr c) bytes d else ok d)
        ≡ ok d')
      × Saves d (data_addr c) bytes d'
write_data-Saves c [] {d} disk hc h = (
  d,
  refl,
  record {
    disk = disk;
    stored = λ i hi. elim hi [ ];
    kept = λ b hb out. refl;
    keeps = Keeps-refl d;
  },
)
write_data-Saves c (x ∷ bytes) {d} disk hc h =
    let some_bytes : ltb 0 (suc (length bytes)) ≡ true = ground arith in
    let (d', e, s) = write_from-Saves (data_addr c) (x ∷ bytes) disk (omega arith) in
    (d', rw some_bytes e, s)

write_chunks-round :
    (n c : ℕ) (bytes : List ℕ) (d : Ramdisk)
    → length bytes ≤ 512
    → write_chunks (suc n) c bytes d ≡ ok (c, bytes, d)
unfolding write_chunks
write_chunks-round n c bytes d h =
    let few : ltb 512 (length bytes) ≡ false = ground arith in rw few refl

write_chunks_last :
    (c : ℕ) (bytes : List ℕ) (d : Ramdisk)
    → length bytes ≤ 512
    → write_chunks (length bytes / 512 + 1) c bytes d ≡ ok (c, bytes, d)
write_chunks_last c bytes d h =
    let fuel : length bytes / 512 + 1 ≡ suc (length bytes / 512) = omega arith in
    ap (λ n. write_chunks n c bytes d) fuel ∙ write_chunks-round (length bytes / 512) c bytes d h

-- The entry that is written for a file.
abbrev pub file_entry : Entry → List ℕ → List ℕ → ℕ → List ℕ
file_entry junk file_name bytes c =
    encode (new_entry junk (filename_to_native file_name) (length bytes) c)

-- `d'` is `d` with the file in cluster `c` and in entry `r` of the directory.
pub record StoresFile (junk : Entry) (file_name bytes : List ℕ) (c r : ℕ) (d d' : Ramdisk)
    : Type 0 where
  pub disk : IsDisk d'
  pub keeps : Keeps d d'
  pub content : (i : ℕ) → i < length bytes → view d' (data_addr c + i) ≡ get_or bytes i 0
  pub entry :
      (i : ℕ) → i < 32 → view d' (root_addr r + i) ≡ get_or (file_entry junk file_name bytes c) i 0
  pub used : cluster_free (view d') c ≡ false
  pub other_entries :
      (k : ℕ)
      → k < 32
      → k ≢ r
      → (i : ℕ) → i < 32
      → view d' (root_addr k + i) ≡ view d (root_addr k + i)
  pub other_clusters :
      (k : ℕ)
      → k < cluster_count
      → k ≢ c
      → (i : ℕ) → i < 512
      → view d' (data_addr k + i) ≡ view d (data_addr k + i)
  pub other_links :
      (k : ℕ) → k < cluster_count → k ≢ c → cluster_free (view d') k ≡ cluster_free (view d) k

length-file_entry :
    (junk : Entry) (file_name bytes : List ℕ) (c : ℕ)
    → length (file_entry junk file_name bytes c) ≡ 32
unfolding new_entry
length-file_entry junk file_name bytes c =
    length-encode (new_entry junk (filename_to_native file_name) (length bytes) c)
      (length-filename_to_native file_name)

cluster_free_congr :
    (d d' : Ramdisk) (k : ℕ)
    → view d' (fat_addr k) ≡ view d (fat_addr k)
    → view d' (fat_addr k + 1) ≡ view d (fat_addr k + 1)
    → cluster_free (view d') k ≡ cluster_free (view d) k
cluster_free_congr d d' k low high = cc

-- The mark for the last cluster of a file, as it is stored.
end_mark : ℕ
end_mark = eswap_uint16 0xFFF8

cluster_free-Links :
    {c : ℕ} {d d' : Ramdisk} → Links c end_mark d d' → cluster_free (view d') c ≡ false
unfolding end_mark
cluster_free-Links {c} l =
    let value : eswap_uint16 0xFFF8 ≡ 0xF8FF =
      eswap_uint16-bytes 0xFF 0xF8 (omega arith) (omega arith) in
    ground (arith, l.low, value)

module _ (junk_bytes : List ℕ) (junk : Entry) (file_name bytes : List ℕ) (c r : ℕ)
    (d d1 d2 d3 : Ramdisk) where
  write_file-steps :
      length bytes ≤ 512
      → (if ltb 0 (length bytes) then write_from (data_addr c) bytes d else ok d) ≡ ok d1
      → write_fats c end_mark d1 ≡ ok d2
      → find_next_free_root_entry junk_bytes d2 ≡ ok r
      → write_from (root_addr r) (file_entry junk file_name bytes c) d2 ≡ ok d3
      → write_file junk_bytes junk file_name bytes c d ≡ ok d3
  unfolding write_file end_mark
  write_file-steps h e1 e2 e3 e4 = rw (write_chunks_last c bytes d h) (rw e1 (rw e2 (rw e3 e4)))

  Saves-StoresFile :
      c < cluster_count
      → length bytes ≤ 512
      → r < 32
      → Saves d (data_addr c) bytes d1
      → Links c end_mark d1 d2
      → Saves d2 (root_addr r) (file_entry junk file_name bytes c) d3
      → StoresFile junk file_name bytes c r d d3
  Saves-StoresFile hc h hr s1 s2 s3 =
      let len = length-file_entry junk file_name bytes c in
      let mark = cluster_free-Links s2 in
      let kept : (b : ℕ)
          → b < 2 ^ 22
          → (b < data_addr c) ⊎ (data_addr c + 512 ≤ b)
          → OutsideFats c b
          → (b < root_addr r) ⊎ (root_addr r + 32 ≤ b)
          → view d3 b ≡ view d b =
        λ b hb out fats root.
          s3.kept b hb (omega (arith, root, len))
          ∙ s2.kept b hb fats
          ∙ s1.kept b hb (omega (arith, out)) in
      record {
        disk = s3.disk;
        keeps = Keeps-trans (Keeps-trans s1.keeps s2.keeps) s3.keeps;
        content = λ i hi.
            s3.kept (data_addr c + i) (omega arith) (omega (arith, len))
            ∙ s2.kept (data_addr c + i) (omega arith) (omega arith, omega arith)
            ∙ s1.stored i hi;
        entry = λ i hi. s3.stored i (omega (arith, len));
        used =
            cluster_free_congr d2 d3 c (s3.kept (fat_addr c) (omega arith) (omega arith))
              (s3.kept (fat_addr c + 1) (omega arith) (omega arith))
            ∙ mark;
        other_entries = λ k hk ne i hi.
            kept (root_addr k + i) (omega arith) (omega arith) (omega arith, omega arith)
              (omega arith);
        other_clusters = λ k hk ne i hi.
            kept (data_addr k + i) (omega arith) (omega arith) (omega arith, omega arith)
              (omega arith);
        other_links = λ k hk ne.
            cluster_free_congr d d3 k
              (kept (fat_addr k) (omega arith) (omega arith) (omega arith, omega arith)
                (omega arith))
              (kept (fat_addr k + 1) (omega arith) (omega arith) (omega arith, omega arith)
                (omega arith));
      }

  same_free_entry :
      c < cluster_count
      → length bytes ≤ 512
      → Saves d (data_addr c) bytes d1
      → Links c end_mark d1 d2
      → first (entry_free (view d2)) 31 1 ≡ first (entry_free (view d)) 31 1
  same_free_entry hc h s1 s2 =
      first_congr (entry_free (view d2)) (entry_free (view d)) 31 1 (λ k lo hi.
        ap (λ (x : ℕ). x == 0)
          (s2.kept (root_addr k) (omega arith) (omega arith, omega arith)
            ∙ s1.kept (root_addr k) (omega arith) (omega arith)))

module _ (junk_bytes : List ℕ) (junk : Entry) (file_name bytes : List ℕ) (c : ℕ) (d : Ramdisk) where
  pub write_file-StoresFile :
      IsDisk d
      → c < cluster_count
      → length bytes ≤ 512
      → (d' : Ramdisk) × (write_file junk_bytes junk file_name bytes c d ≡ ok d')
        × StoresFile junk file_name bytes c (first (entry_free (view d)) 31 1) d d'
  write_file-StoresFile disk hc h =
      let r = first (entry_free (view d)) 31 1 in
      let hr = first_lt (entry_free (view d)) 31 1 (omega arith) in
      let len = length-file_entry junk file_name bytes c in
      let (d1, e1, s1) = write_data-Saves c bytes disk hc h in
      let (d2, e2, s2) = write_fats-Links c end_mark s1.disk hc in
      let (d3, e3, s3) =
        write_from-Saves (root_addr r) (file_entry junk file_name bytes c) s2.disk
          (omega (arith, len, hr)) in
      let free =
        find_next_free_root_entry-first junk_bytes s2.disk
        ∙ ap ok (same_free_entry junk_bytes junk file_name bytes c r d d1 d2 d3 hc h s1 s2) in
      (
        d3,
        write_file-steps junk_bytes junk file_name bytes c r d d1 d2 d3 h e1 e2 free e3,
        Saves-StoresFile junk_bytes junk file_name bytes c r d d1 d2 d3 hc h hr s1 s2 s3,
      )
