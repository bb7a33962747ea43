-- ===== src/Fat16.antt =====
-- kernel/fs/ramdisk_fat16.c: a FAT16 file system with one directory, on the ramdisk.
pub mod Record
pub mod Device
pub mod Names
pub mod Search
pub mod Save
pub mod Files
pub mod Lookup
pub mod Example
pub mod Format
pub mod Same
pub mod Formatted
mod Tests
use koiz_os.Base.{
  ℕ, zero, suc, ◌+◌, ◌-◌, ◌*◌, ◌/◌, ◌%◌, ◌^◌, Bool, true, false, not, List, [], ◌∷◌, ◌++◌, ◌==◌,
  ltb, if◌then◌else◌, length, get_or, set, take, drop, replicate,
}
use koiz_os.Kernel.{Panic, Result, ok, panic, diverge, ◌>>=◌, ◌>>◌, panic_if}
use koiz_os.Ramdisk.{Ramdisk, Status, success, read, write}
use koiz_os.Ramdisk as Disk
use koiz_os.Stdlib.{eswap_uint16}
use koiz_os.Strings.{memcmp}
use koiz_os.Fat16.Record.{Entry, encode, decode}

abbrev bytes_per_sector : ℕ
bytes_per_sector = 512

abbrev ramdisk_size : ℕ
ramdisk_size = 4096 * 1024

abbrev sectors_per_fat : ℕ
sectors_per_fat = 32

abbrev first_fat_sector : ℕ
first_fat_sector = 1

-- `SECOND_FAT_TABLE_SECTOR` in a sum.
abbrev second_fat_sector : ℕ
second_fat_sector = 1 + sectors_per_fat

-- `SECOND_FAT_TABLE_SECTOR * FAT16_BYTES_PER_SECTOR`: the macro has no parentheses.
abbrev pub second_fat_addr : ℕ
second_fat_addr = 1 + sectors_per_fat * bytes_per_sector

abbrev first_root_sector : ℕ
first_root_sector = 1 + 2 * sectors_per_fat

abbrev root_directory_sectors : ℕ
root_directory_sectors = 512 * 32 / 512

abbrev pub first_data_sector : ℕ
first_data_sector = first_root_sector + root_directory_sectors

abbrev pub cluster_count : ℕ
cluster_count = 512 - first_data_sector

-- The results of the operations on files.
pub data FatStatus : Type 0 where
  fat_success no_free_space doesnt_exist exists_already no_multicluster : FatStatus

-- `ramdisk_read` into a buffer that holds `old`; its result is ignored.
unfoldable pub read_into : List ℕ → ℕ → ℕ → Ramdisk → Result (List ℕ)
read_into old addr size d = do
  (status, bytes) ← read d addr size
  elim status [ success ↦ ok bytes | failed ↦ ok old ]

-- `ramdisk_write`; its result is ignored.
pub write_from : ℕ → List ℕ → Ramdisk → Result Ramdisk
write_from addr bytes d = do (status, d') ← write d addr bytes; ok d'

-- `bytes` are the 512 bytes at `data`.
unfoldable write_sector : ℕ → List ℕ → Ramdisk → Result Ramdisk
write_sector start_sec bytes = write_from (start_sec * bytes_per_sector) bytes

unfoldable pub read_sector : ℕ → List ℕ → Ramdisk → Result (List ℕ)
read_sector start_sec old = read_into old (start_sec * bytes_per_sector) bytes_per_sector

-- A `uint16_t` in memory.
abbrev pub bytes16 : ℕ → List ℕ
bytes16 x = x % 2 ^ 8 ∷ x / 2 ^ 8 % 2 ^ 8 ∷ []

abbrev pub word16 : List ℕ → ℕ
word16 bytes = get_or bytes 0 0 + 2 ^ 8 * get_or bytes 1 0

-- Where the first FAT has the entry of a cluster.
abbrev pub fat_addr : ℕ → ℕ
fat_addr i = first_fat_sector * bytes_per_sector + i * 2

-- The loop of `find_next_free_cluster`: the rounds left, `i`, and `current_cluster`.
pub find_cluster : ℕ → ℕ → List ℕ → Ramdisk → Result ℕ
find_cluster zero i current d = ok 0
find_cluster (suc n) i current d = do
  current' ← read_into current (fat_addr i) 2 d
  let rest = find_cluster n (i + 1) current' d
  if word16 current' == 0 then ok i else rest

pub find_next_free_cluster : Ramdisk → Result ℕ
find_next_free_cluster = find_cluster cluster_count 0 (0 ∷ 0 ∷ [])

abbrev pub root_addr : ℕ → ℕ
root_addr i = first_root_sector * bytes_per_sector + i * 32

-- The loop of `find_next_free_root_entry`: the rounds left, `i`, and the bytes of the entry last
-- read.
pub find_root : ℕ → ℕ → List ℕ → Ramdisk → Result ℕ
find_root zero i current d = ok 0
find_root (suc n) i current d = do
  current' ← read_into current (root_addr i) 32 d
  let rest = find_root n (i + 1) current' d
  if get_or current' 0 0 == 0 then ok i else rest

-- `junk` is what the stack holds at the entry.
pub find_next_free_root_entry : List ℕ → Ramdisk → Result ℕ
find_next_free_root_entry junk = find_root (root_directory_sectors - 1) 1 junk

-- The loop that zeroes both FATs: the rounds left, then `i`.
unfoldable zero_fats : ℕ → ℕ → Ramdisk → Result Ramdisk
zero_fats zero i d = ok d
zero_fats (suc n) i d = do
  d1 ← write_sector (first_fat_sector + i) (replicate bytes_per_sector 0) d
  d2 ← write_sector (second_fat_sector + i) (replicate bytes_per_sector 0) d1
  zero_fats n (i + 1) d2

unfoldable zero_root : ℕ → ℕ → Ramdisk → Result Ramdisk
zero_root zero i d = ok d
zero_root (suc n) i d = do
  d1 ← write_sector (first_root_sector + i) (replicate bytes_per_sector 0) d
  zero_root n (i + 1) d1

-- The entries of the first two clusters.
abbrev starting_sectors : List ℕ
starting_sectors = 0xF8 ∷ 0xFF ∷ 0xFF ∷ 0xFF ∷ []

-- `beyond` is what the stack holds behind `starting_sectors`, an array of 4 bytes of which
-- `write_sector` takes 512.
unfoldable format : List ℕ → List ℕ → Ramdisk → Result Ramdisk
format bootrecord beyond d = do
  d1 ← write_from 0 bootrecord d
  d2 ← zero_fats sectors_per_fat 0 d1
  d3 ← zero_root root_directory_sectors 0 d2
  d4 ← write_sector first_fat_sector (take bytes_per_sector (starting_sectors ++ beyond)) d3
  write_sector second_fat_sector (take bytes_per_sector (starting_sectors ++ beyond)) d4

-- The variables of the loop of `ramdisk_fat16_filename_to_native`.
pub record NameState : Type 0 where
  pub proc_file_name : Bool
  pub j : ℕ
  pub file_name_buffer : List ℕ
  pub file_ext_buffer : List ℕ

-- One round of the loop.
pub name_step : NameState → ℕ → NameState
name_step s c =
    if s.proc_file_name
    then (if c == 46
        then record s { proc_file_name = false; j = 0 }
        else (if ltb s.j 8
            then record s { file_name_buffer = set s.file_name_buffer s.j c; j = s.j + 1 }
            else s))
    else (if ltb s.j 3
        then record s { file_ext_buffer = set s.file_ext_buffer s.j c; j = s.j + 1 }
        else s)

-- The loop over the bytes of the name before its terminator.
pub name_loop : NameState → List ℕ → NameState
name_loop s [] = s
name_loop s (c ∷ raw) = name_loop (name_step s c) raw

pub filename_to_native : List ℕ → List ℕ
filename_to_native raw =
    let s =
      name_loop
        (record {
          proc_file_name = true;
          j = 0;
          file_name_buffer = replicate 8 0x20;
          file_ext_buffer = replicate 3 0x20;
        })
        raw in
    s.file_name_buffer ++ s.file_ext_buffer

-- `memcmp` of two buffers of 11 bytes, one behind the other.
pub same_name : List ℕ → List ℕ → Bool
same_name native entry_name = memcmp 0 11 11 (λ a. get_or (native ++ entry_name) a 0) == 0

-- The loop of `ramdisk_fat16_file_exists`: the rounds left, `i`, and the bytes of the entry last
-- read.
pub find_file : List ℕ → ℕ → ℕ → List ℕ → Ramdisk → Result ℕ
find_file file_name zero i current d = ok 0
find_file file_name (suc n) i current d = do
  current' ← read_into current (root_addr i) 32 d
  let name = (decode current').entry_name
  let rest = find_file file_name n (i + 1) current' d
  if not (get_or name 0 0 == 0)
      then (if same_name (filename_to_native file_name) name then ok i else rest)
      else rest

pub file_exists : List ℕ → List ℕ → Ramdisk → Result ℕ
file_exists junk file_name = find_file file_name (root_directory_sectors - 1) 1 junk

-- The status, and what is stored at `sector_buffer`, which held `old`.
unfoldable pub file_read : List ℕ → List ℕ → List ℕ → ℕ → Ramdisk → Result (FatStatus × List ℕ)
file_read junk file_name old sector_index d = do
  root_entry_num ← file_exists junk file_name d
  if root_entry_num == 0 then ok (doesnt_exist, old) else (do
    entry ← read_into junk (root_addr root_entry_num) 32 d
    bytes ← read_sector (first_data_sector + (decode entry).low_cluster) old d
    ok (if not (sector_index == 0) then no_multicluster else fat_success, bytes))

-- A cluster's entry in both FATs, where the code looks for them.
pub write_fats : ℕ → ℕ → Ramdisk → Result Ramdisk
write_fats cluster value d = do
  d1 ← write_from (fat_addr cluster) (bytes16 value) d
  write_from (second_fat_addr + cluster * 2) (bytes16 value) d1

-- The loop of `ramdisk_fat16_file_write`: `current_sector`, and the bytes left to write.
pub write_chunks : ℕ → ℕ → List ℕ → Ramdisk → Result (ℕ × List ℕ × Ramdisk)
write_chunks zero current bytes d = diverge
write_chunks (suc fuel) current bytes d =
    let more = (do
      d1 ← write_sector (first_data_sector + current) (take bytes_per_sector bytes) d
      next ← find_next_free_cluster d1
      panic_if (next == 0) Panic.fat16_partial_write
      d2 ← write_fats current (eswap_uint16 next) d1
      write_chunks fuel next (drop bytes_per_sector bytes) d2) in
    if ltb bytes_per_sector (length bytes) then more else ok (current, bytes, d)

-- `junk` is the entry on the stack before its fields are set.
pub new_entry : Entry → List ℕ → ℕ → ℕ → Entry
new_entry junk name size head_sector = record junk {
  entry_name = name;
  attrib = 0;
  reserved = 0;
  file_size = size;
  low_cluster = head_sector;
}

-- `ramdisk_fat16_file_write` once a free cluster is known. It makes one round for each full
-- cluster.
pub write_file : List ℕ → Entry → List ℕ → List ℕ → ℕ → Ramdisk → Result Ramdisk
write_file junk_bytes junk file_name bytes head_sector d = do
  (current, left, d1) ← write_chunks (length bytes / bytes_per_sector + 1) head_sector bytes d
  d2 ←
      (if ltb 0 (length left)
        then write_from ((first_data_sector + current) * bytes_per_sector) left d1
        else ok d1)
  d3 ← write_fats current (eswap_uint16 0xFFF8) d2
  root_entry ← find_next_free_root_entry junk_bytes d3
  write_from (root_addr root_entry)
      (encode (new_entry junk (filename_to_native file_name) (length bytes) head_sector)) d3

pub file_write : List ℕ → Entry → List ℕ → List ℕ → Ramdisk → Result (FatStatus × Ramdisk)
file_write junk_bytes junk file_name bytes d = do
  found ← file_exists junk_bytes file_name d
  if not (found == 0) then ok (exists_already, d) else (do
    head_sector ← find_next_free_cluster d
    if head_sector == 0 then ok (no_free_space, d) else (do
      d' ← write_file junk_bytes junk file_name bytes head_sector d
      ok (fat_success, d')))

-- The loop of `ramdisk_fat16_list_info` that counts the free clusters.
abbrev count_free_clusters : ℕ → ℕ → List ℕ → ℕ → Ramdisk → Result ℕ
count_free_clusters zero i current free_clusters d = ok free_clusters
count_free_clusters (suc n) i current free_clusters d = do
  current' ← read_into current (fat_addr i) 2 d
  count_free_clusters n (i + 1) current'
      (if word16 current' == 0 then free_clusters + 1 else free_clusters) d

-- A line of the file list: the entry's number, its name, size and cluster.
pub record FileLine : Type 0 where
  pub number : ℕ
  pub name : List ℕ
  pub size : ℕ
  pub cluster : ℕ

-- The loop of `ramdisk_fat16_list_info` over the entries.
unfoldable pub list_files : ℕ → ℕ → List ℕ → Ramdisk → Result (List FileLine)
list_files zero i current d = ok []
list_files (suc n) i current d = do
  current' ← read_into current (root_addr i) 32 d
  lines ← list_files n (i + 1) current' d
  let e = decode current'
  if get_or e.entry_name 0 0 == 0
      then ok lines
      else ok (
          record { number = i; name = e.entry_name; size = e.file_size; cluster = e.low_cluster }
          ∷ lines)

-- What `ramdisk_fat16_list_info` prints of the disk: the clusters in use, the free ones, the files.
unfoldable pub list_info : List ℕ → Ramdisk → Result (ℕ × ℕ × List FileLine)
list_info junk d = do
  free_clusters ← count_free_clusters cluster_count 0 (0 ∷ 0 ∷ []) 0 d
  files ← list_files root_directory_sectors 0 junk d
  ok (cluster_count - free_clusters, free_clusters, files)

unfoldable init : List ℕ → List ℕ → Ramdisk → Result Ramdisk
init bootrecord beyond d = do
  panic_if (not (get_or bootrecord 510 0 == 0x55)) Panic.fat16_magic
  panic_if (not (get_or bootrecord 511 0 == 0xAA)) Panic.fat16_magic
  d1 ← Disk.init ramdisk_size d
  format bootrecord beyond d1

unfoldable destroy : Ramdisk → Result Ramdisk
destroy = Disk.destroy
