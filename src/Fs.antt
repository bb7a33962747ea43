-- ===== src/Fs.antt =====
-- kernel/fs/fs.c: the kernel's files, on the one file system there is.
pub mod Starting
mod Tests
use koiz_os.Base.{ℕ, zero, suc, Bool, true, false, not, List, [], ◌∷◌, ◌==◌}
use koiz_os.Kernel.{Panic, Result, ok, panic, ◌>>=◌, ◌>>◌, panic_if}
use koiz_os.Ramdisk.{Ramdisk}
use koiz_os.Fat16.{FatStatus, fat_success, FileLine, file_write, file_read, file_exists, list_info}
use koiz_os.Fat16 as Fat
use koiz_os.Fat16.Record.{Entry}

unfoldable pub list_files : List ℕ → Ramdisk → Result (ℕ × ℕ × List FileLine)
list_files junk d = list_info junk d

unfoldable pub fs_file_write :
    List ℕ → Entry → List ℕ → List ℕ → Ramdisk → Result (FatStatus × Ramdisk)
fs_file_write junk_bytes junk file_name bytes d = file_write junk_bytes junk file_name bytes d

unfoldable pub fs_file_exists : List ℕ → List ℕ → Ramdisk → Result ℕ
fs_file_exists junk file_name d = file_exists junk file_name d

unfoldable pub fs_file_read : List ℕ → List ℕ → List ℕ → ℕ → Ramdisk → Result (FatStatus × List ℕ)
fs_file_read junk file_name old sector_index d = file_read junk file_name old sector_index d

-- "test.bin"
abbrev pub starting_name : List ℕ
starting_name = 116 ∷ 101 ∷ 115 ∷ 116 ∷ 46 ∷ 98 ∷ 105 ∷ 110 ∷ []

-- The program, with the text that it prints.
abbrev pub starting_contents : List ℕ
starting_contents =
    102 ∷ 191 ∷ 28 ∷ 0 ∷ 0 ∷ 0 ∷ 102 ∷ 184 ∷ 1 ∷ 0 ∷ 0 ∷ 0 ∷ 205 ∷ 51 ∷ 102 ∷ 191 ∷ 0 ∷ 0 ∷ 0 ∷ 0
    ∷ 102 ∷ 184 ∷ 2 ∷ 0 ∷ 0 ∷ 0 ∷ 205 ∷ 51 ∷ 72 ∷ 101 ∷ 108 ∷ 108 ∷ 111 ∷ 32 ∷ 102 ∷ 114 ∷ 111 ∷ 109
    ∷ 32 ∷ 116 ∷ 101 ∷ 115 ∷ 116 ∷ 32 ∷ 112 ∷ 114 ∷ 111 ∷ 103 ∷ 114 ∷ 97 ∷ 109 ∷ 33 ∷ 10 ∷ 0 ∷ []

abbrev is_failure : FatStatus → Bool
is_failure fat_success = false
is_failure _ = true

-- `fs_load_starting_files`
pub load_starting_files : List ℕ → Entry → Ramdisk → Result Ramdisk
load_starting_files junk_bytes junk d = do
  (res, d') ← file_write junk_bytes junk starting_name starting_contents d
  panic_if (is_failure res) Panic.fs_starting_files
  ok d'
