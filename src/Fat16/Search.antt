-- ===== src/Fat16/Search.antt =====
-- The searches of kernel/fs/ramdisk_fat16.c: each finds the first place with a property of the disk.
use koiz_os.Base.{
  ℕ, zero, suc, ◌+◌, ◌≤◌, ◌<◌, ◌≡◌, ◌⊎◌, inl, inr, Bool, true, false, not, ◌&&◌, List, [], ◌∷◌,
  ◌==◌, if◌then◌else◌, arith, refl, ◌∙◌, ap, ℕ_discrete, Bool-cases,
}
use koiz_os.Kernel.{Result, ok}
use koiz_os.Ramdisk.{Ramdisk}
use koiz_os.Ramdisk.Slice.{slice}
use koiz_os.Fat16.{
  word16, fat_addr, root_addr, find_cluster, find_next_free_cluster, find_root,
  find_next_free_root_entry, find_file, file_exists, same_name, filename_to_native, cluster_count,
}
use koiz_os.Fat16.Record.{decode}
use koiz_os.Fat16.Device.{IsDisk, view, read_into-slice}

-- The first of `n` numbers from `i` on that passes a test, or 0.
unfoldable pub first : (ℕ → Bool) → ℕ → ℕ → ℕ
first test zero i = 0
first test (suc n) i = if test i then i else first test n (i + 1)

-- What `first` finds is in range and passes, and nothing before it does; it finds 0 when nothing
-- passes.
abbrev FirstOf : (ℕ → Bool) → ℕ → ℕ → ℕ → Type 0
FirstOf test n i r =
    ((i ≤ r) × (r < i + n) × (test r ≡ true) × ((k : ℕ) → i ≤ k → k < r → test k ≡ false))
    ⊎ ((r ≡ 0) × ((k : ℕ) → i ≤ k → k < i + n → test k ≡ false))

pub first-FirstOf : (test : ℕ → Bool) (n i : ℕ) → FirstOf test n i (first test n i)
unfolding first
first-FirstOf test zero i = inr (refl, λ k lo hi. absurd (omega arith))
first-FirstOf test (suc n) i = elim (Bool-cases (test i)) [
  | inl pass ↦ rw pass (inl (omega arith, omega arith, pass, λ k lo hi. absurd (omega arith)))
  | inr miss ↦ rw miss (elim (first-FirstOf test n (i + 1)) [
    | inl (lo, hi, pass, before) ↦ inl (
      omega arith,
      omega arith,
      pass,
      λ k lo' hi'. elim (ℕ_discrete k i) [
        | yes here ↦ ap test here ∙ miss
        | no later ↦ before k (omega arith) hi'
      ],
    )
    | inr (e, none) ↦ inr (
      e,
      λ k lo hi. elim (ℕ_discrete k i) [
        | yes here ↦ ap test here ∙ miss
        | no later ↦ none k (omega arith) (omega arith)
      ],
    )
  ])
]

-- The search for a number that is known to be the first.
pub first-eq :
    (test : ℕ → Bool) (n i r : ℕ)
    → i ≤ r
    → r < i + n
    → test r ≡ true
    → ((k : ℕ) → i ≤ k → k < r → test k ≡ false)
    → first test n i ≡ r
unfolding first
first-eq test zero i r lo hi pass before = absurd (omega arith)
first-eq test (suc n) i r lo hi pass before = elim (ℕ_discrete i r) [
  | yes here ↦ rw (ap test here ∙ pass) here
  | no later ↦ rw (before i (omega arith) (omega arith)) (
      first-eq test n (i + 1) r (omega arith) (omega arith) pass
        (λ k lo' hi'. before k (omega arith) hi'))
]

pub first_congr :
    (test test' : ℕ → Bool) (n i : ℕ)
    → ((k : ℕ) → i ≤ k → k < i + n → test k ≡ test' k)
    → first test n i ≡ first test' n i
unfolding first
first_congr test test' zero i same = refl
first_congr test test' (suc n) i same =
    rw
      (
        same i (omega arith) (omega arith),
        first_congr test test' n (i + 1) (λ k lo hi. same k (omega arith) (omega arith)),
      )
      refl

-- The tests of the three searches.
abbrev pub cluster_free : (ℕ → ℕ) → ℕ → Bool
cluster_free v i = word16 (slice v (fat_addr i) 2) == 0

abbrev pub entry_free : (ℕ → ℕ) → ℕ → Bool
entry_free v i = v (root_addr i) == 0

abbrev pub entry_named : List ℕ → (ℕ → ℕ) → ℕ → Bool
entry_named file_name v i =
    not (v (root_addr i) == 0)
    && same_name (filename_to_native file_name) (slice v (root_addr i) 11)

find_cluster-first :
    (n i : ℕ) (current : List ℕ) {d : Ramdisk}
    → IsDisk d
    → i + n ≤ 1000
    → find_cluster n i current d ≡ ok (first (cluster_free (view d)) n i)
unfolding find_cluster first
find_cluster-first zero i current disk h = refl
find_cluster-first (suc n) i current {d} disk h =
    rw (read_into-slice current (fat_addr i) 2 disk (omega arith))
      (elim (Bool-cases (cluster_free (view d) i)) [
        | inl free ↦ rw free refl
        | inr used ↦
            rw used
              (find_cluster-first n (i + 1) (slice (view d) (fat_addr i) 2) disk (omega arith))
      ])

-- `find_next_free_cluster` returns the first cluster whose entry in the first FAT is 0, or 0.
pub find_next_free_cluster-first :
    {d : Ramdisk}
    → IsDisk d
    → find_next_free_cluster d ≡ ok (first (cluster_free (view d)) cluster_count 0)
unfolding find_next_free_cluster
find_next_free_cluster-first disk =
    find_cluster-first cluster_count 0 (0 ∷ 0 ∷ []) disk (omega arith)

find_root-first :
    (n i : ℕ) (current : List ℕ) {d : Ramdisk}
    → IsDisk d
    → i + n ≤ 1000
    → find_root n i current d ≡ ok (first (entry_free (view d)) n i)
unfolding find_root first
find_root-first zero i current disk h = refl
find_root-first (suc n) i current {d} disk h =
    rw (read_into-slice current (root_addr i) 32 disk (omega arith))
      (elim (Bool-cases (entry_free (view d) i)) [
        | inl free ↦ rw free refl
        | inr used ↦
            rw used (find_root-first n (i + 1) (slice (view d) (root_addr i) 32) disk (omega arith))
      ])

pub find_next_free_root_entry-first :
    (junk : List ℕ) {d : Ramdisk}
    → IsDisk d
    → find_next_free_root_entry junk d ≡ ok (first (entry_free (view d)) 31 1)
unfolding find_next_free_root_entry
find_next_free_root_entry-first junk disk = find_root-first 31 1 junk disk (omega arith)

find_file-first :
    (file_name : List ℕ) (n i : ℕ) (current : List ℕ) {d : Ramdisk}
    → IsDisk d
    → i + n ≤ 1000
    → find_file file_name n i current d ≡ ok (first (entry_named file_name (view d)) n i)
unfolding find_file decode first
find_file-first file_name zero i current disk h = refl
find_file-first file_name (suc n) i current {d} disk h =
    let rest =
      find_file-first file_name n (i + 1) (slice (view d) (root_addr i) 32) disk (omega arith) in
    rw (read_into-slice current (root_addr i) 32 disk (omega arith))
      (elim (Bool-cases (view d (root_addr i) == 0)) [
        | inl free ↦ rw free rest
        | inr used ↦
            elim (Bool-cases
              (same_name (filename_to_native file_name) (slice (view d) (root_addr i) 11))) [
                | inl hit ↦ rw (used, hit) refl
                | inr miss ↦ rw (used, miss) rest
              ]
      ])

pub file_exists-first :
    (junk file_name : List ℕ) {d : Ramdisk}
    → IsDisk d
    → file_exists junk file_name d ≡ ok (first (entry_named file_name (view d)) 31 1)
unfolding file_exists
file_exists-first junk file_name disk = find_file-first file_name 31 1 junk disk (omega arith)

-- What the search of the directory finds is one of its 31 places, or 0.
pub first_lt : (test : ℕ → Bool) (n i : ℕ) → 0 < i + n → first test n i < i + n
first_lt test n i h = elim (first-FirstOf test n i) [
  | inl (lo, hi, pass, before) ↦ omega arith
  | inr (e, none) ↦ omega (arith, e)
]

-- A search that ran: what it returns is the first of its range that passes, or 0.
abbrev Finds : (ℕ → Bool) → ℕ → ℕ → Result ℕ → Type 0
Finds test n i search = (r : ℕ) × (search ≡ ok r) × FirstOf test n i r

-- On a disk of 1024 pages that do not overlap, `find_next_free_cluster` returns the first cluster
-- whose entry in the first FAT is 0, `find_next_free_root_entry` the first of the entries 1 to 31
-- that starts with 0, and `ramdisk_fat16_file_exists` the first of those that is in use and has
-- the file's name as `memcmp` compares it. Each returns 0 when there is none.
searches-FirstOf :
    (junk file_name : List ℕ) {d : Ramdisk}
    → IsDisk d
    → Finds (cluster_free (view d)) cluster_count 0 (find_next_free_cluster d)
      × Finds (entry_free (view d)) 31 1 (find_next_free_root_entry junk d)
      × Finds (entry_named file_name (view d)) 31 1 (file_exists junk file_name d)
searches-FirstOf junk file_name {d} disk = (
  (
    first (cluster_free (view d)) cluster_count 0,
    find_next_free_cluster-first disk,
    first-FirstOf (cluster_free (view d)) cluster_count 0,
  ),
  (
    first (entry_free (view d)) 31 1,
    find_next_free_root_entry-first junk disk,
    first-FirstOf (entry_free (view d)) 31 1,
  ),
  (
    first (entry_named file_name (view d)) 31 1,
    file_exists-first junk file_name disk,
    first-FirstOf (entry_named file_name (view d)) 31 1,
  ),
)
