-- ===== src/Fat16/Lookup.antt =====
-- The lookup of kernel/fs/ramdisk_fat16.c: which entry of the directory the name of a file finds.
use koiz_os.Base.{
  ℕ, zero, suc, ◌+◌, ◌≤◌, ◌<◌, ◌≡◌, ◌≢◌, ◌↔◌, ◌⊎◌, inl, inr, true, false, List, ◌++◌, ◌==◌, length,
  get_or, get_or-append_left, get_or-append_right, add32, arith, ap, ◌∙◌, Bool-cases, ℕ_discrete,
  dec_lt,
}
use koiz_os.Ramdisk.{Ramdisk}
use koiz_os.Ramdisk.Slice.{slice, get_or-slice}
use koiz_os.Strings.Compare.{memcmp-zero}
use koiz_os.Fat16.{root_addr, same_name, filename_to_native}
use koiz_os.Fat16.Device.{view}
use koiz_os.Fat16.Names.{length-filename_to_native}
use koiz_os.Fat16.Search.{first, first-FirstOf, first-eq, entry_named}

-- The entry that the search of the directory finds for a name, or 0.
abbrev pub entry_of : List ℕ → Ramdisk → ℕ
entry_of file_name d = first (entry_named file_name (view d)) 31 1

-- The character `i` of the name, in its form of 11 characters.
abbrev native_char : List ℕ → ℕ → ℕ
native_char name i = get_or (filename_to_native name) i 0

-- The entry `k` is in use, and no character of its name is larger than the one of the name that is
-- looked up.
pub record Matches (name : List ℕ) (d : Ramdisk) (k : ℕ) : Type 0 where
  pub used : view d (root_addr k) ≢ 0
  pub at_most : (i : ℕ) → i < 11 → view d (root_addr k + i) ≤ native_char name i

-- In each of the entries 1 to 31 that is in use some character is larger.
abbrev pub Absent : List ℕ → Ramdisk → Type 0
Absent name d =
    (k : ℕ)
    → 1 ≤ k
    → k < 32
    → view d (root_addr k) ≢ 0
    → (i : ℕ) × (i < 11) × (native_char name i < view d (root_addr k + i))

-- The first entry of the directory that matches.
pub record FirstMatch (name : List ℕ) (d : Ramdisk) (k : ℕ) : Type 0 where
  pub low : 1 ≤ k
  pub high : k < 32
  pub matches : Matches name d k
  pub before : (j : ℕ) → 1 ≤ j → j < k → ¬ Matches name d j

same_name-at_most :
    (native stored : List ℕ)
    → length native ≡ 11
    → ((same_name native stored ≡ true)
        ↔ ((i : ℕ) → i < 11 → get_or stored i 0 ≤ get_or native i 0))
unfolding same_name
same_name-at_most native stored len =
    let (to, from) = memcmp-zero 11 0 11 (λ a. get_or (native ++ stored) a 0) in
    let left : (i : ℕ) → i < 11 → get_or (native ++ stored) (add32 0 i) 0 ≡ get_or native i 0 =
      λ i h.
        ap (λ n. get_or (native ++ stored) n 0) (omega arith)
        ∙ get_or-append_left native stored i 0 (omega (arith, len)) in
    let right : (i : ℕ) → i < 11 → get_or (native ++ stored) (add32 11 i) 0 ≡ get_or stored i 0 =
      λ i h.
        ap (λ n. get_or (native ++ stored) n 0) (omega (arith, len))
        ∙ get_or-append_right native stored i 0 in
    (
      λ same i h. omega (arith, to (ground (arith, same)) i h, left i h, right i h),
      λ all.
          let zero_ = from (λ i h. omega (arith, all i h, left i h, right i h)) in
          ground (arith, zero_),
    )

module _ (name : List ℕ) (d : Ramdisk) where
  named_at_most :
      (k : ℕ)
      → ((same_name (filename_to_native name) (slice (view d) (root_addr k) 11) ≡ true)
          ↔ ((i : ℕ) → i < 11 → view d (root_addr k + i) ≤ native_char name i))
  named_at_most k =
      let (to, from) =
        same_name-at_most (filename_to_native name) (slice (view d) (root_addr k) 11)
          (length-filename_to_native name) in
      let char = get_or-slice (view d) (root_addr k) 11 in
      (
        λ same i h. omega (arith, to same i h, char i h),
        λ all. from (λ i h. omega (arith, all i h, char i h)),
      )

  Matches-named : (k : ℕ) → Matches name d k → entry_named name (view d) k ≡ true
  Matches-named k m =
      let same = (named_at_most k).1 m.at_most in let used = m.used in ground (arith, same, used)

  named-Matches : (k : ℕ) → entry_named name (view d) k ≡ true → Matches name d k
  named-Matches k pass = elim (Bool-cases (view d (root_addr k) == 0)) [
    | inl free ↦ cc
    | inr used ↦
        elim (Bool-cases (same_name (filename_to_native name) (slice (view d) (root_addr k) 11))) [
          | inl same ↦ record { used = ground (arith, used); at_most = (named_at_most k).0 same }
          | inr differ ↦ cc
        ]
  ]

  not_named : (k : ℕ) → ¬ Matches name d k → entry_named name (view d) k ≡ false
  not_named k miss = elim (Bool-cases (entry_named name (view d) k)) [
    | inl pass ↦ absurd (miss (named-Matches k pass))
    | inr fails ↦ fails
  ]

  -- The lookup finds the first entry that matches.
  pub FirstMatch-entry_of : (k : ℕ) → FirstMatch name d k → entry_of name d ≡ k
  FirstMatch-entry_of k m =
      first-eq (entry_named name (view d)) 31 1 k m.low m.high (Matches-named k m.matches)
        (λ j lo hi. not_named j (m.before j lo hi))

  -- The lookup finds nothing when every entry is free or has a larger character.
  pub Absent-entry_of : Absent name d → entry_of name d ≡ 0
  Absent-entry_of absent = elim (first-FirstOf (entry_named name (view d)) 31 1) [
    | inl (lo, hi, pass, before) ↦
        let m = named-Matches (entry_of name d) pass in
        let (i, h, larger) = absent (entry_of name d) lo hi m.used in
        absurd (omega (arith, larger, m.at_most i h))
    | inr (e, none) ↦ e
  ]

larger_or_not :
    (n : ℕ) (f g : ℕ → ℕ) → ((i : ℕ) × (i < n) × (f i < g i)) ⊎ ((i : ℕ) → i < n → g i ≤ f i)
larger_or_not zero f g = inr (λ i h. absurd (omega arith))
larger_or_not (suc n) f g = elim (larger_or_not n f g) [
  | inl (i, h, larger) ↦ inl (i, omega arith, larger)
  | inr all ↦ elim (dec_lt (f n) (g n)) [
    | yes larger ↦ inl (n, omega arith, larger)
    | no q ↦ inr (λ i h. elim (ℕ_discrete i n) [
      | yes same ↦ rw same (omega (arith, q))
      | no other ↦ all i (omega arith)
    ])
  ]
]

pub entry_of-Absent : (name : List ℕ) (d : Ramdisk) → entry_of name d ≡ 0 → Absent name d
entry_of-Absent name d e k lo hi used =
    elim (larger_or_not 11 (native_char name) (λ i. view d (root_addr k + i))) [
      | inl larger ↦ larger
      | inr all ↦
          let pass = Matches-named name d k (record { used = used; at_most = all }) in
          elim (first-FirstOf (entry_named name (view d)) 31 1) [
            | inl (low, high, found, before) ↦ absurd (omega (arith, e, low))
            | inr (none_found, none) ↦ let fails = none k lo hi in cc
          ]
    ]
