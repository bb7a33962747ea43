-- ===== src/Sched/Members.antt =====
-- The queues of kernel/drivers/process/sched.c as lists: members, removal, and what comes next.
use koiz_os.Base.{
  ℕ, zero, suc, ◌≤◌, ◌<◌, ◌≡◌, inl, inr, Bool, true, false, Option, none, some, List, [], ◌∷◌, ◌==◌,
  if◌then◌else◌, arith, refl, ◌∙◌, ap, length, Bool-cases, ℕ_discrete,
}

abbrev pub elem : ℕ → List ℕ → Bool
elem c [] = false
elem c (x ∷ xs) = if x == c then true else elem c xs

abbrev pub remove : ℕ → List ℕ → List ℕ
remove c [] = []
remove c (x ∷ xs) = if x == c then xs else x ∷ remove c xs

abbrev pub front : List ℕ → Option ℕ
front [] = none
front (x ∷ xs) = some x

-- What follows a member.
abbrev pub next_of : ℕ → List ℕ → Option ℕ
next_of c [] = none
next_of c (x ∷ xs) = if x == c then front xs else next_of c xs

abbrev pub Distinct : List ℕ → Type 0
Distinct [] = Unit {0}
Distinct (x ∷ xs) = (elem x xs ≡ false) × Distinct xs

test_self : (c : ℕ) → (c == c) ≡ true
test_self c = ground arith

pub elem-remove :
    (c k : ℕ) (xs : List ℕ)
    → Distinct xs
    → elem k (remove c xs) ≡ (if c == k then false else elem k xs)
elem-remove c k [] d = elim (Bool-cases (c == k)) [
  | inl same ↦ rw same refl
  | inr other ↦ rw other refl
]
elem-remove c k (x ∷ xs) (fresh, d) = elim (ℕ_discrete x c) [
  | yes here ↦
      let test : (x == c) ≡ true = ground (arith, here) in
      elim (ℕ_discrete c k) [
        | yes hit ↦
            let at : (c == k) ≡ true = ground (arith, hit) in
            rw (test, at) (ap (λ (v : ℕ). elem v xs) (omega (arith, here, hit)) ∙ fresh)
        | no miss ↦
            let off : (c == k) ≡ false = ground (arith, miss) in
            let apart : (x == k) ≡ false = ground (arith, miss, here) in rw (test, off, apart) refl
      ]
  | no away ↦
      let test : (x == c) ≡ false = ground (arith, away) in
      rw test (elim (ℕ_discrete x k) [
        | yes hit ↦
            let at : (x == k) ≡ true = ground (arith, hit) in
            let off : (c == k) ≡ false = ground (arith, hit, away) in rw (at, off) refl
        | no miss ↦
            let off : (x == k) ≡ false = ground (arith, miss) in rw off (elem-remove c k xs d)
      ])
]

pub remove-Distinct : (c : ℕ) (xs : List ℕ) → Distinct xs → Distinct (remove c xs)
remove-Distinct c [] d = tt
remove-Distinct c (x ∷ xs) (fresh, d) = elim (ℕ_discrete x c) [
  | yes here ↦ let test : (x == c) ≡ true = ground (arith, here) in rw test d
  | no away ↦
      let test : (x == c) ≡ false = ground (arith, away) in
      let off : (c == x) ≡ false = ground (arith, away) in
      rw test (elem-remove c x xs d ∙ rw off fresh, remove-Distinct c xs d)
]

length-remove : (c : ℕ) (xs : List ℕ) → elem c xs ≡ true → length xs ≡ suc (length (remove c xs))
length-remove c [] h = absurd (ground (arith, h))
length-remove c (x ∷ xs) h = elim (Bool-cases (x == c)) [
  | inl here ↦ rw here refl
  | inr away ↦ rw away (ap suc (length-remove c xs (ground (arith, h, away))))
]

-- Distinct numbers below `n` are at most `n`.
pub length-Distinct :
    (n : ℕ) (xs : List ℕ) → Distinct xs → ((k : ℕ) → elem k xs ≡ true → k < n) → length xs ≤ n
length-Distinct zero [] d small = omega arith
length-Distinct zero (x ∷ xs) d small = absurd (omega (arith, small x (rw (test_self x) refl)))
length-Distinct (suc n) xs d small = elim (Bool-cases (elem n xs)) [
  | inl there ↦
      let rest = length-Distinct n (remove n xs) (remove-Distinct n xs d) (λ k h.
        let e = elem-remove n k xs d in
        elim (ℕ_discrete n k) [
          | yes same ↦
              let test : (n == k) ≡ true = ground (arith, same) in
              absurd (ground (arith, e, h, test))
          | no other ↦
              let test : (n == k) ≡ false = ground (arith, other) in
              omega (arith, small k (ground (arith, e, h, test)), other)
        ]) in
      omega (arith, length-remove n xs there, rest)
  | inr absent ↦
      let rest = length-Distinct n xs d (λ k h. elim (ℕ_discrete n k) [
        | yes same ↦ absurd (ground (arith, ap (λ (v : ℕ). elem v xs) same, h, absent))
        | no other ↦ omega (arith, small k h, other)
      ]) in
      omega (arith, rest)
]
