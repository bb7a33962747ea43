-- ===== src/Strings/Compare.antt =====
-- `strlen`, `strcmp` and `memcmp` (kernel/libc/string.c).
use koiz_os.Base.{
  ℕ, zero, suc, ◌+◌, ◌≤◌, ◌<◌, ◌≡◌, ◌≢◌, ◌↔◌, true, false, not, ◌&&◌, List, [], ◌∷◌, length, ◌==◌,
  ltb, arith, refl, ◌∙◌, ap, subst, add32, sub32, u32_mod, ℕ_discrete, dec_lt,
}
use koiz_os.Kernel.{Result, ok}
use koiz_os.Kernel.Memory.{Memory}
use koiz_os.Strings.{strlen_loop, strlen, strcmp_loop, strcmp, memcmp_loop, memcmp}

-- The characters of a string are bytes other than its terminator.
abbrev pub IsChar : ℕ → Type 0
IsChar c = (c ≢ 0) × (c < 256)

-- At `p` lies the string `xs` with its terminator.
abbrev pub Text : Memory → ℕ → List ℕ → Type 0
Text mem p [] = mem p ≡ 0
Text mem p (x ∷ xs) = (mem p ≡ x) × IsChar x × Text mem (add32 p 1) xs

-- A string lies in memory that has not changed there.
pub Text-agree :
    (mem mem' : Memory) (p : ℕ) (xs : List ℕ)
    → p + length xs < u32_mod
    → ((b : ℕ) → p ≤ b → b ≤ p + length xs → mem' b ≡ mem b)
    → Text mem p xs
    → Text mem' p xs
Text-agree mem mem' p [] fits same h = same p (omega arith) (omega arith) ∙ h
Text-agree mem mem' p (x ∷ xs) fits same (here, char, h) =
    let next : add32 p 1 ≡ p + 1 = omega arith in
    (
      same p (omega arith) (omega arith) ∙ here,
      char,
      Text-agree mem mem' (add32 p 1) xs (omega (arith, next))
          (λ b lo hi. same b (omega (arith, next)) (omega (arith, next))) h,
    )

strlen_loop_lem :
    (fuel : ℕ) (xs : List ℕ) (len str : ℕ) (mem : Memory)
    → length xs < fuel
    → len + length xs < u32_mod
    → Text mem (add32 str len) xs
    → strlen_loop fuel len str mem ≡ ok (len + length xs)
unfolding strlen_loop
strlen_loop_lem zero xs len str mem enough small h = absurd (omega arith)
strlen_loop_lem (suc fuel) [] len str mem enough small h = ground arith
strlen_loop_lem (suc fuel) (x ∷ xs) len str mem enough small (at, char, rest) =
    let goes : (mem (add32 str len) == 0) ≡ false = ground arith in
    let next : add32 (add32 str len) 1 ≡ add32 str (len + 1) = omega arith in
    let up : add32 len 1 ≡ len + 1 = omega arith in
    let total : len + 1 + length xs ≡ len + suc (length xs) = omega arith in
    rw (goes, up)
      (strlen_loop_lem fuel xs (len + 1) str mem (omega arith) (omega arith)
          (subst (λ p. Text mem p xs) next rest)
        ∙ ap ok total)

-- `strlen` of a string returns its length.
pub strlen_lem :
    (mem : Memory) (str : ℕ) (xs : List ℕ)
    → str < u32_mod
    → length xs < u32_mod
    → Text mem str xs
    → strlen str mem ≡ ok (length xs)
unfolding strlen
strlen_lem mem str xs small few h =
    let start : str ≡ add32 str 0 = omega arith in
    strlen_loop_lem u32_mod xs 0 str mem few (omega arith) (subst (λ p. Text mem p xs) start h)
    ∙ ap ok (omega arith)

-- The outcome of a comparison of `xs` with `ys`.
abbrev Compares : List ℕ → List ℕ → Result ℕ → Type 0
Compares xs ys out = (d : ℕ) × (out ≡ ok d) × ((d ≡ 0) ↔ (xs ≡ ys))

strcmp_loop_lem :
    (fuel : ℕ) (xs ys : List ℕ) (a b : ℕ) (mem : Memory)
    → length xs < fuel
    → Text mem a xs
    → Text mem b ys
    → Compares xs ys (strcmp_loop fuel a b mem)
unfolding strcmp_loop
strcmp_loop_lem zero xs ys a b mem enough ha hb = absurd (omega arith)
strcmp_loop_lem (suc fuel) [] [] a b mem enough ha hb = (0, ground arith, (λ _. refl, λ _. refl))
strcmp_loop_lem (suc fuel) [] (y ∷ ys) a b mem enough ha (hb, cb, rest_b) =
    (sub32 0 y, ground arith, (λ e. absurd (omega arith), λ e. cc))
strcmp_loop_lem (suc fuel) (x ∷ xs) [] a b mem enough (ha, ca, rest_a) hb =
    (x, ground arith, (λ e. absurd (omega arith), λ e. cc))
strcmp_loop_lem (suc fuel) (x ∷ xs) (y ∷ ys) a b mem enough (ha, ca, rest_a) (hb, cb, rest_b) =
    elim (ℕ_discrete x y) [
      | yes same ↦
          let (d, e, (to, from)) =
            strcmp_loop_lem fuel xs ys (add32 a 1) (add32 b 1) mem (omega arith) rest_a rest_b in
          let goes : (not (mem a == 0) && (mem a == mem b)) ≡ true = ground arith in
          (d, rw goes e, (λ z. let t = to z in cc, λ z. from cc))
      | no differ ↦
          let stops : (not (mem a == 0) && (mem a == mem b)) ≡ false = ground arith in
          (
            sub32 x y,
            rw (stops, ha, hb) refl,
            (λ z. absurd (omega (arith, differ)), λ z. absurd (differ cc)),
          )
    ]

-- `strcmp` of two strings ends, and returns 0 exactly when they are equal.
pub strcmp_lem :
    (mem : Memory) (a b : ℕ) (xs ys : List ℕ)
    → length xs < u32_mod
    → Text mem a xs
    → Text mem b ys
    → Compares xs ys (strcmp a b mem)
unfolding strcmp
strcmp_lem mem a b xs ys few ha hb = strcmp_loop_lem u32_mod xs ys a b mem few ha hb

memcmp_loop-zero :
    (n i a b : ℕ) (mem : Memory)
    → (memcmp_loop n i a b mem ≡ 0)
      ↔ ((k : ℕ) → i ≤ k → k < i + n → mem (add32 b k) ≤ mem (add32 a k))
unfolding memcmp_loop
memcmp_loop-zero zero i a b mem = (λ e k lo hi. absurd (omega arith), λ all. refl)
memcmp_loop-zero (suc n) i a b mem =
    let (to, from) = memcmp_loop-zero n (i + 1) a b mem in
    elim (dec_lt (mem (add32 a i)) (mem (add32 b i))) [
      | yes below ↦
          let less : ltb (mem (add32 a i)) (mem (add32 b i)) ≡ true = ground arith in
          rw less (λ e. absurd (omega (arith, e)), λ all. absurd (omega (arith, all i, below)))
      | no above ↦
          let less : ltb (mem (add32 a i)) (mem (add32 b i)) ≡ false = ground arith in
          rw less (
            λ e k lo hi. elim (ℕ_discrete k i) [
              | yes here ↦ rw here (omega arith)
              | no later ↦ to e k (omega arith) (omega arith)
            ],
            λ all. from (λ k lo hi. all k (omega arith) (omega arith)),
          )
    ]

-- `memcmp` returns 0 exactly when no byte at the second pointer is larger than its partner at the
-- first: its second test repeats the first one, so a larger byte at the first pointer goes
-- unnoticed.
pub memcmp-zero :
    (n a b : ℕ) (mem : Memory)
    → (memcmp a b n mem ≡ 0) ↔ ((k : ℕ) → k < n → mem (add32 b k) ≤ mem (add32 a k))
unfolding memcmp
memcmp-zero n a b mem =
    let (to, from) = memcmp_loop-zero n 0 a b mem in
    (λ e k h. to e k (omega arith) (omega arith), λ all. from (λ k lo hi. all k (omega arith)))
