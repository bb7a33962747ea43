-- ===== src/Stdlib/Digits.antt =====
-- `print_uint_to_string` (kernel/libc/stdlib.c): the digits read back give the number.
use native.Mathlib.Nat.{mul-le-mul_left, div-lt_iff_lt-mul, div-add-mod', mod-lt}
use koiz_os.Base.{
  ℕ, zero, suc, ◌+◌, ◌-◌, ◌*◌, ◌/◌, ◌%◌, ◌^◌, ◌≤◌, ◌<◌, ◌≡◌, some, List, [], ◌∷◌, ◌++◌, ◌==◌, ltb,
  true, false, if◌then◌else◌, arith, refl, ◌∙◌, ap, subst, All, get_or, ◌≢◌, ◌⊎◌, inl, inr,
  Bool-cases, u32_mod, ℕ_discrete, dec_lt,
}
use koiz_os.Stdlib.{printf_buffer_size, numtochar, digits, prefix, print_uint_to_string}

-- The value of a digit.
abbrev digit_of : ℕ → ℕ
digit_of c = if ltb c 58 then c - 48 else c - 55

-- The number that a text of digits denotes, behind what was read so far.
abbrev read_digits : ℕ → ℕ → List ℕ → ℕ
read_digits base n [] = n
read_digits base n (c ∷ text) = read_digits base (n * base + digit_of c) text

-- One of `0` to `9` and `A` to `F`, below the base.
pub record IsDigit (base c : ℕ) : Type 0 where
  pub range : ((48 ≤ c) × (c < 58)) ⊎ ((65 ≤ c) × (c < 71))
  pub below : digit_of c < base

-- The digits of a number in a base: those of 0 are `0`, and those of others do not start with `0`.
pub record IsWritten (base n : ℕ) (ds : List ℕ) : Type 0 where
  pub digits : All (IsDigit base) ds
  pub value : read_digits base 0 ds ≡ n
  pub zero_ : n ≡ 0 → ds ≡ 48 ∷ []
  pub start : n ≢ 0 → get_or ds 0 48 ≢ 48

digit_of-numtochar : (d : ℕ) → d < 16 → digit_of (numtochar d) ≡ d
unfolding numtochar
digit_of-numtochar d h = ground arith

numtochar-IsDigit : (base d : ℕ) → d < base → base ≤ 16 → IsDigit base (numtochar d)
unfolding numtochar
numtochar-IsDigit base d h hi = record {
  range = ground arith;
  below = omega (arith, h, digit_of-numtochar d (omega arith));
}

digits-IsDigit :
    (n number base : ℕ) (text : List ℕ)
    → 2 ≤ base
    → base ≤ 16
    → All (IsDigit base) text
    → All (IsDigit base) (digits n number base text)
unfolding digits
digits-IsDigit zero number base text lo hi h = h
digits-IsDigit (suc n) number base text lo hi h =
    let digit =
      numtochar-IsDigit base (number % base) (mod-lt number {m = base} (omega arith)) hi in
    elim (Bool-cases (number / base == 0)) [
      | inl last ↦ rw last (digit, h)
      | inr more ↦ rw more (
          digits-IsDigit n (number / base) base (numtochar (number % base) ∷ text) lo hi (digit, h))
    ]

quotient_bound : (number base k : ℕ) → 2 ≤ base → number < 2 ^ suc k → number / base < 2 ^ k
quotient_bound number base k h small =
    let wide = mul-le-mul_left (2 ^ k) h in
    (div-lt_iff_lt-mul {k = base} {x = number} {y = 2 ^ k} (omega arith)).1 (omega (arith, wide))

read_digits-digits :
    (n number base : ℕ) (text : List ℕ)
    → 2 ≤ base
    → base ≤ 16
    → 0 < n
    → number < 2 ^ n
    → read_digits base 0 (digits n number base text) ≡ read_digits base number text
unfolding digits
read_digits-digits zero number base text lo hi pos small = absurd (omega arith)
read_digits-digits (suc n) number base text lo hi pos small =
    let digit : digit_of (numtochar (number % base)) ≡ number % base =
      digit_of-numtochar (number % base) (omega (arith, mod-lt number {m = base} (omega arith))) in
    let whole = div-add-mod' number base in
    elim (ℕ_discrete (number / base) 0) [
      | yes last ↦
          let stops : (number / base == 0) ≡ true = ground (arith, last) in
          let all : number % base ≡ number =
            omega (arith, last, whole, ap (λ (q : ℕ). q * base) last) in
          let total : 0 * base + digit_of (numtochar (number % base)) ≡ number =
            omega (arith, digit, all) in
          rw stops (ap (λ (m : ℕ). read_digits base m text) total)
      | no more ↦
          let goes : (number / base == 0) ≡ false = ground (arith, more) in
          let bound = quotient_bound number base n lo small in
          let some_left : 0 < n = elim (dec_lt 0 n) [
            | yes p ↦ p
            | no q ↦
                let none_left : n ≡ 0 = omega (arith, q) in
                let small : number / base < 2 ^ 0 =
                  subst (λ k. number / base < 2 ^ k) none_left bound in
                absurd (more (omega (arith, small)))
          ] in
          let text' = numtochar (number % base) ∷ text in
          rw goes (
            read_digits-digits n (number / base) base text' lo hi some_left bound
            ∙ ap (λ (m : ℕ). read_digits base m text)
                (ap (λ (d : ℕ). number / base * base + d) digit ∙ whole))
    ]

digits_start :
    (n number base : ℕ) (text : List ℕ)
    → 2 ≤ base
    → base ≤ 16
    → number < 2 ^ n
    → number ≢ 0
    → get_or (digits n number base text) 0 48 ≢ 48
unfolding digits
digits_start zero number base text lo hi small some_digits = absurd (omega arith)
digits_start (suc n) number base text lo hi small some_digits =
    let whole = div-add-mod' number base in
    let low = mod-lt number {m = base} (omega arith) in
    elim (ℕ_discrete (number / base) 0) [
      | yes last ↦
          let stops : (number / base == 0) ≡ true = ground (arith, last) in
          let all : number % base ≡ number =
            omega (arith, last, whole, ap (λ (q : ℕ). q * base) last) in
          let digit = digit_of-numtochar (number % base) (omega arith) in
          rw stops (λ z.
            let nothing : digit_of (numtochar (number % base)) ≡ 0 = ap digit_of z in
            absurd (some_digits (omega (arith, all, digit, nothing))))
      | no more ↦
          let goes : (number / base == 0) ≡ false = ground (arith, more) in
          rw goes (
            digits_start n (number / base) base (numtochar (number % base) ∷ text) lo hi
              (quotient_bound number base n lo small) more)
    ]

-- The digits that `print_uint_to_string` prints behind the prefix, in a base from 2 to 16, are those
-- of the number: the buffer is long enough for every 32-bit number.
pub print_uint_to_string-digits :
    (number base : ℕ)
    → number < u32_mod
    → 2 ≤ base
    → base ≤ 16
    → (text : List ℕ) × (print_uint_to_string number base ≡ some (prefix base ++ text))
      × IsWritten base number text
unfolding print_uint_to_string
print_uint_to_string-digits number base small lo hi =
    let known : ltb 16 base ≡ false = ground arith in
    elim (ℕ_discrete number 0) [
      | yes empty ↦
          let is_zero : (number == 0) ≡ true = ground (arith, empty) in
          (
            48 ∷ [],
            rw (known, is_zero) refl,
            record {
              digits = (record { range = omega arith; below = omega arith }, tt);
              value = omega (arith, empty);
              zero_ = λ z. refl;
              start = λ z. absurd (z empty);
            },
          )
      | no some_digits ↦
          let nonzero : (number == 0) ≡ false = ground (arith, some_digits) in
          (
            digits printf_buffer_size number base [],
            rw (known, nonzero) refl,
            record {
              digits = digits-IsDigit printf_buffer_size number base [] lo hi tt;
              value = read_digits-digits 32 number base [] lo hi (omega arith) small;
              zero_ = λ z. absurd (some_digits z);
              start = λ z. digits_start printf_buffer_size number base [] lo hi small some_digits;
            },
          )
    ]
