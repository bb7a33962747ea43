-- ===== src/Base/Bits.antt =====
-- Laws of `bit_and` and `bit_or` at variables, from the digit recursion that the native operations
-- stand for.
use Prim.Native.Nat.{
  ℕ, zero, suc, ◌+◌, ◌-◌, ◌*◌, ◌/◌, ◌%◌, ◌^◌, ◌≤◌, ◌<◌, min, max, bit_and, bit_or, digits,
  bit_and-bitwise, bit_or-bitwise,
}
use mathlib.Core.Path.{◌≡◌, refl, ap}
use native.Mathlib.Nat.{pow-suc, one-le-pow, le_refl}
use native.Mathlib.Omega.{arith}

-- Any fuel that is at least the first number gives the same digits.
module _ (z : ℕ → ℕ) (f : ℕ → ℕ → ℕ) where
  digits_enough : (m n a b : ℕ) → a ≤ m → a ≤ n → digits z f m a b ≡ digits z f n a b
  digits_enough zero zero a b p q = refl
  digits_enough zero (suc n) zero b p q = refl
  digits_enough zero (suc n) (suc a) b p q = absurd (omega arith)
  digits_enough (suc m) zero zero b p q = refl
  digits_enough (suc m) zero (suc a) b p q = absurd (omega arith)
  digits_enough (suc m) (suc n) zero b p q = refl
  digits_enough (suc m) (suc n) (suc a) b p q =
      omega (arith, digits_enough m n (suc a / 2) (b / 2) (omega arith) (omega arith))

bit_and-halves : (a b : ℕ) → bit_and a b ≡ 2 * bit_and (a / 2) (b / 2) + min (a % 2) (b % 2)
bit_and-halves zero b = omega (arith, bit_and-bitwise 0 b, bit_and-bitwise 0 (b / 2))
bit_and-halves (suc a) b = omega (
  arith,
  bit_and-bitwise (suc a) b,
  bit_and-bitwise (suc a / 2) (b / 2),
  digits_enough (λ y. zero) min a (suc a / 2) (suc a / 2) (b / 2) (omega arith) (le_refl _),
)

bit_or-halves : (a b : ℕ) → bit_or a b ≡ 2 * bit_or (a / 2) (b / 2) + max (a % 2) (b % 2)
bit_or-halves zero b = omega (arith, bit_or-bitwise 0 b, bit_or-bitwise 0 (b / 2))
bit_or-halves (suc a) b = omega (
  arith,
  bit_or-bitwise (suc a) b,
  bit_or-bitwise (suc a / 2) (b / 2),
  digits_enough (λ y. y) max a (suc a / 2) (suc a / 2) (b / 2) (omega arith) (le_refl _),
)

bit_and-zero_below : (n a : ℕ) → a ≤ n → bit_and a 0 ≡ 0
bit_and-zero_below n zero h = omega (arith, bit_and-bitwise 0 0)
bit_and-zero_below zero (suc a) h = absurd (omega arith)
bit_and-zero_below (suc n) (suc a) h =
    omega (arith, bit_and-halves (suc a) 0, bit_and-zero_below n (suc a / 2) (omega arith))

bit_or-zero_below : (n a : ℕ) → a ≤ n → bit_or a 0 ≡ a
bit_or-zero_below n zero h = omega (arith, bit_or-bitwise 0 0)
bit_or-zero_below zero (suc a) h = absurd (omega arith)
bit_or-zero_below (suc n) (suc a) h =
    omega (arith, bit_or-halves (suc a) 0, bit_or-zero_below n (suc a / 2) (omega arith))

bit_and-zero : (a : ℕ) → bit_and a 0 ≡ 0
bit_and-zero a = bit_and-zero_below a a (le_refl _)

bit_or-zero : (a : ℕ) → bit_or a 0 ≡ a
bit_or-zero a = bit_or-zero_below a a (le_refl _)

double_pow : (y k : ℕ) → y * 2 ^ suc k ≡ 2 * (y * 2 ^ k)
double_pow y k = omega (arith, ap (λ (t : ℕ). y * t) (pow-suc 2 k))

-- `x & (y << k)`: the low `k` bits are cleared.
pub bit_and_high :
    (k q r y : ℕ) → r < 2 ^ k → bit_and (q * 2 ^ k + r) (y * 2 ^ k) ≡ bit_and q y * 2 ^ k
bit_and_high zero q r y h = let e : r ≡ 0 = omega arith in ground (arith, e)
bit_and_high (suc k) q r y h = ground (
  arith,
  bit_and-halves (q * 2 ^ suc k + r) (y * 2 ^ suc k),
  double_pow q k,
  double_pow y k,
  double_pow (bit_and q y) k,
  pow-suc 2 k,
  bit_and_high k q (r / 2) y (omega (arith, pow-suc 2 k)),
)

-- `x & (2 ^ k - 1)`
pub bit_and_low : (k q r : ℕ) → r < 2 ^ k → bit_and (q * 2 ^ k + r) (2 ^ k - 1) ≡ r
bit_and_low zero q r h = omega (arith, bit_and-zero (q * 1 + r))
bit_and_low (suc k) q r h = ground (
  arith,
  bit_and-halves (q * 2 ^ suc k + r) (2 ^ suc k - 1),
  double_pow q k,
  pow-suc 2 k,
  one-le-pow k 2,
  bit_and_low k q (r / 2) (omega (arith, pow-suc 2 k)),
)

-- `(q << k) | r`
pub bit_or_low : (k q r : ℕ) → r < 2 ^ k → bit_or (q * 2 ^ k) r ≡ q * 2 ^ k + r
bit_or_low zero q r h = let e : r ≡ 0 = omega arith in ground (arith, e, bit_or-zero q)
bit_or_low (suc k) q r h = ground (
  arith,
  bit_or-halves (q * 2 ^ suc k) r,
  double_pow q k,
  pow-suc 2 k,
  bit_or_low k q (r / 2) (omega (arith, pow-suc 2 k)),
)

-- The masks of a page: `x & 0xFFF`, `x & ~0xFFF` in 32 bits, and `x & 0x3FF`.
pub bit_and_offset : (x : ℕ) → bit_and x 0xFFF ≡ x % 4096
bit_and_offset x = ground (arith, bit_and_low 12 (x / 4096) (x % 4096))

pub bit_and_index : (x : ℕ) → bit_and x 0x3FF ≡ x % 1024
bit_and_index x = ground (arith, bit_and_low 10 (x / 1024) (x % 1024))

pub bit_and_page : (x : ℕ) → x < 2 ^ 32 → bit_and x 0xFFFFF000 ≡ x / 4096 * 4096
bit_and_page x h =
    ground (arith, bit_and_high 12 (x / 4096) (x % 4096) 0xFFFFF, bit_and_low 20 0 (x / 4096))

-- The flags `present | writable | user` on the entry of an aligned page.
pub bit_or_flags : (p : ℕ) → bit_or (p * 4096) 7 ≡ p * 4096 + 7
bit_or_flags p = ground (arith, bit_or_low 12 p 7)

-- `(i << 22) | (j << 12)`
pub bit_or_entry : (i j : ℕ) → j < 1024 → bit_or (i * 2 ^ 22) (j * 2 ^ 12) ≡ i * 2 ^ 22 + j * 2 ^ 12
bit_or_entry i j h = bit_or_low 22 i (j * 2 ^ 12) (omega arith)
