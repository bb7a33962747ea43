-- ===== src/Stdlib/Swap.antt =====
-- The byte swaps of kernel/libc/stdlib.c.

use koiz_os.Base.{ℕ, ◌+◌, ◌*◌, ◌/◌, ◌%◌, ◌^◌, ◌<◌, ◌≡◌, arith, ◌∙◌, ap, bit_and, bit_or, u32_mod}
use koiz_os.Base.Bits.{bit_or_low, bit_and_high, bit_and_low}
use koiz_os.Stdlib.{eswap_uint16, eswap_uint32}

-- `eswap_uint16` swaps the two bytes of a value.
pub eswap_uint16-bytes :
    (a b : ℕ) → a < 256 → b < 256 → eswap_uint16 (a * 2 ^ 8 + b) ≡ b * 2 ^ 8 + a
unfolding eswap_uint16
eswap_uint16-bytes a b ha hb =
    let high : (a * 2 ^ 8 + b) / 2 ^ 8 ≡ a = omega arith in
    rw (high, bit_or_low 8 (a * 2 ^ 8 + b) a ha) (omega arith)

low_byte : (q x : ℕ) → x < 256 → bit_and (q * 2 ^ 8 + x) 0xFF ≡ x
low_byte q x h = bit_and_low 8 q x h

byte_mask : (x : ℕ) → x < 256 → bit_and x 0xFF ≡ x
byte_mask x h = ap (λ (y : ℕ). bit_and y 0xFF) (omega arith) ∙ low_byte 0 x h

-- `eswap_uint32` reverses the four bytes of a value.
eswap_uint32-bytes :
    (a b c d : ℕ)
    → a < 256
    → b < 256
    → c < 256
    → d < 256
    → eswap_uint32 (a * 2 ^ 24 + b * 2 ^ 16 + c * 2 ^ 8 + d)
      ≡ d * 2 ^ 24 + c * 2 ^ 16 + b * 2 ^ 8 + a
unfolding eswap_uint32
eswap_uint32-bytes a b c d ha hb hc hd =
    let v = a * 2 ^ 24 + b * 2 ^ 16 + c * 2 ^ 8 + d in
    let byte3 : bit_and (v * 2 ^ 24 % u32_mod) 0xFF000000 ≡ d * 2 ^ 24 =
      ap (λ (x : ℕ). bit_and x 0xFF000000) (omega arith)
      ∙ bit_and_high 24 d 0 0xFF (omega arith)
      ∙ ap (λ (x : ℕ). x * 2 ^ 24) (byte_mask d hd) in
    let byte2 : bit_and (v * 2 ^ 8 % u32_mod) 0xFF0000 ≡ c * 2 ^ 16 =
      ap (λ (x : ℕ). bit_and x 0xFF0000) (omega arith)
      ∙ bit_and_high 16 (b * 2 ^ 8 + c) (d * 2 ^ 8) 0xFF (omega arith)
      ∙ ap (λ (x : ℕ). x * 2 ^ 16) (low_byte b c hc) in
    let byte1 : bit_and (v / 2 ^ 8) 0xFF00 ≡ b * 2 ^ 8 =
      ap (λ (x : ℕ). bit_and x 0xFF00) (omega arith)
      ∙ bit_and_high 8 (a * 2 ^ 8 + b) c 0xFF hc
      ∙ ap (λ (x : ℕ). x * 2 ^ 8) (low_byte a b hb) in
    let byte0 : bit_and (v / 2 ^ 24) 0xFF ≡ a =
      ap (λ (x : ℕ). bit_and x 0xFF) (omega arith) ∙ byte_mask a ha in
    let or1 = bit_or_low 24 d (c * 2 ^ 16) (omega arith) in
    let or2 : bit_or (d * 2 ^ 24 + c * 2 ^ 16) (b * 2 ^ 8) ≡ d * 2 ^ 24 + c * 2 ^ 16 + b * 2 ^ 8 =
      ap (λ (x : ℕ). bit_or x (b * 2 ^ 8)) (omega arith)
      ∙ bit_or_low 16 (d * 2 ^ 8 + c) (b * 2 ^ 8) (omega arith)
      ∙ omega arith in
    let or3 : bit_or (d * 2 ^ 24 + c * 2 ^ 16 + b * 2 ^ 8) a
        ≡ d * 2 ^ 24 + c * 2 ^ 16 + b * 2 ^ 8 + a =
      ap (λ (x : ℕ). bit_or x a) (omega arith)
      ∙ bit_or_low 8 (d * 2 ^ 16 + c * 2 ^ 8 + b) a ha
      ∙ omega arith in
    rw (byte3, byte2, byte1, byte0, or1, or2) or3
