-- ===== src/Stdlib.antt =====
-- kernel/libc/stdlib.c: how `printf` prints a number, and the byte swaps.
pub mod Digits
pub mod Swap
pub mod Streams
pub mod Format
pub mod Console
mod Tests
use koiz_os.Base.{
  ℕ, zero, suc, ◌+◌, ◌*◌, ◌/◌, ◌%◌, ◌^◌, Option, none, some, List, [], ◌∷◌, ◌++◌, ◌==◌, ltb,
  if◌then◌else◌, bit_and, bit_or, add32, mul32, u32_mod,
}

abbrev pub printf_buffer_size : ℕ
printf_buffer_size = 32

-- The characters `0` to `9` and `A` to `F` of `numtochar`.
pub numtochar : ℕ → ℕ
numtochar d = if ltb d 10 then 48 + d else 55 + d

-- The `do ... while` loop of `print_uint_to_string`: the places left in `buffer`, and what it holds,
-- the last character first.
pub digits : ℕ → ℕ → ℕ → List ℕ → List ℕ
digits zero number base buffer = buffer
digits (suc n) number base buffer =
    let buffer' = numtochar (number % base) ∷ buffer in
    let rest = digits n (number / base) base buffer' in if number / base == 0 then buffer' else rest

-- `0b` and `0x`
pub prefix : ℕ → List ℕ
prefix base = if base == 2 then 48 ∷ 98 ∷ [] else (if base == 16 then 48 ∷ 120 ∷ [] else [])

-- The characters that `print_uint_to_string` prints; none for a base that it refuses. For the base
-- 0, which `printf` does not use, it would divide by 0.
pub print_uint_to_string : ℕ → ℕ → Option (List ℕ)
print_uint_to_string number base =
    if ltb 16 base
    then none
    else (if number == 0
        then some (prefix base ++ (48 ∷ []))
        else some (prefix base ++ digits printf_buffer_size number base []))

pub eswap_uint16 : ℕ → ℕ
eswap_uint16 value = bit_or (value * 2 ^ 8) (value / 2 ^ 8) % 2 ^ 16

pub eswap_uint32 : ℕ → ℕ
eswap_uint32 value =
    bit_or
      (bit_or
        (bit_or (bit_and (value * 2 ^ 24 % u32_mod) 0xFF000000)
          (bit_and (value * 2 ^ 8 % u32_mod) 0xFF0000))
        (bit_and (value / 2 ^ 8) 0xFF00))
      (bit_and (value / 2 ^ 24) 0xFF)
