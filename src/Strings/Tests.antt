-- ===== src/Strings/Tests.antt =====
-- The theorems on string.c at the strings "AB" (at 100) and "AC" (at 200).
use koiz_os.Base.{
  ℕ, zero, suc, ◌≤◌, ◌<◌, ◌≡◌, ◌↔◌, inl, [], ◌∷◌, arith, refl, ◌==◌, if◌then◌else◌, add32,
}
use koiz_os.Kernel.Memory.{Memory}
use koiz_os.Strings.{memcmp, strcpy}
use koiz_os.Strings.Compare.{Text, memcmp-zero}
use koiz_os.Strings.Copy.{Bytes, Terminated, strcpy-copies}

abbrev two_strings : Memory
two_strings a =
    if a == 100
    then 65
    else (if a == 101 then 66 else (if a == 200 then 65 else (if a == 201 then 67 else 0)))

ab-Text : Text two_strings 100 (65 ∷ 66 ∷ [])
ab-Text = (refl, (omega arith, omega arith), (refl, (omega arith, omega arith), refl))

ac-Text : Text two_strings 200 (65 ∷ 67 ∷ [])
ac-Text = (refl, (omega arith, omega arith), (refl, (omega arith, omega arith), refl))

ab-Bytes : Bytes two_strings 100 (65 ∷ 66 ∷ [])
ab-Bytes zero h = (refl, omega arith)
ab-Bytes (suc zero) h = (refl, omega arith)
ab-Bytes (suc (suc i)) h = absurd (omega arith)

-- "AC" and "AB" differ, yet the comparison holds them for equal.
memcmp-zero_example :
    (memcmp 200 100 2 two_strings ≡ 0)
    ↔ ((k : ℕ) → k < 2 → two_strings (add32 100 k) ≤ two_strings (add32 200 k))
memcmp-zero_example = memcmp-zero 2 200 100 two_strings

-- Two characters into two bytes: the terminator lies behind them.
strcpy-copies_example : Terminated 300 2 (65 ∷ 66 ∷ []) two_strings (strcpy 300 100 2 two_strings).1
strcpy-copies_example =
    strcpy-copies 300 100 2 (65 ∷ 66 ∷ []) two_strings (omega arith) (omega arith) (omega arith)
      (inl (omega arith)) ab-Bytes refl
