-- ===== src/Keyboard/Keys.antt =====
-- The characters of a keyboard by the codes of its keys (kernel/drivers/input/keyboard.c).
use koiz_os.Base.{
  ℕ, zero, suc, ◌+◌, ◌-◌, ◌≤◌, ◌<◌, ◌≡◌, true, Bool, ◌&&◌, List, [], ◌∷◌, ◌==◌, leb, ltb,
  if◌then◌else◌, get_or, length, arith, refl, ap, ◌∙◌, ℕ_discrete, Bool-cases, inl, inr,
}
use koiz_os.Base.Text.{codes}
use koiz_os.Keyboard.{scan_to_ascii}

-- The rows of keys that have a character: the code of the first key, and the characters. The codes
-- from 71 on are those of the number pad.
abbrev pub rows : List (ℕ × List ℕ)
rows =
    (2, codes "1234567890-=")
    ∷ (16, codes "qwertyuiop[]\n")
    ∷ (30, codes "asdfghjkl;'`")
    ∷ (43, codes "\\zxcvbnm,./")
    ∷ (57, codes " ")
    ∷ (71, codes "789-456+1230.")
    ∷ []

-- The character of the key that is pressed, or 0. The codes from 128 on are those of released keys.
abbrev key_in : List (ℕ × List ℕ) → ℕ → ℕ
key_in [] code = 0
key_in ((start, chars) ∷ others) code =
    if leb start code && ltb code (start + length chars)
    then get_or chars (code - start) 0
    else key_in others code

abbrev pub key_char : ℕ → ℕ
key_char code = key_in rows code

all_below : ℕ → (ℕ → Bool) → Bool
all_below zero test = true
all_below (suc n) test = test n && all_below n test

all_below-test :
    (n : ℕ) (test : ℕ → Bool) → all_below n test ≡ true → (k : ℕ) → k < n → test k ≡ true
unfolding all_below
all_below-test zero test all k h = absurd (omega arith)
all_below-test (suc n) test all k h = elim (Bool-cases (test n)) [
  | inl pass ↦ elim (ℕ_discrete k n) [
    | yes last ↦ ap test last ∙ pass
    | no before ↦ all_below-test n test (ground (arith, all)) k (omega arith)
  ]
  | inr miss ↦ cc
]

same_table : all_below 256 (λ c. scan_to_ascii c == key_char c) ≡ true
unfolding all_below scan_to_ascii
same_table = refl

-- The table of the kernel has the characters of the rows, for every byte.
pub scan_to_ascii-key_char : (code : ℕ) → code < 256 → scan_to_ascii code ≡ key_char code
scan_to_ascii-key_char code h =
    let same = all_below-test 256 (λ c. scan_to_ascii c == key_char c) same_table code h in
    ground (arith, same)

-- A key that is released has no character.
pub released : (code : ℕ) → 128 ≤ code → key_char code ≡ 0
released code h = ground (arith, h)
