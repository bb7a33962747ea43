-- ===== src/Shell/Split.antt =====
-- The loop of `shell_execute_command` (kernel/shell/shell.c) that splits the line: what a command
-- line is, and the state after each of its words.
pub mod Words
pub mod Arguments
use koiz_os.Base.{
  All, ℕ, zero, suc, ◌+◌, ◌≤◌, ◌<◌, ◌≡◌, ◌≢◌, ◌⊎◌, inl, inr, Bool, true, false, not, List, [], ◌∷◌,
  ◌++◌, if◌then◌else◌, ◌==◌, length, length-append, append_assoc, append-nil, arith, refl, sym,
  subst, ap, ◌∙◌, add32, u32_mod, replicate,
}
use koiz_os.Kernel.Memory.{Memory, write8}
use koiz_os.Shell.{Splitter, split_step, split_loop}

-- A word of the line: the spaces before it after the first one, its characters, and whether
-- quotes stand round it.
pub record Word : Type 0 where
  pub spaces : ℕ
  pub quoted : Bool
  pub chars : List ℕ

abbrev pub spell_chars : Bool → List ℕ → List ℕ
spell_chars true chars = b'\'' ∷ (chars ++ (b'\'' ∷ []))
spell_chars false chars = chars

-- How the word stands in the line.
abbrev pub spell_word : Word → List ℕ
spell_word w = replicate (suc w.spaces) b' ' ++ spell_chars w.quoted w.chars

abbrev pub spell : List Word → List ℕ
spell [] = []
spell (w ∷ ws) = spell_word w ++ spell ws

-- A character within a word; a space only between quotes.
abbrev pub Within : Bool → ℕ → Type 0
Within quoted c = (c ≢ 0) × (c < 256) × (c ≢ b'\'') × ((c ≢ b' ') ⊎ (quoted ≡ true))

abbrev pub Starts : List ℕ → Type 0
Starts [] = ⊥
Starts (c ∷ cs) = c ≢ b' '

-- A word has a first character, which is no space.
abbrev pub IsWord : Word → Type 0
IsWord w = Starts w.chars × All (Within w.quoted) w.chars

abbrev pub AllWords : List Word → Type 0
AllWords [] = Unit {0}
AllWords (w ∷ ws) = IsWord w × AllWords ws

-- At `p` lie the characters `xs`.
abbrev pub Chars : Memory → ℕ → List ℕ → Type 0
Chars mem p [] = Unit {0}
Chars mem p (x ∷ xs) = (mem p ≡ x) × Chars mem (p + 1) xs

pub Chars-agree :
    (mem mem' : Memory) (p : ℕ) (xs : List ℕ)
    → ((b : ℕ) → p ≤ b → b < p + length xs → mem' b ≡ mem b)
    → Chars mem p xs
    → Chars mem' p xs
Chars-agree mem mem' p [] same h = tt
Chars-agree mem mem' p (x ∷ xs) same (at, rest) = (
  same p (omega arith) (omega arith) ∙ at,
  Chars-agree mem mem' (p + 1) xs (λ b lo hi. same b (omega arith) (omega arith)) rest,
)

pub Chars-append :
    (mem : Memory) (p : ℕ) (xs ys : List ℕ)
    → Chars mem p (xs ++ ys)
    → Chars mem p xs × Chars mem (p + length xs) ys
Chars-append mem p [] ys h = (tt, subst (λ q. Chars mem q ys) (omega arith) h)
Chars-append mem p (x ∷ xs) ys (at, rest) =
    let (left, right) = Chars-append mem (p + 1) xs ys rest in
    ((at, left), subst (λ q. Chars mem q ys) (omega arith) right)

-- The loop by addresses: the rounds left, then the address.
pub scan : ℕ → ℕ → Splitter → Splitter
scan zero at s = s
scan (suc n) at s = scan n (at + 1) (split_step at s)

pub split_loop-scan :
    (n i buffer : ℕ) (s : Splitter)
    → buffer + (i + n) ≤ u32_mod
    → split_loop n i buffer s ≡ scan n (buffer + i) s
unfolding split_loop scan
split_loop-scan zero i buffer s fits = refl
split_loop-scan (suc n) i buffer s fits =
    let here : add32 buffer i ≡ buffer + i = omega arith in
    let next : buffer + (i + 1) ≡ buffer + i + 1 = omega arith in
    split_loop-scan n (i + 1) buffer (split_step (add32 buffer i) s) (omega arith)
    ∙ ap (λ a. scan n a (split_step (add32 buffer i) s)) next
    ∙ ap (λ a. scan n (buffer + i + 1) (split_step a s)) here

pub scan_same : (s : Splitter) {m n a b : ℕ} → m ≡ n → a ≡ b → scan m a s ≡ scan n b s
scan_same s e f = cc

-- Zeros at `n` addresses.
pub blank : ℕ → ℕ → Memory → Memory
blank zero at mem = mem
blank (suc n) at mem = blank n (at + 1) (write8 mem at 0)

pub blank-outside :
    (n at : ℕ) (mem : Memory) (b : ℕ) → (b < at) ⊎ (at + n ≤ b) → blank n at mem b ≡ mem b
unfolding blank
blank-outside zero at mem b out = refl
blank-outside (suc n) at mem b out =
    let away : (at == b) ≡ false = ground (arith, out) in
    blank-outside n (at + 1) (write8 mem at 0) b (omega (arith, out)) ∙ rw away refl

pub blank-first : (n at : ℕ) (mem : Memory) → blank (suc n) at mem at ≡ 0
unfolding blank
blank-first n at mem =
    let here : (at == at) ≡ true = ground arith in
    blank-outside n (at + 1) (write8 mem at 0) at (omega arith) ∙ rw here refl

module _ (argv : List ℕ) where
  abbrev pub state : Memory → Bool → Bool → Splitter
  state mem inside new_string = record {
    mem = mem;
    c_argv = argv;
    inside = inside;
    new_string = new_string;
  }

  -- Characters of a word that has begun change nothing.
  pub scan-Within :
      (n at : ℕ) (mem : Memory) (inside : Bool) (xs : List ℕ)
      → All (Within inside) xs
      → Chars mem at xs
      → scan (length xs + n) at (state mem inside false)
        ≡ scan n (at + length xs) (state mem inside false)
  unfolding scan
  scan-Within n at mem inside [] ok_chars h =
      scan_same (state mem inside false) {m = 0 + n} {n = n} {a = at} {b = at + 0} (omega arith)
        (omega arith)
  scan-Within n at mem inside (x ∷ xs) ((nonzero, small, no_quote, no_space), rest) (here, h) =
      let step : split_step at (state mem inside false) ≡ state mem inside false =
        unfold split_step in ground (arith, here, no_quote, no_space) in
      scan_same (state mem inside false) {m = suc (length xs) + n} {n = suc (length xs + n)}
        {a = at} {b = at} (omega arith) refl
      ∙ ap (λ s. scan (length xs + n) (at + 1) s) step
      ∙ scan-Within n (at + 1) mem inside xs rest h
      ∙ scan_same (state mem inside false) {m = n} {n = n} {a = at + 1 + length xs}
          {b = at + suc (length xs)} refl (omega arith)

  -- The first character of a word begins an argument.
  pub scan_first :
      (n at : ℕ) (mem : Memory) (inside : Bool) (x : ℕ)
      → Within inside x
      → x ≢ b' '
      → mem at ≡ x
      → scan (suc n) at (state mem inside true)
        ≡ scan n
            (at + 1)
            (record { mem = mem; c_argv = argv ++ (at ∷ []); inside = inside; new_string = false })
  unfolding scan
  scan_first n at mem inside x (nonzero, small, no_quote, no_space) no_blank here =
      let step : split_step at (state mem inside true)
          ≡ record { mem = mem; c_argv = argv ++ (at ∷ []); inside = inside; new_string = false } =
        unfold split_step in ground (arith, here, no_quote, no_blank) in
      ap (λ s. scan n (at + 1) s) step

  -- A quote.
  pub scan_quote :
      (n at : ℕ) (mem : Memory) (inside new_string : Bool)
      → mem at ≡ b'\''
      → scan (suc n) at (state mem inside new_string)
        ≡ scan n (at + 1) (state mem (not inside) new_string)
  unfolding scan
  scan_quote n at mem inside new_string here =
      let step : split_step at (state mem inside new_string) ≡ state mem (not inside) new_string =
        unfold split_step in ground (arith, here) in
      ap (λ s. scan n (at + 1) s) step

  space_step :
      (at : ℕ) (mem : Memory) (new_string : Bool)
      → mem at ≡ b' '
      → split_step at (state mem false new_string) ≡ state (write8 mem at 0) false true
  unfolding split_step
  space_step at mem new_string here = ground (arith, here)

  -- Spaces outside quotes become zeros, and end the argument.
  pub scan_spaces :
      (k n at : ℕ) (mem : Memory) (new_string : Bool)
      → Chars mem at (replicate (suc k) b' ')
      → scan (suc k + n) at (state mem false new_string)
        ≡ scan n (at + suc k) (state (blank (suc k) at mem) false true)
  unfolding scan blank
  scan_spaces zero n at mem new_string (here, h) =
      scan_same (state mem false new_string) {m = 1 + n} {n = suc n} {a = at} {b = at} (omega arith)
        refl
      ∙ ap (λ s. scan n (at + 1) s) (space_step at mem new_string here)
  scan_spaces (suc m) n at mem new_string (here, h) =
      scan_same (state mem false new_string) {m = suc (suc m) + n} {n = suc (suc m + n)} {a = at}
        {b = at} (omega arith) refl
      ∙ ap (λ s. scan (suc m + n) (at + 1) s) (space_step at mem new_string here)
      ∙ scan_spaces m n (at + 1) (write8 mem at 0) true (
          Chars-agree mem (write8 mem at 0) (at + 1) (replicate (suc m) b' ')
            (λ b lo hi. let away : (at == b) ≡ false = ground (arith, lo) in rw away refl) h)
      ∙ scan_same (state (blank (suc m) (at + 1) (write8 mem at 0)) false true) {m = n} {n = n}
          {a = at + 1 + suc m} {b = at + suc (suc m)} refl (omega arith)
