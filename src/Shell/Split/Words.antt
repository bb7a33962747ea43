-- ===== src/Shell/Split/Words.antt =====
-- The words of a command line become the arguments (kernel/shell/shell.c).
use koiz_os.Base.{
  All, ℕ, zero, suc, ◌+◌, ◌≡◌, inr, Bool, true, false, List, [], ◌∷◌, ◌++◌, if◌then◌else◌, length,
  length-append, arith, refl, subst, ap, ◌∙◌, replicate,
}
use koiz_os.Kernel.Memory.{Memory}
use koiz_os.Shell.Split.{
  Word, spell_chars, spell_word, Within, Starts, IsWord, Chars, Chars-agree, Chars-append, scan,
  blank, blank-outside, scan_same, state, scan-Within, scan_first, scan_quote, scan_spaces,
}

pub length-replicate : (n c : ℕ) → length (replicate n c) ≡ n
length-replicate zero c = refl
length-replicate (suc n) c = ap suc (length-replicate n c)

-- Where the argument of a word that begins at `at` starts.
abbrev pub start_of : ℕ → Word → ℕ
start_of at w = at + suc w.spaces + (if w.quoted then 1 else 0)

-- The argument of a word: a quote that opens it is left out, the one that closes it is not.
abbrev pub value_of : Word → List ℕ
value_of w = if w.quoted then w.chars ++ (b'\'' ∷ []) else w.chars

module _ (argv : List ℕ) where
  -- The characters of a word, from its first one on.
  scan-Chars :
      (n at : ℕ) (mem : Memory) (inside : Bool) (xs : List ℕ)
      → Starts xs
      → All (Within inside) xs
      → Chars mem at xs
      → scan (length xs + n) at (state argv mem inside true)
        ≡ scan n (at + length xs) (state (argv ++ (at ∷ [])) mem inside false)
  scan-Chars n at mem inside [] starts fine h = elim starts [ ]
  scan-Chars n at mem inside (x ∷ xs) starts (first, fine) (here, h) =
      scan_same (state argv mem inside true) {m = suc (length xs) + n} {n = suc (length xs + n)}
        {a = at} {b = at} (omega arith) refl
      ∙ scan_first argv (length xs + n) at mem inside x first starts here
      ∙ scan-Within (argv ++ (at ∷ [])) n (at + 1) mem inside xs fine h
      ∙ scan_same (state (argv ++ (at ∷ [])) mem inside false) {m = n} {n = n}
          {a = at + 1 + length xs} {b = at + suc (length xs)} refl (omega arith)

  -- The characters with the quotes round them.
  scan_spelled :
      (n at : ℕ) (mem : Memory) (quoted : Bool) (xs : List ℕ)
      → Starts xs
      → All (Within quoted) xs
      → Chars mem at (spell_chars quoted xs)
      → scan (length (spell_chars quoted xs) + n) at (state argv mem false true)
        ≡ scan n
            (at + length (spell_chars quoted xs))
            (state (argv ++ ((at + (if quoted then 1 else 0)) ∷ [])) mem false false)
  scan_spelled n at mem false xs starts fine h =
      scan-Chars n at mem false xs starts fine h
      ∙ ap (λ a. scan n (at + length xs) (state (argv ++ (a ∷ [])) mem false false)) (omega arith)
  scan_spelled n at mem true xs starts fine (open_quote, h) =
      let (chars, (close_quote, none_left)) = Chars-append mem (at + 1) xs (b'\'' ∷ []) h in
      let long : length (xs ++ (b'\'' ∷ [])) ≡ length xs + 1 = length-append xs (b'\'' ∷ []) in
      let argv' = argv ++ ((at + 1) ∷ []) in
      scan_same (state argv mem false true) {m = suc (length (xs ++ (b'\'' ∷ []))) + n}
        {n = suc (length xs + suc n)} {a = at} {b = at} (omega (arith, long)) refl
      ∙ scan_quote argv (length xs + suc n) at mem false true open_quote
      ∙ scan-Chars (suc n) (at + 1) mem true xs starts fine chars
      ∙ scan_quote argv' n (at + 1 + length xs) mem true false close_quote
      ∙ scan_same (state argv' mem false false) {m = n} {n = n} {a = at + 1 + length xs + 1}
          {b = at + suc (length (xs ++ (b'\'' ∷ [])))} refl (omega (arith, long))

  pub scan_word :
      (n at : ℕ) (mem : Memory) (w : Word)
      → IsWord w
      → Chars mem at (spell_word w)
      → scan (length (spell_word w) + n) at (state argv mem false false)
        ≡ scan n
            (at + length (spell_word w))
            (state (argv ++ (start_of at w ∷ [])) (blank (suc w.spaces) at mem) false false)
  scan_word n at mem w (starts, fine) h =
      let gap = replicate (suc w.spaces) b' ' in
      let rest = spell_chars w.quoted w.chars in
      let (before, after) = Chars-append mem at gap rest h in
      let wide = length-replicate (suc w.spaces) b' ' in
      let long = length-append gap rest in
      let mem' = blank (suc w.spaces) at mem in
      let argv' = argv ++ (start_of at w ∷ []) in
      scan_same (state argv mem false false) {m = length (gap ++ rest) + n}
        {n = suc w.spaces + (length rest + n)} {a = at} {b = at} (omega (arith, long, wide)) refl
      ∙ scan_spaces argv w.spaces (length rest + n) at mem false before
      ∙ scan_spelled n (at + suc w.spaces) mem' w.quoted w.chars starts fine (
          Chars-agree mem mem' (at + suc w.spaces) rest
            (λ b lo hi. blank-outside (suc w.spaces) at mem b (inr lo))
            (subst (λ k. Chars mem (at + k) rest) wide after))
      ∙ scan_same (state argv' mem' false false) {m = n} {n = n}
          {a = at + suc w.spaces + length rest} {b = at + length (gap ++ rest)} refl
          (omega (arith, long, wide))
