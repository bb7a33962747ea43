-- ===== src/Shell/Split/Arguments.antt =====
-- The arguments that `shell_execute_command` (kernel/shell/shell.c) finds in a command line.
use koiz_os.Base.{
  All, All-append, ℕ, suc, ◌+◌, ◌≤◌, ◌<◌, ◌≡◌, ◌⊎◌, inl, inr, Bool, true, false, List, [], ◌∷◌,
  ◌++◌, if◌then◌else◌, length, length-append, append_assoc, append-nil, arith, refl, sym, subst, ap,
  ◌∙◌, add32, u32_mod, replicate,
}
use koiz_os.Kernel.Memory.{Memory}
use koiz_os.Strings.Compare.{Text, IsChar}
use koiz_os.Shell.{Splitter, split_loop}
use koiz_os.Shell.Split.{
  Word, spell_chars, spell_word, spell, Within, AllWords, Chars, Chars-agree, Chars-append, scan,
  split_loop-scan, blank, blank-outside, blank-first, scan_same, state, scan-Within,
}
use koiz_os.Shell.Split.Words.{start_of, value_of, scan_word, length-replicate}

-- The memory and the arguments after the words.
abbrev blanked : List Word → ℕ → Memory → Memory
blanked [] at mem = mem
blanked (w ∷ ws) at mem = blanked ws (at + length (spell_word w)) (blank (suc w.spaces) at mem)

abbrev starts_of : List Word → ℕ → List ℕ
starts_of [] at = []
starts_of (w ∷ ws) at = start_of at w ∷ starts_of ws (at + length (spell_word w))

abbrev pub values_of : List Word → List (List ℕ)
values_of [] = []
values_of (w ∷ ws) = value_of w ∷ values_of ws

spell_chars-length :
    (quoted : Bool) (xs : List ℕ)
    → length (spell_chars quoted xs)
      ≡ (if quoted then 1 else 0) + length (if quoted then xs ++ (b'\'' ∷ []) else xs)
spell_chars-length true xs = omega arith
spell_chars-length false xs = omega arith

spell_word-length :
    (w : Word)
    → length (spell_word w) ≡ suc w.spaces + (if w.quoted then 1 else 0) + length (value_of w)
spell_word-length w = omega (
  arith,
  length-append (replicate (suc w.spaces) b' ') (spell_chars w.quoted w.chars),
  length-replicate (suc w.spaces) b' ',
  spell_chars-length w.quoted w.chars,
)

scan_words :
    (ws : List Word) (argv : List ℕ) (n at : ℕ) (mem : Memory)
    → AllWords ws
    → Chars mem at (spell ws)
    → scan (length (spell ws) + n) at (state argv mem false false)
      ≡ scan n
          (at + length (spell ws))
          (state (argv ++ starts_of ws at) (blanked ws at mem) false false)
scan_words [] argv n at mem fine h =
    scan_same (state argv mem false false) {m = 0 + n} {n = n} {a = at} {b = at + 0} (omega arith)
      (omega arith)
    ∙ ap (λ l. scan n (at + 0) (state l mem false false)) (sym (append-nil argv))
scan_words (w ∷ ws) argv n at mem (word, fine) h =
    let here = spell_word w in
    let (now, later) = Chars-append mem at here (spell ws) h in
    let long = length-append here (spell ws) in
    let at' = at + length here in
    let mem' = blank (suc w.spaces) at mem in
    let argv' = argv ++ (start_of at w ∷ []) in
    let total = spell_word-length w in
    scan_same (state argv mem false false) {m = length (here ++ spell ws) + n}
      {n = length here + (length (spell ws) + n)} {a = at} {b = at} (omega (arith, long)) refl
    ∙ scan_word argv (length (spell ws) + n) at mem w word now
    ∙ scan_words ws argv' n at' mem' fine (
        Chars-agree mem mem' at' (spell ws)
          (λ b lo hi. blank-outside (suc w.spaces) at mem b (inr (omega (arith, total)))) later)
    ∙ scan_same (state (argv' ++ starts_of ws at') (blanked ws at' mem') false false) {m = n}
        {n = n} {a = at' + length (spell ws)} {b = at + length (here ++ spell ws)} refl
        (omega (arith, long))
    ∙ ap (λ l. scan n (at + length (here ++ spell ws)) (state l (blanked ws at' mem') false false))
        (append_assoc argv (start_of at w ∷ []) (starts_of ws at'))

-- At the addresses lie the strings.
abbrev pub Texts : Memory → List ℕ → List (List ℕ) → Type 0
Texts mem [] [] = Unit {0}
Texts mem [] (v ∷ vs) = ⊥
Texts mem (p ∷ ps) [] = ⊥
Texts mem (p ∷ ps) (v ∷ vs) = Text mem p v × Texts mem ps vs

pub Text-intro :
    (mem : Memory) (p : ℕ) (xs : List ℕ)
    → p + length xs < u32_mod
    → All IsChar xs
    → Chars mem p xs
    → mem (p + length xs) ≡ 0
    → Text mem p xs
Text-intro mem p [] fits fine h end = ap mem (omega arith) ∙ end
Text-intro mem p (x ∷ xs) fits (byte, fine) (here, h) end =
    let next : p + 1 ≡ add32 p 1 = omega arith in
    (
      here,
      byte,
      subst (λ q. Text mem q xs) next
          (Text-intro mem (p + 1) xs (omega arith) fine h (ap mem (omega arith) ∙ end)),
    )

pub Within-IsChar : (quoted : Bool) (xs : List ℕ) → All (Within quoted) xs → All IsChar xs
Within-IsChar quoted [] h = tt
Within-IsChar quoted (x ∷ xs) ((nonzero, small, no_quote, no_space), h) =
    ((nonzero, small), Within-IsChar quoted xs h)

value-IsChar :
    (quoted : Bool) (xs : List ℕ)
    → All (Within quoted) xs
    → All IsChar (if quoted then xs ++ (b'\'' ∷ []) else xs)
value-IsChar true xs h = All-append IsChar xs (b'\'' ∷ []) (Within-IsChar true xs h) (omega arith)
value-IsChar false xs h = Within-IsChar false xs h

blanked-before :
    (ws : List Word) (at : ℕ) (mem : Memory) (b : ℕ) → b < at → blanked ws at mem b ≡ mem b
blanked-before [] at mem b h = refl
blanked-before (w ∷ ws) at mem b h =
    blanked-before ws (at + length (spell_word w)) (blank (suc w.spaces) at mem) b (omega arith)
    ∙ blank-outside (suc w.spaces) at mem b (inl h)

-- Behind the word before lies a zero.
blanked-first :
    (ws : List Word) (at : ℕ) (mem : Memory)
    → mem (at + length (spell ws)) ≡ 0
    → blanked ws at mem at ≡ 0
blanked-first [] at mem end = ap mem (omega arith) ∙ end
blanked-first (w ∷ ws) at mem end =
    let total = spell_word-length w in
    blanked-before ws (at + length (spell_word w)) (blank (suc w.spaces) at mem) at
      (omega (arith, total))
    ∙ blank-first w.spaces at mem

value-Chars :
    (mem : Memory) (at : ℕ) (quoted : Bool) (xs : List ℕ)
    → Chars mem at (spell_chars quoted xs)
    → Chars mem (at + (if quoted then 1 else 0)) (if quoted then xs ++ (b'\'' ∷ []) else xs)
value-Chars mem at true xs (open_quote, h) = h
value-Chars mem at false xs h = subst (λ a. Chars mem a xs) (omega arith) h

-- The argument of a word that stands at `at`.
word-Chars :
    (mem : Memory) (at : ℕ) (w : Word)
    → Chars mem at (spell_word w)
    → Chars mem (start_of at w) (value_of w)
word-Chars mem at w h = value-Chars mem (at + suc w.spaces) w.quoted w.chars (
    subst (λ k. Chars mem (at + k) (spell_chars w.quoted w.chars))
      (length-replicate (suc w.spaces) b' ')
      (Chars-append mem at (replicate (suc w.spaces) b' ') (spell_chars w.quoted w.chars) h).1)

words-Texts :
    (ws : List Word) (at : ℕ) (mem : Memory)
    → AllWords ws
    → Chars mem at (spell ws)
    → mem (at + length (spell ws)) ≡ 0
    → at + length (spell ws) < u32_mod
    → Texts (blanked ws at mem) (starts_of ws at) (values_of ws)
words-Texts [] at mem fine h end fits = tt
words-Texts (w ∷ ws) at mem ((starts, chars), fine) h end fits =
    let here = spell_word w in
    let (now, later) = Chars-append mem at here (spell ws) h in
    let long = length-append here (spell ws) in
    let total = spell_word-length w in
    let at' = at + length here in
    let mem1 = blank (suc w.spaces) at mem in
    let last = blanked ws at' mem1 in
    let kept : (b : ℕ) → at + suc w.spaces ≤ b → mem1 b ≡ mem b =
      λ b lo. blank-outside (suc w.spaces) at mem b (inr lo) in
    let end1 : mem1 (at' + length (spell ws)) ≡ 0 =
      kept (at' + length (spell ws)) (omega (arith, total)) ∙ ap mem (omega (arith, long)) ∙ end in
    let from = word-Chars mem at w now in
    (
      Text-intro last (start_of at w) (value_of w) (omega (arith, total, long))
          (value-IsChar w.quoted w.chars chars)
          (Chars-agree mem last (start_of at w) (value_of w)
            (λ b lo hi. blanked-before ws at' mem1 b (omega (arith, total)) ∙ kept b (omega arith))
            from)
          (ap last (omega (arith, total)) ∙ blanked-first ws at' mem1 end1),
      words-Texts ws at' mem1 fine
          (Chars-agree mem mem1 at' (spell ws) (λ b lo hi. kept b (omega (arith, total))) later)
          end1 (omega (arith, long)),
    )

-- The strings lie between two addresses, each with its terminator.
abbrev pub Inside : ℕ → ℕ → List ℕ → List (List ℕ) → Type 0
Inside lo hi [] [] = Unit {0}
Inside lo hi [] (v ∷ vs) = ⊥
Inside lo hi (p ∷ ps) [] = ⊥
Inside lo hi (p ∷ ps) (v ∷ vs) = (lo ≤ p) × (p + length v < hi) × Inside lo hi ps vs

pub Inside-widen :
    (lo lo' hi hi' : ℕ) (ps : List ℕ) (vs : List (List ℕ))
    → lo' ≤ lo
    → hi ≤ hi'
    → Inside lo hi ps vs
    → Inside lo' hi' ps vs
Inside-widen lo lo' hi hi' [] [] down up h = tt
Inside-widen lo lo' hi hi' [] (v ∷ vs) down up h = elim h [ ]
Inside-widen lo lo' hi hi' (p ∷ ps) [] down up h = elim h [ ]
Inside-widen lo lo' hi hi' (p ∷ ps) (v ∷ vs) down up (low, high, h) =
    (omega arith, omega arith, Inside-widen lo lo' hi hi' ps vs down up h)

words-Inside :
    (ws : List Word) (at : ℕ)
    → Inside at (at + length (spell ws) + 1) (starts_of ws at) (values_of ws)
words-Inside [] at = tt
words-Inside (w ∷ ws) at =
    let here = length (spell_word w) in
    let long = length-append (spell_word w) (spell ws) in
    let total = spell_word-length w in
    (
      omega arith,
      omega (arith, long, total),
      Inside-widen (at + here) at (at + here + length (spell ws) + 1)
          (at + length (spell_word w ++ spell ws) + 1) (starts_of ws (at + here)) (values_of ws)
          (omega arith) (omega (arith, long)) (words-Inside ws (at + here)),
    )

blanked-outside :
    (ws : List Word) (at : ℕ) (mem : Memory) (b : ℕ)
    → (b < at) ⊎ (at + length (spell ws) ≤ b)
    → blanked ws at mem b ≡ mem b
blanked-outside [] at mem b out = refl
blanked-outside (w ∷ ws) at mem b out =
    let long = length-append (spell_word w) (spell ws) in
    let total = spell_word-length w in
    blanked-outside ws (at + length (spell_word w)) (blank (suc w.spaces) at mem) b
      (omega (arith, long, total, out))
    ∙ blank-outside (suc w.spaces) at mem b (omega (arith, long, total, out))

-- How a line is made up of its first word and the words that follow.
abbrev pub line_of : List ℕ → List Word → List ℕ
line_of first ws = first ++ spell ws

-- A line at `at`, with its terminator.
pub record LineAt (mem : Memory) (at : ℕ) (first : List ℕ) (ws : List Word) : Type 0 where
  pub name : All (Within false) first
  pub words : AllWords ws
  pub chars : Chars mem at (line_of first ws)
  pub end : mem (at + length (line_of first ws)) ≡ 0
  pub fits : at + length (line_of first ws) < u32_mod

-- The loop is through with the line: the arguments are its words, and the memory outside the line
-- is as it was.
pub record Splits (mem : Memory) (at : ℕ) (first : List ℕ) (ws : List Word) (s : Splitter)
    : Type 0 where
  pub arguments : Texts s.mem s.c_argv (first ∷ values_of ws)
  pub inside : Inside at (at + length (line_of first ws) + 1) s.c_argv (first ∷ values_of ws)
  pub outside : (b : ℕ) → (b < at) ⊎ (at + length (line_of first ws) ≤ b) → s.mem b ≡ mem b

-- For a line at the working buffer whose first word has no spaces and no quotes, and whose other
-- words stand behind one space or more and are each free of spaces and quotes or stand between
-- quotes, begin with a character other than a space and have no other quotes: the arguments are
-- the words in their order, those between quotes with the closing quote behind them, and no byte
-- outside the line has changed.
pub split_loop-Splits :
    (mem : Memory) (buffer : ℕ) (first : List ℕ) (ws : List Word)
    → LineAt mem buffer first ws
    → Splits mem buffer first ws
        (split_loop (length (line_of first ws)) 0 buffer (state (buffer ∷ []) mem false false))
unfolding scan
split_loop-Splits mem buffer first ws h =
    let long = length-append first (spell ws) in
    let at = buffer + length first in
    let (name, rest) = Chars-append mem buffer first (spell ws) h.chars in
    let end : mem (at + length (spell ws)) ≡ 0 = ap mem (omega (arith, long)) ∙ h.end in
    let before = state (buffer ∷ []) mem false false in
    let after = state (buffer ∷ starts_of ws at) (blanked ws at mem) false false in
    let runs : split_loop (length (line_of first ws)) 0 buffer before ≡ after =
      split_loop-scan (length (line_of first ws)) 0 buffer before (omega (arith, h.fits))
      ∙ scan_same before {m = length (line_of first ws)}
          {n = length first + (length (spell ws) + 0)} {a = buffer + 0} {b = buffer}
          (omega (arith, long)) (omega arith)
      ∙ scan-Within (buffer ∷ []) (length (spell ws) + 0) buffer mem false first h.name name
      ∙ scan_words ws (buffer ∷ []) 0 at mem h.words rest in
    let last = blanked ws at mem in
    subst (λ s. Splits mem buffer first ws s) (sym runs)
      (record {
        arguments = (
          Text-intro last buffer first (omega (arith, long, h.fits))
              (Within-IsChar false first h.name)
              (Chars-agree mem last buffer first (λ b lo hi. blanked-before ws at mem b hi) name)
              (blanked-first ws at mem end),
          words-Texts ws at mem h.words rest end (omega (arith, long, h.fits)),
        );
        inside = (
          omega arith,
          omega (arith, long),
          Inside-widen at buffer (at + length (spell ws) + 1)
              (buffer + length (line_of first ws) + 1) (starts_of ws at) (values_of ws)
              (omega arith) (omega (arith, long)) (words-Inside ws at),
        );
        outside = λ b out. blanked-outside ws at mem b (omega (arith, long, out));
      })
