-- ===== src/Shell/Line.antt =====
-- `shell_execute_command` (kernel/shell/shell.c): the name of a line finds its command, which runs
-- with the words of the line.
use koiz_os.Base.{
  All, All-append, ℕ, zero, suc, ◌+◌, ◌<◌, ◌≡◌, ◌≢◌, inl, inr, Bool, true, false, ◌&&◌, List, [],
  ◌∷◌, Option, none, some, if◌then◌else◌, ◌==◌, length, arith, refl, ap, ◌∙◌, u32_mod, replicate,
  Bool-cases,
}
use koiz_os.Kernel.{ok}
use koiz_os.Kernel.Memory.{Memory}
use koiz_os.Strings.Compare.{Text, IsChar, strcmp_lem}
use koiz_os.Commands.{arg}
use koiz_os.Shell.{
  Command, ls, write, read, slabinfo, free, ps, exec, execbg, sched, command_name, shell_cmds,
  Places, find_command,
}
use koiz_os.Shell.Split.{Word, Chars, spell, spell_word, spell_chars, Within, AllWords}
use koiz_os.Shell.Split.Arguments.{LineAt, line_of, values_of, Texts, Text-intro, Within-IsChar}

abbrev pub same_text : List ℕ → List ℕ → Bool
same_text [] [] = true
same_text [] (y ∷ ys) = false
same_text (x ∷ xs) [] = false
same_text (x ∷ xs) (y ∷ ys) = (x == y) && same_text xs ys

-- The first command of a list with the name.
abbrev pub named : List ℕ → List Command → Option Command
named name [] = none
named name (c ∷ cs) = if same_text name (command_name c) then some c else named name cs

same_text-eq : (xs ys : List ℕ) → same_text xs ys ≡ true → xs ≡ ys
same_text-eq [] [] e = refl
same_text-eq [] (y ∷ ys) e = cc
same_text-eq (x ∷ xs) [] e = cc
same_text-eq (x ∷ xs) (y ∷ ys) e = ground (arith, same_text-eq xs ys)

same_text_self : (xs : List ℕ) → same_text xs xs ≡ true
same_text_self [] = refl
same_text_self (x ∷ xs) = ground (arith, same_text_self xs)

-- Every command is found by its name.
named_self : (c : Command) → named (command_name c) shell_cmds ≡ some c
named_self ls = refl
named_self write = refl
named_self read = refl
named_self slabinfo = refl
named_self free = refl
named_self ps = refl
named_self exec = refl
named_self execbg = refl
named_self sched = refl

pub find_command-named :
    (places : Places) (cs : List Command) (name : ℕ) (xs : List ℕ) (mem : Memory)
    → length xs < u32_mod
    → Text mem name xs
    → ((c : Command) → Text mem (places.name_of c) (command_name c))
    → find_command places cs name mem ≡ ok (named xs cs)
unfolding find_command
find_command-named places [] name xs mem few at names = refl
find_command-named places (c ∷ cs) name xs mem few at names =
    let (d, e, (to, from)) =
      strcmp_lem mem name (places.name_of c) xs (command_name c) few at (names c) in
    let ih = find_command-named places cs name xs mem few at names in
    elim (Bool-cases (same_text xs (command_name c))) [
      | inl same ↦
          let test : (d == 0) ≡ true =
            ground (arith, from (same_text-eq xs (command_name c) same)) in
          rw (e, same, test) refl
      | inr differ ↦
          let other : d ≢ 0 = λ z.
            let self = same_text_self (command_name c) in
            let eq : same_text xs (command_name c) ≡ true =
              ap (λ l. same_text l (command_name c)) (to z) ∙ self in
            cc in
          let test : (d == 0) ≡ false = ground (arith, other) in rw (e, differ, test) ih
    ]

pub Chars-move :
    (mem mem' : Memory) (p q : ℕ) (xs : List ℕ)
    → ((i : ℕ) → i < length xs → mem' (q + i) ≡ mem (p + i))
    → Chars mem p xs
    → Chars mem' q xs
Chars-move mem mem' p q [] same h = tt
Chars-move mem mem' p q (x ∷ xs) same (here, h) = (
  ap mem' (omega arith) ∙ same 0 (omega arith) ∙ ap mem (omega arith) ∙ here,
  Chars-move mem mem' (p + 1) (q + 1) xs
      (λ i hi. ap mem' (omega arith) ∙ same (suc i) (omega arith) ∙ ap mem (omega arith)) h,
)

spelled-IsChar :
    (quoted : Bool) (xs : List ℕ) → All (Within quoted) xs → All IsChar (spell_chars quoted xs)
spelled-IsChar true xs h =
    (omega arith, All-append IsChar xs (b'\'' ∷ []) (Within-IsChar true xs h) (omega arith))
spelled-IsChar false xs h = Within-IsChar false xs h

gap-IsChar : (n : ℕ) → All IsChar (replicate n b' ')
gap-IsChar zero = tt
gap-IsChar (suc n) = (omega arith, gap-IsChar n)

spell-IsChar : (ws : List Word) → AllWords ws → All IsChar (spell ws)
spell-IsChar [] h = tt
spell-IsChar (w ∷ ws) ((starts, chars), h) =
    All-append IsChar (spell_word w) (spell ws)
      (All-append IsChar (replicate (suc w.spaces) b' ') (spell_chars w.quoted w.chars)
        (gap-IsChar (suc w.spaces)) (spelled-IsChar w.quoted w.chars chars))
      (spell-IsChar ws h)

pub LineAt-Text :
    (mem : Memory) (at : ℕ) (first : List ℕ) (ws : List Word)
    → LineAt mem at first ws
    → Text mem at (line_of first ws)
LineAt-Text mem at first ws h =
    Text-intro mem at (line_of first ws) h.fits
      (All-append IsChar first (spell ws) (Within-IsChar false first h.name)
        (spell-IsChar ws h.words))
      h.chars h.end

pub Texts-length :
    (mem : Memory) (argv : List ℕ) (vs : List (List ℕ))
    → Texts mem argv vs
    → length argv ≡ length vs
Texts-length mem [] [] h = refl
Texts-length mem [] (v ∷ vs) h = elim h [ ]
Texts-length mem (p ∷ rest) [] h = elim h [ ]
Texts-length mem (p ∷ rest) (v ∷ vs) (t, h) = ap suc (Texts-length mem rest vs h)

pub values_of-length : (ws : List Word) → length (values_of ws) ≡ length ws
values_of-length [] = refl
values_of-length (w ∷ ws) = ap suc (values_of-length ws)

pub Texts-head :
    (mem : Memory) (argv : List ℕ) (v : List ℕ) (vs : List (List ℕ))
    → Texts mem argv (v ∷ vs)
    → Text mem (arg argv 0) v
Texts-head mem [] v vs h = elim h [ ]
Texts-head mem (p ∷ rest) v vs (t, h) = t
