-- ===== src/Stdlib/Format/Render.antt =====
-- What `printf` (kernel/libc/stdlib.c) prints for a format that is made up of its directives.
use koiz_os.Base.{
  ℕ, ◌≤◌, ◌<◌, ◌≡◌, ◌≢◌, false, Option, none, some, List, [], ◌∷◌, ◌++◌, map, ◌==◌, arith, refl,
  sym, ap, ◌∙◌, append_assoc, append-nil, u32_mod, ◌%◌, ◌^◌,
}
use koiz_os.Base.Text.{codes}
use koiz_os.Stdlib.{print_uint_to_string, prefix}
use koiz_os.Stdlib.Digits.{IsWritten, print_uint_to_string-digits}
use koiz_os.Stdlib.Format.{
  Argument, string, word, Printed, out, err, goes_on, stops, directive, prepend, go_on, printf,
  printed_number,
}

-- A piece of a format with its argument.
pub data Piece : Type 0 where
  plain : ℕ → Piece
  percent : Piece
  text : List ℕ → Piece
  char : ℕ → Piece
  decimal hexadecimal binary : ℕ → Piece

abbrev pub spell : List Piece → List ℕ
spell [] = []
spell (plain c ∷ ps) = c ∷ spell ps
spell (percent ∷ ps) = b'%' ∷ b'%' ∷ spell ps
spell (text xs ∷ ps) = b'%' ∷ b's' ∷ spell ps
spell (char c ∷ ps) = b'%' ∷ b'c' ∷ spell ps
spell (decimal n ∷ ps) = b'%' ∷ b'd' ∷ spell ps
spell (hexadecimal n ∷ ps) = b'%' ∷ b'x' ∷ spell ps
spell (binary n ∷ ps) = b'%' ∷ b'b' ∷ spell ps

abbrev pub arguments : List Piece → List Argument
arguments [] = []
arguments (plain c ∷ ps) = arguments ps
arguments (percent ∷ ps) = arguments ps
arguments (text xs ∷ ps) = string xs ∷ arguments ps
arguments (char c ∷ ps) = word c ∷ arguments ps
arguments (decimal n ∷ ps) = word n ∷ arguments ps
arguments (hexadecimal n ∷ ps) = word n ∷ arguments ps
arguments (binary n ∷ ps) = word n ∷ arguments ps

-- A character of the format that is no `%`, a byte, or a number of 32 bits.
abbrev IsPiece : Piece → Type 0
IsPiece (plain c) = c ≢ b'%'
IsPiece percent = Unit {0}
IsPiece (text xs) = Unit {0}
IsPiece (char c) = c < 256
IsPiece (decimal n) = n < u32_mod
IsPiece (hexadecimal n) = n < u32_mod
IsPiece (binary n) = n < u32_mod

abbrev ArePieces : List Piece → Type 0
ArePieces [] = Unit {0}
ArePieces (p ∷ ps) = IsPiece p × ArePieces ps

-- The text is the digits of the number in the base, behind a mark of the base.
abbrev IsNumeral : ℕ → List ℕ → ℕ → List ℕ → Type 0
IsNumeral base mark n xs = (ds : List ℕ) × (xs ≡ mark ++ ds) × IsWritten base n ds

-- What a piece stands for.
abbrev Shows : Piece → List ℕ → Type 0
Shows (plain c) xs = xs ≡ c ∷ []
Shows percent xs = xs ≡ b'%' ∷ []
Shows (text ys) xs = xs ≡ ys
Shows (char c) xs = xs ≡ c ∷ []
Shows (decimal n) xs = IsNumeral 10 [] n xs
Shows (hexadecimal n) xs = IsNumeral 16 (codes "0x") n xs
Shows (binary n) xs = IsNumeral 2 (codes "0b") n xs

abbrev pub ShowsAll : List Piece → List (List ℕ) → Type 0
ShowsAll [] [] = Unit {0}
ShowsAll [] (xs ∷ xss) = ⊥
ShowsAll (p ∷ ps) [] = ⊥
ShowsAll (p ∷ ps) (xs ∷ xss) = Shows p xs × ShowsAll ps xss

prepend-prepend :
    (xs ys : List Printed) (r : Option (List Printed))
    → prepend xs (prepend ys r) ≡ prepend (xs ++ ys) r
unfolding prepend
prepend-prepend xs ys none = refl
prepend-prepend xs ys (some zs) = ap some (sym (append_assoc xs ys zs))

prepend-nil : (r : Option (List Printed)) → prepend [] r ≡ r
unfolding prepend
prepend-nil none = refl
prepend-nil (some zs) = refl

printf-plain :
    (c : ℕ) (format : List ℕ) (args : List Argument)
    → c ≢ b'%'
    → printf (c ∷ format) args ≡ prepend (out (c ∷ []) ∷ []) (printf format args)
unfolding printf prepend
printf-plain c [] args h = let test : (c == b'%') ≡ false = ground (arith, h) in rw test refl
printf-plain c (d ∷ format) args h =
    let test : (c == b'%') ≡ false = ground (arith, h) in rw test refl

printf-percent :
    (d : ℕ) (format : List ℕ) (args : List Argument)
    → printf (b'%' ∷ d ∷ format) args ≡ go_on (directive d args) (printf format)
unfolding printf
printf-percent d format args = refl

-- A number argument.
numeral :
    (base n : ℕ)
    → 2 ≤ base
    → base ≤ 16
    → n < u32_mod
    → (xs : List ℕ) × IsNumeral base (prefix base) n xs
      × (printed_number (print_uint_to_string n base) ≡ out xs ∷ [])
numeral base n lo hi small =
    let (ds, e, value) = print_uint_to_string-digits n base small lo hi in
    (prefix base ++ ds, (ds, refl, value), ap printed_number e)

-- A directive whose argument is there prints one text.
printf-directive :
    (d : ℕ) (format : List ℕ) (args args' : List Argument) (xs : List ℕ)
    → directive d args ≡ some (goes_on (out xs ∷ []) args')
    → printf (b'%' ∷ d ∷ format) args ≡ prepend (out xs ∷ []) (printf format args')
unfolding go_on
printf-directive d format args args' xs e =
    printf-percent d format args ∙ ap (λ o. go_on o (printf format)) e

-- What `printf` prints first for a piece, whatever follows.
abbrev Prints : Piece → List ℕ → Type 0
Prints p xs =
    (ps : List Piece) (format : List ℕ) (args : List Argument)
    → printf (spell (p ∷ ps) ++ format) (arguments (p ∷ ps) ++ args)
      ≡ prepend (out xs ∷ []) (printf (spell ps ++ format) (arguments ps ++ args))

printf-piece : (p : Piece) → IsPiece p → (xs : List ℕ) × Shows p xs × Prints p xs
unfolding directive
printf-piece (plain c) h =
    (c ∷ [], refl, λ ps format args. printf-plain c (spell ps ++ format) (arguments ps ++ args) h)
printf-piece percent h = (
  b'%' ∷ [],
  refl,
  λ ps format args.
      printf-directive b'%' (spell ps ++ format) (arguments ps ++ args) (arguments ps ++ args)
        (b'%' ∷ []) refl,
)
printf-piece (text xs) h = (
  xs,
  refl,
  λ ps format args.
      printf-directive b's' (spell ps ++ format) (string xs ∷ (arguments ps ++ args))
        (arguments ps ++ args) xs refl,
)
printf-piece (char c) h =
    let byte : c % 2 ^ 8 ≡ c = omega arith in
    (
      c ∷ [],
      refl,
      λ ps format args.
          printf-directive b'c' (spell ps ++ format) (word c ∷ (arguments ps ++ args))
            (arguments ps ++ args) (c ∷ [])
            (ap (λ b. some (goes_on (out (b ∷ []) ∷ []) (arguments ps ++ args))) byte),
    )
printf-piece (decimal n) h =
    let (xs, shows, e) = numeral 10 n (omega arith) (omega arith) h in
    (
      xs,
      unfold prefix in shows,
      λ ps format args.
          printf-directive b'd' (spell ps ++ format) (word n ∷ (arguments ps ++ args))
            (arguments ps ++ args) xs (ap (λ l. some (goes_on l (arguments ps ++ args))) e),
    )
printf-piece (hexadecimal n) h =
    let (xs, shows, e) = numeral 16 n (omega arith) (omega arith) h in
    (
      xs,
      unfold prefix in shows,
      λ ps format args.
          printf-directive b'x' (spell ps ++ format) (word n ∷ (arguments ps ++ args))
            (arguments ps ++ args) xs (ap (λ l. some (goes_on l (arguments ps ++ args))) e),
    )
printf-piece (binary n) h =
    let (xs, shows, e) = numeral 2 n (omega arith) (omega arith) h in
    (
      xs,
      unfold prefix in shows,
      λ ps format args.
          printf-directive b'b' (spell ps ++ format) (word n ∷ (arguments ps ++ args))
            (arguments ps ++ args) xs (ap (λ l. some (goes_on l (arguments ps ++ args))) e),
    )

printf-pieces :
    (ps : List Piece)
    → ArePieces ps
    → (xss : List (List ℕ)) × ShowsAll ps xss
      × ((format : List ℕ) (args : List Argument)
          → printf (spell ps ++ format) (arguments ps ++ args)
            ≡ prepend (map out xss) (printf format args))
printf-pieces [] h = ([], tt, λ format args. sym (prepend-nil (printf format args)))
printf-pieces (p ∷ ps) (piece, h) =
    let (xs, shows, e) = printf-piece p piece in
    let (xss, shows_all, rest) = printf-pieces ps h in
    (
      xs ∷ xss,
      (shows, shows_all),
      λ format args.
          e ps format args
          ∙ ap (prepend (out xs ∷ [])) (rest format args)
          ∙ prepend-prepend (out xs ∷ []) (map out xss) (printf format args),
    )

unknown_directive :
    (d : ℕ) (args : List Argument)
    → (d ≢ b'%') × (d ≢ b's') × (d ≢ b'c') × (d ≢ b'd') × (d ≢ b'x') × (d ≢ b'b')
    → directive d args
      ≡ some (stops (err (codes "printf error: Unknown escape sequence %") ∷ out (d ∷ []) ∷ []))
unfolding directive
unknown_directive d args (n1, n2, n3, n4, n5, n6) =
    let t1 : (d == b'%') ≡ false = ground (arith, n1) in
    let t2 : (d == b's') ≡ false = ground (arith, n2) in
    let t3 : (d == b'c') ≡ false = ground (arith, n3) in
    let t4 : (d == b'd') ≡ false = ground (arith, n4) in
    let t5 : (d == b'x') ≡ false = ground (arith, n5) in
    let t6 : (d == b'b') ≡ false = ground (arith, n6) in rw (t1, t2, t3, t4, t5, t6) refl

-- For a format that is made up of characters and of directives whose arguments are given in their
-- order, `printf` prints the characters, `%` for `%%`, the strings and characters that are given,
-- and for a number of 32 bits its digits in base 10, 16 or 2, behind `0x` or `0b` for the last two,
-- without leading zeros. When a `%` ends the format, what stands before it is printed and then an error. When
-- another character stands behind a `%`, what stands before is printed, then an error and that
-- character, and nothing of what follows.
pub printf-renders :
    (ps : List Piece) (d : ℕ) (ignored : List ℕ)
    → ArePieces ps
    → (d ≢ b'%') × (d ≢ b's') × (d ≢ b'c') × (d ≢ b'd') × (d ≢ b'x') × (d ≢ b'b')
    → (xss : List (List ℕ)) × ShowsAll ps xss
      × (printf (spell ps) (arguments ps) ≡ some (map out xss))
      × (printf (spell ps ++ (b'%' ∷ [])) (arguments ps)
          ≡ some (map out xss ++ (err (codes "printf error: next character is null") ∷ [])))
      × (printf (spell ps ++ (b'%' ∷ d ∷ ignored)) (arguments ps)
          ≡ some (
              map out xss
              ++ (err (codes "printf error: Unknown escape sequence %") ∷ out (d ∷ []) ∷ [])))
unfolding printf prepend go_on
printf-renders ps d ignored h other =
    let (xss, shows, e) = printf-pieces ps h in
    let none_left = append-nil (arguments ps) in
    let all : (format : List ℕ)
        → printf (spell ps ++ format) (arguments ps) ≡ prepend (map out xss) (printf format []) =
      λ format. ap (printf (spell ps ++ format)) (sym none_left) ∙ e format [] in
    (
      xss,
      shows,
      ap (λ f. printf f (arguments ps)) (sym (append-nil (spell ps)))
          ∙ all []
          ∙ ap some (append-nil (map out xss)),
      all (b'%' ∷ []),
      all (b'%' ∷ d ∷ ignored)
          ∙ ap (prepend (map out xss)) (
              printf-percent d ignored []
              ∙ ap (λ o. go_on o (printf ignored)) (unknown_directive d [] other)),
    )
