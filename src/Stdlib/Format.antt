-- ===== src/Stdlib/Format.antt =====
-- `printf` (kernel/libc/stdlib.c): what it prints for a format and its arguments. The two names of
-- a list stand for the characters before the terminator.
pub mod Render
use koiz_os.Base.{
  ℕ, Option, none, some, List, [], ◌∷◌, ◌++◌, ◌==◌, if◌then◌else◌, ◌%◌, ◌^◌, ◌*◌, ◌/◌, ◌+◌, add32,
  mul32, u32_mod,
}
use koiz_os.Base.Text.{codes}
use koiz_os.Stdlib.{print_uint_to_string}

-- An argument behind the format: a string or a number of 32 bits.
pub data Argument : Type 0 where
  string : List ℕ → Argument
  word : ℕ → Argument

-- A call of `std_print` or `std_print_char`, and a call of `std_error`.
pub data Printed : Type 0 where
  out : List ℕ → Printed
  err : List ℕ → Printed

-- What is printed for a character behind `%`, and the arguments that are left; or what is printed
-- before the loop ends.
pub data Directive : Type 0 where
  goes_on : List Printed → List Argument → Directive
  stops : List Printed → Directive

-- `none` where the argument of a directive is missing or of the other kind, which is undefined.
abbrev print_string : List Argument → Option Directive
print_string (string xs ∷ args) = some (goes_on (out xs ∷ []) args)
print_string _ = none

-- `char character_arg = va_arg(arg, int);`
abbrev pub print_char : List Argument → Option Directive
print_char (word c ∷ args) = some (goes_on (out ((c % 2 ^ 8) ∷ []) ∷ []) args)
print_char _ = none

abbrev pub printed_number : Option (List ℕ) → List Printed
printed_number (some text) = out text ∷ []
printed_number none = err (codes "printf base cannot be greater than 16!") ∷ []

abbrev print_number : ℕ → List Argument → Option Directive
print_number base (word n ∷ args) =
    some (goes_on (printed_number (print_uint_to_string n base)) args)
print_number base _ = none

-- The character behind `%`.
pub directive : ℕ → List Argument → Option Directive
directive c args =
    if c == b'%'
    then some (goes_on (out (b'%' ∷ []) ∷ []) args)
    else (if c == b's'
        then print_string args
        else (if c == b'c'
            then print_char args
            else (if c == b'd'
                then print_number 10 args
                else (if c == b'x'
                    then print_number 16 args
                    else (if c == b'b'
                        then print_number 2 args
                        else some (
                            stops (
                              err (codes "printf error: Unknown escape sequence %")
                              ∷ out (c ∷ [])
                              ∷ [])))))))

pub prepend : List Printed → Option (List Printed) → Option (List Printed)
prepend xs none = none
prepend xs (some ys) = some (xs ++ ys)

-- What follows a directive.
pub go_on : Option Directive → (List Argument → Option (List Printed)) → Option (List Printed)
go_on none rest = none
go_on (some (stops printed)) rest = some printed
go_on (some (goes_on printed args)) rest = prepend printed (rest args)

-- The loop over the format.
pub printf : List ℕ → List Argument → Option (List Printed)
printf [] args = some []
printf (c ∷ []) args =
    if c == b'%'
    then some (err (codes "printf error: next character is null") ∷ [])
    else some (out (c ∷ []) ∷ [])
printf (c ∷ d ∷ format) args =
    let after_one = λ (a : List Argument). printf (d ∷ format) a in
    let after_two = λ (a : List Argument). printf format a in
    if c == b'%'
    then go_on (directive d args) after_two
    else prepend (out (c ∷ []) ∷ []) (after_one args)

-- `maxrand` with its static `random_seed`, for the bit pattern of `seed` and `max` that is not -1:
-- the result and the new seed.
unfoldable maxrand : ℕ → ℕ → ℕ → ℕ × ℕ
maxrand seed max random_seed =
    let random_seed' = add32 (add32 random_seed (mul32 seed 1103515245)) 12345 in
    (random_seed' / 65536 % (max + 1), random_seed')
