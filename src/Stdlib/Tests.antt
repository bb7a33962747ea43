-- ===== src/Stdlib/Tests.antt =====
-- The theorems on stdlib.c at concrete numbers.
use koiz_os.Base.{
  ◌⊎◌, ℕ, zero, suc, Bool, true, false, ◌≡◌, some, none, List, [], ◌∷◌, ◌++◌, map, arith, refl,
}
use koiz_os.Base.Text.{codes}
use koiz_os.Kernel.{ok}
use koiz_os.Stdio.Queue.{Holds}
use koiz_os.Stdio.Place.{IsText, Placed}
use koiz_os.Interrupts.{byte_out}
use koiz_os.Stdlib.Streams.{Streams, output_io}
use koiz_os.Stdlib.Console.{Console, port_com1, to_screen, std_print, std_error, std_print_outcome}
use koiz_os.Stdlib.Format.{printf, out, err}
use koiz_os.Stdlib.Format.Render.{
  Piece, plain, percent, text, hexadecimal, spell, arguments, ShowsAll, printf-renders,
}
use koiz_os.Stdlib.{print_uint_to_string, digits, numtochar, prefix}

-- "0x2A"
forty_two : print_uint_to_string 42 16 ≡ some (48 ∷ 120 ∷ 50 ∷ 65 ∷ [])
unfolding print_uint_to_string digits numtochar prefix
forty_two = refl

refused_base : print_uint_to_string 42 17 ≡ none
unfolding print_uint_to_string
refused_base = refl

-- `n%%=%x %s`
abbrev pieces : List Piece
pieces = plain b'n' ∷ percent ∷ plain b'=' ∷ hexadecimal 255 ∷ text (codes "ok") ∷ []

printf-renders_example :
    (xss : List (List ℕ)) × ShowsAll pieces xss
    × (printf (spell pieces) (arguments pieces) ≡ some (map out xss))
    × (printf (spell pieces ++ (b'%' ∷ [])) (arguments pieces)
        ≡ some (map out xss ++ (err (codes "printf error: next character is null") ∷ [])))
    × (printf (spell pieces ++ (b'%' ∷ b'q' ∷ codes "rest")) (arguments pieces)
        ≡ some (
            map out xss
            ++ (err (codes "printf error: Unknown escape sequence %") ∷ out (b'q' ∷ []) ∷ [])))
printf-renders_example =
    printf-renders pieces b'q' (codes "rest") (omega arith)
      (omega arith, omega arith, omega arith, omega arith, omega arith, omega arith)

-- The output buffer is started and empty.
abbrev streams : Streams
streams = record {
  std_input_buf = record {
    is_initializing = false;
    is_init = false;
    b_addr = 0;
    head_ptr = 0;
    tail_ptr = 0;
    b_size = 0;
    autoflush_to_screen = false;
  };
  std_output_buf = record {
    is_initializing = false;
    is_init = true;
    b_addr = 0x5000;
    head_ptr = 0;
    tail_ptr = 0;
    b_size = 4096;
    autoflush_to_screen = true;
  };
  pmem = record {
    initialized = true;
    main_memory_start = 0x1000;
    main_memory_length = 0x10000;
    alloc_start = 0x1000;
    mgr_reserved_size = 16;
    curr_alloc_record = 0;
    mbd = none;
    kernel_reserved_end_addr = 0x1000;
    mem = λ a. 0;
  };
  screen = [];
}

streams-Holds : Holds (output_io streams) []
streams-Holds = record {
  init = refl;
  size = refl;
  room = omega arith;
  head = omega arith;
  tail = omega arith;
  count = refl;
  chars = λ i h. elim h [ ];
  text = λ i h. elim h [ ];
}

abbrev console : Console
console = record { streams = streams; serial = record { connected = 1; reads = 0; writes = [] } }

-- A device that can always take a character.
abbrev answer : ℕ → ℕ → ℕ
answer port n = 0x20

hi-IsText : IsText (codes "hi")
hi-IsText zero h = omega arith
hi-IsText (suc zero) h = omega arith
hi-IsText (suc (suc i)) h = absurd (omega arith)

std_print_outcome_example :
    ((q : List ℕ)
      → ◌≡◌ {A = Bool} true true
      → ◌≡◌ {A = Bool} false false
      → ◌≡◌ {A = Bool} true true
      → Holds (output_io streams) q
      → (c' : Console) × (std_print answer 1 (codes "hi") console ≡ ok c')
        × Placed (output_io streams) q (codes "hi") (output_io c'.streams)
        × (c'.serial.writes ≡ [] ++ map (byte_out port_com1) (codes "hi")))
    × ((◌≡◌ {A = Bool} true false) ⊎ (◌≡◌ {A = Bool} false true)
        → (c' : Console) × (std_print answer 1 (codes "hi") console ≡ ok c')
          × (c'.streams ≡ to_screen (codes "hi") streams)
          × (c'.serial.writes ≡ [] ++ map (byte_out port_com1) (codes "hi")))
    × ((c' : Console) × (std_error answer 1 (codes "hi") console ≡ ok c')
        × (c'.streams ≡ to_screen (codes "hi") streams)
        × (c'.serial.writes ≡ [] ++ map (byte_out port_com1) (codes "hi")))
std_print_outcome_example =
    std_print_outcome answer 1 0 (omega arith) (λ n. (0, omega arith, omega arith)) (codes "hi")
      console hi-IsText

-- The first part applies.
hi_printed :
    (c' : Console) × (std_print answer 1 (codes "hi") console ≡ ok c')
    × Placed (output_io streams) [] (codes "hi") (output_io c'.streams)
    × (c'.serial.writes ≡ [] ++ map (byte_out port_com1) (codes "hi"))
hi_printed =
    (std_print_outcome answer 1 0 (omega arith) (λ n. (0, omega arith, omega arith)) (codes "hi")
        console hi-IsText).0
      [] refl refl refl streams-Holds
