-- ===== src/Keyboard.antt =====
-- kernel/drivers/input/keyboard.c: from the codes of the keyboard to the standard input.
pub mod Keys
pub mod Typed
mod Tests
use koiz_os.Base.{ℕ, zero, suc, ◌-◌, List, [], ◌∷◌, ◌++◌, ◌==◌, if◌then◌else◌, get_or, replicate}
use koiz_os.Kernel.{Result, ok, ◌>>=◌}
use koiz_os.Interrupts.{PortWrite, pic_acknowledge}
use koiz_os.Stdlib.Streams.{Streams, put_stdio_input_char}

abbrev pub keyboard_interrupt : ℕ
keyboard_interrupt = 0x21

-- The codes below 84; all others have no character.
abbrev scan_to_ascii_lookup : List ℕ
scan_to_ascii_lookup =
    0
    ∷ 0
    ∷ 49
    ∷ 50
    ∷ 51
    ∷ 52
    ∷ 53
    ∷ 54
    ∷ 55
    ∷ 56
    ∷ 57
    ∷ 48
    ∷ 45
    ∷ 61
    ∷ 0
    ∷ 0
    ∷ 113
    ∷ 119
    ∷ 101
    ∷ 114
    ∷ 116
    ∷ 121
    ∷ 117
    ∷ 105
    ∷ 111
    ∷ 112
    ∷ 91
    ∷ 93
    ∷ 10
    ∷ 0
    ∷ 97
    ∷ 115
    ∷ 100
    ∷ 102
    ∷ 103
    ∷ 104
    ∷ 106
    ∷ 107
    ∷ 108
    ∷ 59
    ∷ 39
    ∷ 96
    ∷ 0
    ∷ 92
    ∷ 122
    ∷ 120
    ∷ 99
    ∷ 118
    ∷ 98
    ∷ 110
    ∷ 109
    ∷ 44
    ∷ 46
    ∷ 47
    ∷ 0
    ∷ 0
    ∷ 0
    ∷ 32
    ∷ 0
    ∷ 0
    ∷ 0
    ∷ 0
    ∷ 0
    ∷ 0
    ∷ 0
    ∷ 0
    ∷ 0
    ∷ 0
    ∷ 0
    ∷ 0
    ∷ 0
    ∷ 55
    ∷ 56
    ∷ 57
    ∷ 45
    ∷ 52
    ∷ 53
    ∷ 54
    ∷ 43
    ∷ 49
    ∷ 50
    ∷ 51
    ∷ 48
    ∷ 46
    ∷ 0
    ∷ 0
    ∷ 0
    ∷ 0
    ∷ 0
    ∷ 0
    ∷ 0
    ∷ 0
    ∷ 0
    ∷ 0
    ∷ 0
    ∷ 0
    ∷ replicate (256 - 84) 0

pub scan_to_ascii : ℕ → ℕ
scan_to_ascii scan_code = get_or scan_to_ascii_lookup scan_code 0

-- `scan_code` is the byte that the port of the keyboard returns. The first result is what is written to ports.
pub keyboard_interrupt_handler : ℕ → Streams → Result (List PortWrite × Streams)
keyboard_interrupt_handler scan_code streams = do
  let ascii_char = scan_to_ascii scan_code
  streams' ← (if ascii_char == 0 then ok streams else put_stdio_input_char ascii_char streams)
  ok (pic_acknowledge keyboard_interrupt, streams')
