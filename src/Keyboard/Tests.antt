-- ===== src/Keyboard/Tests.antt =====
-- The theorem on keyboard.c at the key `1` with an empty input buffer.
use koiz_os.Base.{
  ◌⊎◌, ◌≤◌, ℕ, ◌≤◌, ◌<◌, ◌≡◌, ◌≢◌, true, false, none, [], ◌∷◌, ◌++◌, refl, arith, length,
}
use koiz_os.Kernel.{ok, panic, Panic}
use koiz_os.Stdio.Queue.{Holds}
use koiz_os.Stdlib.Streams.{Streams, input_io}
use koiz_os.Interrupts.{byte_out, pic1_command}
use koiz_os.Keyboard.Keys.{key_char}
use koiz_os.Keyboard.{keyboard_interrupt_handler}
use koiz_os.Keyboard.Typed.{TakesInput, keyboard-types}

abbrev streams : Streams
streams = record {
  std_input_buf = record {
    is_initializing = false;
    is_init = true;
    b_addr = 0x5000;
    head_ptr = 0;
    tail_ptr = 0;
    b_size = 4096;
    autoflush_to_screen = false;
  };
  std_output_buf = record {
    is_initializing = false;
    is_init = false;
    b_addr = 0;
    head_ptr = 0;
    tail_ptr = 0;
    b_size = 0;
    autoflush_to_screen = true;
  };
  pmem = record {
    initialized = true;
    main_memory_start = 0x1000;
    main_memory_length = 0x10000;
    alloc_start = 0x1000;
    mgr_reserved_size = 16;
    curr_alloc_record = 0;
    mbd = none;
    kernel_reserved_end_addr = 0x1000;
    mem = λ a. 0;
  };
  screen = [];
}

streams-TakesInput : TakesInput streams []
streams-TakesInput = record {
  started = refl;
  output_ready = refl;
  holds = record {
    init = refl;
    size = refl;
    room = omega arith;
    head = omega arith;
    tail = omega arith;
    count = refl;
    chars = λ i h. elim h [ ];
    text = λ i h. elim h [ ];
  };
  unflushed = refl;
}

keyboard-types_example :
    ((128 ≤ 2) ⊎ (key_char 2 ≡ 0)
      → keyboard_interrupt_handler 2 streams ≡ ok (byte_out pic1_command 0x20 ∷ [], streams))
    × (key_char 2 ≢ 0
        → length {A = ℕ} [] < 4095
        → (s' : Streams) × (keyboard_interrupt_handler 2 streams
            ≡ ok (byte_out pic1_command 0x20 ∷ [], s'))
          × Holds (input_io s') ([] ++ (key_char 2 ∷ [])))
    × (key_char 2 ≢ 0
        → 4095 ≤ length {A = ℕ} []
        → keyboard_interrupt_handler 2 streams ≡ panic Panic.stdio_overflow)
keyboard-types_example = keyboard-types 2 streams (omega arith) streams-TakesInput
