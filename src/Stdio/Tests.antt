-- ===== src/Stdio/Tests.antt =====
-- The theorems on stdio.c at small buffers.
use koiz_os.Base.{
  zero, suc, ◌+◌, ◌<◌, ◌≡◌, Bool, true, false, [], ◌∷◌, none, get_or, ◌%◌, arith, refl, ◌==◌,
  if◌then◌else◌,
}
use koiz_os.Kernel.{ok}
use koiz_os.Pmem.{Pmem}
use koiz_os.Pmem.Valid.{IsValid}
use koiz_os.Stdio.{Io, io_buffer_place}
use koiz_os.Stdio.Queue.{Holds}
use koiz_os.Stdio.Place.{Placed, IsText, io_buffer_place-Placed}

abbrev some_memory : Pmem
some_memory = record {
  initialized = true;
  main_memory_start = 0x100000;
  main_memory_length = 0x10000;
  alloc_start = 0x101000;
  mgr_reserved_size = 16;
  curr_alloc_record = 0;
  mbd = none;
  kernel_reserved_end_addr = 0x100000;
  mem = λ a. if a == 0x102FFF then 65 else (if a == 0x102000 then 66 else 0);
}

some_memory-IsValid : IsValid some_memory
some_memory-IsValid = ground arith

-- A buffer with "AB" across its end.
abbrev two_chars : Bool → Io
two_chars mode = record {
  buffer = record {
    is_initializing = false;
    is_init = true;
    b_addr = 0x102000;
    head_ptr = 1;
    tail_ptr = 4095;
    b_size = 4096;
    autoflush_to_screen = mode;
  };
  pmem = some_memory;
  screen = [];
}

ab-IsText : IsText (65 ∷ 66 ∷ [])
ab-IsText zero h = omega arith
ab-IsText (suc zero) h = omega arith
ab-IsText (suc (suc i)) h = absurd (omega arith)

two_chars-Holds : (mode : Bool) → Holds (two_chars mode) (65 ∷ 66 ∷ [])
two_chars-Holds mode = record {
  init = refl;
  size = refl;
  room = omega arith;
  head = omega arith;
  tail = omega arith;
  count = refl;
  chars = λ i.
      elim i
        as (λ k.
          k < 2 → some_memory.mem (0x102000 + (4095 + k) % 4096) ≡ get_or (65 ∷ 66 ∷ []) k 0) [
            | zero ↦ λ h. refl
            | suc j ↦ λ h.
                elim j
                    as (λ k.
                      suc k < 2
                      → some_memory.mem (0x102000 + (4095 + suc k) % 4096)
                        ≡ get_or (65 ∷ 66 ∷ []) (suc k) 0) [
                          | zero ↦ λ h. refl
                          | suc k ↦ λ h. absurd (omega arith)
                        ]
                  h
          ];
  text = ab-IsText;
}

hello-IsText : IsText (72 ∷ 73 ∷ [])
hello-IsText zero h = omega arith
hello-IsText (suc zero) h = omega arith
hello-IsText (suc (suc i)) h = absurd (omega arith)

abbrev unused_buffer : Io
unused_buffer = record {
  buffer = record {
    is_initializing = false;
    is_init = false;
    b_addr = 0;
    head_ptr = 0;
    tail_ptr = 0;
    b_size = 0;
    autoflush_to_screen = true;
  };
  pmem = some_memory;
  screen = [];
}

io_buffer_place-Placed_example :
    (io' : Io) × (io_buffer_place (72 ∷ 73 ∷ []) (two_chars true) ≡ ok io')
    × Placed (two_chars true) (65 ∷ 66 ∷ []) (72 ∷ 73 ∷ []) io'
io_buffer_place-Placed_example =
    io_buffer_place-Placed (72 ∷ 73 ∷ []) (two_chars-Holds true) hello-IsText refl
