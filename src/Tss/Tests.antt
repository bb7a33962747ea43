-- ===== src/Tss/Tests.antt =====
-- The theorem on tss.c with the segment at 0x123456 and the descriptor at 0x8028.
use koiz_os.Base.{ℕ, ◌+◌, ◌*◌, ◌<◌, ◌≡◌, inl, ◌==◌, if◌then◌else◌, arith}
use koiz_os.Kernel.Memory.{Memory, read32}
use koiz_os.Tss.{load_tss, set_kernel_stack}
use koiz_os.Tss.Loaded.{IsLoaded, tss_word, load_tss-IsLoaded}

abbrev memory : Memory
memory a = 0xFF

load_tss-IsLoaded_example :
    IsLoaded 0x123456 0x8028 memory (load_tss 0x123456 0x8028 memory)
    × ((k : ℕ)
        → k < 26
        → read32
            (set_kernel_stack 0x123456 0x90000 (load_tss 0x123456 0x8028 memory))
            (0x123456 + 4 * k)
          ≡ (if k == 1 then 0x90000 else tss_word k))
load_tss-IsLoaded_example =
    load_tss-IsLoaded 0x123456 0x8028 0x90000 memory (omega arith) (omega arith) (omega arith)
      (inl (omega arith))
