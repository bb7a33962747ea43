-- ===== src/Stdio.antt =====
-- kernel/libc/stdio.c: the ring buffers of the standard streams. Each lies in a page of pmem that is
-- allocated at the first use.
pub mod Queue
pub mod Place
mod Tests
use koiz_os.Base.{
  ℕ, zero, suc, ◌+◌, ◌%◌, Bool, true, false, not, ◌&&◌, List, [], ◌∷◌, ◌++◌, ◌==◌, if◌then◌else◌,
  add32,
}
use koiz_os.Kernel.{Panic, Result, ok, panic, diverge, ◌>>=◌, ◌>>◌, panic_if}
use koiz_os.Kernel.Memory.{Memory, write8}
use koiz_os.Pmem.{Pmem, phys_block_size, alloc}

pub record Buffer : Type 0 where
  pub is_initializing : Bool
  pub is_init : Bool
  pub b_addr : ℕ
  pub head_ptr : ℕ
  pub tail_ptr : ℕ
  pub b_size : ℕ
  pub autoflush_to_screen : Bool

-- A buffer, pmem with the memory, and the characters that were handed to `vga_print_screen_char`, in
-- order.
pub record Io : Type 0 where
  pub buffer : Buffer
  pub pmem : Pmem
  pub screen : List ℕ

pub io_buffer_empty : Buffer → Bool
io_buffer_empty b = b.head_ptr == b.tail_ptr

pub io_buffer_pop : Io → ℕ × Io
io_buffer_pop io =
    if not io.buffer.is_init then (0, io) else if io_buffer_empty io.buffer then (0, io) else (
      io.pmem.mem (add32 io.buffer.b_addr io.buffer.tail_ptr),
      record io {
        buffer = record (io.buffer) { tail_ptr = (io.buffer.tail_ptr + 1) % io.buffer.b_size };
      },
    )

-- The loop of `io_buffer_flush_to_screen`, with its pop before the loop and at its end.
pub flush_loop : ℕ → Io → Result Io
flush_loop zero io = diverge
flush_loop (suc fuel) io =
    let popped = io_buffer_pop io in
    let rest =
      flush_loop fuel (record (popped.1) { screen = popped.1.screen ++ (popped.0 ∷ []) }) in
    if popped.0 == 0 then ok popped.1 else rest

-- The buffer has room for fewer characters than this.
pub io_buffer_flush_to_screen : Io → Result Io
io_buffer_flush_to_screen io = flush_loop (phys_block_size + 1) io

-- The lazy start of `io_buffer_place`.
pub lazy_init : Io → Result Io
lazy_init io = if io.buffer.is_init then ok io else do
  panic_if io.buffer.is_initializing Panic.stdio_reentered
  (page, pm) ← alloc io.pmem
  ok (record io {
    pmem = pm;
    buffer = record (io.buffer) {
      is_initializing = false;
      is_init = true;
      b_addr = page;
      b_size = phys_block_size;
    };
  })

-- One round of the loop of `io_buffer_place`.
pub place_char : ℕ → Io → Result Io
place_char c io = do
  let next_head_ptr = (io.buffer.head_ptr + 1) % io.buffer.b_size
  io1 ←
      (if (next_head_ptr == io.buffer.tail_ptr) && io.buffer.autoflush_to_screen
        then io_buffer_flush_to_screen io
        else ok io)
  panic_if (not (next_head_ptr == (io1.buffer.head_ptr + 1) % io1.buffer.b_size))
      Panic.stdio_head_moved
  panic_if (next_head_ptr == io1.buffer.tail_ptr) Panic.stdio_overflow
  ok (record io1 {
    pmem = record (io1.pmem) {
      mem = write8 io1.pmem.mem (add32 io.buffer.b_addr io1.buffer.head_ptr) c;
    };
    buffer = record (io1.buffer) { head_ptr = next_head_ptr };
  })

-- The loop of `io_buffer_place` over the bytes at `message`.
pub place_loop : List ℕ → Io → Result Io
place_loop [] io = ok io
place_loop (c ∷ message) io = if c == 0 then ok io else (place_char c io >>= place_loop message)

pub io_buffer_place : List ℕ → Io → Result Io
io_buffer_place message io = lazy_init io >>= place_loop message
