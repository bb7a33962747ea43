-- ===== src/Stdlib/Streams.antt =====
-- The standard streams of kernel/libc/stdlib.c, over the buffers of stdio.c.
use koiz_os.Base.{ℕ, not, ◌&&◌, List, [], ◌∷◌, if◌then◌else◌}
use koiz_os.Kernel.{Result, ok, ◌>>=◌}
use koiz_os.Pmem.{Pmem, isinit}
use koiz_os.Stdio.{Buffer, Io, io_buffer_place, io_buffer_pop, io_buffer_flush_to_screen}

-- The two buffers, pmem, and the screen.
pub record Streams : Type 0 where
  pub std_input_buf : Buffer
  pub std_output_buf : Buffer
  pub pmem : Pmem
  pub screen : List ℕ

-- The streams with one buffer in use.
abbrev pub input_io : Streams → Io
input_io s = record { buffer = s.std_input_buf; pmem = s.pmem; screen = s.screen }

abbrev pub with_input : Streams → Io → Streams
with_input s io = record s { std_input_buf = io.buffer; pmem = io.pmem; screen = io.screen }

abbrev pub output_io : Streams → Io
output_io s = record { buffer = s.std_output_buf; pmem = s.pmem; screen = s.screen }

abbrev pub with_output : Streams → Io → Streams
with_output s io = record s { std_output_buf = io.buffer; pmem = io.pmem; screen = io.screen }

-- The message is the character before its terminator.
unfoldable pub put_stdio_input_char : ℕ → Streams → Result Streams
put_stdio_input_char character s =
    if isinit s.pmem && not s.std_output_buf.is_initializing
    then (do io ← io_buffer_place (character ∷ []) (input_io s); ok (with_input s io))
    else ok s

unfoldable pop_stdio_input_char : Streams → ℕ × Streams
pop_stdio_input_char s =
    if isinit s.pmem && s.std_input_buf.is_init
    then (let (c, io) = io_buffer_pop (input_io s) in (c, with_input s io))
    else (0, s)

unfoldable flushstdio : Streams → Result Streams
flushstdio s = do io ← io_buffer_flush_to_screen (output_io s); ok (with_output s io)

-- `stdlib_update`
unfoldable update : Streams → Result Streams
update s = flushstdio s
