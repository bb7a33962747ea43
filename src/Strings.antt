-- ===== src/Strings.antt =====
-- kernel/libc/string.c over the kernel's memory.
pub mod Compare
pub mod Copy
mod Tests
use koiz_os.Base.{
  ℕ, zero, suc, ◌+◌, ◌-◌, Bool, true, false, not, ◌&&◌, ◌==◌, ltb, if◌then◌else◌, add32, sub32,
  u32_mod, ltb_int32,
}
use koiz_os.Kernel.{Result, ok, diverge, ◌>>=◌}
use koiz_os.Kernel.Memory.{Memory, write8}

-- The loop of `strcpy`: the rounds left, then `i`. It returns the last `i`.
pub strcpy_loop : ℕ → ℕ → ℕ → ℕ → Memory → ℕ × Memory
strcpy_loop zero i dst src mem = (i, mem)
strcpy_loop (suc n) i dst src mem =
    let c = mem (add32 src i) in
    let rest = strcpy_loop n (i + 1) dst src (write8 mem (add32 dst i) c) in
    if c == 0 then (i, mem) else rest

pub strcpy : ℕ → ℕ → ℕ → Memory → ℕ × Memory
strcpy dst src dst_size mem =
    if dst == 0
    then (0, mem)
    else let (i, mem') = strcpy_loop dst_size 0 dst src mem in (dst, write8 mem' (add32 dst i) 0)

-- The loop of `strlen`: it visits an address twice only if there is no terminator.
pub strlen_loop : ℕ → ℕ → ℕ → Memory → Result ℕ
strlen_loop zero len str mem = diverge
strlen_loop (suc fuel) len str mem =
    let rest = strlen_loop fuel (add32 len 1) str mem in
    if mem (add32 str len) == 0 then ok len else rest

pub strlen : ℕ → Memory → Result ℕ
strlen str mem = strlen_loop u32_mod 0 str mem

-- The loop of `strcmp`, with the difference that is returned behind it.
pub strcmp_loop : ℕ → ℕ → ℕ → Memory → Result ℕ
strcmp_loop zero str_a str_b mem = diverge
strcmp_loop (suc fuel) str_a str_b mem =
    let rest = strcmp_loop fuel (add32 str_a 1) (add32 str_b 1) mem in
    if not (mem str_a == 0) && (mem str_a == mem str_b)
    then rest
    else ok (sub32 (mem str_a) (mem str_b))

-- The `int32_t` result is given by its bit pattern.
pub strcmp : ℕ → ℕ → Memory → Result ℕ
strcmp str_a str_b mem = strcmp_loop u32_mod str_a str_b mem

-- The loop of `memcpy`: the rounds left, then `i`.
pub memcpy_loop : ℕ → ℕ → ℕ → ℕ → Memory → Memory
memcpy_loop zero i dst src mem = mem
memcpy_loop (suc n) i dst src mem =
    memcpy_loop n (i + 1) dst src (write8 mem (add32 dst i) (mem (add32 src i)))

pub memcpy : ℕ → ℕ → ℕ → Memory → ℕ × Memory
memcpy dst src data_size mem = (dst, memcpy_loop data_size 0 dst src mem)

-- The loop of `memset`: `len`, then `byte_ptr`.
unfoldable pub memset_loop : ℕ → ℕ → ℕ → Memory → Memory
memset_loop zero byte_ptr value mem = mem
memset_loop (suc len) byte_ptr value mem =
    memset_loop len (add32 byte_ptr 1) value (write8 mem byte_ptr value)

unfoldable pub memset : ℕ → ℕ → ℕ → Memory → ℕ × Memory
memset ptr value len mem = if ptr == 0 then (0, mem) else (ptr, memset_loop len ptr value mem)

-- `-1` as a bit pattern.
abbrev minus_one : ℕ
minus_one = 0xFFFFFFFF

-- The loop of `memcmp`: the rounds left, then `i`.
pub memcmp_loop : ℕ → ℕ → ℕ → ℕ → Memory → ℕ
memcmp_loop zero i a b mem = 0
memcmp_loop (suc n) i a b mem =
    let rest = memcmp_loop n (i + 1) a b mem in
    if ltb (mem (add32 a i)) (mem (add32 b i))
    then minus_one
    else (if ltb (mem (add32 a i)) (mem (add32 b i)) then 1 else rest)

pub memcmp : ℕ → ℕ → ℕ → Memory → ℕ
memcmp ptr_a ptr_b data_size mem = memcmp_loop data_size 0 ptr_a ptr_b mem

-- The loop of `rpad`: the rounds left, then `i`.
unfoldable rpad_loop : ℕ → ℕ → ℕ → ℕ → Memory → Memory
rpad_loop zero i str pad_char mem = mem
rpad_loop (suc n) i str pad_char mem =
    rpad_loop n (i + 1) str pad_char (write8 mem (add32 str i) pad_char)

unfoldable rpad : ℕ → ℕ → ℕ → Memory → Result Memory
rpad str pad_char len mem = do
  src_length ← strlen str mem
  if ltb_int32 src_length len
      then ok (
          write8 (rpad_loop (sub32 len src_length) src_length str pad_char mem)
            (add32 str (sub32 len 1)) 0)
      else ok mem
