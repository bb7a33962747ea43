-- ===== src/Tss.antt =====
-- kernel/drivers/tss/tss.c: the task state segment and its descriptor, in memory. `tss` is the
-- address of the segment, `gdt_tss` that of the descriptor.
pub mod Loaded
mod Tests
use koiz_os.Base.{ℕ, ◌+◌, ◌*◌, ◌/◌, ◌%◌, ◌^◌, bit_and}
use koiz_os.Kernel.Memory.{Memory, write8, write32}
use koiz_os.Strings.{memset}

-- `sizeof(tss_entry_t)`: 25 fields of four bytes and two of two bytes.
abbrev pub tss_size : ℕ
tss_size = 104

-- `*(uint16_t*)a = v`
abbrev write16 : Memory → ℕ → ℕ → Memory
write16 m a v = write8 (write8 m a (v % 2 ^ 8)) (a + 1) (v / 2 ^ 8 % 2 ^ 8)

-- The descriptor: the limit, the base in three parts, the access byte and the flags.
unfoldable load_descriptor : ℕ → ℕ → Memory → Memory
load_descriptor tss gdt_tss mem =
    let m1 = write16 mem gdt_tss tss_size in
    let m2 = write16 m1 (gdt_tss + 2) (bit_and tss 0xFFFF) in
    let m3 = write8 m2 (gdt_tss + 4) (bit_and (tss / 2 ^ 16) 0xFF) in
    let m4 = write8 m3 (gdt_tss + 5) 0x89 in
    let m5 = write8 m4 (gdt_tss + 6) 0x40 in write8 m5 (gdt_tss + 7) (bit_and (tss / 2 ^ 24) 0xFF)

-- The fields that `load_tss` sets behind its `memset`: ss0, esp0, cs, ss, es, ds, fs, gs.
unfoldable load_fields : ℕ → Memory → Memory
load_fields tss mem =
    let m1 = write32 mem (tss + 4 * 2) 0x10 in
    let m2 = write32 m1 (tss + 4 * 1) 0x0 in
    let m3 = write32 m2 (tss + 4 * 19) 0x0b in
    let m4 = write32 m3 (tss + 4 * 20) 0x13 in
    let m5 = write32 m4 (tss + 4 * 18) 0x13 in
    let m6 = write32 m5 (tss + 4 * 21) 0x13 in
    let m7 = write32 m6 (tss + 4 * 22) 0x13 in write32 m7 (tss + 4 * 23) 0x13

pub load_tss : ℕ → ℕ → Memory → Memory
load_tss tss gdt_tss mem =
    load_fields tss (memset tss 0 tss_size (load_descriptor tss gdt_tss mem)).1

pub set_kernel_stack : ℕ → ℕ → Memory → Memory
set_kernel_stack tss stack_addr mem = write32 mem (tss + 4 * 1) stack_addr
