-- ===== src/Vmem/Translate.antt =====
-- `vmem_get_phys_addr` (kernel/drivers/memory/vmem.c) on the tables of `vmem_init`.
use koiz_os.Base.{
  ℕ, ◌+◌, ◌*◌, ◌/◌, ◌%◌, ◌^◌, ◌<◌, ◌≡◌, ◌⊎◌, inl, inr, arith, refl, bit_and, add32, u32_mod,
}
use koiz_os.Base.Bits.{bit_and_offset, bit_and_index, bit_and_page}
use koiz_os.Kernel.{ok, panic, Panic}
use koiz_os.Kernel.Memory.{Memory, read32}
use koiz_os.Pmem.{Pmem}
use koiz_os.Pmem.Valid.{IsValid}
use koiz_os.Vmem.{get_phys_addr, init}
use koiz_os.Vmem.Identity.{Maps, init-Maps}

-- A walk through a directory and a table whose words are known.
walk :
    (mem : Memory) (base t v i j : ℕ)
    → v < u32_mod
    → i ≡ v / 2 ^ 22
    → j ≡ v / 2 ^ 12 % 1024
    → 0 < base
    → base + 4096 < u32_mod
    → t + 4096 < u32_mod
    → t % 4096 ≡ 0
    → read32 mem (base + 4 * i) ≡ t + 7
    → read32 mem (t + 4 * j) ≡ i * 2 ^ 22 + j * 2 ^ 12 + 7
    → get_phys_addr mem base v ≡ ok v
unfolding get_phys_addr
walk mem base t v i j small hi hj pos base_fits t_fits aligned dir_word table_word =
    let index : bit_and (v / 2 ^ 12) 0x3FF ≡ j = omega (arith, bit_and_index (v / 2 ^ 12)) in
    let slot : add32 base (4 * (v / 2 ^ 22)) ≡ base + 4 * i = omega arith in
    let table : bit_and (t + 7) 0xFFFFF000 ≡ t = omega (arith, bit_and_page (t + 7)) in
    let entry : add32 t (4 * j) ≡ t + 4 * j = omega arith in
    rw (index, slot, dir_word, table, entry, table_word)
      (ground (arith, bit_and_page (i * 2 ^ 22 + j * 2 ^ 12 + 7), bit_and_offset v))

-- On a directory whose 1024 entries link identity tables, every 32-bit address translates to itself.
Maps-identity :
    (pm : Pmem) (base v : ℕ) → Maps pm base 1024 → v < u32_mod → get_phys_addr pm.mem base v ≡ ok v
Maps-identity pm base v maps small =
    let i = v / 2 ^ 22 in
    let j = v / 2 ^ 12 % 1024 in
    let (t, link, ne, ((r, hr, used, at), words)) = maps.tables i (omega arith) in
    let (b, hb, dir_used, dir_at) = maps.directory in
    let ok_pm = maps.valid in
    walk pm.mem base t v i j small refl refl (omega arith) (omega arith) (omega arith) (omega arith)
      link (words j (omega arith))

-- On an initialised pmem: after `vmem_init` every 32-bit virtual address of the kernel is its own physical address; otherwise
-- `vmem_init` has run out of physical memory.
pub init_identity :
    {pm : Pmem}
    → IsValid pm
    → ((base : ℕ) × (pm' : Pmem) × (init pm ≡ ok (base, pm'))
        × ((v : ℕ) → v < u32_mod → get_phys_addr pm'.mem base v ≡ ok v))
      ⊎ (init pm ≡ panic Panic.pmem_out_of_memory)
init_identity v = elim (init-Maps v) [
  | inl (base, pm', e, maps) ↦ inl (base, pm', e, λ a small. Maps-identity pm' base a maps small)
  | inr e ↦ inr e
]
