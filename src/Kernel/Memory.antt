-- ===== src/Kernel/Memory.antt =====
-- Byte-addressed physical memory, and little-endian `uint32_t` accesses to it.
use native.Mathlib.Nat.{add-zero}
use koiz_os.Base.{ℕ, ◌+◌, ◌*◌, ◌/◌, ◌%◌, ◌^◌, ◌≤◌, ◌<◌, ◌≡◌, ◌⊎◌, arith, ◌==◌, if◌then◌else◌}

abbrev pub Memory : Type 0
Memory = ℕ → ℕ

-- `*(uint8_t*)a = v`
abbrev pub write8 : Memory → ℕ → ℕ → Memory
write8 m a v b = if a == b then v else m b

-- `*(uint32_t*)a`
unfoldable pub read32 : Memory → ℕ → ℕ
read32 m a = m a + 2 ^ 8 * m (a + 1) + 2 ^ 16 * m (a + 2) + 2 ^ 24 * m (a + 3)

-- `*(uint32_t*)a = v`
pub write32 : Memory → ℕ → ℕ → Memory
write32 m a v =
    write8
      (write8 (write8 (write8 m a (v % 2 ^ 8)) (a + 1) (v / 2 ^ 8 % 2 ^ 8)) (a + 2)
        (v / 2 ^ 16 % 2 ^ 8))
      (a + 3) (v / 2 ^ 24 % 2 ^ 8)

pub read32-write32_self : (m : Memory) (a v : ℕ) → v < 2 ^ 32 → read32 (write32 m a v) a ≡ v
unfolding read32 write32
read32-write32_self m a v h = ground arith

pub write32_outside : (m : Memory) (a v b : ℕ) → (b < a) ⊎ (a + 4 ≤ b) → write32 m a v b ≡ m b
unfolding write32
write32_outside m a v b h = ground arith

pub read32-write32_ne :
    (m : Memory) (a v b : ℕ) → (b + 4 ≤ a) ⊎ (a + 4 ≤ b) → read32 (write32 m a v) b ≡ read32 m b
unfolding read32
read32-write32_ne m a v b h = ground (
  arith,
  write32_outside m a v b,
  write32_outside m a v (b + 1),
  write32_outside m a v (b + 2),
  write32_outside m a v (b + 3),
)

pub read32_same :
    (m m' : Memory) (a : ℕ) → ((k : ℕ) → k < 4 → m (a + k) ≡ m' (a + k)) → read32 m a ≡ read32 m' a
unfolding read32
read32_same m m' a h = ground (arith, h 0, h 1, h 2, h 3, add-zero a)
