-- ===== src/Ramdisk/Access.antt =====
-- `ramdisk_internal_io` (kernel/drivers/ramdisk/ramdisk.c) as an array of bytes: what each access
-- does to the contents of the disk.

use koiz_os.Base.{
  ℕ, ◌+◌, ◌*◌, ◌/◌, ◌%◌, ◌≤◌, ◌<◌, ◌≡◌, ◌≢◌, ◌⊎◌, arith, ◌∙◌, ap, sym, add32, u32_mod, ℕ_discrete,
}
use koiz_os.Kernel.Memory.{Memory, write8, read32}
use koiz_os.Ramdisk.{byte_addr}

-- `ramdisk_block_pointers[k]`
abbrev pub block : Memory → ℕ → ℕ → ℕ
block mem pointers k = read32 mem (pointers + 4 * k)

abbrev pub Disjoint : ℕ → ℕ → Type 0
Disjoint a b = (a + 4096 ≤ b) ⊎ (b + 4096 ≤ a)

-- The page of pointers and the `n` pages that it names do not overlap.
pub record Layout (mem : Memory) (pointers n : ℕ) : Type 0 where
  pub few : n ≤ 1024
  pub room : pointers + 4096 ≤ u32_mod
  pub inside : (k : ℕ) → k < n → block mem pointers k + 4096 ≤ u32_mod
  pub off_table : (k : ℕ) → k < n → Disjoint (block mem pointers k) pointers
  pub apart :
      (k l : ℕ) → k < n → l < n → k ≢ l → Disjoint (block mem pointers k) (block mem pointers l)

module _ {pointers n : ℕ} where
  pub byte_addr-block :
      {mem : Memory}
      → Layout mem pointers n
      → (a : ℕ) → a < n * 4096
      → byte_addr pointers mem a ≡ block mem pointers (a / 4096) + a % 4096
  unfolding byte_addr
  byte_addr-block {mem} lay a h =
      let slot : add32 pointers (4 * (a / 4096)) ≡ pointers + 4 * (a / 4096) =
        omega (arith, lay.few, lay.room) in
      rw slot (omega (arith, lay.inside (a / 4096) (omega arith)))

  -- Two bytes of the disk have two addresses.
  pub byte_addr-ne :
      {mem : Memory}
      → Layout mem pointers n
      → (a b : ℕ) → a < n * 4096
      → b < n * 4096
      → a ≢ b
      → byte_addr pointers mem a ≢ byte_addr pointers mem b
  byte_addr-ne {mem} lay a b ha hb ne same = elim (ℕ_discrete (a / 4096) (b / 4096)) [
    | yes page ↦
        let blocks : block mem pointers (a / 4096) ≡ block mem pointers (b / 4096) =
          ap (block mem pointers) page in
        omega (arith, byte_addr-block lay a ha, byte_addr-block lay b hb, same, blocks)
    | no pages ↦ omega (
      arith,
      byte_addr-block lay a ha,
      byte_addr-block lay b hb,
      same,
      lay.apart (a / 4096) (b / 4096) (omega arith) (omega arith) pages,
    )
  ]

  -- Writing a byte of the disk leaves the pointers.
  pub block-write8 :
      {mem : Memory}
      → Layout mem pointers n
      → (a v k : ℕ) → a < n * 4096
      → k < n
      → block (write8 mem (byte_addr pointers mem a) v) pointers k ≡ block mem pointers k
  unfolding read32
  block-write8 {mem} lay a v k ha hk =
      ground (arith, byte_addr-block lay a ha, lay.off_table (a / 4096), lay.few)

  pub Layout-write8 :
      {mem : Memory}
      → Layout mem pointers n
      → (a v : ℕ) → a < n * 4096
      → Layout (write8 mem (byte_addr pointers mem a) v) pointers n
  Layout-write8 {mem} lay a v ha = record {
    few = lay.few;
    room = lay.room;
    inside = λ k hk. rw (block-write8 lay a v k ha hk) (lay.inside k hk);
    off_table = λ k hk. rw (block-write8 lay a v k ha hk) (lay.off_table k hk);
    apart = λ k l hk hl ne.
        rw (block-write8 lay a v k ha hk, block-write8 lay a v l ha hl) (lay.apart k l hk hl ne);
  }

  pub byte_addr-write8 :
      {mem : Memory}
      → Layout mem pointers n
      → (a v b : ℕ) → a < n * 4096
      → b < n * 4096
      → byte_addr pointers (write8 mem (byte_addr pointers mem a) v) b ≡ byte_addr pointers mem b
  byte_addr-write8 lay a v b ha hb =
      byte_addr-block (Layout-write8 lay a v ha) b hb
      ∙ ap (λ (x : ℕ). x + b % 4096) (block-write8 lay a v (b / 4096) ha (omega arith))
      ∙ sym (byte_addr-block lay b hb)

-- The byte at address `a` of the disk.
abbrev pub contents : Memory → ℕ → ℕ → ℕ
contents mem pointers a = mem (byte_addr pointers mem a)
