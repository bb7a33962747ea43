-- ===== src/Ramdisk/RoundTrip.antt =====
-- `ramdisk_read` and `ramdisk_write` (kernel/drivers/ramdisk/ramdisk.c): what one stores the other
-- reads.

use koiz_os.Base.{
  ℕ, zero, suc, ◌+◌, ◌*◌, ◌≤◌, ◌<◌, ◌≡◌, ◌≢◌, ◌⊎◌, inl, inr, List, [], ◌∷◌, arith, refl, ◌∙◌, ap,
  subst, length, get_or, add32, u32_mod,
}
use koiz_os.Kernel.{ok}
use koiz_os.Kernel.Memory.{Memory, write8}
use koiz_os.Ramdisk.{
  Ramdisk, success, error_out_of_bounds, error_overflow, byte_addr, read_bytes, write_bytes, check,
  read, write,
}
use koiz_os.Ramdisk.Frame.{Frame, Frame-refl, Frame-trans, Frame-write8}
use koiz_os.Ramdisk.Access.{Layout, Layout-write8, byte_addr-write8, byte_addr-ne, contents}

-- `mem'` is the disk `mem` with `bytes` stored from `s` on, and nothing else changed.
pub record Written (pointers n : ℕ) (bytes : List ℕ) (s : ℕ) (mem mem' : Memory) : Type 0 where
  pub layout : Layout mem' pointers n
  pub stored : (i : ℕ) → i < length bytes → contents mem' pointers (s + i) ≡ get_or bytes i 0
  pub kept :
      (b : ℕ)
      → b < n * 4096
      → (b < s) ⊎ (s + length bytes ≤ b)
      → contents mem' pointers b ≡ contents mem pointers b
  pub frame : Frame pointers n mem mem'

module _ {pointers n : ℕ} where
  contents-write8_self :
      {mem : Memory}
      → Layout mem pointers n
      → (a v : ℕ) → a < n * 4096
      → contents (write8 mem (byte_addr pointers mem a) v) pointers a ≡ v
  contents-write8_self {mem} lay a v ha = ground (arith, byte_addr-write8 lay a v a ha ha)

  contents-write8_ne :
      {mem : Memory}
      → Layout mem pointers n
      → (a v b : ℕ) → a < n * 4096
      → b < n * 4096
      → a ≢ b
      → contents (write8 mem (byte_addr pointers mem a) v) pointers b ≡ contents mem pointers b
  contents-write8_ne {mem} lay a v b ha hb ne =
      let differ = byte_addr-ne lay a b ha hb ne in
      rw (byte_addr-write8 lay a v b ha hb) (ground (arith, differ))

  -- Storing the first byte, then the others behind it.
  Written-cons :
      {byte : ℕ} {bytes : List ℕ} {s : ℕ} {mem mem' : Memory}
      → Layout mem pointers n
      → s + suc (length bytes) ≤ n * 4096
      → Written pointers n bytes (s + 1) (write8 mem (byte_addr pointers mem s) byte) mem'
      → Written pointers n (byte ∷ bytes) s mem mem'
  Written-cons {byte} {bytes} {s} {mem} {mem'} lay room rest = record {
    layout = rest.layout;
    stored = λ i.
        elim i
          as (λ k.
            k < suc (length bytes) → contents mem' pointers (s + k) ≡ get_or (byte ∷ bytes) k 0) [
              | zero ↦ λ h.
                  ap (contents mem' pointers) (omega arith)
                  ∙ rest.kept s (omega arith) (inl (omega arith))
                  ∙ contents-write8_self lay s byte (omega arith)
              | suc j ↦ λ h. ap (contents mem' pointers) (omega arith) ∙ rest.stored j (omega arith)
            ];
    kept = λ b hb h.
        rest.kept b hb (omega arith)
        ∙ contents-write8_ne lay s byte b (omega arith) hb (omega arith);
    frame = Frame-trans (Frame-write8 lay s byte (omega arith)) rest.frame;
  }

  write_bytes-Written :
      (bytes : List ℕ) (s : ℕ) (mem : Memory)
      → Layout mem pointers n
      → s + length bytes ≤ n * 4096
      → Written pointers n bytes s mem (write_bytes pointers bytes s mem)
  unfolding write_bytes
  write_bytes-Written [] s mem lay room = record {
    layout = lay;
    stored = λ i h. elim h [ ];
    kept = λ b hb h. refl;
    frame = Frame-refl pointers n mem;
  }
  write_bytes-Written (byte ∷ bytes) s mem lay room =
      let mem1 = write8 mem (byte_addr pointers mem s) byte in
      let next : s + 1 ≡ add32 s 1 = omega (arith, lay.few) in
      Written-cons lay room (
        subst (λ a. Written pointers n bytes (s + 1) mem1 (write_bytes pointers bytes a mem1)) next
          (write_bytes-Written bytes (s + 1) mem1 (Layout-write8 lay s byte (omega arith))
            (omega arith)))

read_bytes-eq :
    (pointers : ℕ) (bytes : List ℕ) (s : ℕ) (mem : Memory)
    → s + length bytes ≤ 1024 * 4096
    → ((i : ℕ) → i < length bytes → contents mem pointers (s + i) ≡ get_or bytes i 0)
    → read_bytes pointers (length bytes) s mem ≡ bytes
unfolding read_bytes
read_bytes-eq pointers [] s mem room same = refl
read_bytes-eq pointers (byte ∷ bytes) s mem room same =
    let next : add32 s 1 ≡ s + 1 = omega arith in
    let first : contents mem pointers s ≡ byte =
      ap (contents mem pointers) (omega arith) ∙ same 0 (omega arith) in
    let rest : read_bytes pointers (length bytes) (s + 1) mem ≡ bytes =
      read_bytes-eq pointers bytes (s + 1) mem (omega arith)
        (λ i h. ap (contents mem pointers) (omega arith) ∙ same (suc i) (omega arith)) in
    cc

-- `ramdisk_internal_io` refuses an access with one of its two errors exactly when it ends past the
-- disk, also when the end wraps around; the disk has at most 1024 pages.
check-bounds :
    (d : Ramdisk) (s len : ℕ)
    → 0 < d.block_size
    → d.block_size ≤ 1024
    → s < u32_mod
    → len < u32_mod
    → ((s + len ≤ d.block_size * 4096) × (check d s len ≡ ok success))
      ⊎ ((d.block_size * 4096 < s + len)
          × ((check d s len ≡ ok error_out_of_bounds) ⊎ (check d s len ≡ ok error_overflow)))
unfolding check
check-bounds d s len some few hs hl = ground arith

pub check-fits :
    (d : Ramdisk) (s len : ℕ)
    → d.block_size ≤ 1024
    → 0 < d.block_size
    → s + len ≤ d.block_size * 4096
    → check d s len ≡ ok success
unfolding check
check-fits d s len few some room = ground arith

-- The effect of a successful `ramdisk_write`: only the memory of the disk changes, exactly the
-- bytes from `s` on take the new values, and `ramdisk_read` of the same place returns them.
pub record Stored (d d' : Ramdisk) (s : ℕ) (bytes : List ℕ) : Type 0 where
  pub size : d'.block_size ≡ d.block_size
  pub table : d'.block_pointers ≡ d.block_pointers
  pub written : Written d.block_pointers d.block_size bytes s d.pmem.mem d'.pmem.mem
  pub read_back : read d' s (length bytes) ≡ ok (success, bytes)

-- On a disk whose pages do not overlap, a write that fits succeeds; after it a read of the same
-- place returns the bytes written, every other byte of the disk keeps its value, and the pages
-- still do not overlap.
pub write-Stored :
    (d : Ramdisk) (s : ℕ) (bytes : List ℕ)
    → Layout d.pmem.mem d.block_pointers d.block_size
    → 0 < d.block_size
    → s + length bytes ≤ d.block_size * 4096
    → (d' : Ramdisk) × (write d s bytes ≡ ok (success, d')) × Stored d d' s bytes
unfolding write read check
write-Stored d s bytes lay some room =
    let w = write_bytes-Written bytes s d.pmem.mem lay room in
    let mem' = write_bytes d.block_pointers bytes s d.pmem.mem in
    let d' : Ramdisk = record d { pmem = record (d.pmem) { mem = mem' } } in
    let fits : check d s (length bytes) ≡ ok success =
      check-fits d s (length bytes) lay.few some room in
    let back = read_bytes-eq d.block_pointers bytes s mem' (omega (arith, lay.few)) w.stored in
    (
      d',
      rw fits refl,
      record { size = refl; table = refl; written = w; read_back = rw (fits, back) refl },
    )

-- A refused write changes nothing, and a refused read stores nothing.
refused :
    (d : Ramdisk) (s : ℕ) (bytes : List ℕ)
    → 0 < d.block_size
    → d.block_size ≤ 1024
    → s < u32_mod
    → length bytes < u32_mod
    → d.block_size * 4096 < s + length bytes
    → ((write d s bytes ≡ ok (error_out_of_bounds, d))
        × (read d s (length bytes) ≡ ok (error_out_of_bounds, [])))
      ⊎ ((write d s bytes ≡ ok (error_overflow, d))
          × (read d s (length bytes) ≡ ok (error_overflow, [])))
unfolding write read
refused d s bytes some few hs hl past = elim (check-bounds d s (length bytes) some few hs hl) [
  | inl (fits, e) ↦ absurd (omega (arith, fits))
  | inr (_, inl e) ↦ inl (rw e refl, rw e refl)
  | inr (_, inr e) ↦ inr (rw e refl, rw e refl)
]
