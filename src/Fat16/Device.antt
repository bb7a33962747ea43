-- ===== src/Fat16/Device.antt =====
-- The ramdisk as kernel/fs/ramdisk_fat16.c sees it: 2 ^ 22 bytes at addresses, all accesses in range.
use koiz_os.Base.{
  ℕ, ◌+◌, ◌≤◌, ◌<◌, ◌≡◌, ◌⊎◌, ◌^◌, List, arith, refl, ◌∙◌, ap, sym, subst, length, get_or,
}
use koiz_os.Kernel.{ok}
use koiz_os.Ramdisk.{Ramdisk}
use koiz_os.Ramdisk.Access.{Layout, contents}
use koiz_os.Ramdisk.RoundTrip.{write-Stored}
use koiz_os.Ramdisk.Frame.{Frame, Frame-refl, Frame-trans}
use koiz_os.Ramdisk.Slice.{slice, read-slice}
use koiz_os.Fat16.{read_into, write_from}

-- A disk of 1024 pages that do not overlap.
pub record IsDisk (d : Ramdisk) : Type 0 where
  pub sized : d.block_size ≡ 1024
  pub layout : Layout d.pmem.mem d.block_pointers 1024

-- The byte at an address.
abbrev pub view : Ramdisk → ℕ → ℕ
view d a = contents d.pmem.mem d.block_pointers a

-- A read returns the bytes.
pub read_into-slice :
    (old : List ℕ) (s n : ℕ) {d : Ramdisk}
    → IsDisk d
    → s + n ≤ 2 ^ 22
    → read_into old s n d ≡ ok (slice (view d) s n)
unfolding read_into
read_into-slice old s n {d} disk h =
    rw
      (read-slice d s n (omega (arith, disk.sized)) (omega (arith, disk.sized))
        (omega (arith, disk.sized)))
      refl

-- The pages of the disk are the same, and memory outside them has not changed.
pub record Keeps (d d' : Ramdisk) : Type 0 where
  pub table : d'.block_pointers ≡ d.block_pointers
  pub frame : Frame d.block_pointers 1024 d.pmem.mem d'.pmem.mem

pub Keeps-refl : (d : Ramdisk) → Keeps d d
Keeps-refl d = record { table = refl; frame = Frame-refl d.block_pointers 1024 d.pmem.mem }

pub Keeps-trans : {d1 d2 d3 : Ramdisk} → Keeps d1 d2 → Keeps d2 d3 → Keeps d1 d3
Keeps-trans {d1} {d2} {d3} f g = record {
  table = g.table ∙ f.table;
  frame = Frame-trans f.frame (subst (λ p. Frame p 1024 d2.pmem.mem d3.pmem.mem) f.table g.frame);
}

-- `d'` is `d` with `bytes` stored from `s` on.
pub record Saves (d : Ramdisk) (s : ℕ) (bytes : List ℕ) (d' : Ramdisk) : Type 0 where
  pub disk : IsDisk d'
  pub stored : (i : ℕ) → i < length bytes → view d' (s + i) ≡ get_or bytes i 0
  pub kept : (b : ℕ) → b < 2 ^ 22 → (b < s) ⊎ (s + length bytes ≤ b) → view d' b ≡ view d b
  pub keeps : Keeps d d'

-- A write stores its bytes and changes no others.
pub write_from-Saves :
    (s : ℕ) (bytes : List ℕ) {d : Ramdisk}
    → IsDisk d
    → s + length bytes ≤ 2 ^ 22
    → (d' : Ramdisk) × (write_from s bytes d ≡ ok d') × Saves d s bytes d'
unfolding write_from
write_from-Saves s bytes {d} disk h =
    let (d', e, st) =
      write-Stored d s bytes
        (subst (λ n. Layout d.pmem.mem d.block_pointers n) (sym disk.sized) disk.layout)
        (omega (arith, disk.sized)) (omega (arith, disk.sized)) in
    let same : (b : ℕ) → view d' b ≡ contents d'.pmem.mem d.block_pointers b =
      λ b. ap (λ p. contents d'.pmem.mem p b) st.table in
    (
      d',
      rw e refl,
      record {
        disk = record {
          sized = st.size ∙ disk.sized;
          layout =
              subst (λ p. Layout d'.pmem.mem p 1024) (sym st.table)
                (subst (λ n. Layout d'.pmem.mem d.block_pointers n) disk.sized st.written.layout);
        };
        stored = λ i hi. same (s + i) ∙ st.written.stored i hi;
        kept = λ b hb out. same b ∙ st.written.kept b (omega (arith, disk.sized)) out;
        keeps = record {
          table = st.table;
          frame =
              subst (λ n. Frame d.block_pointers n d.pmem.mem d'.pmem.mem) disk.sized
                st.written.frame;
        };
      },
    )
