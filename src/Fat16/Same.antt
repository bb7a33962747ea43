-- ===== src/Fat16/Same.antt =====
-- The disk of kernel/fs/ramdisk_fat16.c when other memory changes: it holds the same.
use koiz_os.Base.{
  ℕ, zero, suc, ◌+◌, ◌*◌, ◌/◌, ◌%◌, ◌^◌, ◌≤◌, ◌<◌, ◌≡◌, List, ◌==◌, arith, refl, ap, ◌∙◌, sym,
}
use koiz_os.Kernel.Memory.{Memory, read32_same}
use koiz_os.Ramdisk.{Ramdisk}
use koiz_os.Ramdisk.Access.{block, byte_addr-block}
use koiz_os.Ramdisk.Slice.{slice}
use koiz_os.Fat16.{cluster_count, fat_addr, root_addr, word16}
use koiz_os.Fat16.Device.{IsDisk, view}
use koiz_os.Fat16.Search.{first_congr, cluster_free, entry_free}
use koiz_os.Fat16.Lookup.{Absent}
use koiz_os.Fat16.Files.{free_cluster, free_entry}

abbrev pub with_mem : Ramdisk → Memory → Ramdisk
with_mem d mem = record d { pmem = record (d.pmem) { mem = mem } }

-- The page of pointers and the pages of the disk hold the same bytes.
pub record SameBytes (d : Ramdisk) (mem : Memory) : Type 0 where
  pub table : (a : ℕ) → d.block_pointers ≤ a → a < d.block_pointers + 4096 → mem a ≡ d.pmem.mem a
  pub pages :
      (k a : ℕ)
      → k < 1024
      → block d.pmem.mem d.block_pointers k ≤ a
      → a < block d.pmem.mem d.block_pointers k + 4096
      → mem a ≡ d.pmem.mem a

slice_congr :
    (v v' : ℕ → ℕ) (s n : ℕ)
    → ((i : ℕ) → i < n → v (s + i) ≡ v' (s + i))
    → slice v s n ≡ slice v' s n
slice_congr v v' s zero same = refl
slice_congr v v' s (suc n) same =
    let head : v s ≡ v' s = ap v (omega arith) ∙ same 0 (omega arith) ∙ ap v' (omega arith) in
    let rest =
      slice_congr v v' (s + 1) n
        (λ i h. ap v (omega arith) ∙ same (suc i) (omega arith) ∙ ap v' (omega arith)) in
    cc

module _ (d : Ramdisk) (mem : Memory) (disk : IsDisk d) (same : SameBytes d mem) where
  pub same-block :
      (k : ℕ) → k < 1024 → block mem d.block_pointers k ≡ block d.pmem.mem d.block_pointers k
  same-block k hk =
      read32_same mem d.pmem.mem (d.block_pointers + 4 * k)
        (λ i hi. same.table (d.block_pointers + 4 * k + i) (omega arith) (omega arith))

  pub same-IsDisk : IsDisk (with_mem d mem)
  same-IsDisk = record {
    sized = disk.sized;
    layout = record {
      few = disk.layout.few;
      room = disk.layout.room;
      inside = λ k h. rw (same-block k h) (disk.layout.inside k h);
      off_table = λ k h. rw (same-block k h) (disk.layout.off_table k h);
      apart =
          λ k l hk hl ne. rw (same-block k hk, same-block l hl) (disk.layout.apart k l hk hl ne);
    };
  }

  same-view : (b : ℕ) → b < 2 ^ 22 → view (with_mem d mem) b ≡ view d b
  same-view b h =
      let k = b / 4096 in
      let before = byte_addr-block disk.layout b (omega arith) in
      let after = byte_addr-block same-IsDisk.layout b (omega arith) in
      let here = same-block k (omega arith) in
      ap mem (after ∙ ap (λ (n : ℕ). n + b % 4096) here)
      ∙ same.pages k (block d.pmem.mem d.block_pointers k + b % 4096) (omega arith) (omega arith)
          (omega arith)
      ∙ ap d.pmem.mem (sym before)

  pub same-Absent : (name : List ℕ) → Absent name d → Absent name (with_mem d mem)
  same-Absent name absent k lo hi used =
      let start = same-view (root_addr k) (omega arith) in
      let (i, h, larger) = absent k lo hi (λ z. used (start ∙ z)) in
      (i, h, omega (arith, larger, same-view (root_addr k + i) (omega arith)))

  pub same-free_cluster : free_cluster (with_mem d mem) ≡ free_cluster d
  same-free_cluster =
      first_congr (cluster_free (view (with_mem d mem))) (cluster_free (view d)) cluster_count 0
        (λ k lo hi.
          ap (λ l. word16 l == 0)
            (slice_congr (view (with_mem d mem)) (view d) (fat_addr k) 2
              (λ i hi'. same-view (fat_addr k + i) (omega arith))))

  pub same-free_entry : free_entry (with_mem d mem) ≡ free_entry d
  same-free_entry =
      first_congr (entry_free (view (with_mem d mem))) (entry_free (view d)) 31 1
        (λ k lo hi. ap (λ (x : ℕ). x == 0) (same-view (root_addr k) (omega arith)))
