-- ===== src/Pmem/Usage.antt =====
-- `pmem_list_info` (kernel/drivers/memory/pmem.c): its count of the pages in use follows every
-- allocation and every release.
use koiz_os.Base.{ℕ, zero, suc, ◌+◌, ◌≤◌, ◌<◌, ◌≡◌, ◌≢◌, arith, refl, u32_mod}
use koiz_os.Kernel.{ok}
use koiz_os.Kernel.Memory.{Memory, write8}
use koiz_os.Pmem.{Pmem, alloc, free, pages_in_use, list_info}
use koiz_os.Pmem.Valid.{IsValid, page}
use koiz_os.Pmem.Alloc.{IsFree, alloc-Gives}
use koiz_os.Pmem.Free.{free-page}

-- The address of the page of a record that is in use.
abbrev pub InUse : Pmem → ℕ → Type 0
InUse pm t = (r : ℕ) × (r < pm.mgr_reserved_size) × (¬ IsFree pm r) × (t ≡ page pm r)

-- A write before the records that are counted.
pages_in_use_before :
    (m : Memory) (start n i a v : ℕ)
    → start + i + n < u32_mod
    → a < start + i
    → pages_in_use (write8 m a v) start n i ≡ pages_in_use m start n i
unfolding pages_in_use
pages_in_use_before m start zero i a v fits h = refl
pages_in_use_before m start (suc n) i a v fits h =
    ground (arith, pages_in_use_before m start n (i + 1) a v)

pages_in_use-mark :
    (m : Memory) (start n i r : ℕ)
    → start + i + n < u32_mod
    → i ≤ r
    → r < i + n
    → m (start + r) ≡ 0
    → pages_in_use (write8 m (start + r) 1) start n i ≡ suc (pages_in_use m start n i)
unfolding pages_in_use
pages_in_use-mark m start zero i r fits lo hi free = absurd (omega arith)
pages_in_use-mark m start (suc n) i r fits lo hi free = ground (
  arith,
  pages_in_use-mark m start n (i + 1) r,
  pages_in_use_before m start n (i + 1) (start + r) 1,
)

pages_in_use-clear :
    (m : Memory) (start n i r : ℕ)
    → start + i + n < u32_mod
    → i ≤ r
    → r < i + n
    → m (start + r) ≢ 0
    → suc (pages_in_use (write8 m (start + r) 0) start n i) ≡ pages_in_use m start n i
unfolding pages_in_use
pages_in_use-clear m start zero i r fits lo hi used = absurd (omega arith)
pages_in_use-clear m start (suc n) i r fits lo hi used = ground (
  arith,
  pages_in_use-clear m start n (i + 1) r,
  pages_in_use_before m start n (i + 1) (start + r) 0,
)

-- Every allocation adds one page to the count that `pmem_list_info` prints.
in_use-alloc :
    {p p' : Pmem} {ptr : ℕ}
    → IsValid p
    → alloc p ≡ ok (ptr, p')
    → (list_info p').in_use ≡ suc (list_info p).in_use
unfolding list_info
in_use-alloc {p} {p'} v e =
    let g = alloc-Gives v e in
    rw g.state (
      pages_in_use-mark p.mem p.main_memory_start p.mgr_reserved_size 0 g.entry (omega arith)
        (omega arith) (omega (arith, g.in_range)) g.was_free)

-- Every release takes one page off the count.
in_use-free :
    {p p' : Pmem} (r i : ℕ)
    → IsValid p
    → r < p.mgr_reserved_size
    → i < 4096
    → ¬ IsFree p r
    → free (page p r + i) p ≡ ok p'
    → suc (list_info p').in_use ≡ (list_info p).in_use
unfolding list_info
in_use-free {p} {p'} r i v h hi used e =
    let same : p' ≡ record p { mem = write8 p.mem (p.main_memory_start + r) 0 } =
      cc (free-page v r i h hi used) in
    rw same (
      pages_in_use-clear p.mem p.main_memory_start p.mgr_reserved_size 0 r (omega arith)
        (omega arith) (omega arith) used)
