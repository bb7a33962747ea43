-- ===== src/Pmem/Alloc.antt =====
-- `pmem_alloc` (kernel/drivers/memory/pmem.c): the page it gives out, and when it runs out.
use koiz_os.Base.{
  ℕ, zero, suc, ◌+◌, ◌-◌, ◌%◌, ◌≤◌, ◌<◌, ◌≡◌, ◌≢◌, arith, leb, if◌then◌else◌, refl, inl, inr, ◌⊎◌,
  ℕ_discrete, sym, subst,
}
use koiz_os.Kernel.{Result, ok, panic, Panic}
use koiz_os.Kernel.Memory.{write8}
use koiz_os.Pmem.{Pmem, next_record, alloc_scan, alloc, entry_to_ptr}
use koiz_os.Pmem.Valid.{IsValid, page}

-- The state after record `r` is given out.
abbrev pub give : Pmem → ℕ → Pmem
give p r = record p { mem = write8 p.mem (p.main_memory_start + r) 1; curr_alloc_record = r }

-- The record of a page is free.
abbrev pub IsFree : Pmem → ℕ → Type 0
IsFree p r = p.mem (p.main_memory_start + r) ≡ 0

-- A call that succeeds gives out the page of a record that was free, and marks that record alone.
pub record Gives (p : Pmem) (ptr : ℕ) (p' : Pmem) : Type 0 where
  pub entry : ℕ
  pub in_range : entry < p.mgr_reserved_size
  pub was_free : IsFree p entry
  pub address : ptr ≡ page p entry
  pub state : p' ≡ give p entry

abbrev pub at_record : Pmem → ℕ → Pmem
at_record p r = record p { curr_alloc_record = r }

at_record-IsValid :
    {p : Pmem} → IsValid p → (r : ℕ) → r < p.mgr_reserved_size → IsValid (at_record p r)
at_record-IsValid v r h = ground arith

next_record-lt :
    {p : Pmem}
    → IsValid p
    → (r : ℕ) → r < p.mgr_reserved_size
    → next_record p r < p.mgr_reserved_size
unfolding next_record
next_record-lt v r h = ground arith

-- How many steps of `next_record` lead from `a` to `b`, in a list of `n` records.
abbrev distance : ℕ → ℕ → ℕ → ℕ
distance n a b = if leb a b then b - a else n - a + b

next_record-distance :
    {p : Pmem}
    → IsValid p
    → (a b : ℕ) → a < p.mgr_reserved_size
    → b < p.mgr_reserved_size
    → a ≢ b
    → suc (distance p.mgr_reserved_size (next_record p a) b) ≡ distance p.mgr_reserved_size a b
unfolding next_record
next_record-distance v a b ha hb ne = ground arith

-- One round of the loop at a record that is free.
alloc_scan-free :
    {p : Pmem}
    → IsValid p
    → (fuel start : ℕ) → start ≢ p.curr_alloc_record
    → IsFree p p.curr_alloc_record
    → alloc_scan (suc fuel) start p ≡ ok (page p p.curr_alloc_record, give p p.curr_alloc_record)
unfolding alloc_scan entry_to_ptr
alloc_scan-free {p} v fuel start ne free = ground arith

-- One round at a record that is in use.
alloc_scan-used :
    {p : Pmem}
    → IsValid p
    → (fuel start : ℕ) → start ≢ p.curr_alloc_record
    → p.mem (p.main_memory_start + p.curr_alloc_record) ≢ 0
    → alloc_scan (suc fuel) start p
      ≡ alloc_scan fuel start (at_record p (next_record p p.curr_alloc_record))
unfolding alloc_scan
alloc_scan-used {p} v fuel start ne used = ground arith

alloc_scan-end :
    (p : Pmem) (fuel start : ℕ)
    → start ≡ p.curr_alloc_record
    → alloc_scan (suc fuel) start p ≡ panic Panic.pmem_out_of_memory
unfolding alloc_scan
alloc_scan-end p fuel start same = ground arith

-- All records that the loop passes from the current one before it comes to `start` are in use.
abbrev UsedUntil : Pmem → ℕ → Type 0
UsedUntil p start =
    (r : ℕ)
    → r < p.mgr_reserved_size
    → distance p.mgr_reserved_size p.curr_alloc_record r
      < distance p.mgr_reserved_size p.curr_alloc_record start
    → ¬ IsFree p r

abbrev Scanned : Pmem → ℕ → Result (ℕ × Pmem) → Type 0
Scanned p start out =
    ((ptr : ℕ) × (p' : Pmem) × (out ≡ ok (ptr, p')) × Gives p ptr p')
    ⊎ ((out ≡ panic Panic.pmem_out_of_memory) × UsedUntil p start)

Scanned-used :
    {p : Pmem} (v : IsValid p) (start : ℕ) (out : Result (ℕ × Pmem))
    → start < p.mgr_reserved_size
    → start ≢ p.curr_alloc_record
    → p.mem (p.main_memory_start + p.curr_alloc_record) ≢ 0
    → Scanned (at_record p (next_record p p.curr_alloc_record)) start out
    → Scanned p start out
Scanned-used v start out hs ne used (inl (ptr, p', e, g)) = inl (
  ptr,
  p',
  e,
  record {
    entry = g.entry;
    in_range = g.in_range;
    was_free = g.was_free;
    address = g.address;
    state = g.state;
  },
)
Scanned-used {p} v start out hs ne used (inr (e, all)) =
    inr (e, λ r h d f. past r h d f (ℕ_discrete p.curr_alloc_record r))
  where
    open p use {mgr_reserved_size as n, curr_alloc_record as curr}

    past :
        (r : ℕ)
        → r < n
        → distance n curr r < distance n curr start
        → IsFree p r
        → Dec (curr ≡ r)
        → ⊥
    past r h d f (yes same) = used (subst (λ k. IsFree p k) (sym same) f)
    past r h d f (no other) =
        all r h
          (omega (
            arith,
            next_record-distance v curr r v.current h other,
            next_record-distance v curr start v.current hs (λ e. ne (sym e)),
          ))
          f

alloc_scan-Scanned :
    (fuel : ℕ) {p : Pmem}
    → IsValid p
    → (start : ℕ) → start < p.mgr_reserved_size
    → distance p.mgr_reserved_size p.curr_alloc_record start < fuel
    → Scanned p start (alloc_scan fuel start p)
alloc_scan-Scanned zero v start hs enough = elim enough [ ]
alloc_scan-Scanned (suc fuel) {p} v start hs enough = elim (ℕ_discrete start p.curr_alloc_record) [
  | yes same ↦ inr (alloc_scan-end p fuel start same, λ r h d. absurd (ground (arith, same)))
  | no ne ↦ elim (ℕ_discrete (p.mem (p.main_memory_start + p.curr_alloc_record)) 0) [
    | yes free ↦ inl (
      page p p.curr_alloc_record,
      give p p.curr_alloc_record,
      alloc_scan-free v fuel start ne free,
      record {
        entry = p.curr_alloc_record;
        in_range = v.current;
        was_free = free;
        address = refl;
        state = refl;
      },
    )
    | no used ↦ rw (alloc_scan-used v fuel start ne used) (
        Scanned-used v start _ hs ne used (
          alloc_scan-Scanned fuel (at_record-IsValid v _ (next_record-lt v _ v.current)) start hs (
            omega (
              arith,
              next_record-distance v p.curr_alloc_record start v.current hs (λ e. ne (sym e)),
            ))))
  ]
]

module _ {p : Pmem} (v : IsValid p) where
  open p use {mgr_reserved_size as n, curr_alloc_record as curr}

  alloc-scan : alloc p ≡ alloc_scan (n + 1) curr (at_record p (next_record p curr))
  unfolding alloc
  alloc-scan = ground arith

  next_record-distance_start : distance n (next_record p curr) curr < n + 1
  unfolding next_record
  next_record-distance_start = ground arith

  next_record-reaches :
      (r : ℕ)
      → r < n
      → r ≢ curr
      → distance n (next_record p curr) r < distance n (next_record p curr) curr
  unfolding next_record
  next_record-reaches r h ne = ground arith

abbrev pub AllocOutcome : Pmem → Result (ℕ × Pmem) → Type 0
AllocOutcome p out =
    ((ptr : ℕ) × (p' : Pmem) × (out ≡ ok (ptr, p')) × Gives p ptr p')
    ⊎ ((out ≡ panic Panic.pmem_out_of_memory)
        × ((r : ℕ) → r < p.mgr_reserved_size → r ≢ p.curr_alloc_record → ¬ IsFree p r))

Scanned-alloc :
    {p : Pmem} (v : IsValid p) (out : Result (ℕ × Pmem))
    → Scanned (at_record p (next_record p p.curr_alloc_record)) p.curr_alloc_record out
    → AllocOutcome p out
Scanned-alloc v out (inl (ptr, p', e, g)) = inl (
  ptr,
  p',
  e,
  record {
    entry = g.entry;
    in_range = g.in_range;
    was_free = g.was_free;
    address = g.address;
    state = g.state;
  },
)
Scanned-alloc v out (inr (e, all)) = inr (e, λ r h ne. all r h (next_record-reaches v r h ne))

-- On an initialised manager `pmem_alloc` ends. Either it gives out the page of a free record and
-- marks that record, or it panics for lack of memory, and then every record but the current one is
-- in use. (The current record is never tried.)
pub alloc_outcome : (p : Pmem) → IsValid p → AllocOutcome p (alloc p)
alloc_outcome p v =
    let n = p.mgr_reserved_size in
    let next = next_record p p.curr_alloc_record in
    let v' = at_record-IsValid v next (next_record-lt v _ v.current) in
    rw (alloc-scan v) (
      Scanned-alloc v _ (
        alloc_scan-Scanned (n + 1) v' p.curr_alloc_record v.current (next_record-distance_start v)))

pub give-IsValid : {p : Pmem} → IsValid p → (r : ℕ) → r < p.mgr_reserved_size → IsValid (give p r)
give-IsValid v r h = ground arith

Gives-of_outcome :
    {p : Pmem} {ptr : ℕ} {p' : Pmem} (out : Result (ℕ × Pmem))
    → AllocOutcome p out
    → out ≡ ok (ptr, p')
    → Gives p ptr p'
Gives-of_outcome out (inl (a, b, e, g)) h = record {
  entry = g.entry;
  in_range = g.in_range;
  was_free = g.was_free;
  address = cc (g.address);
  state = cc (g.state);
}
Gives-of_outcome out (inr (e, all)) h = cc

pub alloc-Gives :
    {p : Pmem} {ptr : ℕ} {p' : Pmem} → IsValid p → alloc p ≡ ok (ptr, p') → Gives p ptr p'
alloc-Gives {p} v h = Gives-of_outcome (alloc p) (alloc_outcome p v) h

page_inside :
    {p : Pmem}
    → IsValid p
    → (r : ℕ) → r < p.mgr_reserved_size
    → (p.alloc_start ≤ page p r) × (page p r + 4096 ≤ p.alloc_start + p.main_memory_length)
page_inside v r h = omega arith

-- An allocation keeps the invariant, and its page is aligned and lies inside the managed memory.
pub alloc-page :
    {p : Pmem} {ptr : ℕ} {p' : Pmem}
    → IsValid p
    → alloc p ≡ ok (ptr, p')
    → IsValid p'
      × (ptr % 4096 ≡ 0)
      × (p.alloc_start ≤ ptr)
      × (ptr + 4096 ≤ p.alloc_start + p.main_memory_length)
alloc-page {p} {ptr} {p'} v e =
    let g = alloc-Gives v e in
    let (lo, hi) = page_inside v g.entry g.in_range in
    (
      subst IsValid (sym g.state) (give-IsValid v g.entry g.in_range),
      omega (arith, g.address),
      omega (arith, g.address, lo),
      omega (arith, g.address, hi),
    )

pub give-keeps_used : (p : Pmem) (e r : ℕ) → ¬ IsFree p r → ¬ IsFree (give p e) r
give-keeps_used p e r used = ground (arith, used)

-- On an initialised manager a page in use is never given out again: the page that `pmem_alloc` returns does not overlap it,
-- and it stays in use.
pub alloc_keeps_used :
    {p p' : Pmem} {ptr : ℕ} (r : ℕ)
    → IsValid p
    → r < p.mgr_reserved_size
    → ¬ IsFree p r
    → alloc p ≡ ok (ptr, p')
    → ((page p r + 4096 ≤ ptr) ⊎ (ptr + 4096 ≤ page p r)) × ¬ IsFree p' r
alloc_keeps_used {p} {p'} {ptr} r v h used e =
    let g = alloc-Gives v e in
    let other : g.entry ≢ r = λ same. used (subst (λ k. IsFree p k) same g.was_free) in
    (
      omega (arith, g.address, other),
      subst (λ q. ¬ IsFree q r) (sym g.state) (give-keeps_used p g.entry r used),
    )
