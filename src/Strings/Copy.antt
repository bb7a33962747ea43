-- ===== src/Strings/Copy.antt =====
-- `memcpy`, `memset` and `strcpy` (kernel/libc/string.c).
use koiz_os.Base.{
  ℕ, zero, suc, ◌+◌, ◌≤◌, ◌<◌, ◌≡◌, ◌≢◌, ◌⊎◌, true, false, List, length, get_or, ◌==◌, arith, refl,
  ◌∙◌, ap, sym, subst, add32, u32_mod, ℕ_discrete, dec_lt, min,
}
use koiz_os.Kernel.Memory.{Memory, write8}
use koiz_os.Strings.{memcpy_loop, memcpy, strcpy_loop, strcpy}

-- `mem'` is `mem` with `value i` at `dst + i` for `i` below `n`, and nothing else changed.
pub record Stores (dst n : ℕ) (value : ℕ → ℕ) (mem mem' : Memory) : Type 0 where
  pub inside : (i : ℕ) → i < n → mem' (dst + i) ≡ value i
  pub outside : (b : ℕ) → (b < dst) ⊎ (dst + n ≤ b) → mem' b ≡ mem b

-- One more value, at the end.
Stores-step :
    {dst i : ℕ} {value : ℕ → ℕ} {mem0 mem : Memory} (v : ℕ)
    → dst + i < u32_mod
    → v ≡ value i
    → Stores dst i value mem0 mem
    → Stores dst (i + 1) value mem0 (write8 mem (add32 dst i) v)
Stores-step {dst} {i} {value} {mem0} {mem} v fits eq h =
    let to : add32 dst i ≡ dst + i = omega arith in
    rw to (record {
      inside = λ k hk. elim (ℕ_discrete k i) [
        | yes new ↦
            let here : (dst + i == dst + k) ≡ true = ground (arith, new) in
            rw here (eq ∙ ap value (sym new))
        | no old ↦
            let away : (dst + i == dst + k) ≡ false = ground (arith, old) in
            rw away (h.inside k (omega arith))
      ];
      outside = λ b hb.
          let away : (dst + i == b) ≡ false = ground arith in rw away (h.outside b (omega arith));
    })

memcpy_loop-Stores :
    (n i dst src : ℕ) (mem mem0 : Memory)
    → dst + (i + n) ≤ u32_mod
    → src + (i + n) ≤ u32_mod
    → (src + (i + n) ≤ dst) ⊎ (dst + (i + n) ≤ src)
    → Stores dst i (λ k. mem0 (src + k)) mem0 mem
    → Stores dst (i + n) (λ k. mem0 (src + k)) mem0 (memcpy_loop n i dst src mem)
unfolding memcpy_loop
memcpy_loop-Stores zero i dst src mem mem0 hd hs apart h =
    subst (λ m. Stores dst m (λ k. mem0 (src + k)) mem0 mem) (omega arith) h
memcpy_loop-Stores (suc n) i dst src mem mem0 hd hs apart h =
    let total : i + 1 + n ≡ i + suc n = omega arith in
    let mem1 = write8 mem (add32 dst i) (mem (add32 src i)) in
    let from : add32 src i ≡ src + i = omega arith in
    subst (λ m. Stores dst m (λ k. mem0 (src + k)) mem0 (memcpy_loop n (i + 1) dst src mem1)) total
      (memcpy_loop-Stores n (i + 1) dst src mem1 mem0 (omega arith) (omega arith) (omega arith) (
        Stores-step (mem (add32 src i)) (omega arith)
          (ap mem from ∙ h.outside (src + i) (omega arith)) h))

Stores-nothing : (dst : ℕ) (value : ℕ → ℕ) (mem : Memory) → Stores dst 0 value mem mem
Stores-nothing dst value mem = record {
  inside = λ i h. absurd (omega arith);
  outside = λ b h. refl;
}

-- `memcpy` between two places that do not overlap copies every byte and changes nothing else.
pub memcpy-Stores :
    (dst src n : ℕ) (mem : Memory)
    → dst + n ≤ u32_mod
    → src + n ≤ u32_mod
    → (src + n ≤ dst) ⊎ (dst + n ≤ src)
    → Stores dst n (λ i. mem (src + i)) mem (memcpy dst src n mem).1
unfolding memcpy
memcpy-Stores dst src n mem hd hs apart =
    subst (λ m. Stores dst m (λ i. mem (src + i)) mem (memcpy_loop n 0 dst src mem)) (omega arith)
      (memcpy_loop-Stores n 0 dst src mem mem (omega arith) (omega arith) (omega arith)
        (Stores-nothing dst (λ i. mem (src + i)) mem))

-- At `p` lie the bytes `xs`.
abbrev pub Bytes : Memory → ℕ → List ℕ → Type 0
Bytes mem p xs = (i : ℕ) → i < length xs → (mem (p + i) ≡ get_or xs i 0) × (get_or xs i 0 ≢ 0)

-- The loop of `strcpy` has copied the first `m` characters, and stops there.
abbrev CopiedTo : ℕ → List ℕ → Memory → ℕ → ℕ × Memory → Type 0
CopiedTo dst xs mem0 m out = (out.0 ≡ m) × Stores dst m (λ k. get_or xs k 0) mem0 out.1

strcpy_loop-CopiedTo :
    (n i dst src : ℕ) (xs : List ℕ) (mem mem0 : Memory)
    → dst + (i + n) ≤ u32_mod
    → src + length xs < u32_mod
    → (src + length xs < dst) ⊎ (dst + (i + n) ≤ src)
    → i ≤ length xs
    → Bytes mem0 src xs
    → mem0 (src + length xs) ≡ 0
    → Stores dst i (λ k. get_or xs k 0) mem0 mem
    → CopiedTo dst xs mem0 (min (i + n) (length xs)) (strcpy_loop n i dst src mem)
unfolding strcpy_loop
strcpy_loop-CopiedTo zero i dst src xs mem mem0 hd hs apart hi text end h =
    let m : i ≡ min (i + 0) (length xs) = omega arith in
    (m, subst (λ k. Stores dst k (λ k. get_or xs k 0) mem0 mem) m h)
strcpy_loop-CopiedTo (suc n) i dst src xs mem mem0 hd hs apart hi text end h =
    let from : add32 src i ≡ src + i = omega arith in
    let mem1 = write8 mem (add32 dst i) (mem (add32 src i)) in
    elim (dec_lt i (length xs)) [
      | yes more ↦
          let (at, nonzero) = text i more in
          let char : mem (add32 src i) ≡ get_or xs i 0 =
            ap mem from ∙ h.outside (src + i) (omega arith) ∙ at in
          let goes : (mem (add32 src i) == 0) ≡ false = ground (arith, char, nonzero) in
          let total : i + 1 + n ≡ i + suc n = omega arith in
          rw goes (
            subst
              (λ m. CopiedTo dst xs mem0 (min m (length xs)) (strcpy_loop n (i + 1) dst src mem1))
              total
              (strcpy_loop-CopiedTo n (i + 1) dst src xs mem1 mem0 (omega arith) hs (omega arith)
                (omega arith) text end (Stores-step (mem (add32 src i)) (omega arith) char h)))
      | no done ↦
          let last : i ≡ length xs = omega arith in
          let char : mem (add32 src i) ≡ 0 =
            ap mem from
            ∙ h.outside (src + i) (omega arith)
            ∙ ap (λ (k : ℕ). mem0 (src + k)) last
            ∙ end in
          let stops : (mem (add32 src i) == 0) ≡ true = ground (arith, char) in
          let m : i ≡ min (i + suc n) (length xs) = omega arith in
          rw stops (m, subst (λ k. Stores dst k (λ k. get_or xs k 0) mem0 mem) m h)
    ]

-- At `dst` lie the first `m` characters of `xs` and then a terminator; the rest is as in `mem`.
abbrev pub Terminated : ℕ → ℕ → List ℕ → Memory → Memory → Type 0
Terminated dst m xs mem mem' =
    ((i : ℕ) → i < m → mem' (dst + i) ≡ get_or xs i 0)
    × (mem' (dst + m) ≡ 0)
    × ((b : ℕ) → (b < dst) ⊎ (dst + m < b) → mem' b ≡ mem b)

-- `strcpy` of a string that the destination does not overlap copies its characters, at most
-- `dst_size` of them, puts a terminator behind the last one, and changes nothing else. For a string
-- of `dst_size` characters or more the terminator lies at `dst + dst_size`, just past the
-- destination.
pub strcpy-copies :
    (dst src dst_size : ℕ) (xs : List ℕ) (mem : Memory)
    → dst ≢ 0
    → dst + dst_size < u32_mod
    → src + length xs < u32_mod
    → (src + length xs < dst) ⊎ (dst + dst_size < src)
    → Bytes mem src xs
    → mem (src + length xs) ≡ 0
    → Terminated dst (min dst_size (length xs)) xs mem (strcpy dst src dst_size mem).1
unfolding strcpy
strcpy-copies dst src dst_size xs mem nonnull hd hs apart text end =
    let (at, copied) =
      strcpy_loop-CopiedTo dst_size 0 dst src xs mem mem (omega arith) hs (omega arith)
        (omega arith) text end (Stores-nothing dst (λ k. get_or xs k 0) mem) in
    let zero_plus : min (0 + dst_size) (length xs) ≡ min dst_size (length xs) = omega arith in
    let present : (dst == 0) ≡ false = ground arith in
    let to : add32 dst (strcpy_loop dst_size 0 dst src mem).0 ≡ dst + min dst_size (length xs) =
      omega (arith, at) in
    rw (present, to)
      (
        λ i h. ground (arith, copied.inside i (omega arith)),
        ground arith,
        λ b h. ground (arith, copied.outside b (omega arith)),
      )
