-- ===== src/Ramdisk/Slice.antt =====
-- What `ramdisk_read` (kernel/drivers/ramdisk/ramdisk.c) returns, as a piece of the contents.
use koiz_os.Base.{
  ◌∙◌, ◌<◌, ◌-◌, ◌≢◌, ◌==◌, ltb, mul32, false, inl, inr, Bool-cases, length, get_or, take, ℕ, zero,
  suc, ◌+◌, ◌*◌, ◌≤◌, ◌≡◌, List, [], ◌∷◌, arith, refl, ap, add32,
}
use koiz_os.Kernel.{ok}
use koiz_os.Kernel.Memory.{Memory}
use koiz_os.Ramdisk.{
  Ramdisk, Status, success, error_out_of_bounds, error_overflow, check, read, read_bytes,
}
use koiz_os.Ramdisk.Access.{contents}
use koiz_os.Ramdisk.RoundTrip.{check-fits}

-- `n` bytes of a disk.
abbrev pub slice : (ℕ → ℕ) → ℕ → ℕ → List ℕ
slice v s zero = []
slice v s (suc n) = v s ∷ slice v (s + 1) n

read_bytes-slice :
    (pointers n s : ℕ) (mem : Memory)
    → s + n ≤ 1024 * 4096
    → read_bytes pointers n s mem ≡ slice (contents mem pointers) s n
unfolding read_bytes
read_bytes-slice pointers zero s mem h = refl
read_bytes-slice pointers (suc n) s mem h =
    let next : add32 s 1 ≡ s + 1 = omega arith in
    rw next (
      ap (λ l. contents mem pointers s ∷ l) (read_bytes-slice pointers n (s + 1) mem (omega arith)))

pub read-slice :
    (d : Ramdisk) (s n : ℕ)
    → d.block_size ≤ 1024
    → 0 < d.block_size
    → s + n ≤ d.block_size * 4096
    → read d s n ≡ ok (success, slice (contents d.pmem.mem d.block_pointers) s n)
unfolding read
read-slice d s n few some room =
    rw
      (
        check-fits d s n few some room,
        read_bytes-slice d.block_pointers n s d.pmem.mem (omega arith),
      )
      refl

pub slice-eq :
    (v : ℕ → ℕ) (s : ℕ) (bytes : List ℕ)
    → ((i : ℕ) → i < length bytes → v (s + i) ≡ get_or bytes i 0)
    → slice v s (length bytes) ≡ bytes
slice-eq v s [] same = refl
slice-eq v s (b ∷ bytes) same =
    let head : v s ≡ b = ap v (omega arith) ∙ same 0 (omega arith) in
    let tail = slice-eq v (s + 1) bytes (λ i h. ap v (omega arith) ∙ same (suc i) (omega arith)) in
    cc

pub take-slice : (v : ℕ → ℕ) (s n m : ℕ) → n ≤ m → take n (slice v s m) ≡ slice v s n
take-slice v s zero m h = refl
take-slice v s (suc n) zero h = absurd (omega arith)
take-slice v s (suc n) (suc m) h = ap (λ l. v s ∷ l) (take-slice v (s + 1) n m (omega arith))

pub get_or-slice : (v : ℕ → ℕ) (s n i : ℕ) → i < n → get_or (slice v s n) i 0 ≡ v (s + i)
get_or-slice v s zero i h = absurd (omega arith)
get_or-slice v s (suc n) zero h = ap v (omega arith)
get_or-slice v s (suc n) (suc i) h = get_or-slice v (s + 1) n i (omega arith) ∙ ap v (omega arith)

-- A piece depends on its bytes only.
pub slice_congr :
    (v w : ℕ → ℕ) (s n : ℕ) → ((b : ℕ) → s ≤ b → b < s + n → v b ≡ w b) → slice v s n ≡ slice w s n
slice_congr v w s zero same = refl
slice_congr v w s (suc n) same =
    let head : v s ≡ w s = same s (omega arith) (omega arith) in
    let tail = slice_congr v w (s + 1) n (λ b lo hi. same b (omega arith) (omega arith)) in cc

-- A read of a disk that was set up returns, in range or not.
pub read_returns :
    (d : Ramdisk) (s n : ℕ) → d.block_size ≢ 0 → (out : Status × List ℕ) × (read d s n ≡ ok out)
unfolding read check
read_returns d s n some =
    let set_up : (d.block_size == 0) ≡ false = ground arith in
    elim (Bool-cases (ltb (mul32 d.block_size 4096) (add32 s n))) [
      | inl far ↦ rw (set_up, far) ((error_out_of_bounds, []), refl)
      | inr near ↦ elim (Bool-cases (ltb (0xFFFFFFFF - n) s)) [
        | inl wraps ↦ rw (set_up, near, wraps) ((error_overflow, []), refl)
        | inr fits ↦
            rw (set_up, near, fits) ((success, read_bytes d.block_pointers n s d.pmem.mem), refl)
      ]
    ]
