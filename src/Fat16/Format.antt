-- ===== src/Fat16/Format.antt =====
-- `ramdisk_fat16_format` (kernel/fs/ramdisk_fat16.c): what a formatted disk holds.
use koiz_os.Base.{
  ℕ, zero, suc, ◌+◌, ◌-◌, ◌*◌, ◌^◌, ◌≤◌, ◌<◌, ◌≡◌, ◌⊎◌, inl, length, get_or, replicate, arith, refl,
  ap, ◌∙◌, dec_lt,
}
use koiz_os.Kernel.{ok}
use koiz_os.Ramdisk.{Ramdisk}
use koiz_os.Fat16.{zero_fats, zero_root, write_sector}
use koiz_os.Fat16.Device.{IsDisk, view, write_from-Saves}

length-replicate : (n : ℕ) → length {A = ℕ} (replicate n 0) ≡ n
length-replicate zero = refl
length-replicate (suc n) = ap suc (length-replicate n)

get_or-replicate : (n i : ℕ) → ◌≡◌ {A = ℕ} (get_or (replicate n 0) i 0) 0
get_or-replicate zero i = refl
get_or-replicate (suc n) zero = refl
get_or-replicate (suc n) (suc i) = get_or-replicate n i

-- A sector of zeros.
pub record Cleared (d : Ramdisk) (s : ℕ) (d' : Ramdisk) : Type 0 where
  pub disk : IsDisk d'
  pub zeros : (b : ℕ) → s * 512 ≤ b → b < s * 512 + 512 → view d' b ≡ 0
  pub kept : (b : ℕ) → b < 2 ^ 22 → (b < s * 512) ⊎ (s * 512 + 512 ≤ b) → view d' b ≡ view d b

write_sector-Cleared :
    (s : ℕ) {d : Ramdisk}
    → IsDisk d
    → s < 8192
    → (d' : Ramdisk) × (write_sector s (replicate 512 0) d ≡ ok d') × Cleared d s d'
unfolding write_sector
write_sector-Cleared s {d} disk h =
    let long = length-replicate 512 in
    let (d', e, saved) = write_from-Saves (s * 512) (replicate 512 0) disk (omega (arith, long)) in
    (
      d',
      e,
      record {
        disk = saved.disk;
        zeros = λ b lo hi.
            ap (view d') (omega arith)
            ∙ saved.stored (b - s * 512) (omega (arith, long))
            ∙ get_or-replicate 512 (b - s * 512);
        kept = λ b small out. saved.kept b small (omega (arith, out, long));
      },
    )

-- The sectors `i` to `i + n` of both FATs are zero.
pub record ClearedFats (n i : ℕ) (d d' : Ramdisk) : Type 0 where
  pub disk : IsDisk d'
  pub zeros :
      (b : ℕ)
      → (((1 + i) * 512 ≤ b) × (b < (1 + i + n) * 512))
        ⊎ (((33 + i) * 512 ≤ b) × (b < (33 + i + n) * 512))
      → view d' b ≡ 0
  pub kept :
      (b : ℕ)
      → b < 2 ^ 22
      → (b < (1 + i) * 512)
        ⊎ (((1 + i + n) * 512 ≤ b) × (b < (33 + i) * 512))
        ⊎ ((33 + i + n) * 512 ≤ b)
      → view d' b ≡ view d b

pub zero_fats-ClearedFats :
    (n i : ℕ) {d : Ramdisk}
    → IsDisk d
    → i + n ≤ 32
    → (d' : Ramdisk) × (zero_fats n i d ≡ ok d') × ClearedFats n i d d'
unfolding zero_fats
zero_fats-ClearedFats zero i {d} disk h = (
  d,
  refl,
  record {
    disk = disk;
    zeros = λ b inside. absurd (omega (arith, inside));
    kept = λ b small out. refl;
  },
)
zero_fats-ClearedFats (suc n) i {d} disk h =
    let (d1, e1, c1) = write_sector-Cleared (1 + i) disk (omega arith) in
    let (d2, e2, c2) = write_sector-Cleared (33 + i) c1.disk (omega arith) in
    let (d', e, c) = zero_fats-ClearedFats n (i + 1) c2.disk (omega arith) in
    (
      d',
      rw (e1, e2) e,
      record {
        disk = c.disk;
        zeros = λ b inside. elim (dec_lt b ((2 + i) * 512)) [
          | yes first_fat ↦
              c.kept b (omega (arith, inside)) (inl (omega arith))
              ∙ c2.kept b (omega (arith, inside)) (omega arith)
              ∙ c1.zeros b (omega (arith, inside)) (omega arith)
          | no beyond ↦ elim (dec_lt b ((33 + i) * 512)) [
            | yes still_first ↦ c.zeros b (omega (arith, inside, beyond))
            | no second ↦ elim (dec_lt b ((34 + i) * 512)) [
              | yes here ↦
                  c.kept b (omega (arith, inside)) (omega (arith, second, inside))
                  ∙ c2.zeros b (omega (arith, second)) (omega arith)
              | no later ↦ c.zeros b (omega (arith, inside, second, later))
            ]
          ]
        ];
        kept = λ b small out.
            c.kept b small (omega (arith, out))
            ∙ c2.kept b small (omega (arith, out))
            ∙ c1.kept b small (omega (arith, out));
      },
    )

pub record ClearedRoot (n i : ℕ) (d d' : Ramdisk) : Type 0 where
  pub disk : IsDisk d'
  pub zeros : (b : ℕ) → (65 + i) * 512 ≤ b → b < (65 + i + n) * 512 → view d' b ≡ 0
  pub kept :
      (b : ℕ) → b < 2 ^ 22 → (b < (65 + i) * 512) ⊎ ((65 + i + n) * 512 ≤ b) → view d' b ≡ view d b

pub zero_root-ClearedRoot :
    (n i : ℕ) {d : Ramdisk}
    → IsDisk d
    → i + n ≤ 32
    → (d' : Ramdisk) × (zero_root n i d ≡ ok d') × ClearedRoot n i d d'
unfolding zero_root
zero_root-ClearedRoot zero i {d} disk h = (
  d,
  refl,
  record { disk = disk; zeros = λ b lo hi. absurd (omega arith); kept = λ b small out. refl },
)
zero_root-ClearedRoot (suc n) i {d} disk h =
    let (d1, e1, c1) = write_sector-Cleared (65 + i) disk (omega arith) in
    let (d', e, c) = zero_root-ClearedRoot n (i + 1) c1.disk (omega arith) in
    (
      d',
      rw e1 e,
      record {
        disk = c.disk;
        zeros = λ b lo hi. elim (dec_lt b ((66 + i) * 512)) [
          | yes here ↦
              c.kept b (omega arith) (inl (omega arith)) ∙ c1.zeros b (omega arith) (omega arith)
          | no later ↦ c.zeros b (omega (arith, later)) (omega arith)
        ];
        kept = λ b small out.
            c.kept b small (omega (arith, out)) ∙ c1.kept b small (omega (arith, out));
      },
    )
