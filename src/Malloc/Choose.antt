-- ===== src/Malloc/Choose.antt =====
-- The choice of a slab by `malloc` (kernel/libc/malloc.c): the smallest entries that fit.
use koiz_os.Base.{ℕ, ◌*◌, ◌/◌, ◌^◌, ◌≤◌, ◌<◌, ◌≡◌, ◌⊎◌, none, some, arith, refl, inl, inr, dec_le}
use koiz_os.Malloc.{choose_slab, slab_count}

-- A request of at most 4096 bytes goes to slab `i` of the seven, whose entries have 4096 / 2 ^ i
-- bytes: enough for the request, and the next smaller entries would not be.
pub choose_slab_fits :
    (size : ℕ)
    → size ≤ 4096
    → (i : ℕ) × (c_size : ℕ) × (choose_slab slab_count 0 4096 size none ≡ some (i, c_size))
      × (i < slab_count)
      × (c_size * 2 ^ i ≡ 4096)
      × (size ≤ c_size)
      × ((c_size ≡ 64) ⊎ (c_size / 2 < size))
unfolding choose_slab
choose_slab_fits size h = elim (dec_le size 64) [
  | yes p6 ↦ (6, 64, ground arith, omega arith, refl, p6, inl refl)
  | no q6 ↦ elim (dec_le size 128) [
    | yes p5 ↦ (5, 128, ground arith, omega arith, refl, p5, inr (omega arith))
    | no q5 ↦ elim (dec_le size 256) [
      | yes p4 ↦ (4, 256, ground arith, omega arith, refl, p4, inr (omega arith))
      | no q4 ↦ elim (dec_le size 512) [
        | yes p3 ↦ (3, 512, ground arith, omega arith, refl, p3, inr (omega arith))
        | no q3 ↦ elim (dec_le size 1024) [
          | yes p2 ↦ (2, 1024, ground arith, omega arith, refl, p2, inr (omega arith))
          | no q2 ↦ elim (dec_le size 2048) [
            | yes p1 ↦ (1, 2048, ground arith, omega arith, refl, p1, inr (omega arith))
            | no q1 ↦ (0, 4096, ground arith, omega arith, refl, h, inr (omega arith))
          ]
        ]
      ]
    ]
  ]
]

-- A request of more than 4096 bytes has no slab.
pub choose_slab-none : (size : ℕ) → 4096 < size → choose_slab slab_count 0 4096 size none ≡ none
unfolding choose_slab
choose_slab-none size h = ground arith
