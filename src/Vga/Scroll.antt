-- ===== src/Vga/Scroll.antt =====
-- `print_char` (kernel/drivers/video/vga.c): scrolling, and where the next character goes.
use koiz_os.Base.{
  ℕ, zero, suc, ◌+◌, ◌-◌, ◌*◌, ◌≤◌, ◌<◌, ◌≡◌, ◌≢◌, ◌⊎◌, true, false, ◌==◌, arith, refl, ◌∙◌, ap,
  ℕ_discrete, dec_lt,
}
use koiz_os.Kernel.Memory.{Memory, write8}
use koiz_os.Vga.{get_offset, copy_row, copy_rows, clear_last, scroll}
use koiz_os.Vga.Offsets.{get_offset-eq}

-- The bytes from `s` to `e` come from one row below, the others are as they were.
record Shifted (s e : ℕ) (m m' : Memory) : Type 0 where
  inside : (b : ℕ) → s ≤ b → b < e → m' b ≡ m (b + 160)
  outside : (b : ℕ) → (b < s) ⊎ (e ≤ b) → m' b ≡ m b

copy_row-Shifted :
    (n j i : ℕ) (m : Memory)
    → 1 ≤ i
    → i < 25
    → j + n ≤ 160
    → Shifted ((i - 1) * 160 + j) ((i - 1) * 160 + j + n) m (copy_row n j i m)
unfolding copy_row
copy_row-Shifted zero j i m lo hi h = record {
  inside = λ b l u. absurd (omega arith);
  outside = λ b out. refl;
}
copy_row-Shifted (suc n) j i m lo hi h =
    let to = get_offset-eq 0 (i - 1) (omega arith) (omega arith) in
    let from = get_offset-eq 0 i (omega arith) (omega arith) in
    let m1 = write8 m (get_offset 0 (i - 1) + j) (m (get_offset 0 i + j)) in
    let rest = copy_row-Shifted n (j + 1) i m1 lo hi (omega arith) in
    let other : (b : ℕ) → b ≢ (i - 1) * 160 + j → m1 b ≡ m b = λ b ne.
      let away : (get_offset 0 (i - 1) + j == b) ≡ false = ground (arith, to, ne) in rw away refl in
    record {
      inside = λ b l u. elim (ℕ_discrete b ((i - 1) * 160 + j)) [
        | yes here ↦
            let hit : (get_offset 0 (i - 1) + j == b) ≡ true = ground (arith, to, here) in
            let source : get_offset 0 i + j ≡ b + 160 = omega (arith, from, here) in
            rest.outside b (omega (arith, here)) ∙ rw hit (ap m source)
        | no later ↦
            rest.inside b (omega (arith, later)) (omega arith) ∙ other (b + 160) (omega (arith, l))
      ];
      outside = λ b out. rest.outside b (omega (arith, out)) ∙ other b (omega (arith, out));
    }

copy_rows-Shifted :
    (n i : ℕ) (m : Memory)
    → 1 ≤ i
    → i + n ≤ 25
    → Shifted ((i - 1) * 160) ((i - 1 + n) * 160) m (copy_rows n i m)
unfolding copy_rows
copy_rows-Shifted zero i m lo h = record {
  inside = λ b l u. absurd (omega arith);
  outside = λ b out. refl;
}
copy_rows-Shifted (suc n) i m lo h =
    let row = copy_row-Shifted 160 0 i m lo (omega arith) (omega arith) in
    let rest = copy_rows-Shifted n (i + 1) (copy_row 160 0 i m) (omega arith) (omega arith) in
    record {
      inside = λ b l u. elim (dec_lt b (i * 160)) [
        | yes first ↦
            rest.outside b (omega (arith, first))
            ∙ row.inside b (omega arith) (omega (arith, first))
        | no later ↦
            rest.inside b (omega (arith, later)) (omega arith) ∙ row.outside (b + 160) (omega arith)
      ];
      outside = λ b out. rest.outside b (omega (arith, out)) ∙ row.outside b (omega (arith, out));
    }

clear_last-zero :
    (n j : ℕ) (m : Memory)
    → j + n ≤ 160
    → (b : ℕ)
    → ((3840 + j ≤ b → b < 3840 + j + n → clear_last n j m b ≡ 0)
        × ((b < 3840 + j) ⊎ (3840 + j + n ≤ b) → clear_last n j m b ≡ m b))
unfolding clear_last
clear_last-zero zero j m h b = (λ l u. absurd (omega arith), λ out. refl)
clear_last-zero (suc n) j m h b =
    let at = get_offset-eq 0 24 (omega arith) (omega arith) in
    let (inside, outside) =
      clear_last-zero n (j + 1) (write8 m (get_offset 0 24 + j) 0) (omega arith) b in
    (
      λ l u. elim (ℕ_discrete b (3840 + j)) [
        | yes here ↦
            let hit : (get_offset 0 24 + j == b) ≡ true = ground (arith, at, here) in
            outside (omega (arith, here)) ∙ rw hit refl
        | no later ↦ inside (omega (arith, later)) (omega arith)
      ],
      λ out.
          let away : (get_offset 0 24 + j == b) ≡ false = ground (arith, at, out) in
          outside (omega (arith, out)) ∙ rw away refl,
    )

-- Scrolling moves every row up by one and clears the last row. Memory behind the screen is kept.
pub scroll-rows :
    (m : Memory) (b : ℕ)
    → (b < 3840 → scroll m b ≡ m (b + 160))
      × (3840 ≤ b → b < 4000 → scroll m b ≡ 0)
      × (4000 ≤ b → scroll m b ≡ m b)
unfolding scroll
scroll-rows m b =
    let (clear, keep) = clear_last-zero 160 0 (copy_rows 24 1 m) (omega arith) b in
    let rows = copy_rows-Shifted 24 1 m (omega arith) (omega arith) in
    (
      λ low. keep (omega arith) ∙ rows.inside b (omega arith) (omega arith),
      λ l u. clear (omega arith) (omega arith),
      λ far. keep (omega arith) ∙ rows.outside b (omega arith),
    )
