-- ===== src/Vga/Screen.antt =====
-- `print_char` and `vga_print_screen` (kernel/drivers/video/vga.c) write to the screen only.
use koiz_os.Base.{
  ◌^◌, ℕ, ◌+◌, ◌-◌, ◌%◌, ◌≤◌, ◌<◌, ◌≡◌, inl, inr, false, ◌||◌, List, [], ◌∷◌, ◌==◌, leb,
  if◌then◌else◌, arith, refl, ◌∙◌, Bool-cases,
}
use koiz_os.Kernel.Memory.{Memory}
use koiz_os.Vga.{
  max_rows, max_cols, get_offset, offset_to_row, offset_to_col, scroll, draw, print_char,
  print_screen, set_cursor_offset, make_display_color,
}
use koiz_os.Vga.Offsets.{get_offset-eq, get_offset_inverse}
use koiz_os.Vga.Scroll.{scroll-rows}

-- The bytes behind the screen are kept.
abbrev pub Beyond : Memory → Memory → Type 0
Beyond m m' = (b : ℕ) → 4000 ≤ b → m' b ≡ m b

draw_case :
    (c col row color : ℕ) (m : Memory)
    → col < 80
    → row < 25
    → ((draw c col row color m).0 ≤ 4000)
      × ((draw c col row color m).0 % 2 ≡ 0)
      × Beyond m (draw c col row color m).1
unfolding draw
draw_case c col row color m hc hr =
    let at = get_offset-eq col row (omega arith) (omega arith) in
    let below = get_offset-eq 0 (row + 1) (omega arith) (omega arith) in
    elim (Bool-cases (c == 10)) [
      | inl newline ↦ rw newline (omega (arith, below), omega (arith, below), λ b h. refl)
      | inr plain ↦ rw plain (
        omega (arith, at),
        omega (arith, at),
        λ b h.
            let away : (get_offset col row == b) ≡ false = ground (arith, at, h) in
            let away' : (get_offset col row + 1 == b) ≡ false = ground (arith, at, h) in
            rw (away', away) refl,
      )
    ]

-- What `print_char` returns.
abbrev OnScreen : Memory → ℕ × List (ℕ × ℕ) × Memory → Type 0
OnScreen m (offset, cursor, m') =
    (offset < 4000) × (offset % 2 ≡ 0) × (cursor ≡ set_cursor_offset offset ∷ []) × Beyond m m'

print_char_case :
    (at : ℕ) (m drawn : Memory)
    → at ≤ 4000
    → at % 2 ≡ 0
    → Beyond m drawn
    → OnScreen m (
        if leb 4000 at
        then (at - 160, set_cursor_offset (at - 160) ∷ [], scroll drawn)
        else (at, set_cursor_offset at ∷ [], drawn))
print_char_case at m drawn h even beyond = elim (Bool-cases (leb 4000 at)) [
  | inl full ↦
      rw full (omega arith, omega arith, refl, λ b far. (scroll-rows drawn b).2 far ∙ beyond b far)
  | inr room ↦ rw room (ground (arith, room), even, refl, beyond)
]

-- `print_char` at a place on the screen returns an offset on the screen, even and below 4000, sets the cursor to it,
-- and keeps the memory behind the screen.
print_char-OnScreen :
    (c col row color : ℕ) (m : Memory)
    → col < max_cols
    → row < max_rows
    → OnScreen m (print_char c col row color m)
unfolding print_char
print_char-OnScreen c col row color m hc hr =
    let inside : (leb 80 col || leb 25 row) ≡ false = ground arith in
    let color' = if color == 0 then make_display_color 15 0 else color in
    let (low, even, beyond) = draw_case c col row color' m hc hr in
    rw inside
      (print_char_case (draw c col row color' m).0 m (draw c col row color' m).1 low even beyond)

-- From an even offset on the screen, `vga_print_screen` writes to the screen only, for a message
-- of any length, and ends at an even offset on the screen.
pub print_screen-OnScreen :
    (message : List ℕ) (color offset : ℕ) (m : Memory)
    → offset < 4000
    → offset % 2 ≡ 0
    → ((print_screen message color offset m).0 < 4000)
      × ((print_screen message color offset m).0 % 2 ≡ 0)
      × Beyond m (print_screen message color offset m).1
unfolding print_screen
print_screen-OnScreen [] color offset m h even = (h, even, λ b far. refl)
print_screen-OnScreen (c ∷ message) color offset m h even =
    let (hc, hr, same) = (get_offset_inverse 0 0 offset).1 (h, even) in
    let (h', even', cursor, beyond) =
      print_char-OnScreen c (offset_to_col offset % 2 ^ 8) (offset_to_row offset % 2 ^ 8) color m
        (omega (arith, hc)) (omega (arith, hr)) in
    let out = print_char c (offset_to_col offset % 2 ^ 8) (offset_to_row offset % 2 ^ 8) color m in
    let (h2, even2, beyond2) = print_screen-OnScreen message color out.0 out.2 h' even' in
    (h2, even2, λ b far. beyond2 b far ∙ beyond b far)
