-- ===== src/Vga/Offsets.antt =====
-- The places on the screen of kernel/drivers/video/vga.c: columns and rows, offsets, and the cursor.
use koiz_os.Base.{ℕ, ◌+◌, ◌*◌, ◌/◌, ◌%◌, ◌^◌, ◌<◌, ◌≡◌, arith}
use koiz_os.Base.Bits.{bit_or_low}
use koiz_os.Vga.{
  max_rows, max_cols, get_offset, offset_to_row, offset_to_col, get_cursor_offset,
  set_cursor_offset,
}

pub get_offset-eq : (col row : ℕ) → col < 200 → row < 200 → get_offset col row ≡ row * 160 + col * 2
unfolding get_offset
get_offset-eq col row hc hr = omega arith

-- A place on the screen is the column and the row of its offset, and an even offset of the screen is the offset of
-- its column and row.
pub get_offset_inverse :
    (col row offset : ℕ)
    → ((col < max_cols) × (row < max_rows)
        → (offset_to_col (get_offset col row) ≡ col) × (offset_to_row (get_offset col row) ≡ row))
      × ((offset < 4000) × (offset % 2 ≡ 0)
          → (offset_to_col offset < max_cols)
            × (offset_to_row offset < max_rows)
            × (get_offset (offset_to_col offset) (offset_to_row offset) ≡ offset))
unfolding get_offset offset_to_row offset_to_col
get_offset_inverse col row offset =
    (λ (hc, hr). (omega arith, omega arith), λ (h, even). (omega arith, omega arith, omega arith))

-- The hardware gets the place of the cursor in two bytes, and returns the offset that was set.
cursor_inverse :
    (offset : ℕ)
    → offset < 4000
    → offset % 2 ≡ 0
    → get_cursor_offset (set_cursor_offset offset).0 (set_cursor_offset offset).1 ≡ offset
unfolding get_cursor_offset set_cursor_offset
cursor_inverse offset h even =
    let high = offset / 2 / 2 ^ 8 % 2 ^ 8 in
    let low = offset / 2 % 2 ^ 8 in rw (bit_or_low 8 high low (omega arith)) (omega arith)
