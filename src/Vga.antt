-- ===== src/Vga.antt =====
-- kernel/drivers/video/vga.c: the text screen. Its memory starts at 0xb8000; the model counts from there.
pub mod Offsets
pub mod Scroll
pub mod Screen
mod Tests
use koiz_os.Base.{
  ℕ, zero, suc, ◌+◌, ◌-◌, ◌*◌, ◌/◌, ◌%◌, ◌^◌, Bool, true, false, not, ◌||◌, List, [], ◌∷◌, ◌==◌,
  ltb, leb, if◌then◌else◌, bit_or,
}
use koiz_os.Kernel.Memory.{Memory, write8}

abbrev pub max_rows : ℕ
max_rows = 25

abbrev pub max_cols : ℕ
max_cols = 80

abbrev vchar_cellsize : ℕ
vchar_cellsize = 2

-- `uint16_t`
pub get_offset : ℕ → ℕ → ℕ
get_offset col row = (row * max_cols + col) * vchar_cellsize % 2 ^ 16

pub offset_to_row : ℕ → ℕ
offset_to_row offset = offset / (vchar_cellsize * max_cols)

pub offset_to_col : ℕ → ℕ
offset_to_col offset = (offset - offset_to_row offset * max_cols * vchar_cellsize) / vchar_cellsize

-- The two bytes that the screen returns for its registers 14 and 15.
pub get_cursor_offset : ℕ → ℕ → ℕ
get_cursor_offset high low = bit_or (high * 2 ^ 8) low * vchar_cellsize % 2 ^ 16

-- The two bytes that are written to the registers 14 and 15.
pub set_cursor_offset : ℕ → ℕ × ℕ
set_cursor_offset offset =
    let cell = offset / vchar_cellsize in (cell / 2 ^ 8 % 2 ^ 8, cell % 2 ^ 8)

-- `vga_make_display_color`
unfoldable pub make_display_color : ℕ → ℕ → ℕ
make_display_color foreground background = bit_or (background * 2 ^ 4 % 2 ^ 8) foreground

-- The inner loop that copies a row to the one before: the rounds left, then `j`.
pub copy_row : ℕ → ℕ → ℕ → Memory → Memory
copy_row zero j i vidmem = vidmem
copy_row (suc n) j i vidmem =
    copy_row n (j + 1) i (write8 vidmem (get_offset 0 (i - 1) + j) (vidmem (get_offset 0 i + j)))

-- The loop over the rows: the rounds left, then `i`.
pub copy_rows : ℕ → ℕ → Memory → Memory
copy_rows zero i vidmem = vidmem
copy_rows (suc n) i vidmem = copy_rows n (i + 1) (copy_row (max_cols * vchar_cellsize) 0 i vidmem)

-- The loop that clears the last row: the rounds left, then `j`.
pub clear_last : ℕ → ℕ → Memory → Memory
clear_last zero j vidmem = vidmem
clear_last (suc n) j vidmem =
    clear_last n (j + 1) (write8 vidmem (get_offset 0 (max_rows - 1) + j) 0)

pub scroll : Memory → Memory
scroll vidmem = clear_last (max_cols * vchar_cellsize) 0 (copy_rows (max_rows - 1) 1 vidmem)

-- The character that is drawn, or the line that is ended, with the offset behind it.
pub draw : ℕ → ℕ → ℕ → ℕ → Memory → ℕ × Memory
draw character col row char_color vidmem =
    let at = get_offset col row in
    if character == 10
    then (get_offset 0 (row + 1), vidmem)
    else (at + vchar_cellsize, write8 (write8 vidmem at character) (at + 1) char_color)

-- `print_char` returns the offset, the bytes for the cursor, if it sets it, and the screen.
pub print_char : ℕ → ℕ → ℕ → ℕ → Memory → ℕ × List (ℕ × ℕ) × Memory
print_char character col row char_color vidmem =
    let color = if char_color == 0 then make_display_color 15 0 else char_color in
    let (at, drawn) = draw character col row color vidmem in
    let behind = at - max_cols * vchar_cellsize in
    if leb max_cols col || leb max_rows row
    then (0, [], vidmem)
    else (if leb (max_rows * max_cols * vchar_cellsize) at
        then (behind, set_cursor_offset behind ∷ [], scroll drawn)
        else (at, set_cursor_offset at ∷ [], drawn))

-- The loop of `vga_print_screen` from an offset on, over the bytes before the terminator.
pub print_screen : List ℕ → ℕ → ℕ → Memory → ℕ × Memory
print_screen [] color offset vidmem = (offset, vidmem)
print_screen (c ∷ message) color offset vidmem =
    let (offset', cursor, vidmem') =
      print_char c (offset_to_col offset % 2 ^ 8) (offset_to_row offset % 2 ^ 8) color vidmem in
    print_screen message color offset' vidmem'

-- `vga_print_screen_char`
unfoldable print_screen_char : ℕ → ℕ → ℕ → Memory → ℕ × List (ℕ × ℕ) × Memory
print_screen_char character color offset vidmem =
    print_char character (offset_to_col offset % 2 ^ 8) (offset_to_row offset % 2 ^ 8) color vidmem

-- The loops of `vga_clear_screen`: the columns left and `col`, the rows left and `row`.
unfoldable clear_cols : ℕ → ℕ → ℕ → Memory → Memory
clear_cols zero col row vidmem = vidmem
clear_cols (suc n) col row vidmem =
    let (offset, cursor, vidmem') = print_char 32 col row 0 vidmem in
    clear_cols n (col + 1) row vidmem'

unfoldable clear_rows : ℕ → ℕ → Memory → Memory
clear_rows zero row vidmem = vidmem
clear_rows (suc n) row vidmem = clear_rows n (row + 1) (clear_cols max_cols 0 row vidmem)

-- `vga_clear_screen`, with the bytes for the cursor.
unfoldable clear_screen : Memory → (ℕ × ℕ) × Memory
clear_screen vidmem = (set_cursor_offset 0, clear_rows max_rows 0 vidmem)
