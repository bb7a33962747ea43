-- ===== src/Vga/Tests.antt =====
-- The theorems on vga.c at a screen full of letters, and at its last cell.
use koiz_os.Base.{◌+◌, ◌%◌, ◌<◌, ◌≡◌, [], ◌∷◌, arith}
use koiz_os.Kernel.Memory.{Memory}
use koiz_os.Vga.{print_screen}
use koiz_os.Vga.Screen.{Beyond, print_screen-OnScreen}

abbrev letters : Memory
letters b = 65 + b % 26

print_screen-OnScreen_example :
    ((print_screen (72 ∷ 105 ∷ []) 15 3998 letters).0 < 4000)
    × ((print_screen (72 ∷ 105 ∷ []) 15 3998 letters).0 % 2 ≡ 0)
    × Beyond letters (print_screen (72 ∷ 105 ∷ []) 15 3998 letters).1
print_screen-OnScreen_example =
    print_screen-OnScreen (72 ∷ 105 ∷ []) 15 3998 letters (omega arith) (omega arith)
