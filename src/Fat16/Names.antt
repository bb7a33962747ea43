-- ===== src/Fat16/Names.antt =====
-- `ramdisk_fat16_filename_to_native` (kernel/fs/ramdisk_fat16.c) against a description of the names of
-- FAT16: eight bytes for the name, three for the extension, both padded with blanks.
use koiz_os.Base.{
  ℕ, zero, suc, ◌+◌, ◌≤◌, ◌<◌, ◌≡◌, ◌≢◌, true, false, List, [], ◌∷◌, ◌++◌, ◌==◌, ltb, if◌then◌else◌,
  arith, refl, ◌∙◌, ap, sym, length, get_or, set, min, dec_lt, ℕ_discrete, length-append,
  append_assoc, append-nil,
}
use koiz_os.Fat16.{NameState, name_step, name_loop, filename_to_native}

-- The first `n` characters, filled up with blanks.
abbrev pub fill : ℕ → List ℕ → List ℕ
fill zero text = []
fill (suc n) [] = 0x20 ∷ fill n []
fill (suc n) (c ∷ text) = c ∷ fill n text

-- The part of a file name before its first dot, and the part behind it.
abbrev pub stem : List ℕ → List ℕ
stem [] = []
stem (c ∷ raw) = if c == 46 then [] else c ∷ stem raw

abbrev pub extension : List ℕ → List ℕ
extension [] = []
extension (c ∷ raw) = if c == 46 then raw else extension raw

fill-snoc_room :
    (n : ℕ) (text : List ℕ) (c : ℕ)
    → length text < n
    → set (fill n text) (length text) c ≡ fill n (text ++ (c ∷ []))
fill-snoc_room zero text c h = absurd (omega arith)
fill-snoc_room (suc n) [] c h = refl
fill-snoc_room (suc n) (x ∷ text) c h = ap (λ l. x ∷ l) (fill-snoc_room n text c (omega arith))

fill-snoc_full :
    (n : ℕ) (text : List ℕ) (c : ℕ) → n ≤ length text → fill n text ≡ fill n (text ++ (c ∷ []))
fill-snoc_full zero text c h = refl
fill-snoc_full (suc n) [] c h = absurd (omega arith)
fill-snoc_full (suc n) (x ∷ text) c h = ap (λ l. x ∷ l) (fill-snoc_full n text c (omega arith))

-- The loop in a name, and in an extension behind the name `p`.
abbrev name_state : ℕ → List ℕ → NameState
name_state j buffer = record {
  proc_file_name = true;
  j = j;
  file_name_buffer = buffer;
  file_ext_buffer = fill 3 [];
}

abbrev extension_state : List ℕ → ℕ → List ℕ → NameState
extension_state p j buffer = record {
  proc_file_name = false;
  j = j;
  file_name_buffer = fill 8 p;
  file_ext_buffer = buffer;
}

abbrev in_name : List ℕ → NameState
in_name p = name_state (min (length p) 8) (fill 8 p)

abbrev in_extension : List ℕ → List ℕ → NameState
in_extension p q = extension_state p (min (length q) 3) (fill 3 q)

-- A buffer of `n` bytes takes one more character, if it has room.
module _ {ℓ} {A : Type ℓ} (n : ℕ) (state : ℕ → List ℕ → A) (q : List ℕ) (c : ℕ) where
  buffer_step :
      (if ltb (min (length q) n) n
        then state (min (length q) n + 1) (set (fill n q) (min (length q) n) c)
        else state (min (length q) n) (fill n q))
      ≡ state (min (length (q ++ (c ∷ []))) n) (fill n (q ++ (c ∷ [])))
  buffer_step =
      let len = length-append q (c ∷ []) in
      elim (dec_lt (length q) n) [
        | yes room ↦
            let at : min (length q) n ≡ length q = omega (arith, room) in
            let test : ltb (length q) n ≡ true = ground (arith, room) in
            rw (at, test)
              (ap (λ j. state j (set (fill n q) (length q) c)) (omega (arith, len, room))
                ∙ ap (state (min (length (q ++ (c ∷ []))) n)) (fill-snoc_room n q c room))
        | no full ↦
            let at : min (length q) n ≡ n = omega (arith, full) in
            let test : ltb n n ≡ false = ground arith in
            rw (at, test)
              (ap (λ j. state j (fill n q)) (omega (arith, len, full))
                ∙ ap (state (min (length (q ++ (c ∷ []))) n))
                    (fill-snoc_full n q c (omega (arith, full))))
      ]

name_step-dot : (p : List ℕ) → name_step (in_name p) 46 ≡ in_extension p []
unfolding name_step
name_step-dot p = refl

name_step-name : (p : List ℕ) (c : ℕ) → c ≢ 46 → name_step (in_name p) c ≡ in_name (p ++ (c ∷ []))
unfolding name_step
name_step-name p c plain =
    let no_dot : (c == 46) ≡ false = ground (arith, plain) in
    rw no_dot (buffer_step 8 name_state p c)

name_step-extension :
    (p q : List ℕ) (c : ℕ) → name_step (in_extension p q) c ≡ in_extension p (q ++ (c ∷ []))
unfolding name_step
name_step-extension p q c = buffer_step 3 (extension_state p) q c

name_loop-extension :
    (p q raw : List ℕ) → name_loop (in_extension p q) raw ≡ in_extension p (q ++ raw)
unfolding name_loop
name_loop-extension p q [] = ap (in_extension p) (sym (append-nil q))
name_loop-extension p q (c ∷ raw) =
    ap (λ s. name_loop s raw) (name_step-extension p q c)
    ∙ name_loop-extension p (q ++ (c ∷ [])) raw
    ∙ ap (in_extension p) (append_assoc q (c ∷ []) raw)

-- The two buffers.
abbrev buffers : NameState → List ℕ
buffers s = s.file_name_buffer ++ s.file_ext_buffer

buffers-name_loop :
    (p raw : List ℕ)
    → buffers (name_loop (in_name p) raw) ≡ fill 8 (p ++ stem raw) ++ fill 3 (extension raw)
unfolding name_loop
buffers-name_loop p [] = ap (λ l. fill 8 l ++ fill 3 []) (sym (append-nil p))
buffers-name_loop p (c ∷ raw) = elim (ℕ_discrete c 46) [
  | yes dot ↦
      let here : (c == 46) ≡ true = ground (arith, dot) in
      let turn : name_step (in_name p) c ≡ in_extension p [] =
        ap (name_step (in_name p)) dot ∙ name_step-dot p in
      rw here (
        ap (λ s. buffers (name_loop s raw)) turn
        ∙ ap buffers (name_loop-extension p [] raw)
        ∙ ap (λ l. fill 8 l ++ fill 3 raw) (sym (append-nil p)))
  | no plain ↦
      let other : (c == 46) ≡ false = ground (arith, plain) in
      rw other (
        ap (λ s. buffers (name_loop s raw)) (name_step-name p c plain)
        ∙ buffers-name_loop (p ++ (c ∷ [])) raw
        ∙ ap (λ l. fill 8 l ++ fill 3 (extension raw)) (append_assoc p (c ∷ []) (stem raw)))
]

-- The stored form of a file name: its part before the first dot and its part behind it, cut or
-- filled up with blanks to eight and to three characters.
pub filename_to_native-fill :
    (raw : List ℕ) → filename_to_native raw ≡ fill 8 (stem raw) ++ fill 3 (extension raw)
unfolding filename_to_native
filename_to_native-fill raw = buffers-name_loop [] raw

length-fill : (n : ℕ) (text : List ℕ) → length (fill n text) ≡ n
length-fill zero text = refl
length-fill (suc n) [] = ap suc (length-fill n [])
length-fill (suc n) (c ∷ text) = ap suc (length-fill n text)

pub length-filename_to_native : (raw : List ℕ) → length (filename_to_native raw) ≡ 11
length-filename_to_native raw =
    ap length (filename_to_native-fill raw)
    ∙ length-append (fill 8 (stem raw)) (fill 3 (extension raw))
    ∙ omega (arith, length-fill 8 (stem raw), length-fill 3 (extension raw))

-- The first byte of a stored name is not 0, the mark of a free entry.
pub filename_to_native-start :
    (raw : List ℕ) → get_or raw 0 1 ≢ 0 → get_or (filename_to_native raw) 0 0 ≢ 0
filename_to_native-start [] h = rw (filename_to_native-fill []) (omega arith)
filename_to_native-start (c ∷ raw) h = rw (filename_to_native-fill (c ∷ raw)) (ground arith)
