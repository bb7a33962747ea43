-- ===== src/Fat16/Record.antt =====
-- `ramdisk_fat16_entry_t` (kernel/fs/ramdisk_fat16.c): an entry of the directory, and its 32 bytes.
use koiz_os.Base.{
  ℕ, ◌+◌, ◌*◌, ◌/◌, ◌%◌, ◌^◌, ◌<◌, ◌≡◌, List, [], ◌∷◌, ◌++◌, arith, refl, length, get_or, take, ◌∙◌,
  ap, sym, take-append, get_or-append_right, length-append,
}

pub record Entry : Type 0 where
  pub entry_name : List ℕ
  pub attrib : ℕ
  pub reserved : ℕ
  pub creation_time_tenth_secs : ℕ
  pub creation_time : ℕ
  pub creation_date : ℕ
  pub last_accessed_date : ℕ
  pub high_cluster : ℕ
  pub last_mod_time : ℕ
  pub last_mod_date : ℕ
  pub low_cluster : ℕ
  pub file_size : ℕ

abbrev le16 : ℕ → List ℕ → List ℕ
le16 x rest = x % 2 ^ 8 ∷ x / 2 ^ 8 % 2 ^ 8 ∷ rest

-- The bytes behind the name.
abbrev pub fields : Entry → List ℕ
fields e =
    e.attrib
    ∷ e.reserved
    ∷ e.creation_time_tenth_secs
    ∷ le16 e.creation_time (
        le16 e.creation_date (
          le16 e.last_accessed_date (
            le16 e.high_cluster (
              le16 e.last_mod_time (
                le16 e.last_mod_date (
                  le16 e.low_cluster (
                    e.file_size % 2 ^ 8
                    ∷ e.file_size / 2 ^ 8 % 2 ^ 8
                    ∷ e.file_size / 2 ^ 16 % 2 ^ 8
                    ∷ e.file_size / 2 ^ 24 % 2 ^ 8
                    ∷ [])))))))

unfoldable pub encode : Entry → List ℕ
encode e = e.entry_name ++ fields e

abbrev word_at : List ℕ → ℕ → ℕ
word_at bytes i = get_or bytes i 0 + 2 ^ 8 * get_or bytes (i + 1) 0

unfoldable pub decode : List ℕ → Entry
decode bytes = record {
  entry_name = take 11 bytes;
  attrib = get_or bytes 11 0;
  reserved = get_or bytes 12 0;
  creation_time_tenth_secs = get_or bytes 13 0;
  creation_time = word_at bytes 14;
  creation_date = word_at bytes 16;
  last_accessed_date = word_at bytes 18;
  high_cluster = word_at bytes 20;
  last_mod_time = word_at bytes 22;
  last_mod_date = word_at bytes 24;
  low_cluster = word_at bytes 26;
  file_size = word_at bytes 28 + 2 ^ 16 * word_at bytes 30;
}

-- The fields have the widths of the structure.
pub record IsEntry (e : Entry) : Type 0 where
  pub eleven : length e.entry_name ≡ 11
  pub creation_time_fits : e.creation_time < 2 ^ 16
  pub creation_date_fits : e.creation_date < 2 ^ 16
  pub last_accessed_fits : e.last_accessed_date < 2 ^ 16
  pub high_fits : e.high_cluster < 2 ^ 16
  pub mod_time_fits : e.last_mod_time < 2 ^ 16
  pub mod_date_fits : e.last_mod_date < 2 ^ 16
  pub low_fits : e.low_cluster < 2 ^ 16
  pub size_fits : e.file_size < 2 ^ 32

module _ (e : Entry) (eleven : length e.entry_name ≡ 11) where
  name-encode : take 11 (encode e) ≡ e.entry_name
  unfolding encode
  name-encode = ap (λ n. take n (encode e)) (sym eleven) ∙ take-append e.entry_name (fields e)

  field-encode : (k : ℕ) → get_or (encode e) (11 + k) 0 ≡ get_or (fields e) k 0
  unfolding encode
  field-encode k =
      ap (λ n. get_or (encode e) (n + k) 0) (sym eleven)
      ∙ get_or-append_right e.entry_name (fields e) k 0

  pub length-encode : length (encode e) ≡ 32
  unfolding encode
  length-encode = length-append e.entry_name (fields e) ∙ omega (arith, eleven)

  pub low_cluster-encode : e.low_cluster < 2 ^ 16 → (decode (encode e)).low_cluster ≡ e.low_cluster
  unfolding decode
  low_cluster-encode fits = omega (arith, field-encode 15, field-encode 16)

-- What is stored as an entry, with a name of 11 bytes and fields of the structure's widths, reads
-- back as the same entry.
decode-encode : (e : Entry) → IsEntry e → decode (encode e) ≡ e
unfolding decode
decode-encode e v =
    let f = field-encode e v.eleven in
    let bytes = encode e in
    let creation_time_eq : word_at bytes 14 ≡ e.creation_time =
      omega (arith, f 3, f 4, v.creation_time_fits) in
    let creation_date_eq : word_at bytes 16 ≡ e.creation_date =
      omega (arith, f 5, f 6, v.creation_date_fits) in
    let last_accessed_date_eq : word_at bytes 18 ≡ e.last_accessed_date =
      omega (arith, f 7, f 8, v.last_accessed_fits) in
    let high_cluster_eq : word_at bytes 20 ≡ e.high_cluster =
      omega (arith, f 9, f 10, v.high_fits) in
    let last_mod_time_eq : word_at bytes 22 ≡ e.last_mod_time =
      omega (arith, f 11, f 12, v.mod_time_fits) in
    let last_mod_date_eq : word_at bytes 24 ≡ e.last_mod_date =
      omega (arith, f 13, f 14, v.mod_date_fits) in
    let low_cluster_eq : word_at bytes 26 ≡ e.low_cluster = omega (arith, f 15, f 16, v.low_fits) in
    let file_size_eq : word_at bytes 28 + 2 ^ 16 * word_at bytes 30 ≡ e.file_size =
      omega (arith, f 17, f 18, f 19, f 20, v.size_fits) in
    rw
      (
        name-encode e v.eleven,
        f 0,
        f 1,
        f 2,
        creation_time_eq,
        creation_date_eq,
        last_accessed_date_eq,
        high_cluster_eq,
        last_mod_time_eq,
        last_mod_date_eq,
        low_cluster_eq,
        file_size_eq,
      )
      refl
