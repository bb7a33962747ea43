-- ===== src/Process/Name.antt =====
-- `strcpy` of a name into a process (kernel/drivers/process/process.c): what it does to the number of the
-- process, which lies behind the name.
use koiz_os.Base.{
  ℕ, zero, suc, ◌+◌, ◌-◌, ◌/◌, ◌%◌, ◌^◌, ◌≤◌, ◌<◌, ◌≡◌, ◌≢◌, inr, List, length, get_or, min, arith,
  refl, ◌∙◌, ap, ltb, [], ◌∷◌, false,
}
use koiz_os.Kernel.Memory.{Memory, read32, read32_same}
use koiz_os.Strings.{strcpy}
use koiz_os.Strings.Copy.{Terminated, strcpy-copies}
use koiz_os.Process.{Process, process_memory, process_name_size, copy_name}

-- Characters without a terminator.
abbrev pub IsName : List ℕ → Type 0
IsName text = ((i : ℕ) → i < length text → get_or text i 0 ≢ 0) × (length text < 1000)

get_or_beyond : (xs : List ℕ) (i : ℕ) → length xs ≤ i → get_or xs i 0 ≡ 0
get_or_beyond [] i h = refl
get_or_beyond (x ∷ xs) zero h = absurd (omega arith)
get_or_beyond (x ∷ xs) (suc i) h = get_or_beyond xs i (omega arith)

module _ (p : Process) (text : List ℕ) (name : IsName text) where
  abbrev before : Memory
  before = process_memory p text

  abbrev after : Memory
  after = (strcpy 32 64 process_name_size (process_memory p text)).1

  text_at : (i : ℕ) → before (64 + i) ≡ get_or text i 0
  text_at i =
      let far : ltb (64 + i) 48 ≡ false = ground arith in
      let far' : ltb (64 + i) 52 ≡ false = ground arith in
      rw (far, far') (ap (λ k. get_or text k 0) (omega arith))

  copied : Terminated 32 (min process_name_size (length text)) text before after
  copied =
      strcpy-copies 32 64 process_name_size text before (omega arith) (omega arith)
        (omega (arith, name.1)) (omega arith) (λ i h. (text_at i, name.0 i h))
        (text_at (length text) ∙ get_or_beyond text (length text) (omega arith))

  pid_bytes : p.pid < 2 ^ 32 → read32 before 48 ≡ p.pid
  unfolding read32
  pid_bytes small = omega arith

  pid_kept : p.pid < 2 ^ 32 → length text < 16 → (copy_name text p).pid ≡ p.pid
  unfolding copy_name
  pid_kept small short =
      let (chars, end, others) = copied in
      read32_same after before 48 (λ k h. others (48 + k) (inr (omega arith))) ∙ pid_bytes small

  pid_cut : p.pid < 2 ^ 32 → 16 ≤ length text → (copy_name text p).pid ≡ p.pid - p.pid % 2 ^ 8
  unfolding copy_name read32
  pid_cut small long =
      let (chars, end, others) = copied in
      let m : min process_name_size (length text) ≡ 16 = omega arith in
      let low : after 48 ≡ 0 = ap after (omega (arith, m)) ∙ end in
      let b1 : after 49 ≡ p.pid / 2 ^ 8 % 2 ^ 8 = others 49 (inr (omega (arith, m))) in
      let b2 : after 50 ≡ p.pid / 2 ^ 16 % 2 ^ 8 = others 50 (inr (omega (arith, m))) in
      let b3 : after 51 ≡ p.pid / 2 ^ 24 % 2 ^ 8 = others 51 (inr (omega (arith, m))) in
      omega (arith, low, b1, b2, b3, small)

-- A name of fewer than 16 characters leaves the number of the process, which fits 32 bits. A
-- longer one, of fewer than 1000 characters, overwrites the low byte of the number by the
-- terminator of the name.
pub copy_name-pid :
    (p : Process) (text : List ℕ)
    → IsName text
    → p.pid < 2 ^ 32
    → (length text < 16 → (copy_name text p).pid ≡ p.pid)
      × (16 ≤ length text → (copy_name text p).pid ≡ p.pid - p.pid % 2 ^ 8)
copy_name-pid p text name small = (pid_kept p text name small, pid_cut p text name small)
