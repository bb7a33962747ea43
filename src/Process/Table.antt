-- ===== src/Process/Table.antt =====
-- The table of processes (kernel/drivers/process/process.c): look-ups and the search for a free number.
use koiz_os.Base.{
  ℕ, zero, suc, ◌+◌, ◌≤◌, ◌<◌, ◌≡◌, ◌⊎◌, inl, inr, Bool, true, false, ◌||◌, Option, none, some, leb,
  arith, refl, ◌∙◌, ap, Bool-cases, ℕ_discrete,
}
use koiz_os.Process.{Processes, max_processes, is_unused, get, next_free_pid, get_next_free_pid}

-- `process_get` finds exactly the processes of the table that are in use, but not the idle process 0.
get-cases :
    (pid : ℕ) (processes : Processes)
    → ((0 < pid)
        × (pid < max_processes)
        × (is_unused (processes pid).state ≡ false)
        × (get pid processes ≡ some pid))
      ⊎ (((pid ≡ 0) ⊎ (max_processes ≤ pid) ⊎ (is_unused (processes pid).state ≡ true))
          × (get pid processes ≡ none))
unfolding get
get-cases pid processes = elim (Bool-cases (leb pid 0 || leb max_processes pid)) [
  | inl out ↦ rw out (inr (ground (arith, out), refl))
  | inr within ↦ elim (Bool-cases (is_unused (processes pid).state)) [
    | inl free ↦ rw (within, free) (inr (inr (inr refl), refl))
    | inr used ↦
        rw (within, used) (inl (ground (arith, within), ground (arith, within), refl, refl))
  ]
]

is_none : Option ℕ → Bool
is_none none = true
is_none (some x) = false

pub get-some :
    (pid r : ℕ) (processes : Processes)
    → get pid processes ≡ some r
    → (get pid processes ≡ some pid) × (pid < max_processes)
get-some pid r processes h = elim (get-cases pid processes) [
  | inl (lo, hi, used, e) ↦ (e, hi)
  | inr (why, e) ↦ absurd (ground (arith, ap is_none h, ap is_none e))
]

pub get-live :
    (pid : ℕ) (processes : Processes)
    → 0 < pid
    → pid < max_processes
    → is_unused (processes pid).state ≡ false
    → get pid processes ≡ some pid
unfolding get
get-live pid processes lo hi live =
    let within : (leb pid 0 || leb max_processes pid) ≡ false = ground arith in
    rw (within, live) refl

-- The search for a free number.
abbrev FreeFrom : ℕ → ℕ → Processes → Option ℕ → Type 0
FreeFrom n i processes none = (k : ℕ) → i ≤ k → k < i + n → is_unused (processes k).state ≡ false
FreeFrom n i processes (some pid) =
    (i ≤ pid)
    × (pid < i + n)
    × (is_unused (processes pid).state ≡ true)
    × ((k : ℕ) → i ≤ k → k < pid → is_unused (processes k).state ≡ false)

FreeFrom-cons :
    (n i : ℕ) (processes : Processes) (o : Option ℕ)
    → is_unused (processes i).state ≡ false
    → FreeFrom n (i + 1) processes o
    → FreeFrom (suc n) i processes o
FreeFrom-cons n i processes none used rest = λ k lo hi. elim (ℕ_discrete k i) [
  | yes here ↦ ap (λ (v : ℕ). is_unused (processes v).state) here ∙ used
  | no later ↦ rest k (omega arith) (omega arith)
]
FreeFrom-cons n i processes (some pid) used (lo, hi, free, before) = (
  omega arith,
  omega arith,
  free,
  λ k lo' hi'. elim (ℕ_discrete k i) [
    | yes here ↦ ap (λ (v : ℕ). is_unused (processes v).state) here ∙ used
    | no later ↦ before k (omega arith) hi'
  ],
)

next_free_pid-FreeFrom :
    (n i : ℕ) (processes : Processes) → FreeFrom n i processes (next_free_pid n i processes)
unfolding next_free_pid
next_free_pid-FreeFrom zero i processes = λ k lo hi. absurd (omega arith)
next_free_pid-FreeFrom (suc n) i processes = elim (Bool-cases (is_unused (processes i).state)) [
  | inl free ↦ rw free (omega arith, omega arith, free, λ k lo hi. absurd (omega arith))
  | inr used ↦ rw used (
      FreeFrom-cons n i processes (next_free_pid n (i + 1) processes) used
        (next_free_pid-FreeFrom n (i + 1) processes))
]

-- `process_get_next_free_pid` returns the lowest unused number from 1 to 63, and -1 only when all of them
-- are in use.
get_next_free_pid-FreeFrom :
    (processes : Processes) → FreeFrom 63 1 processes (get_next_free_pid processes)
unfolding get_next_free_pid
get_next_free_pid-FreeFrom processes = next_free_pid-FreeFrom 63 1 processes
