-- ===== src/Base/Cycle.antt =====
-- Going round a cycle of `n` places: the next place, and the distance from one to another.
use Prim.Native.Nat.{ℕ, suc, ◌+◌, ◌-◌, ◌%◌, ◌<◌}
use mathlib.Core.Path.{◌≡◌}
use mathlib.Core.Logic.{◌≢◌}
use native.Mathlib.Omega.{arith}
use native.Mathlib.Nat.{mod-eq_of_lt, mod_self}
use native.Mathlib.Decide.{dec_lt}
use koiz_os.Base.Tests.{leb, if◌then◌else◌}

-- How many steps lead from `a` to `b`.
abbrev pub distance : ℕ → ℕ → ℕ → ℕ
distance n a b = if leb b a then (if leb a b then 0 else n - a + b) else b - a

pub next_place : ℕ → ℕ → ℕ
next_place n a = if leb n (a + 1) then 0 else a + 1

pub next_place-lt : (n a : ℕ) → a < n → next_place n a < n
unfolding next_place
next_place-lt n a h = ground arith

pub mod-next_place : (n a : ℕ) → a < n → (a + 1) % n ≡ next_place n a
unfolding next_place
mod-next_place n a h = elim (dec_lt (a + 1) n) [
  | yes p ↦ ground (arith, mod-eq_of_lt p)
  | no p ↦ let e : n ≡ a + 1 = omega arith in ground (arith, e, mod_self n)
]

pub distance-next_place :
    (n a b : ℕ) → a < n → b < n → a ≢ b → suc (distance n (next_place n a) b) ≡ distance n a b
unfolding next_place
distance-next_place n a b ha hb ne = ground arith

-- From a place to its next one it is the whole way round back.
pub distance-lap : (n a : ℕ) → a < n → suc (distance n (next_place n a) a) ≡ n
unfolding next_place
distance-lap n a h = ground arith

pub distance-lt : (n a b : ℕ) → a < n → b < n → distance n a b < n
distance-lt n a b ha hb = ground arith

pub distance_self : (n a b : ℕ) → a ≡ b → distance n a b ≡ 0
distance_self n a b e = ground arith
