-- ===== src/Common/Tests.antt =====
-- Boolean tests on the native numbers, and the conditional.
use Prim.Native.Nat.{ℕ, zero, suc, ◌+◌, ◌≤◌, ◌<◌, compare, Ordering}
use mathlib.Core.Path.{◌≡◌, refl}
use mathlib.Core.Logic.{◌↔◌, ◌⊎◌, inl, inr}
use mathlib.Core.Bool.{Bool, true, false, ◌&&◌}
use native.Mathlib.Omega.{arith}
use native.Mathlib.Decide.{ℕ_discrete}

abbrev pub ltb : ℕ → ℕ → Bool
ltb a b = elim (compare a b) [ Ordering.lt ↦ true | _ ↦ false ]

abbrev pub leb : ℕ → ℕ → Bool
leb a b = elim (compare a b) [ Ordering.gt ↦ false | _ ↦ true ]

infix 50 ◌==◌
abbrev pub ◌==◌ : ℕ → ℕ → Bool
a == b = elim (compare a b) [ Ordering.eq ↦ true | _ ↦ false ]

infix 1 if◌then◌else◌
abbrev pub if◌then◌else◌ {ℓ} : {A : Type ℓ} → Bool → A → A → A
if true then x else y = x
if false then x else y = y

pub ==_iff : (a b : ℕ) → ((a == b) ≡ true) ↔ (a ≡ b)
==_iff a b = ground arith

pub ==_refl : (a : ℕ) → (a == a) ≡ true
==_refl a = ground arith

pub leb→le : (a b : ℕ) → leb a b ≡ true → a ≤ b
leb→le a b h = ground arith

pub ltb→lt : (a b : ℕ) → ltb a b ≡ true → a < b
ltb→lt a b h = ground arith

pub lt→ltb : (a b : ℕ) → a < b → ltb a b ≡ true
lt→ltb a b h = ground arith

pub Bool-cases : (b : Bool) → (b ≡ true) ⊎ (b ≡ false)
Bool-cases true = inl refl
Bool-cases false = inr refl

pub &&_parts : (a b : Bool) → (a && b) ≡ true → (a ≡ true) × (b ≡ true)
&&_parts a b h = ground arith

-- The test of `count` values from `from` on, for facts that evaluation settles.
unfoldable pub every : (ℕ → Bool) → ℕ → ℕ → Bool
every test from zero = true
every test from (suc count) = if test from then every test (from + 1) count else false

every_holds :
    (test : ℕ → Bool) (count from : ℕ)
    → every test from count ≡ true
    → (v : ℕ) → from ≤ v
    → v < from + count
    → test v ≡ true
unfolding every
every_holds test zero from done v low high = absurd (omega arith)
every_holds test (suc count) from done v low high = elim (ℕ_discrete from v) [
  | yes here ↦ rw (← here) (ground arith)
  | no further ↦ every_holds test count (from + 1) (ground arith) v (omega arith) (omega arith)
]

pub every_below :
    (test : ℕ → Bool) (bound v : ℕ) → v < bound → every test 0 bound ≡ true → test v ≡ true
every_below test bound v high done = every_holds test bound 0 done v (omega arith) (omega arith)
