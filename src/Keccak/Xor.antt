-- ===== src/Keccak/Xor.antt =====
-- Exclusive or on words, as kernels/keccak256.cu uses it to mix bytes into the state.
use vanity_generator_evm_svm.Common.{
  ℕ, zero, suc, ◌+◌, ◌/◌, ◌%◌, ◌≤◌, ◌<◌, ◌≡◌, refl, ap, ◌∙◌, sym, arith, bit_xor, xor_lowest,
}
use vanity_generator_evm_svm.Common.{List, [], ◌∷◌, get_or, set}
use Prim.Native.Nat.{differ}

pub bit_xor-nothing : (n x : ℕ) → x ≤ n → bit_xor x 0 ≡ x
bit_xor-nothing zero x le = let none : x ≡ 0 = omega arith in rw none refl
bit_xor-nothing (suc n) x le =
    omega (arith, xor_lowest x 0, bit_xor-nothing n (x / 2) (omega arith), differ_nothing (x % 2))
  where
    differ_nothing : (d : ℕ) → differ d 0 ≡ d
    differ_nothing zero = refl
    differ_nothing (suc d) = refl

differ_sum : (a b : ℕ) → a < 2 → b < 2 → differ a b ≡ (a + b) % 2
differ_sum zero b ha hb = omega (arith, hb)
differ_sum (suc zero) zero ha hb = refl
differ_sum (suc zero) (suc zero) ha hb = refl
differ_sum (suc zero) (suc (suc b)) ha hb = absurd (omega (arith, hb))
differ_sum (suc (suc a)) b ha hb = absurd (omega (arith, ha))

pub xor_parts :
    (x y : ℕ) → (bit_xor x y / 2 ≡ bit_xor (x / 2) (y / 2)) × (bit_xor x y % 2 ≡ (x + y) % 2)
xor_parts x y =
    let low = xor_lowest x y in
    let digit = differ_sum (x % 2) (y % 2) (omega arith) (omega arith) in
    (omega (arith, low, digit), omega (arith, low, digit))

pub bit_xor_assoc :
    (n x y z : ℕ) → x ≤ n → y ≤ n → z ≤ n → bit_xor (bit_xor x y) z ≡ bit_xor x (bit_xor y z)
bit_xor_assoc zero x y z hx hy hz =
    let no_x : x ≡ 0 = omega arith in
    let no_y : y ≡ 0 = omega arith in let no_z : z ≡ 0 = omega arith in rw (no_x, no_y, no_z) refl
bit_xor_assoc (suc n) x y z hx hy hz =
    let (half_left, digit_left) = xor_parts x y in
    let (half_right, digit_right) = xor_parts y z in
    let (half_l, digit_l) = xor_parts (bit_xor x y) z in
    let (half_r, digit_r) = xor_parts x (bit_xor y z) in
    let ih =
      bit_xor_assoc n (x / 2) (y / 2) (z / 2) (omega (arith, hx)) (omega (arith, hy))
        (omega (arith, hz)) in
    let halves =
      half_l
      ∙ ap (λ t. bit_xor t (z / 2)) half_left
      ∙ ih
      ∙ ap (bit_xor (x / 2)) (sym half_right)
      ∙ sym half_r in
    omega (arith, halves, digit_l, digit_r, digit_left, digit_right)

-- Two writes to one place, the second of what the first has put there.
pub set_twice :
    (xs : List ℕ) (i : ℕ) (f g : ℕ → ℕ)
    → let first = set xs i (f (get_or xs i 0)) in
      set first i (g (get_or first i 0)) ≡ set xs i (g (f (get_or xs i 0)))
set_twice [] i f g = refl
set_twice (x ∷ xs) zero f g = refl
set_twice (x ∷ xs) (suc i) f g = ap (λ r. x ∷ r) (set_twice xs i f g)

pub set_same : (xs : List ℕ) (i : ℕ) → set xs i (get_or xs i 0) ≡ xs
set_same [] i = refl
set_same (x ∷ xs) zero = refl
set_same (x ∷ xs) (suc i) = ap (λ r. x ∷ r) (set_same xs i)
