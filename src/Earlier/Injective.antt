-- ===== src/Earlier/Injective.antt =====
-- The generator of the earlier kernels loses nothing: each of its steps can be undone.
use vanity_generator_evm_svm.Common.{
  ℕ, zero, suc, ◌+◌, ◌*◌, ◌/◌, ◌%◌, ◌^◌, ◌≤◌, ◌<◌, ◌≡◌, refl, sym, ap, ◌∙◌, arith,
}
use vanity_generator_evm_svm.Common.{bit_xor, u64, ◌<<<◌, ◌>>>◌}
use vanity_generator_evm_svm.Keccak.Xor.{xor_parts}
use native.Mathlib.Nat.{pow-suc, pow-succ', div-div-eq-div-mul}

-- Taking the lowest digit off a shifted number, and off a remainder.
shift_suc : (k x : ℕ) → x / 2 ^ suc k ≡ x / 2 / 2 ^ k
shift_suc k x = rw (pow-succ' 2 k) (sym (div-div-eq-div-mul x 2 (2 ^ k)))

mod_suc : (k x : ℕ) → x % 2 ^ suc k ≡ x / 2 % 2 ^ k * 2 + x % 2
mod_suc k x = omega (arith, whole, half, doubled)
  where
    whole : x / 2 / 2 ^ k * 2 ^ suc k + x % 2 ^ suc k ≡ x
    whole = rw (sym (shift_suc k x)) (grind arith)

    half : x / 2 / 2 ^ k * 2 ^ k + x / 2 % 2 ^ k ≡ x / 2
    half = grind arith

    doubled : x / 2 / 2 ^ k * 2 ^ suc k ≡ x / 2 / 2 ^ k * 2 ^ k * 2
    doubled = rw (pow-suc 2 k) (grind arith)

xor_shift : (k x y : ℕ) → bit_xor x y / 2 ^ k ≡ bit_xor (x / 2 ^ k) (y / 2 ^ k)
xor_shift zero x y =
    let whole_x : x / 2 ^ 0 ≡ x = omega arith in
    let whole_y : y / 2 ^ 0 ≡ y = omega arith in rw (whole_x, whole_y) (omega arith)
xor_shift (suc k) x y =
    shift_suc k (bit_xor x y)
    ∙ ap (λ t. t / 2 ^ k) (xor_parts x y).0
    ∙ xor_shift k (x / 2) (y / 2)
    ∙ rw (shift_suc k x, shift_suc k y) refl

-- The second argument can be taken off again.
pub xor_cancel : (n a b c : ℕ) → a ≤ n → b ≤ n → bit_xor a c ≡ bit_xor b c → a ≡ b
xor_cancel zero a b c ha hb e = omega (arith, ha, hb)
xor_cancel (suc n) a b c ha hb e =
    let (half_a, digit_a) = xor_parts a c in
    let (half_b, digit_b) = xor_parts b c in
    let halves =
      xor_cancel n (a / 2) (b / 2) (c / 2) (omega (arith, ha)) (omega (arith, hb))
        (sym half_a ∙ ap (λ t. t / 2) e ∙ half_b) in
    omega (arith, halves, digit_a, digit_b, e)

swapped : (k m x : ℕ) → x / 2 ^ suc m / 2 ^ k ≡ x / 2 ^ suc k / 2 ^ m
swapped k m x =
    div-div-eq-div-mul x (2 ^ suc m) (2 ^ k)
    ∙ ap (λ t. x / t) product_same
    ∙ sym (div-div-eq-div-mul x (2 ^ suc k) (2 ^ m))
  where
    product_same : 2 ^ suc m * 2 ^ k ≡ 2 ^ suc k * 2 ^ m
    product_same = rw (pow-suc 2 m, pow-suc 2 k) (grind arith)

-- A word mixed with itself shifted to the right.
module _ (k : ℕ) (x y : ℕ) (same : bit_xor x (x / 2 ^ suc k) ≡ bit_xor y (y / 2 ^ suc k)) where
  right_shift_from : (m : ℕ) → x / 2 ^ m ≡ y / 2 ^ m → x ≡ y
  right_shift_from zero e = omega (arith, e)
  right_shift_from (suc m) e = right_shift_from m (
      xor_cancel (x / 2 ^ m + y / 2 ^ m) (x / 2 ^ m) (y / 2 ^ m) (x / 2 ^ suc k / 2 ^ m)
        (omega arith) (omega arith)
        (sym (xor_shift m x (x / 2 ^ suc k))
          ∙ ap (λ t. t / 2 ^ m) same
          ∙ xor_shift m y (y / 2 ^ suc k)
          ∙ ap (bit_xor (y / 2 ^ m))
              (sym (swapped k m y) ∙ ap (λ t. t / 2 ^ k) (sym e) ∙ swapped k m x)))

-- A word mixed with itself shifted to the left.
left_shift :
    (m x y c : ℕ)
    → bit_xor x (x * 2 ^ 23 + c) % 2 ^ m ≡ bit_xor y (y * 2 ^ 23 + c) % 2 ^ m
    → x % 2 ^ m ≡ y % 2 ^ m
left_shift zero x y c e = omega arith
left_shift (suc m) x y c e =
    let n = bit_xor x (x * 2 ^ 23 + c) in
    let n' = bit_xor y (y * 2 ^ 23 + c) in
    let (half_x, digit_x) = xor_parts x (x * 2 ^ 23 + c) in
    let (half_y, digit_y) = xor_parts y (y * 2 ^ 23 + c) in
    let split = mod_suc m n in
    let split' = mod_suc m n' in
    let digits : x % 2 ≡ y % 2 = omega (arith, e, split, split', digit_x, digit_y) in
    let rest_x : (x * 2 ^ 23 + c) / 2 ≡ x / 2 * 2 ^ 23 + (x % 2 * 2 ^ 22 + c / 2) = omega arith in
    let rest_y : (y * 2 ^ 23 + c) / 2 ≡ y / 2 * 2 ^ 23 + (x % 2 * 2 ^ 22 + c / 2) =
      omega (arith, digits) in
    let halves : n / 2 % 2 ^ m ≡ n' / 2 % 2 ^ m = omega (arith, e, split, split') in
    let rest = left_shift m (x / 2) (y / 2) (x % 2 * 2 ^ 22 + c / 2) (
      ap (λ t. bit_xor (x / 2) t % 2 ^ m) (sym rest_x)
      ∙ ap (λ t. t % 2 ^ m) (sym half_x)
      ∙ halves
      ∙ ap (λ t. t % 2 ^ m) half_y
      ∙ ap (λ t. bit_xor (y / 2) t % 2 ^ m) rest_y) in
    omega (arith, rest, digits, mod_suc m x, mod_suc m y)

-- A remainder forgets the places above it.
xor_mod : (m a b : ℕ) → bit_xor a b % 2 ^ m ≡ bit_xor a (b % 2 ^ m) % 2 ^ m
xor_mod zero a b = omega arith
xor_mod (suc m) a b =
    let (half, digit) = xor_parts a b in
    let (half', digit') = xor_parts a (b % 2 ^ suc m) in
    let split = mod_suc m b in
    let half_b : b % 2 ^ suc m / 2 ≡ b / 2 % 2 ^ m = omega (arith, split) in
    let rest =
      ap (λ t. t % 2 ^ m) half
      ∙ xor_mod m (a / 2) (b / 2)
      ∙ ap (λ t. bit_xor (a / 2) t % 2 ^ m) (sym half_b)
      ∙ ap (λ t. t % 2 ^ m) (sym half') in
    omega (
      arith,
      rest,
      digit,
      digit',
      split,
      mod_suc m (bit_xor a b),
      mod_suc m (bit_xor a (b % 2 ^ suc m)),
    )

pub bit_xor_lt : (x y : ℕ) → x < 2 ^ 64 → y < 2 ^ 64 → bit_xor x y < 2 ^ 64
bit_xor_lt x y hx hy =
    let none_x : x / 2 ^ 64 ≡ 0 = omega (arith, hx) in
    let none_y : y / 2 ^ 64 ≡ 0 = omega (arith, hy) in
    let top : bit_xor x y / 2 ^ 64 ≡ 0 = xor_shift 64 x y ∙ rw (none_x, none_y) refl in
    omega (arith, top)

pub right_shift :
    (k x y : ℕ)
    → x < 2 ^ 64
    → y < 2 ^ 64
    → bit_xor x (x >>> suc k) ≡ bit_xor y (y >>> suc k)
    → x ≡ y
right_shift k x y hx hy same = right_shift_from k x y same 64 (omega (arith, hx, hy))

pub left_shift_23 :
    (x y : ℕ)
    → x < 2 ^ 64
    → y < 2 ^ 64
    → bit_xor x (u64 (x <<< 23)) ≡ bit_xor y (u64 (y <<< 23))
    → x ≡ y
left_shift_23 x y hx hy same =
    let plain_x : x * 2 ^ 23 + 0 ≡ x * 2 ^ 23 = omega arith in
    let plain_y : y * 2 ^ 23 + 0 ≡ y * 2 ^ 23 = omega arith in
    let low = left_shift 64 x y 0 (
      ap (λ t. bit_xor x t % 2 ^ 64) plain_x
      ∙ xor_mod 64 x (x * 2 ^ 23)
      ∙ ap (λ t. t % 2 ^ 64) same
      ∙ sym (xor_mod 64 y (y * 2 ^ 23))
      ∙ ap (λ t. bit_xor y t % 2 ^ 64) (sym plain_y)) in
    omega (arith, low, hx, hy)

-- The factors of the mixing are odd, and have inverses.
pub first_factor :
    (x y : ℕ)
    → x < 2 ^ 64
    → y < 2 ^ 64
    → u64 (x * 0xbf58476d1ce4e5b9) ≡ u64 (y * 0xbf58476d1ce4e5b9)
    → x ≡ y
first_factor x y hx hy e =
    omega (arith, undone x, undone y, ap (λ t. u64 (t * 10871156337175269513)) e, hx, hy)
  where
    undone : (z : ℕ) → u64 (u64 (z * 0xbf58476d1ce4e5b9) * 10871156337175269513) ≡ u64 z
    undone z = omega arith

pub second_factor :
    (x y : ℕ)
    → x < 2 ^ 64
    → y < 2 ^ 64
    → u64 (x * 0x94d049bb133111eb) ≡ u64 (y * 0x94d049bb133111eb)
    → x ≡ y
second_factor x y hx hy e =
    omega (arith, undone x, undone y, ap (λ t. u64 (t * 3573116690164977347)) e, hx, hy)
  where
    undone : (z : ℕ) → u64 (u64 (z * 0x94d049bb133111eb) * 3573116690164977347) ≡ u64 z
    undone z = omega arith
