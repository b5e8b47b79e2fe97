-- ===== src/Common/Words.antt =====
-- Machine words as native numbers: casts by `%`, shifts by `*` and `/`.
use Prim.Native.Nat.{ℕ, zero, suc, ◌+◌, ◌-◌, ◌*◌, ◌/◌, ◌%◌, ◌^◌, ◌≤◌, ◌<◌, min, max}
use Prim.Native.Nat.{
  bit_and, bit_or, bit_xor, digits, bitwise, bit_and-bitwise, bit_or-bitwise, bit_xor-bitwise,
  differ,
}
use mathlib.Core.Path.{◌≡◌, refl, ◌∙◌}
use native.Mathlib.Nat.{le_refl, pow-suc, one-le-pow, zero-add, suc-add, mod-lt}
use native.Mathlib.Omega.{arith}

abbrev pub u8 : ℕ → ℕ
u8 n = n % 2 ^ 8

abbrev pub u32 : ℕ → ℕ
u32 n = n % 2 ^ 32

abbrev pub u64 : ℕ → ℕ
u64 n = n % 2 ^ 64

infixl 75 ◌<<<◌ ◌>>>◌
abbrev pub ◌<<<◌ : ℕ → ℕ → ℕ
x <<< k = x * 2 ^ k

abbrev pub ◌>>>◌ : ℕ → ℕ → ℕ
x >>> k = x / 2 ^ k

abbrev pub IsByte : ℕ → Type 0
IsByte b = b < 256

abbrev pub IsU32 : ℕ → Type 0
IsU32 w = w < 2 ^ 32

-- The native operations take a number of digits to look at; one more changes nothing.
module _ (z : ℕ → ℕ) (f : ℕ → ℕ → ℕ) where
  digits_spare : (n a b : ℕ) → a ≤ n → digits z f (suc n) a b ≡ digits z f n a b
  digits_spare (suc n) (suc a) b le = rw (digits_spare n (suc a / 2) (b / 2) (omega arith))
  digits_spare (suc n) zero b le = refl
  digits_spare zero (suc a) b le = absurd (omega arith)
  digits_spare zero zero b le = refl

  digits_more : (extra n a b : ℕ) → a ≤ n → digits z f (extra + n) a b ≡ digits z f n a b
  digits_more zero n a b le = rw (zero-add n)
  digits_more (suc extra) n a b le =
      rw (suc-add extra n) (digits_spare (extra + n) a b (omega arith) ∙ digits_more extra n a b le)

  -- So that the lowest digit comes off by itself.
  bitwise_lowest :
      (a b : ℕ)
      → bitwise z f (suc a) b ≡ bitwise z f (suc a / 2) (b / 2) * 2 + f (suc a % 2) (b % 2)
  bitwise_lowest a b =
      let rest : a - suc a / 2 + suc a / 2 ≡ a = omega arith in
      let enough = digits_more (a - suc a / 2) (suc a / 2) (suc a / 2) (b / 2) (omega arith) in
      omega (arith, rw rest at enough)

or_lowest : (x y : ℕ) → bit_or x y ≡ bit_or (x / 2) (y / 2) * 2 + max (x % 2) (y % 2)
or_lowest zero y = simp bit_or-bitwise (omega arith)
or_lowest (suc x) y = simp bit_or-bitwise (bitwise_lowest (λ t. t) max x y)

and_lowest : (x y : ℕ) → bit_and x y ≡ bit_and (x / 2) (y / 2) * 2 + min (x % 2) (y % 2)
and_lowest zero y = simp bit_and-bitwise (omega arith)
and_lowest (suc x) y = simp bit_and-bitwise (bitwise_lowest (λ t. 0) min x y)

pub xor_lowest : (x y : ℕ) → bit_xor x y ≡ bit_xor (x / 2) (y / 2) * 2 + differ (x % 2) (y % 2)
xor_lowest zero y = simp bit_xor-bitwise (omega arith)
xor_lowest (suc x) y = simp bit_xor-bitwise (bitwise_lowest (λ t. t) differ x y)

-- An operation on words that goes bit by bit, with the table `g` of its bits.
module _ (g : ℕ → ℕ → ℕ) (op : ℕ → ℕ → ℕ)
    (lowest : (x y : ℕ) → op x y ≡ op (x / 2) (y / 2) * 2 + g (x % 2) (y % 2))
    (nothing : op 0 0 ≡ 0) where
  -- It works on the fields above and below bit `k` apart from each other.
  split_fields :
      (k x y u v : ℕ)
      → u < 2 ^ k
      → v < 2 ^ k
      → op (x * 2 ^ k + u) (y * 2 ^ k + v) ≡ op x y * 2 ^ k + op u v
  split_fields zero x y u v hu hv =
      let none_u : u ≡ 0 = omega arith in
      let none_v : v ≡ 0 = omega arith in
      let same_x : x * 2 ^ zero + 0 ≡ x = omega arith in
      let same_y : y * 2 ^ zero + 0 ≡ y = omega arith in
      rw (none_u, none_v, nothing, same_x, same_y) (omega arith)
  split_fields (suc k) x y u v hu hv =
      let wide_x = doubled x k in
      let wide_y = doubled y k in
      let half_x : (x * 2 ^ suc k + u) / 2 ≡ x * 2 ^ k + u / 2 = omega (arith, wide_x) in
      let half_y : (y * 2 ^ suc k + v) / 2 ≡ y * 2 ^ k + v / 2 = omega (arith, wide_y) in
      let bit_x : (x * 2 ^ suc k + u) % 2 ≡ u % 2 = omega (arith, wide_x) in
      let bit_y : (y * 2 ^ suc k + v) % 2 ≡ v % 2 = omega (arith, wide_y) in
      let inner =
        split_fields k x y (u / 2) (v / 2) (omega (arith, pow-suc 2 k))
          (omega (arith, pow-suc 2 k)) in
      lowest (x * 2 ^ suc k + u) (y * 2 ^ suc k + v)
      ∙ rw (half_x, half_y, bit_x, bit_y) (omega (arith, inner, lowest u v, doubled (op x y) k))
    where
      doubled : (t m : ℕ) → t * 2 ^ suc m ≡ t * 2 ^ m * 2
      doubled t m = rw (pow-suc 2 m) (grind arith)

or_nothing : (n x : ℕ) → x ≤ n → bit_or x 0 ≡ x
or_nothing zero x le = let none : x ≡ 0 = omega arith in rw none refl
or_nothing (suc n) x le = omega (arith, or_lowest x 0, or_nothing n (x / 2) (omega arith))

and_nothing : (n x : ℕ) → x ≤ n → bit_and x 0 ≡ 0
and_nothing zero x le = let none : x ≡ 0 = omega arith in rw none refl
and_nothing (suc n) x le = omega (arith, and_lowest x 0, and_nothing n (x / 2) (omega arith))

-- A number is its own `&` with a mask that covers it.
and_covered : (k u : ℕ) → u < 2 ^ k → bit_and u (2 ^ k - 1) ≡ u
and_covered zero u h = let none : u ≡ 0 = omega arith in rw none refl
and_covered (suc k) u h =
    let power = pow-suc 2 k in
    let upper : (2 ^ suc k - 1) / 2 ≡ 2 ^ k - 1 = omega (arith, power, one-le-pow k 2) in
    let odd : (2 ^ suc k - 1) % 2 ≡ 1 = omega (arith, power, one-le-pow k 2) in
    and_lowest u (2 ^ suc k - 1)
    ∙ rw (upper, odd, and_covered k (u / 2) (omega (arith, power))) (omega arith)

-- `(high << k) | low` is a sum when `low` fits the `k` bits.
pub bit_or_fields : (k high low : ℕ) → low < 2 ^ k → bit_or (high <<< k) low ≡ high * 2 ^ k + low
bit_or_fields k high low h =
    let left : high * 2 ^ k + 0 ≡ high * 2 ^ k = omega arith in
    let right : 0 * 2 ^ k + low ≡ low = omega arith in
    let whole =
      split_fields max bit_or or_lowest refl k high 0 0 low (omega (arith, one-le-pow k 2)) h in
    let none_above : bit_or 0 low ≡ low = simp bit_or-bitwise refl in
    rw (left, right, or_nothing high high (le_refl high), none_above) at whole

-- `low | (high << k)`
pub bit_or_upper : (k high low : ℕ) → low < 2 ^ k → bit_or low (high <<< k) ≡ high * 2 ^ k + low
bit_or_upper k high low h =
    let left : 0 * 2 ^ k + low ≡ low = omega arith in
    let right : high * 2 ^ k + 0 ≡ high * 2 ^ k = omega arith in
    let whole =
      split_fields max bit_or or_lowest refl k 0 high low 0 h (omega (arith, one-le-pow k 2)) in
    let none_below : bit_or 0 high ≡ high = simp bit_or-bitwise refl in
    rw (left, right, or_nothing low low (le_refl low), none_below) at whole

-- `^` stays within `k` bits.
pub bit_xor_below : (k x y : ℕ) → x < 2 ^ k → y < 2 ^ k → bit_xor x y < 2 ^ k
bit_xor_below zero x y hx hy =
    let none_x : x ≡ 0 = omega arith in
    let none_y : y ≡ 0 = omega arith in rw (none_x, none_y) (omega arith)
bit_xor_below (suc k) x y hx hy =
    let power = pow-suc 2 k in
    let rest = bit_xor_below k (x / 2) (y / 2) (omega (arith, power)) (omega (arith, power)) in
    omega
      (arith, xor_lowest x y, rest, power, differ_digit (x % 2) (y % 2) (omega arith) (omega arith))
  where
    differ_digit : (a b : ℕ) → a < 2 → b < 2 → differ a b < 2
    differ_digit zero b ha hb = hb
    differ_digit (suc a) zero ha hb = ha
    differ_digit (suc a) (suc b) ha hb = differ_digit a b (omega (arith, ha)) (omega (arith, hb))

-- `&` with the mask of the `k` lowest bits is the remainder by `2 ^ k`.
pub bit_and_mask : (k a : ℕ) → bit_and a (2 ^ k - 1) ≡ a % 2 ^ k
bit_and_mask k a =
    let positive : 0 < 2 ^ k = omega (arith, one-le-pow k 2) in
    let parts : a / 2 ^ k * 2 ^ k + a % 2 ^ k ≡ a = grind arith in
    let mask : 0 * 2 ^ k + (2 ^ k - 1) ≡ 2 ^ k - 1 = omega arith in
    let below : a % 2 ^ k < 2 ^ k = mod-lt a positive in
    let whole =
      split_fields min bit_and and_lowest refl k (a / 2 ^ k) 0 (a % 2 ^ k) (2 ^ k - 1) below
        (omega (arith, positive)) in
    let none_above : 0 * 2 ^ k + a % 2 ^ k ≡ a % 2 ^ k = omega arith in
    rw
      (
        parts,
        mask,
        and_nothing (a / 2 ^ k) (a / 2 ^ k) (le_refl _),
        and_covered k (a % 2 ^ k) below,
        none_above,
      )
      at whole

-- `&` with a single bit keeps that bit.
pub bit_and_power : (k a : ℕ) → bit_and a (2 ^ k) ≡ a / 2 ^ k % 2 * 2 ^ k
bit_and_power k a =
    let positive : 0 < 2 ^ k = omega (arith, one-le-pow k 2) in
    let parts : a / 2 ^ k * 2 ^ k + a % 2 ^ k ≡ a = grind arith in
    let bit : 1 * 2 ^ k + 0 ≡ 2 ^ k = omega arith in
    let below : a % 2 ^ k < 2 ^ k = mod-lt a positive in
    let whole =
      split_fields min bit_and and_lowest refl k (a / 2 ^ k) 1 (a % 2 ^ k) 0 below positive in
    let high : bit_and (a / 2 ^ k) 1 ≡ a / 2 ^ k % 2 = bit_and_mask 1 (a / 2 ^ k) in
    let low : bit_and (a % 2 ^ k) 0 ≡ 0 = and_nothing (a % 2 ^ k) (a % 2 ^ k) (le_refl _) in
    let same : a / 2 ^ k % 2 * 2 ^ k + 0 ≡ a / 2 ^ k % 2 * 2 ^ k = omega arith in
    (rw (parts, bit, high, low) at whole) ∙ same

-- `(uint32_t)b0 << 24 | b1 << 16 | b2 << 8 | b3`, as the sources read a big-endian word.
abbrev pub be32 : ℕ → ℕ → ℕ → ℕ → ℕ
be32 b0 b1 b2 b3 = bit_or (bit_or (bit_or (u32 (b0 <<< 24)) (b1 <<< 16)) (b2 <<< 8)) b3

pub be32_lem :
    (b0 b1 b2 b3 : ℕ)
    → IsByte b0
    → IsByte b1
    → IsByte b2
    → IsByte b3
    → be32 b0 b1 b2 b3 ≡ b0 * 2 ^ 24 + b1 * 2 ^ 16 + b2 * 2 ^ 8 + b3
be32_lem b0 b1 b2 b3 h0 h1 h2 h3 = ground (
  arith,
  bit_or_fields 24 b0 (b1 <<< 16) (omega arith),
  bit_or_fields 16 (b0 * 256 + b1) (b2 <<< 8) (omega arith),
  bit_or_fields 8 (b0 * 65536 + b1 * 256 + b2) b3 (omega arith),
)
