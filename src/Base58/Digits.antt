-- ===== src/Base58/Digits.antt =====
-- Base-58 digits of a number, lowest first, as the specification of both encoders; and the value of
-- a big-endian array.
use vanity_generator_evm_svm.Common.{ℕ, zero, suc, ◌+◌, ◌*◌, ◌/◌, ◌%◌, ◌^◌, ◌≤◌, ◌<◌, ◌≡◌, refl}
use vanity_generator_evm_svm.Common.{sym, ◌∙◌, List, [], ◌∷◌, ◌==◌, if◌then◌else◌, arith}
use vanity_generator_evm_svm.Common.{length}
use mathlib.Core.Path.{ap₂}
use native.Mathlib.Nat.{pow-suc}

-- The value of a big-endian array in base `b`, after the digits read so far, `acc`.
abbrev pub value_from : ℕ → ℕ → List ℕ → ℕ
value_from b acc [] = acc
value_from b acc (x ∷ xs) = value_from b (acc * b + x) xs

-- The digits of a number below 58 ^ fuel, lowest first, with no zero at the top.
unfoldable pub digits58 : ℕ → ℕ → List ℕ
digits58 zero x = []
digits58 (suc fuel) x = if x == 0 then [] else (x % 58) ∷ digits58 fuel (x / 58)

-- The value of digits that stand lowest first.
abbrev pub value_le : List ℕ → ℕ
value_le [] = 0
value_le (d ∷ ds) = d + 58 * value_le ds

-- Digits below 58 with no zero at the top: every nonempty end has a positive value.
abbrev pub IsCanonical : List ℕ → Type 0
IsCanonical [] = Unit
IsCanonical (d ∷ ds) = (d < 58) × (0 < d + 58 * value_le ds) × IsCanonical ds

pub canonical_unique :
    (xs ys : List ℕ) → IsCanonical xs → IsCanonical ys → value_le xs ≡ value_le ys → xs ≡ ys
canonical_unique [] [] hx hy e = refl
canonical_unique [] (y ∷ ys) hx hy e = absurd (omega arith)
canonical_unique (x ∷ xs) [] hx hy e = absurd (omega arith)
canonical_unique (x ∷ xs) (y ∷ ys) (x58, px, hx) (y58, py, hy) e =
    ap₂ ◌∷◌ (omega arith) (canonical_unique xs ys hx hy (omega arith))

pub value_le-digits58 : (k x : ℕ) → x < 58 ^ k → value_le (digits58 k x) ≡ x
unfolding digits58
value_le-digits58 zero x h = omega arith
value_le-digits58 (suc k) x h =
    ground (arith, pow-suc 58 k, value_le-digits58 k (x / 58) (omega (arith, pow-suc 58 k)))

pub digits58-IsCanonical : (k x : ℕ) → x < 58 ^ k → IsCanonical (digits58 k x)
unfolding digits58
digits58-IsCanonical zero x h = tt
digits58-IsCanonical (suc k) x h = ground (
  arith,
  pow-suc 58 k,
  value_le-digits58 k (x / 58) (omega (arith, pow-suc 58 k)),
  digits58-IsCanonical k (x / 58) (omega (arith, pow-suc 58 k)),
)

-- Fuel that is enough gives the same digits.
pub digits58_fuel : (k m x : ℕ) → x < 58 ^ k → x < 58 ^ m → digits58 k x ≡ digits58 m x
digits58_fuel k m x hk hm =
    canonical_unique _ _ (digits58-IsCanonical k x hk) (digits58-IsCanonical m x hm)
      (value_le-digits58 k x hk ∙ sym (value_le-digits58 m x hm))

-- A canonical list is the digits of its value.
pub canonical-digits58 :
    (k : ℕ) (ds : List ℕ) → IsCanonical ds → value_le ds < 58 ^ k → ds ≡ digits58 k (value_le ds)
canonical-digits58 k ds h lt =
    canonical_unique _ _ h (digits58-IsCanonical k _ lt) (sym (value_le-digits58 k _ lt))

-- A number below 58 ^ n has at most n digits.
pub length-digits58 : (k n x : ℕ) → x < 58 ^ n → length (digits58 k x) ≤ n
unfolding digits58
length-digits58 zero n x h = omega arith
length-digits58 (suc k) zero x h = ground arith
length-digits58 (suc k) (suc n) x h =
    ground (arith, length-digits58 k n (x / 58) (omega (arith, pow-suc 58 n)))
