-- ===== src/Base58/Passes.antt =====
-- One pass of `simple_base58_encode_32`: dividing the limbs by 58 ^ 5, and the digits that the
-- remainder gives.
use vanity_generator_evm_svm.Common.{ℕ, zero, suc, ◌+◌, ◌-◌, ◌*◌, ◌/◌, ◌%◌, ◌^◌, ◌≤◌, ◌<◌, ◌≡◌}
use vanity_generator_evm_svm.Common.{refl, ap, ◌∙◌, true, false, List, [], ◌∷◌, ◌++◌, map}
use vanity_generator_evm_svm.Common.{All, arith, length, IsByte, IsU32}
use vanity_generator_evm_svm.Common.{u32, u64, ◌<<<◌, bit_or, bit_or_fields, be32_lem}
use vanity_generator_evm_svm.Base58.{
  base5, divide, divide_from, leading_zeros, advance, emit, letter,
}
use vanity_generator_evm_svm.Base58.{limbs_of}
use vanity_generator_evm_svm.Base58.Digits.{value_from, digits58}
use native.Mathlib.Nat.{pow-suc, zero-add, suc-add, one-le-mul, one-le-pow}

-- `(remainder << 32) | limb` is their sum.
window : (r x : ℕ) → r < base5 → IsU32 x → bit_or (u64 (r <<< 32)) x ≡ r * 2 ^ 32 + x
window r x hr hx = ground (arith, bit_or_fields 32 r x hx)

-- A division keeps the value, and leaves limbs and a remainder in range.
pub divide_lem :
    (acc r : ℕ) (xs : List ℕ)
    → r < base5
    → All IsU32 xs
    → (value_from (2 ^ 32) acc (divide r xs).0 * base5 + (divide r xs).1
        ≡ value_from (2 ^ 32) (acc * base5 + r) xs)
      × ((divide r xs).1 < base5)
      × All IsU32 (divide r xs).0
      × (length (divide r xs).0 ≡ length xs)
unfolding divide
divide_lem acc r [] hr h = (omega arith, hr, tt, refl)
divide_lem acc r (x ∷ xs) hr (hx, h) = rw (window r x hr hx) (
    rw fits (
      let (kept, small, words, len) =
        divide_lem (acc * 2 ^ 32 + value / base5) (value % base5) xs (omega arith) h in
      (
        kept ∙ ap (λ t. value_from (2 ^ 32) t xs) (omega arith),
        small,
        (omega arith, words),
        ap suc len,
      )))
  where
    value : ℕ
    value = r * 2 ^ 32 + x

    fits : u32 (value / base5) ≡ value / base5
    fits = omega arith

zero_window : bit_or (u64 (0 <<< 32)) 0 ≡ 0
zero_window = refl

-- The limbs before the first nonzero one stay zero, so skipping them changes nothing.
pub divide_from-eq-divide :
    (xs : List ℕ) (f : ℕ) → f ≤ leading_zeros xs → divide_from f xs ≡ divide 0 xs
unfolding divide_from divide leading_zeros
divide_from-eq-divide xs zero h = refl
divide_from-eq-divide [] (suc f) h = refl
divide_from-eq-divide (x ∷ xs) (suc f) h = ground (arith, zero_window, divide_from-eq-divide xs f)

pub leading_zeros-divide : (xs : List ℕ) → leading_zeros xs ≤ leading_zeros (divide 0 xs).0
unfolding divide leading_zeros
leading_zeros-divide [] = omega arith
leading_zeros-divide (x ∷ xs) = ground (arith, zero_window, leading_zeros-divide xs)

pub advance_lem : (xs : List ℕ) (f : ℕ) → f ≤ leading_zeros xs → advance f xs ≡ leading_zeros xs
unfolding advance leading_zeros
advance_lem xs zero h = omega arith
advance_lem [] (suc f) h = elim h [ ]
advance_lem (x ∷ xs) (suc f) h = ground (arith, advance_lem xs f)

pub leading_zeros-le-length : (xs : List ℕ) → leading_zeros xs ≤ length xs
unfolding leading_zeros
leading_zeros-le-length [] = omega arith
leading_zeros-le-length (x ∷ xs) = ground (arith, leading_zeros-le-length xs)

-- All limbs are zero exactly when the value is 0.
value_from_pos : (b acc : ℕ) (xs : List ℕ) → 0 < b → 0 < acc → 0 < value_from b acc xs
value_from_pos b acc [] hb h = h
value_from_pos b acc (x ∷ xs) hb h = value_from_pos b (acc * b + x) xs hb (grind arith)

pub leading_zeros-all : (b : ℕ) (xs : List ℕ) → leading_zeros xs ≡ length xs → value_from b 0 xs ≡ 0
unfolding leading_zeros
leading_zeros-all b [] h = refl
leading_zeros-all b (x ∷ xs) h = ground (arith, leading_zeros-all b xs)

pub leading_zeros-some :
    (b : ℕ) (xs : List ℕ) → 0 < b → leading_zeros xs < length xs → 0 < value_from b 0 xs
unfolding leading_zeros
leading_zeros-some b [] hb h = elim h [ ]
leading_zeros-some b (x ∷ xs) hb h =
    ground (arith, leading_zeros-some b xs hb, value_from_pos b (0 * b + x) xs hb)

-- The digits of one pass: all five while limbs remain, and no zero at the top in the last.
pub emit_full :
    (n k r q : ℕ)
    → r < 58 ^ n
    → 0 < q
    → emit n false r ++ map letter (digits58 k q) ≡ map letter (digits58 (n + k) (q * 58 ^ n + r))
unfolding emit digits58
emit_full zero k r q h hq = rw (zero-add k) (ap (λ t. map letter (digits58 k t)) (omega arith))
emit_full (suc n) k r q h hq =
    rw (suc-add n k, split)
      (ground (
        arith,
        one-le-mul hq (one-le-pow n 58 (omega arith)),
        emit_full n k (r / 58) q (omega (arith, pow-suc 58 n)) hq,
      ))
  where
    split : q * 58 ^ suc n + r ≡ 58 * (q * 58 ^ n) + r
    split = omega (arith, ap (λ (t : ℕ). q * t) (pow-suc 58 n))

pub no_digits : (n : ℕ) → digits58 n 0 ≡ []
unfolding digits58
no_digits zero = refl
no_digits (suc n) = refl

pub emit_last : (n r : ℕ) → r < 58 ^ n → 0 < r → emit n true r ≡ map letter (digits58 n r)
unfolding emit digits58
emit_last zero r h pos = absurd (omega arith)
emit_last (suc n) r h pos = ground (arith, pow-suc 58 n, emit_last n (r / 58), no_digits n)

pub value-limbs_of :
    (acc : ℕ) (bs : List ℕ) (k : ℕ)
    → length bs ≡ 4 * k
    → All IsByte bs
    → (value_from (2 ^ 32) acc (limbs_of bs) ≡ value_from 256 acc bs)
      × All IsU32 (limbs_of bs)
      × (length (limbs_of bs) ≡ k)
unfolding limbs_of
value-limbs_of acc [] k e h = (refl, tt, omega arith)
value-limbs_of acc (a ∷ []) k e h = absurd (omega arith)
value-limbs_of acc (a ∷ b ∷ []) k e h = absurd (omega arith)
value-limbs_of acc (a ∷ b ∷ c ∷ []) k e h = absurd (omega arith)
value-limbs_of acc (a ∷ b ∷ c ∷ d ∷ bs) k e (ha, (hb, (hc, (hd, h)))) =
    rw (be32_lem a b c d ha hb hc hd) (
      let word = a * 2 ^ 24 + b * 2 ^ 16 + c * 2 ^ 8 + d in
      let (value, words, len) = value-limbs_of (acc * 2 ^ 32 + word) bs (k - 1) (omega arith) h in
      (
        value ∙ ap (λ t. value_from 256 t bs) (omega arith),
        (omega arith, words),
        omega (arith, len),
      ))
