-- ===== src/Base58/Reference.antt =====
-- The byte-at-a-time conversion of `reference` and `simple_base58_suffix_32`, against the same
-- digits as the encoder.
use vanity_generator_evm_svm.Common.{ℕ, zero, suc, ◌+◌, ◌*◌, ◌/◌, ◌^◌, ◌≤◌, ◌<◌, ◌≡◌}
use vanity_generator_evm_svm.Common.{refl, ap, sym, ◌∙◌, List, [], ◌∷◌, ◌++◌, map}
use vanity_generator_evm_svm.Common.{All, arith, length, replicate, IsByte}
use vanity_generator_evm_svm.Common.{
  reverse, take, drop, length-reverse, map-reverse, length-append, length-replicate, map-take,
  take-append_left, some,
}
use vanity_generator_evm_svm.Base58.{letter, leading_zeros, push_carry, carry_rounds, mul_add}
use vanity_generator_evm_svm.Base58.{to_digits, reference, write_out}
use vanity_generator_evm_svm.Base58.{simple_base58_encode_32, simple_base58_suffix_32}
use vanity_generator_evm_svm.Base58.Digits.{
  value_from, value_le, digits58, digits58_fuel, IsCanonical,
}
use vanity_generator_evm_svm.Base58.Digits.{
  canonical-digits58, value_le-digits58, digits58-IsCanonical,
}
use vanity_generator_evm_svm.Base58.Encode.{IsKey, key_value, key_value-lt, encode-digits}
use mathlib.Core.List.{append_assoc, reverse-append, reverse-reverse}

push_carry-digits58 : (k c : ℕ) → push_carry k c ≡ digits58 k c
unfolding push_carry digits58
push_carry-digits58 zero c = refl
push_carry-digits58 (suc k) c = ground (arith, push_carry-digits58 k (c / 58))

-- One byte: the digits stay canonical, and their value becomes 256 times the old one and the byte.
-- So `carry_rounds` rounds are enough for the carry that is left over.
pub mul_add_lem :
    (carry : ℕ) (ds : List ℕ)
    → carry < 256
    → IsCanonical ds
    → IsCanonical (mul_add carry ds) × (value_le (mul_add carry ds) ≡ carry + 256 * value_le ds)
unfolding mul_add
mul_add_lem carry [] lt h =
    rw (push_carry-digits58 carry_rounds carry)
      ((digits58-IsCanonical 3 carry (omega arith), omega (arith, value_le-digits58 3 carry)))
mul_add_lem carry (d ∷ ds) lt (d58, pos, h) =
    let (canon, value) = mul_add_lem ((carry + d * 256) / 58) ds (omega arith) h in
    ((omega arith, omega (arith, value), canon), omega (arith, value))

pub to_digits_lem :
    (ds bs : List ℕ)
    → All IsByte bs
    → IsCanonical ds
    → IsCanonical (to_digits ds bs) × (value_le (to_digits ds bs) ≡ value_from 256 (value_le ds) bs)
unfolding to_digits
to_digits_lem ds [] hb h = (h, refl)
to_digits_lem ds (b ∷ bs) (hb, hbs) h =
    let (canon, value) = mul_add_lem b ds hb h in
    let (canon', value') = to_digits_lem (mul_add b ds) bs hbs canon in
    (canon', value' ∙ ap (λ t. value_from 256 t bs) (omega (arith, value)))

to_digits-digits58 :
    (ds bs : List ℕ)
    → All IsByte bs
    → IsCanonical ds
    → value_from 256 (value_le ds) bs < 58 ^ 45
    → to_digits ds bs ≡ digits58 45 (value_from 256 (value_le ds) bs)
to_digits-digits58 ds bs hb h lt =
    let (canon, value) = to_digits_lem ds bs hb h in
    canonical-digits58 45 (to_digits ds bs) canon (rw value lt) ∙ ap (digits58 45) value

drop_zeros : (bs : List ℕ) → value_from 256 0 (drop (leading_zeros bs) bs) ≡ value_from 256 0 bs
unfolding leading_zeros
drop_zeros [] = refl
drop_zeros (b ∷ bs) = ground (arith, drop_zeros bs)

drop-All : (n : ℕ) (bs : List ℕ) → All IsByte bs → All IsByte (drop n bs)
drop-All zero bs h = h
drop-All (suc n) [] h = tt
drop-All (suc n) (b ∷ bs) (hb, h) = drop-All n bs h

pub reference-digits :
    (input : List ℕ)
    → IsKey input
    → reference input
      ≡ replicate (leading_zeros input) b'1' ++ reverse (map letter (digits58 45 (key_value input)))
unfolding reference
reference-digits input key =
    let z = leading_zeros input in
    let lt : key_value input < 58 ^ 45 = omega (arith, key_value-lt input key) in
    ap (λ t. replicate z b'1' ++ t)
      (ap (λ ds. map letter (reverse ds))
          (to_digits-digits58 [] (drop z input) (drop-All z input key.0) tt
              (rw (drop_zeros input) lt)
            ∙ ap (digits58 45) (drop_zeros input))
        ∙ map-reverse letter (digits58 45 (key_value input)))

-- The limb-wise encoder agrees with the byte-at-a-time reference on every key: it writes the same
-- text, then a NUL, and returns the length of the text.
pub encode-reference :
    (input : List ℕ)
    → IsKey input
    → simple_base58_encode_32 input
      ≡ some (record { output = reference input ++ (0 ∷ []); size = length (reference input) })
unfolding write_out
encode-reference input key =
    let z = leading_zeros input in
    let letters = map letter (digits58 45 (key_value input)) in
    encode-digits input key
    ∙ ap some (
        rw (reference-digits input key) (
          rw (
            append_assoc (replicate z b'1') (reverse letters) (0 ∷ []),
            length-append (replicate z b'1') (reverse letters),
            length-replicate {A = ℕ} z b'1',
            length-reverse letters,
          )))

first_byte : (b : ℕ) → 0 < b → b < 256 → mul_add b (0 ∷ []) ≡ digits58 3 b
unfolding mul_add digits58
first_byte b pos lt =
    ground (arith, push_carry-digits58 3 ((b + 0 * 256) / 58), digits58_fuel 3 2 (b / 58))

zero_byte : (bs : List ℕ) → to_digits (0 ∷ []) (0 ∷ bs) ≡ to_digits (0 ∷ []) bs
unfolding to_digits mul_add push_carry
zero_byte bs = refl

-- The suffix-only conversion starts from a single zero digit, which stays only for the key 0.
to_digits-zero :
    (bs : List ℕ)
    → All IsByte bs
    → 0 < value_from 256 0 bs
    → value_from 256 0 bs < 58 ^ 45
    → to_digits (0 ∷ []) bs ≡ digits58 45 (value_from 256 0 bs)
to_digits-zero [] h pos lt = absurd (omega arith)
to_digits-zero (zero ∷ bs) (hb, h) pos lt = zero_byte bs ∙ to_digits-zero bs h pos lt
to_digits-zero (suc b ∷ bs) (hb, h) pos lt =
    unfold to_digits in
    rw (first_byte (suc b) (omega arith) hb) (
      to_digits-digits58 (digits58 3 (suc b)) bs h (digits58-IsCanonical 3 (suc b) (omega arith))
        (rw start lt)
      ∙ ap (λ t. digits58 45 (value_from 256 t bs)) start)
  where
    start : value_le (digits58 3 (suc b)) ≡ 0 * 256 + suc b
    start = omega (arith, value_le-digits58 3 (suc b) (omega arith))

-- `simple_base58_suffix_32` gives the last `k` characters of the full text, the last one first, as
-- long as the key is not 0 and the text has that many characters behind its leading '1's.
pub suffix-take :
    (input : List ℕ) (k : ℕ)
    → IsKey input
    → 0 < key_value input
    → k + leading_zeros input ≤ length (reference input)
    → simple_base58_suffix_32 input k ≡ take k (reverse (reference input))
unfolding simple_base58_suffix_32
suffix-take input k key pos fits =
    let z = leading_zeros input in
    let digits = digits58 45 (key_value input) in
    let fits' : k + z ≤ length (replicate z b'1' ++ reverse (map letter digits)) =
      rw (reference-digits input key) at fits in
    let enough : k ≤ length (map letter digits) = omega (
      arith,
      fits',
      length-append (replicate z b'1') (reverse (map letter digits)),
      length-replicate {A = ℕ} z b'1',
      length-reverse (map letter digits),
    ) in
    rw
      (
        to_digits-zero input key.0 pos (omega (arith, key_value-lt input key)),
        reference-digits input key,
        reverse-append (replicate z b'1') (reverse (map letter digits)),
        reverse-reverse (map letter digits),
        map-take letter k digits,
      )
      (sym (take-append_left k (map letter digits) (reverse (replicate z b'1')) enough))
