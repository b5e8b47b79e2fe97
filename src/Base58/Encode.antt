-- ===== src/Base58/Encode.antt =====
-- The whole of `simple_base58_encode_32` (kernels/base58_simple.cu), against digits of the number
-- of the key.
use vanity_generator_evm_svm.Common.{ℕ, zero, suc, ◌+◌, ◌-◌, ◌*◌, ◌^◌, ◌≤◌, ◌<◌, ◌≡◌}
use vanity_generator_evm_svm.Common.{
  refl, ap, sym, ◌∙◌, Bool, true, false, List, [], ◌∷◌, ◌++◌, map,
}
use vanity_generator_evm_svm.Common.{◌==◌, All, arith, length, IsByte, IsU32}
use vanity_generator_evm_svm.Common.{some, leb}
use vanity_generator_evm_svm.Common.{every, every_below, leb→le}
use vanity_generator_evm_svm.Base58.{base5, divide, leading_zeros, emit, letter}
use vanity_generator_evm_svm.Base58.{limbs_of, convert, write_out, simple_base58_encode_32}
use vanity_generator_evm_svm.Base58.Digits.{value_from, digits58, digits58_fuel, length-digits58}
use vanity_generator_evm_svm.Base58.Passes.{divide_lem, divide_from-eq-divide, leading_zeros-divide}
use vanity_generator_evm_svm.Base58.Passes.{advance_lem, leading_zeros-le-length, leading_zeros-all}
use vanity_generator_evm_svm.Base58.Passes.{leading_zeros-some, emit_full, emit_last, no_digits}
use vanity_generator_evm_svm.Base58.Passes.{value-limbs_of}
use native.Mathlib.Nat.{pow-suc, pow-le-pow_right, lt_of_lt_of_le}
use Prim.Native.Nat.{zero-le}
use mathlib.Core.Option
use native.Mathlib.Decide.{dec_lt}
use mathlib.Core.List.{append_assoc, append-nil}

pow_five : (n : ℕ) → 58 ^ (5 + n) ≡ base5 * 58 ^ n
pow_five n =
    let shift : 5 + n ≡ suc (suc (suc (suc (suc n)))) = omega arith in
    rw shift (
      omega (
        arith,
        pow-suc 58 n,
        pow-suc 58 (suc n),
        pow-suc 58 (suc (suc n)),
        pow-suc 58 (suc (suc (suc n))),
        pow-suc 58 (suc (suc (suc (suc n)))),
      ))

-- The digits that one pass emits, followed by those of the quotient. `last` tells that the quotient
-- is 0.
pass_digits :
    (last : Bool) (m q r : ℕ)
    → r < base5
    → 0 < q * base5 + r
    → (last ≡ true → q ≡ 0)
    → (last ≡ false → 0 < q)
    → emit 5 last r ++ map letter (digits58 m q) ≡ map letter (digits58 (5 + m) (q * base5 + r))
pass_digits true m q r small pos zeros more =
    rw (zeros refl, no_digits m, append-nil, emit_last 5 r small (omega (arith, zeros refl)))
      (ap (map letter) (digits58_fuel 5 (5 + m) r small wide)
        ∙ ap (λ t. map letter (digits58 (5 + m) t)) (omega arith))
  where
    wide : r < 58 ^ (5 + m)
    wide = omega (arith, pow-le-pow_right {n = 58} (omega arith) {i = 5} {j = 5 + m} (omega arith))
pass_digits false m q r small pos zeros more = emit_full 5 m r q small (more refl)

module _ (limbs reversed : List ℕ) where
  abbrev quotients : List ℕ
  quotients = (divide 0 limbs).0

  abbrev remainder : ℕ
  remainder = (divide 0 limbs).1

  convert_done :
      (fuel : ℕ)
      → leading_zeros limbs ≡ 8
      → convert (suc fuel) (leading_zeros limbs) limbs reversed ≡ some reversed
  unfolding convert
  convert_done fuel z = rw z

  convert_step :
      (fuel : ℕ)
      → leading_zeros limbs < 8
      → convert (suc fuel) (leading_zeros limbs) limbs reversed
        ≡ convert fuel
            (leading_zeros quotients)
            quotients
            (reversed ++ emit 5 (leading_zeros quotients == 8) remainder)
  unfolding convert
  convert_step fuel z = ground (
    arith,
    divide_from-eq-divide limbs (leading_zeros limbs),
    advance_lem quotients (leading_zeros limbs),
    leading_zeros-divide limbs,
  )

  -- A pass keeps the value, and its digits come before those of the quotient.
  abbrev value : ℕ
  value = value_from (2 ^ 32) 0 limbs

  abbrev quotient : ℕ
  quotient = value_from (2 ^ 32) 0 quotients

  module _ (words : All IsU32 limbs) (len : length limbs ≡ 8) where
    divided :
        (quotient * base5 + remainder ≡ value)
        × (remainder < base5)
        × All IsU32 quotients
        × (length quotients ≡ 8)
    divided =
        let (kept, small, words', len') = divide_lem 0 0 limbs (omega arith) words in
        (kept, small, words', len' ∙ len)

    pass_lem :
        (m : ℕ)
        → leading_zeros limbs < 8
        → emit 5 (leading_zeros quotients == 8) remainder ++ map letter (digits58 m quotient)
          ≡ map letter (digits58 (5 + m) value)
    pass_lem m left =
        let (kept, small, words', len') = divided in
        pass_digits (leading_zeros quotients == 8) m quotient remainder small
          (omega (arith, kept, leading_zeros-some (2 ^ 32) limbs))
          (λ e. leading_zeros-all (2 ^ 32) quotients (ground (arith, len')))
          (λ e.
            leading_zeros-some (2 ^ 32) quotients (omega arith)
              (ground (arith, len', leading_zeros-le-length quotients)))
        ∙ ap (λ t. map letter (digits58 (5 + m) t)) kept

convert_none :
    (limbs reversed : List ℕ) (fuel : ℕ)
    → length limbs ≡ 8
    → 8 ≤ leading_zeros limbs
    → convert (suc fuel) (leading_zeros limbs) limbs reversed
      ≡ some (reversed ++ map letter (digits58 (5 * fuel) (value_from (2 ^ 32) 0 limbs)))
convert_none limbs reversed fuel len le =
    let z : leading_zeros limbs ≡ 8 = omega (arith, leading_zeros-le-length limbs, len) in
    convert_done limbs reversed fuel z
    ∙ ap some (
        rw (leading_zeros-all (2 ^ 32) limbs (z ∙ sym len), no_digits (5 * fuel))
          (sym (append-nil reversed)))

quotient_lt : (fuel q r v : ℕ) → q * base5 + r ≡ v → v < 58 ^ (5 * suc fuel) → q < 58 ^ (5 * fuel)
quotient_lt fuel q r v e lt =
    let shift : 5 * suc fuel ≡ 5 + 5 * fuel = omega arith in
    let lt' : v < 58 ^ (5 + 5 * fuel) = rw (← shift) lt in omega (arith, pow_five (5 * fuel))

no_value :
    (limbs : List ℕ)
    → length limbs ≡ 8
    → leading_zeros limbs < 8
    → value_from (2 ^ 32) 0 limbs < 1
    → ⊥
no_value limbs len left lt = omega (arith, len, leading_zeros-some (2 ^ 32) limbs)

-- Limbs that are all words, with `first` at the first nonzero one: for a value below
-- 58 ^ (5 * fuel), `fuel` passes and a last test are enough, and they append the digits.
pub convert_lem :
    (fuel : ℕ) (limbs reversed : List ℕ)
    → All IsU32 limbs
    → length limbs ≡ 8
    → value_from (2 ^ 32) 0 limbs < 58 ^ (5 * fuel)
    → convert (suc fuel) (leading_zeros limbs) limbs reversed
      ≡ some (reversed ++ map letter (digits58 (5 * fuel) (value_from (2 ^ 32) 0 limbs)))
convert_lem zero limbs reversed words len lt = elim (dec_lt (leading_zeros limbs) 8) [
  | yes left ↦ absurd (no_value limbs len left lt)
  | no done ↦ convert_none limbs reversed zero len (omega arith)
]
convert_lem (suc fuel) limbs reversed words len lt = elim (dec_lt (leading_zeros limbs) 8) [
  | yes left ↦
      let (kept, small, words', len') = divided limbs reversed words len in
      let emitted =
        emit 5 (leading_zeros (quotients limbs reversed) == 8) (remainder limbs reversed) in
      convert_step limbs reversed (suc fuel) left
      ∙ convert_lem fuel (quotients limbs reversed) (reversed ++ emitted) words' len'
          (quotient_lt fuel (quotient limbs reversed) (remainder limbs reversed) _ kept lt)
      ∙ ap some (
          append_assoc reversed emitted _
          ∙ ap (λ t. reversed ++ t) (pass_lem limbs reversed words len (5 * fuel) left)
          ∙ ap (λ n. reversed ++ map letter (digits58 n (value limbs reversed))) (omega arith))
  | no done ↦ convert_none limbs reversed (suc fuel) len (omega arith)
]

-- A 32-byte key, as the byte array that the callers pass.
abbrev pub IsKey : List ℕ → Type 0
IsKey input = All IsByte input × (length input ≡ 32)

-- The number that a key stands for.
abbrev pub key_value : List ℕ → ℕ
key_value input = value_from 256 0 input

pub value_from-lt :
    (acc m : ℕ) (bs : List ℕ)
    → All IsByte bs
    → acc < m
    → value_from 256 acc bs < m * 256 ^ length bs
value_from-lt acc m [] h lt = omega arith
value_from-lt acc m (b ∷ bs) (hb, h) lt = omega (
  arith,
  value_from-lt (acc * 256 + b) (m * 256) bs h (omega arith),
  ap (λ (t : ℕ). m * t) (pow-suc 256 (length bs)),
)

pub key_value-lt : (input : List ℕ) → IsKey input → key_value input < 2 ^ 256
key_value-lt input (bytes, len) =
    let lt = value_from-lt 0 1 input bytes (omega arith) in
    let small : key_value input < 1 * 256 ^ 32 = rw len at lt in omega arith

-- What the encoder makes of a key: the text and its NUL, and the length of the text.
pub encode-digits :
    (input : List ℕ)
    → IsKey input
    → simple_base58_encode_32 input
      ≡ some (write_out (leading_zeros input) (map letter (digits58 45 (key_value input))))
unfolding simple_base58_encode_32
encode-digits input (bytes, len) =
    let (value, words, limbs_len) = value-limbs_of 0 input 8 len bytes in
    let small = key_value-lt input (bytes, len) in
    rw (advance_lem (limbs_of input) 0 zero-le) (
      ap (Option.map (write_out (leading_zeros input))) (
        convert_lem 9 (limbs_of input) [] words limbs_len (rw value (omega arith))
        ∙ ap (λ t. some (map letter (digits58 45 t))) value))

-- Leading zero bytes leave a smaller value.
leading_zeros-value :
    (input : List ℕ)
    → All IsByte input
    → value_from 256 0 input < 256 ^ (length input - leading_zeros input)
unfolding leading_zeros
leading_zeros-value [] h = omega arith
leading_zeros-value (x ∷ xs) (hx, h) =
    ground (
      arith,
      leading_zeros-value xs h,
      value_from-lt (0 * 256 + x) 256 xs h,
      pow-suc 256 (length xs),
    )

-- With z leading zero bytes a key has at most 44 - z digits.
fits_table : every (λ z. leb (256 ^ (32 - z)) (58 ^ (44 - z))) 0 33 ≡ true
unfolding every
fits_table = refl

pub length-digits :
    (input : List ℕ)
    → IsKey input
    → length (digits58 45 (key_value input)) + leading_zeros input ≤ 44
length-digits input (bytes, len) =
    omega (arith, length-digits58 45 (44 - z) (key_value input) below, le32)
  where
    z : ℕ
    z = leading_zeros input

    le32 : z ≤ 32
    le32 = omega (arith, leading_zeros-le-length input, len)

    below : key_value input < 58 ^ (44 - z)
    below =
        lt_of_lt_of_le (rw len at (leading_zeros-value input bytes))
          (leb→le _ _ (every_below _ 33 z (omega (arith, le32)) fits_table))
