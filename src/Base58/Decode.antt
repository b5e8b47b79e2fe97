-- ===== src/Base58/Decode.antt =====
-- Reading the text of a key back, for the encoder of kernels/base58_simple.cu.
use vanity_generator_evm_svm.Common.{ℕ, zero, suc, ◌+◌, ◌*◌, ◌^◌, ◌≤◌, ◌<◌, ◌≡◌, refl, ap, ◌∙◌, sym}
use vanity_generator_evm_svm.Common.{true, arith, List, [], ◌∷◌, ◌++◌, length, ◌==◌}
use vanity_generator_evm_svm.Common.{
  if◌then◌else◌, All, IsByte, map, reverse, replicate, ==_iff, some,
}
use vanity_generator_evm_svm.Common.{
  every, every_below, map-reverse, length-append, length-replicate,
}
use vanity_generator_evm_svm.Common.{length-reverse, length-map}
use vanity_generator_evm_svm.Base58.{letter, leading_zeros, reference, base58_alphabet}
use vanity_generator_evm_svm.Base58.{Encoded, simple_base58_encode_32}
use vanity_generator_evm_svm.Base58.Digits.{value_from, value_le, digits58, value_le-digits58}
use vanity_generator_evm_svm.Base58.Digits.{IsCanonical, digits58-IsCanonical}
use vanity_generator_evm_svm.Base58.Encode.{IsKey, key_value, key_value-lt, length-digits}
use vanity_generator_evm_svm.Base58.Reference.{reference-digits, encode-reference}
use mathlib.Core.List.{map-append, reverse-cons, append_cancel_right}
use mathlib.Core.Path.{ap₂}
use mathlib.Core.Option.{Option, none}

-- The place of a character in the alphabet; 58 if it has none.
position : List ℕ → ℕ → ℕ
position [] c = 0
position (x ∷ xs) c = if x == c then 0 else suc (position xs c)

pub digit_of : ℕ → ℕ
digit_of c = position base58_alphabet c

-- The number that a text stands for in base 58.
abbrev pub text_value : List ℕ → ℕ
text_value text = value_from 58 0 (map digit_of text)

letter_table : every (λ d. digit_of (letter d) == d) 0 58 ≡ true
unfolding every digit_of position letter base58_alphabet
letter_table = refl

digit_of-letter : (d : ℕ) → d < 58 → digit_of (letter d) ≡ d
digit_of-letter d lt = (==_iff _ d).0 (every_below _ 58 d lt letter_table)

digits_of-letters : (ds : List ℕ) → IsCanonical ds → map digit_of (map letter ds) ≡ ds
digits_of-letters [] h = refl
digits_of-letters (d ∷ ds) (lt, pos, h) = ap₂ ◌∷◌ (digit_of-letter d lt) (digits_of-letters ds h)

pub value_from-append :
    (b acc : ℕ) (xs ys : List ℕ)
    → value_from b acc (xs ++ ys) ≡ value_from b (value_from b acc xs) ys
value_from-append b acc [] ys = refl
value_from-append b acc (x ∷ xs) ys = value_from-append b (acc * b + x) xs ys

one_digit : digit_of b'1' ≡ 0
unfolding digit_of position base58_alphabet
one_digit = refl

value_from-ones : (z : ℕ) → value_from 58 0 (map digit_of (replicate z b'1')) ≡ 0
value_from-ones zero = refl
value_from-ones (suc z) =
    ap (λ t. value_from 58 (0 + t) (map digit_of (replicate z b'1'))) one_digit ∙ value_from-ones z

value_from-reverse : (ds : List ℕ) → value_from 58 0 (reverse ds) ≡ value_le ds
value_from-reverse [] = refl
value_from-reverse (d ∷ ds) =
    rw (reverse-cons d ds, value_from-append 58 0 (reverse ds) (d ∷ []))
      (omega (arith, value_from-reverse ds))

-- Read in base 58, the text of a 32-byte key is the key's number.
pub text_value-reference :
    (input : List ℕ) → IsKey input → text_value (reference input) ≡ key_value input
text_value-reference input key =
    ap text_value (reference-digits input key)
    ∙ ap (value_from 58 0) (map-append digit_of (replicate z b'1') (reverse (map letter digits)))
    ∙ value_from-append 58 0 (map digit_of (replicate z b'1')) _
    ∙ ap (λ t. value_from 58 t (map digit_of (reverse (map letter digits)))) (value_from-ones z)
    ∙ ap (value_from 58 0) (
        map-reverse digit_of (map letter digits)
        ∙ ap reverse (digits_of-letters digits (digits58-IsCanonical 45 (key_value input) small)))
    ∙ value_from-reverse digits
    ∙ value_le-digits58 45 (key_value input) small
  where
    z : ℕ
    z = leading_zeros input

    digits : List ℕ
    digits = digits58 45 (key_value input)

    small : key_value input < 58 ^ 45
    small = omega (arith, key_value-lt input key)

value_from-injective :
    (a b : ℕ) (xs ys : List ℕ)
    → All IsByte xs
    → All IsByte ys
    → length xs ≡ length ys
    → value_from 256 a xs ≡ value_from 256 b ys
    → (a ≡ b) × (xs ≡ ys)
value_from-injective a b [] [] hx hy e v = (v, refl)
value_from-injective a b [] (y ∷ ys) hx hy e v = absurd (omega arith)
value_from-injective a b (x ∷ xs) [] hx hy e v = absurd (omega arith)
value_from-injective a b (x ∷ xs) (y ∷ ys) (hx, hxs) (hy, hys) e v =
    let (heads, tails) =
      value_from-injective (a * 256 + x) (b * 256 + y) xs ys hxs hys (omega arith) v in
    (omega arith, ap₂ ◌∷◌ (omega arith) tails)

abbrev output_of : Option Encoded → List ℕ
output_of none = []
output_of (some e) = e.output

-- Two 32-byte keys for which `simple_base58_encode_32` writes the same text are the same key.
pub encode_injective :
    (a b : List ℕ)
    → IsKey a
    → IsKey b
    → simple_base58_encode_32 a ≡ simple_base58_encode_32 b
    → a ≡ b
encode_injective a b ka kb e = (value_from-injective 0 0 a b ka.0 kb.0 (ka.1 ∙ sym kb.1) values).1
  where
    outputs : reference a ++ (0 ∷ []) ≡ reference b ++ (0 ∷ [])
    outputs = ap output_of (sym (encode-reference a ka) ∙ e ∙ encode-reference b kb)

    values : key_value a ≡ key_value b
    values =
        sym (text_value-reference a ka)
        ∙ ap text_value (append_cancel_right (reference a) (reference b) (0 ∷ []) outputs)
        ∙ text_value-reference b kb

-- On every 32-byte key the encoder ends; it writes at most 44 characters and a NUL, and returns the
-- number of characters.
pub encode_fits :
    (input : List ℕ)
    → IsKey input
    → (e : Encoded) × (simple_base58_encode_32 input ≡ some e)
      × (length e.output ≡ e.size + 1)
      × (e.size ≤ 44)
encode_fits input key = (
  record { output = reference input ++ (0 ∷ []); size = length (reference input) },
  encode-reference input key,
  omega (arith, length-append (reference input) (0 ∷ [])),
  omega (arith, size, length-digits input key),
)
  where
    z : ℕ
    z = leading_zeros input

    letters : List ℕ
    letters = map letter (digits58 45 (key_value input))

    size : length (reference input) ≡ z + length (digits58 45 (key_value input))
    size =
        ap length (reference-digits input key)
        ∙ omega (
          arith,
          length-append (replicate z b'1') (reverse letters),
          length-replicate {A = ℕ} z b'1',
          length-reverse {A = ℕ} letters,
          length-map letter (digits58 45 (key_value input)),
        )
