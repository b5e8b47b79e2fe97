-- ===== src/Base58.antt =====
-- kernels/base58_simple.cu: the Base58 encoder of 32-byte keys and the suffix-only encoder; and
-- the byte-at-a-time reference encoder of kernels/test_primitives.cu. A byte array is the list of
-- its elements.
pub mod Digits
pub mod Passes
pub mod Encode
pub mod Reference
pub mod Decode
use Prim.Native.Char.{code}
use Prim.Native.String.{String}
use mathlib.Core.Option
use vanity_generator_evm_svm.Common.{ℕ, zero, suc, ◌+◌, ◌-◌, ◌*◌, ◌/◌, ◌%◌, ◌^◌, Bool, true, false}
use vanity_generator_evm_svm.Common.{◌&&◌, Option, none, some, List, [], ◌∷◌, ◌++◌, map, reverse}
use vanity_generator_evm_svm.Common.{
  ltb, ◌==◌, if◌then◌else◌, length, get_or, take, drop, replicate,
}
use vanity_generator_evm_svm.Common.{u32, u64, ◌<<<◌, be32, bit_or}

abbrev codes : String → List ℕ
codes String.[] = []
codes (String.◌∷◌ c s) = code c ∷ codes s

-- `BASE58_ALPHABET`
unfoldable pub base58_alphabet : List ℕ
base58_alphabet = codes "123456789ABCDEFGHJKLMNPQRSTUVWXYZabcdefghijkmnopqrstuvwxyz"

unfoldable pub letter : ℕ → ℕ
unfolding base58_alphabet
letter d = get_or base58_alphabet d 0

-- 58 ^ 5
abbrev pub base5 : ℕ
base5 = 656356768

-- `while (i < n && a[i] == 0) ++i`, from the front of the array
unfoldable pub leading_zeros : List ℕ → ℕ
leading_zeros [] = 0
leading_zeros (x ∷ xs) = if x == 0 then suc (leading_zeros xs) else 0

-- Eight big-endian limbs.
unfoldable pub limbs_of : List ℕ → List ℕ
limbs_of (b0 ∷ b1 ∷ b2 ∷ b3 ∷ rest) = be32 b0 b1 b2 b3 ∷ limbs_of rest
limbs_of _ = []

-- The inner `for` over the limbs: the quotients, and the remainder at the end.
unfoldable pub divide : ℕ → List ℕ → List ℕ × ℕ
divide remainder [] = ([], remainder)
divide remainder (limb ∷ limbs) =
    let value = bit_or (u64 (remainder <<< 32)) limb in
    let (quotients, last) = divide (value % base5) limbs in (u32 (value / base5) ∷ quotients, last)

-- The same from limb `first` on; the limbs before it are left alone.
unfoldable pub divide_from : ℕ → List ℕ → List ℕ × ℕ
divide_from zero limbs = divide 0 limbs
divide_from (suc first) [] = ([], 0)
divide_from (suc first) (limb ∷ limbs) =
    let (quotients, last) = divide_from first limbs in (limb ∷ quotients, last)

-- `while (first < 8 && limbs[first] == 0) ++first`
unfoldable pub advance : ℕ → List ℕ → ℕ
advance first limbs = first + leading_zeros (drop first limbs)

-- The `for` that emits up to five digits; `last` is `first == 8`.
unfoldable pub emit : ℕ → Bool → ℕ → List ℕ
emit zero last remainder = []
emit (suc n) last remainder =
    letter (remainder % 58)
    ∷ (if last && (remainder / 58) == 0 then [] else emit n last (remainder / 58))

-- The `while (first < 8)` of `simple_base58_encode_32`, on fuel; `none` means that it ran out.
unfoldable pub convert : ℕ → ℕ → List ℕ → List ℕ → Option (List ℕ)
convert zero first limbs reversed = none
convert (suc fuel) first limbs reversed = elim (ltb first 8) [
  | true ↦
      let (quotients, remainder) = divide_from first limbs in
      let first' = advance first quotients in
      convert fuel first' quotients (reversed ++ emit 5 (first' == 8) remainder)
  | false ↦ some reversed
]

-- What is written to `output`, the final NUL included, and the value returned.
pub record Encoded : Type 0 where
  pub output : List ℕ
  pub size : ℕ

unfoldable pub write_out : ℕ → List ℕ → Encoded
write_out zeros reversed = record {
  output = replicate zeros b'1' ++ (reverse reversed ++ (0 ∷ []));
  size = zeros + length reversed;
}

unfoldable pub simple_base58_encode_32 : List ℕ → Option Encoded
simple_base58_encode_32 input =
    let limbs = limbs_of input in
    Option.map (write_out (leading_zeros input)) (convert 10 (advance 0 limbs) limbs [])

-- One input byte: `carry += digits[j] * 256`, and the digits that the last carry appends.
unfoldable pub push_carry : ℕ → ℕ → List ℕ
push_carry zero carry = []
push_carry (suc fuel) carry = if carry == 0 then [] else (carry % 58) ∷ push_carry fuel (carry / 58)

-- Enough rounds for a carry below 58 ^ 3.
abbrev pub carry_rounds : ℕ
carry_rounds = 3

unfoldable pub mul_add : ℕ → List ℕ → List ℕ
mul_add carry [] = push_carry carry_rounds carry
mul_add carry (d ∷ ds) = ((carry + d * 256) % 58) ∷ mul_add ((carry + d * 256) / 58) ds

unfoldable pub to_digits : List ℕ → List ℕ → List ℕ
to_digits digits [] = digits
to_digits digits (b ∷ bytes) = to_digits (mul_add b digits) bytes

-- `reference` of the differential test: the text without its NUL.
unfoldable pub reference : List ℕ → List ℕ
reference input =
    let zeros = leading_zeros input in
    replicate zeros b'1' ++ map letter (reverse (to_digits [] (drop zeros input)))

-- `simple_base58_suffix_32`: the digits start as a single 0, and the last `k` come out backwards.
unfoldable pub simple_base58_suffix_32 : List ℕ → ℕ → List ℕ
simple_base58_suffix_32 input k = map letter (take k (to_digits (0 ∷ []) input))
