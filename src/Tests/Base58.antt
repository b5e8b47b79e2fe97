-- ===== src/Tests/Base58.antt =====
-- Runs of the encoders of kernels/base58_simple.cu, and the theorems about them at a key.
use vanity_generator_evm_svm.Common.{ℕ, ◌+◌, ◌≤◌, ◌≡◌, refl, arith, List, [], ◌∷◌, ◌++◌, replicate}
use vanity_generator_evm_svm.Common.{length, some}
use vanity_generator_evm_svm.Base58.{Encoded, simple_base58_encode_32}
use vanity_generator_evm_svm.Base58.{reference, leading_zeros, limbs_of, advance}
use vanity_generator_evm_svm.Base58.{convert, write_out}
use vanity_generator_evm_svm.Base58.Encode.{IsKey, key_value}
use vanity_generator_evm_svm.Base58.Reference.{encode-reference}
use vanity_generator_evm_svm.Base58.Decode.{text_value, text_value-reference, encode_fits}

abbrev pub key : List ℕ
key = 0 ∷ 7 ∷ replicate 30 200

abbrev zero_key : List ℕ
zero_key = replicate 32 0

pub key-IsKey : IsKey key
key-IsKey = (omega arith, refl)

zero_key_runs :
    simple_base58_encode_32 zero_key
    ≡ some (record { output = replicate 32 b'1' ++ (0 ∷ []); size = 32 })
unfolding simple_base58_encode_32 leading_zeros limbs_of advance convert write_out
zero_key_runs = refl

encode-reference_example :
    simple_base58_encode_32 key
    ≡ some (record { output = reference key ++ (0 ∷ []); size = length (reference key) })
encode-reference_example = encode-reference key key-IsKey

encode_fits_example :
    (e : Encoded) × (simple_base58_encode_32 key ≡ some e)
    × (length e.output ≡ e.size + 1)
    × (e.size ≤ 44)
encode_fits_example = encode_fits key key-IsKey

text_value-reference_example : text_value (reference key) ≡ key_value key
text_value-reference_example = text_value-reference key key-IsKey
