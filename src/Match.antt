-- ===== src/Match.antt =====
-- The pattern tests of the search kernels: `matches_target_sol_opt` of
-- kernels/sol_vanity_optimized.cu, `base58_suffix_match_mod_32` of kernels/base58_simple.cu, and
-- `matches_target_eth_ultra` and `address_to_hex_ultra` of kernels/eth_vanity_ultra.cu.
-- A character is its code; the codes above 127, which a signed `char` makes negative, are letters
-- in neither reading, so the tests agree on them.
pub mod Split
pub mod Sol
pub mod Eth
pub mod Prefilter
use Prim.Native.Char.{code}
use Prim.Native.String.{String}
use vanity_generator_evm_svm.Common.{ℕ, zero, suc, ◌+◌, ◌-◌, ◌*◌, ◌/◌, ◌%◌, ◌^◌, Bool, true, false}
use vanity_generator_evm_svm.Common.{◌&&◌, ◌||◌, not, List, [], ◌∷◌, ltb, leb, ◌==◌, if◌then◌else◌}
use vanity_generator_evm_svm.Common.{get_or, bit_and, bit_or, ◌<<<◌, ◌>>>◌, u64, be32}
use vanity_generator_evm_svm.Base58.{letter}

-- `for (i = 0; i < n; ++i) if (f(i) != g(i)) return false;` from index `i` with `n` rounds left.
unfoldable pub agree : ℕ → ℕ → (ℕ → ℕ) → (ℕ → ℕ) → Bool
agree zero i f g = true
agree (suc n) i f g = if f i == g i then agree n (i + 1) f g else false

-- `if (a >= 'A' && a <= 'Z') a = a + 32;`
unfoldable pub to_lower : ℕ → ℕ
to_lower c = if leb b'A' c && leb c b'Z' then c + 32 else c

-- What the case-insensitive and the case-sensitive loops compare.
unfoldable pub fold_case : Bool → ℕ → ℕ
fold_case case_insensitive c = if case_insensitive then to_lower c else c

unfoldable pub matches_target_sol_opt : List ℕ → ℕ → List ℕ → ℕ → List ℕ → ℕ → Bool → Bool
matches_target_sol_opt address address_len target target_len suffix suffix_len case_insensitive =
    if ltb address_len target_len || ltb address_len suffix_len
    then false
    else agree target_len 0 (λ i. fold_case case_insensitive (get_or address i 0))
        (λ i. fold_case case_insensitive (get_or target i 0))
      && agree suffix_len 0
          (λ i. fold_case case_insensitive (get_or address (address_len - suffix_len + i) 0))
          (λ i. fold_case case_insensitive (get_or suffix i 0))

-- `r = ((r << 32) | word) % 58^4` over the eight words of the key.
unfoldable pub mod_limbs : ℕ → List ℕ → ℕ
mod_limbs r (b0 ∷ b1 ∷ b2 ∷ b3 ∷ rest) =
    mod_limbs (bit_or (u64 (r <<< 32)) (be32 b0 b1 b2 b3) % 58 ^ 4) rest
mod_limbs r _ = r

-- The loop over the last `k` characters, with `n` rounds left at index `i`.
unfoldable pub suffix_loop : ℕ → ℕ → ℕ → List ℕ → ℕ → Bool → Bool
suffix_loop zero i r suffix suffix_len case_insensitive = true
suffix_loop (suc n) i r suffix suffix_len case_insensitive =
    if fold_case case_insensitive (letter (r % 58))
      == fold_case case_insensitive (get_or suffix (suffix_len - 1 - i) 0)
    then suffix_loop n (i + 1) (r / 58) suffix suffix_len case_insensitive
    else false

unfoldable pub base58_suffix_match_mod_32 : List ℕ → List ℕ → ℕ → Bool → Bool
base58_suffix_match_mod_32 input suffix suffix_len case_insensitive =
    let k = if ltb suffix_len 4 then suffix_len else 4 in
    suffix_loop k 0 (mod_limbs 0 input) suffix suffix_len case_insensitive

abbrev codes : String → List ℕ
codes String.[] = []
codes (String.◌∷◌ c s) = code c ∷ codes s

unfoldable pub hex_chars : List ℕ
hex_chars = codes "0123456789abcdef"

-- `hex[(address[i/2] >> ((i & 1) ? 0 : 4)) & 15]`
unfoldable pub hex_at : List ℕ → ℕ → ℕ
hex_at address i =
    let shift = if bit_and i 1 == 0 then 4 else 0 in
    get_or hex_chars (bit_and (get_or address (i / 2) 0 >>> shift) 15) 0

unfoldable pub matches_target_eth_ultra : List ℕ → List ℕ → ℕ → List ℕ → ℕ → Bool
matches_target_eth_ultra address target target_len suffix suffix_len =
    agree target_len 0 (hex_at address) (λ i. get_or target i 0)
    && agree suffix_len 0 (λ i. hex_at address (u64 (40 + 2 ^ 64 - suffix_len + i)))
        (λ i. get_or suffix i 0)

-- Two characters for each byte; the terminating NUL is left out.
unfoldable pub address_to_hex_ultra : List ℕ → List ℕ
address_to_hex_ultra [] = []
address_to_hex_ultra (byte ∷ bytes) =
    get_or hex_chars (byte >>> 4) 0
    ∷ get_or hex_chars (bit_and byte 15) 0
    ∷ address_to_hex_ultra bytes
