-- ===== src/Tests/Match.antt =====
-- The pattern tests at concrete addresses.
use vanity_generator_evm_svm.Common.{
  ℕ, ◌≡◌, refl, arith, true, false, List, [], ◌∷◌, replicate, ◌↔◌,
}
use vanity_generator_evm_svm.Base58.{
  reference, letter, leading_zeros, to_digits, mul_add, push_carry,
}
use vanity_generator_evm_svm.Match.{agree, fold_case, matches_target_sol_opt}
use vanity_generator_evm_svm.Match.{
  matches_target_eth_ultra, address_to_hex_ultra, base58_suffix_match_mod_32,
}
use vanity_generator_evm_svm.Match.Split.{StartsWith, EndsWith}
use vanity_generator_evm_svm.Match.Sol.{accepts, folded, matches_target_sol_opt_iff}
use vanity_generator_evm_svm.Match.Eth.{matches_target_eth_ultra_iff}
use vanity_generator_evm_svm.Match.Prefilter.{prefilter_complete}
use vanity_generator_evm_svm.Tests.Base58.{key, key-IsKey}

abbrev abc : List ℕ
abc = b'A' ∷ b'b' ∷ b'C' ∷ []

matches_target_sol_opt_iff_example : (accepts abc (b'a' ∷ []) (b'c' ∷ []) true ≡ true) ↔ (
    StartsWith (folded true abc) (folded true (b'a' ∷ []))
    × EndsWith (folded true abc) (folded true (b'c' ∷ [])))
matches_target_sol_opt_iff_example = matches_target_sol_opt_iff abc (b'a' ∷ []) (b'c' ∷ []) true

abbrev address : List ℕ
address = 0xca ∷ replicate 19 0xfe

matches_target_eth_ultra_iff_example :
    (matches_target_eth_ultra address (b'c' ∷ []) 1 (b'f' ∷ b'e' ∷ []) 2 ≡ true) ↔ (
      StartsWith (address_to_hex_ultra address) (b'c' ∷ [])
      × EndsWith (address_to_hex_ultra address) (b'f' ∷ b'e' ∷ []))
matches_target_eth_ultra_iff_example =
    matches_target_eth_ultra_iff address (b'c' ∷ []) (b'f' ∷ b'e' ∷ []) (omega arith) refl
      (omega arith) (omega arith)

key_ends : accepts (reference key) [] (letter 42 ∷ []) false ≡ true
unfolding matches_target_sol_opt agree fold_case reference leading_zeros to_digits mul_add
    push_carry letter
key_ends = refl

prefilter_complete_example : base58_suffix_match_mod_32 key (letter 42 ∷ []) 1 false ≡ true
prefilter_complete_example = prefilter_complete key key-IsKey [] (letter 42 ∷ []) false key_ends
