-- ===== src/Earlier/Kernel.antt =====
-- `eth_vanity_search` of kernels/eth_vanity.cu and `eth_vanity_search_optimized` of
-- kernels/eth_vanity_optimized.cu, as instances of the search loop.
use vanity_generator_evm_svm.Common.{
  ℕ, ◌+◌, ◌-◌, ◌*◌, ◌%◌, ◌^◌, ◌&&◌, ◌==◌, Bool, false, if◌then◌else◌, List, [], ◌∷◌, ◌++◌, length,
  get_or, bit_and, u64, ◌>>>◌,
}
use vanity_generator_evm_svm.Match.{agree, hex_chars}
use vanity_generator_evm_svm.Search.{Verdict, skipped, missed, hit, Kernel}
use vanity_generator_evm_svm.Eth.{Curve, EthResult, nonzero, address_of}
use vanity_generator_evm_svm.Earlier.XorShift.{XorShift, draw_words}

unfoldable pub byte_to_hex : ℕ → List ℕ
byte_to_hex b = get_or hex_chars (b >>> 4) 0 ∷ get_or hex_chars (bit_and b 0x0F) 0 ∷ []

-- The terminating NUL is left out.
unfoldable pub address_to_hex : List ℕ → List ℕ
address_to_hex [] = []
address_to_hex (byte ∷ bytes) = byte_to_hex byte ++ address_to_hex bytes

unfoldable pub matches_target_eth : List ℕ → List ℕ → ℕ → List ℕ → ℕ → Bool
matches_target_eth address_hex target target_len suffix suffix_len =
    agree target_len 0 (λ i. get_or address_hex i 0) (λ i. get_or target i 0)
    && agree suffix_len 0 (λ i. get_or address_hex (u64 (40 + 2 ^ 64 - suffix_len + i)) 0)
        (λ i. get_or suffix i 0)

module _ (curve : Curve) (target suffix : List ℕ) where
  -- The public key, the address and the match of a key that is not zero.
  unfoldable pub test_key : List ℕ → Verdict EthResult
  test_key private =
      let public = curve.get_public_key private in
      let address_hex = address_to_hex (address_of curve public) in
      if matches_target_eth address_hex target (length target) suffix (length suffix)
      then hit (record { private = private; public = public; address_hex = address_hex })
      else missed

  -- `if (all_zero) continue;`
  unfoldable pub test_earlier : XorShift → Verdict EthResult
  test_earlier st =
      let private = (draw_words 4 st).0 in if nonzero private then test_key private else skipped

  abbrev pub earlier_kernel : ℕ → ℕ → Kernel
  earlier_kernel period iterations = record {
    Local = XorShift;
    Hit = EthResult;
    test = test_earlier;
    advance = λ st. (draw_words 4 st).1;
    counts_encodes = false;
    polls = λ iter. iter % period == 0;
    iterations_per_thread = iterations;
  }

  abbrev pub eth_vanity_search : Kernel
  eth_vanity_search = earlier_kernel 100 (20 * 1000 * 1000)

  abbrev pub eth_vanity_search_optimized : Kernel
  eth_vanity_search_optimized = earlier_kernel 1000 (100 * 1000 * 1000)
