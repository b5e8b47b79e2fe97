-- ===== src/Sol.antt =====
-- kernels/sol_vanity_optimized.cu, the device side: each thread derives a key pair from every chunk
-- of its stream, and looks for an address by way of the prefilter, the encoder and the match.
pub mod Candidate
pub mod Report
pub mod Launch
pub mod Round
pub mod Answer
use vanity_generator_evm_svm.Common.{
  ℕ, zero, suc, ◌+◌, Bool, true, false, Option, none, some, List, [], ◌∷◌, length,
}
use vanity_generator_evm_svm.Common.{
  get_or, set, take, bit_and, bit_or, ltb, ◌==◌, if◌then◌else◌, not, ◌&&◌,
}
use vanity_generator_evm_svm.Base58.{Encoded, simple_base58_encode_32}
use vanity_generator_evm_svm.Match.{matches_target_sol_opt, base58_suffix_match_mod_32}
use vanity_generator_evm_svm.Rng.{ChaChaRng, init_rng, next32}
use vanity_generator_evm_svm.Search.{Verdict, skipped, missed, hit, Kernel}

-- kernels/ed25519, as the kernel uses it: `sha512` of a seed, and the 32 bytes that
-- `ge_p3_tobytes` writes for the point of `ge_scalarmult_base`.
pub record Ed25519 : Type 0 where
  pub sha512 : List ℕ → List ℕ
  pub scalarmult_base_bytes : List ℕ → List ℕ

pub record KeyPair : Type 0 where
  pub public : List ℕ
  pub private : List ℕ

-- What the winner copies to `out`; of the 44 bytes of the address, those of the text.
pub record SolResult : Type 0 where
  pub seed : List ℕ
  pub private : List ℕ
  pub public : List ℕ
  pub address : List ℕ

-- `private_key[0] &= 248; private_key[31] &= 63; private_key[31] |= 64;`
unfoldable pub clamp : List ℕ → List ℕ
clamp key =
    let low = set key 0 (bit_and (get_or key 0 0) 248) in
    let masked = set low 31 (bit_and (get_or low 31 0) 63) in
    set masked 31 (bit_or (get_or masked 31 0) 64)

module _ (ed : Ed25519) where
  unfoldable pub ed25519_create_keypair_device_sol : List ℕ → KeyPair
  ed25519_create_keypair_device_sol seed =
      let private = clamp (ed.sha512 seed) in
      record { public = ed.scalarmult_base_bytes private; private = private }

  module _ (target suffix : List ℕ) (case_insensitive : Bool) where
    -- The copy into `address`, of at most 44 characters, and the match. `none` stands for an
    -- encoder that ran out of fuel.
    unfoldable pub test_encoded : List ℕ → KeyPair → Option Encoded → Verdict SolResult
    test_encoded seed keys none = skipped
    test_encoded seed keys (some encoded) =
        let address = take (if ltb encoded.size 44 then encoded.size else 44) encoded.output in
        if matches_target_sol_opt address encoded.size target (length target) suffix (length suffix)
          case_insensitive
        then hit (record {
          seed = seed;
          private = keys.private;
          public = keys.public;
          address = address;
        })
        else missed

    -- `if (suffix_len && !base58_suffix_match_mod_32(…)) continue;`
    unfoldable pub test_seed : List ℕ → Verdict SolResult
    test_seed seed =
        let keys = ed25519_create_keypair_device_sol seed in
        if not (length suffix == 0)
          && not (base58_suffix_match_mod_32 keys.public suffix (length suffix) case_insensitive)
        then skipped
        else test_encoded seed keys (simple_base58_encode_32 keys.public)

    -- The local state of `sol_vanity_search_optimized` between iterations is its generator.
    abbrev pub sol_kernel : ℕ → Kernel
    sol_kernel n = record {
      Local = ChaChaRng;
      Hit = SolResult;
      test = λ rng. test_seed (next32 rng).0;
      advance = λ rng. (next32 rng).1;
      counts_encodes = true;
      polls = λ iter. bit_and iter 0x3F == 0;
      iterations_per_thread = n;
    }
