-- ===== src/Sol/Candidate.antt =====
-- One candidate of `sol_vanity_search_optimized` (kernels/sol_vanity_optimized.cu): the prefilter,
-- the encoder and the match together.
use vanity_generator_evm_svm.Common.{
  ℕ, ◌≤◌, ◌≡◌, refl, arith, ap, ◌∙◌, sym, ◌↔◌, Bool, true, false, some,
}
use vanity_generator_evm_svm.Common.{
  List, [], ◌∷◌, ◌++◌, length, take, take-append_length, ltb, if◌then◌else◌, not, ◌&&◌, ◌==◌,
}
use vanity_generator_evm_svm.Common.{Bool-cases, inl, inr}
use vanity_generator_evm_svm.Base58.{reference, simple_base58_encode_32}
use vanity_generator_evm_svm.Base58.Encode.{IsKey}
use vanity_generator_evm_svm.Base58.Reference.{encode-reference}
use vanity_generator_evm_svm.Base58.Decode.{encode_fits}
use vanity_generator_evm_svm.Match.{base58_suffix_match_mod_32}
use vanity_generator_evm_svm.Match.Sol.{accepts}
use vanity_generator_evm_svm.Match.Prefilter.{prefilter_complete}
use vanity_generator_evm_svm.Search.{Verdict, skipped, missed, hit}
use vanity_generator_evm_svm.Sol.{
  Ed25519, KeyPair, SolResult, ed25519_create_keypair_device_sol, test_encoded, test_seed,
}

pub length-reference : (input : List ℕ) → IsKey input → length (reference input) ≤ 44
length-reference input key =
    let (e, eq, len, le) = encode_fits input key in
    let same : some e
        ≡ some (record { output = reference input ++ (0 ∷ []); size = length (reference input) }) =
      sym eq ∙ encode-reference input key in
    let size : e.size ≡ length (reference input) = cc in omega (arith, le, size)

-- The copy into `address` keeps the whole text and leaves its NUL out.
copy-text :
    (text : List ℕ)
    → length text ≤ 44
    → take (if ltb (length text) 44 then length text else 44) (text ++ (0 ∷ [])) ≡ text
copy-text text le = ap (λ n. take n (text ++ (0 ∷ []))) size ∙ take-append_length text (0 ∷ [])
  where
    size : (if ltb (length text) 44 then length text else 44) ≡ length text
    size = ground arith

module _ (ed : Ed25519) (target suffix : List ℕ) (ci : Bool) (seed : List ℕ) where
  abbrev pub keys_of : KeyPair
  keys_of = ed25519_create_keypair_device_sol ed seed

  -- The address of the key pair, by the reference encoder.
  abbrev pub address_of : List ℕ
  address_of = reference keys_of.public

  -- What a match of this seed reports.
  abbrev pub result_of : SolResult
  result_of = record {
    seed = seed;
    private = keys_of.private;
    public = keys_of.public;
    address = address_of;
  }

  -- Encoding and matching alone.
  abbrev direct : Verdict SolResult
  direct = if accepts address_of target suffix ci then hit result_of else missed

  encoded_lem :
      IsKey keys_of.public
      → test_encoded ed target suffix ci seed keys_of (simple_base58_encode_32 keys_of.public)
        ≡ direct
  unfolding test_encoded
  encoded_lem key =
      rw (encode-reference keys_of.public key, copy-text address_of (length-reference _ key)) refl

  abbrev filtered : Bool
  filtered =
      not (length suffix == 0)
      && not (base58_suffix_match_mod_32 keys_of.public suffix (length suffix) ci)

  test_seed_lem :
      IsKey keys_of.public
      → test_seed ed target suffix ci seed ≡ (if filtered then skipped else direct)
  unfolding test_seed
  test_seed_lem key = ap (λ v. if filtered then skipped else v) (encoded_lem key)

  not_filtered :
      IsKey keys_of.public → accepts address_of target suffix ci ≡ true → filtered ≡ false
  not_filtered key taken =
      rw (prefilter_complete keys_of.public key target suffix ci taken)
        (&&-false (not (length suffix == 0)))
    where
      &&-false : (b : Bool) → (b && false) ≡ false
      &&-false true = refl
      &&-false false = refl

  direct_hit :
      (h : SolResult)
      → direct ≡ hit h
      → (accepts address_of target suffix ci ≡ true) × (h ≡ result_of)
  direct_hit h e = elim (Bool-cases (accepts address_of target suffix ci)) [
    | inl taken ↦ let same : hit result_of ≡ hit h = rw taken at e in (taken, cc)
    | inr lost ↦ let never : missed ≡ hit h = rw lost at e in cc
  ]

  -- A candidate is a match exactly when `matches_target_sol_opt` accepts the address that the
  -- reference encoder writes, and what it reports is the key pair of the seed with that address:
  -- neither the prefilter nor the encoder's 44-character copy changes the outcome. For a public key
  -- of 32 bytes.
  pub test_seed_iff :
      IsKey keys_of.public
      → (h : SolResult)
      → (test_seed ed target suffix ci seed ≡ hit h)
        ↔ ((accepts address_of target suffix ci ≡ true) × (h ≡ result_of))
  test_seed_iff key h = (forward, λ (taken, same). backward taken same)
    where
      forward :
          test_seed ed target suffix ci seed ≡ hit h
          → (accepts address_of target suffix ci ≡ true) × (h ≡ result_of)
      forward e = elim (Bool-cases filtered) [
        | inl out ↦ let never : skipped ≡ hit h = rw out at (sym (test_seed_lem key) ∙ e) in cc
        | inr going ↦ direct_hit h (rw going at (sym (test_seed_lem key) ∙ e))
      ]

      backward :
          accepts address_of target suffix ci ≡ true
          → h ≡ result_of
          → test_seed ed target suffix ci seed ≡ hit h
      backward taken same =
          test_seed_lem key ∙ rw (not_filtered key taken, taken) (ap hit (sym same))
