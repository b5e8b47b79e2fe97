-- ===== src/Earlier/Report.antt =====
-- What the searches of kernels/eth_vanity.cu and kernels/eth_vanity_optimized.cu report and pass over.
use vanity_generator_evm_svm.Common.{
  ℕ, ◌+◌, ◌-◌, ◌*◌, ◌^◌, ◌≤◌, ◌<◌, ◌≡◌, refl, ap, arith, u64, ◌↔◌, &&_parts,
}
use vanity_generator_evm_svm.Common.{
  Bool, true, Bool-cases, inl, inr, none, some, List, [], ◌∷◌, length, get_or,
}
use vanity_generator_evm_svm.Match.{agree}
use vanity_generator_evm_svm.Match.Split.{StartsWith, EndsWith, agree_front, agree_back}
use vanity_generator_evm_svm.Search.{Kernel, skipped, missed, hit}
use vanity_generator_evm_svm.Search.System.{System, Reach}
use vanity_generator_evm_svm.Search.Invariant.{local_at, NotHit}
use vanity_generator_evm_svm.Search.Results.{AllStopped, report_sound, report_complete}
use vanity_generator_evm_svm.Eth.{Curve, EthResult, nonzero, address_of}
use vanity_generator_evm_svm.Earlier.XorShift.{XorShift, init_xorshift, draw_words}
use vanity_generator_evm_svm.Earlier.Kernel.{
  byte_to_hex, address_to_hex, matches_target_eth, test_key, test_earlier, earlier_kernel,
}
use mathlib.Core.Path.{subst}

length-address_to_hex : (bs : List ℕ) → length (address_to_hex bs) ≡ 2 * length bs
unfolding address_to_hex byte_to_hex
length-address_to_hex [] = omega arith
length-address_to_hex (b ∷ bs) = omega (arith, length-address_to_hex bs)

-- On a text of 40 characters, the match of the two loops.
matches_target_eth_iff :
    (hex target suffix : List ℕ)
    → length hex ≡ 40
    → length target ≤ 40
    → length suffix ≤ 40
    → (matches_target_eth hex target (length target) suffix (length suffix) ≡ true)
      ↔ (StartsWith hex target × EndsWith hex suffix)
unfolding matches_target_eth
matches_target_eth_iff hex target suffix hex_len short_target short_suffix =
    (λ e. let (p, s) = &&_parts _ _ e in (front.0 p, back.0 s), λ (p, s). rw (front.1 p) (back.1 s))
  where
    front :
        (agree (length target) 0 (λ i. get_or hex i 0) (λ i. get_or target i 0) ≡ true)
        ↔ StartsWith hex target
    front = agree_front hex target _ _ (omega (arith, hex_len, short_target)) (λ j lt. (refl, refl))

    back :
        (agree
            (length suffix)
            0
            (λ i. get_or hex (u64 (40 + 2 ^ 64 - length suffix + i)) 0)
            (λ i. get_or suffix i 0)
          ≡ true)
        ↔ EndsWith hex suffix
    back =
        agree_back hex suffix _ _ (omega (arith, hex_len, short_suffix))
          (λ j lt. (ap (λ n. get_or hex n 0) (omega (arith, hex_len, short_suffix, lt)), refl))

module _ (curve : Curve)
    (address_length : (x y : List ℕ) → length (curve.keccak256_address x y) ≡ 20)
    (target suffix : List ℕ) (short_target : length target ≤ 40)
    (short_suffix : length suffix ≤ 40) where
  -- The text of the address that a private key owns.
  abbrev pub text_of : List ℕ → List ℕ
  text_of private = address_to_hex (address_of curve (curve.get_public_key private))

  -- The patterns as the user means them.
  abbrev pub Wanted : List ℕ → Type 0
  Wanted private = StartsWith (text_of private) target × EndsWith (text_of private) suffix

  abbrev pub result_of : List ℕ → EthResult
  result_of private = record {
    private = private;
    public = curve.get_public_key private;
    address_hex = text_of private;
  }

  accepted : List ℕ → Bool
  accepted private =
      matches_target_eth (text_of private) target (length target) suffix (length suffix)

  accepted_iff : (private : List ℕ) → (accepted private ≡ true) ↔ Wanted private
  accepted_iff private =
      unfold accepted in
      matches_target_eth_iff (text_of private) target suffix
        (unfold address_of in
          omega (arith, length-address_to_hex (curve.keccak256_address _ _), address_length _ _))
        short_target short_suffix

  test_key_iff :
      (private : List ℕ) (h : EthResult)
      → (test_key curve target suffix private ≡ hit h) ↔ ((h ≡ result_of private) × Wanted private)
  unfolding test_key accepted
  test_key_iff private h = (
    λ e. elim (Bool-cases (accepted private)) [
      | inl found ↦
          let same : hit (result_of private) ≡ hit h = rw found at e in
          (cc, (accepted_iff private).0 found)
      | inr lost ↦ let never : missed ≡ hit h = rw lost at e in cc
    ],
    λ (same, wanted). let found = (accepted_iff private).1 wanted in rw (found, same) refl,
  )

  -- A generator is a match exactly when the key that it draws is not zero and wanted.
  test_earlier_iff :
      (st : XorShift) (h : EthResult)
      → (test_earlier curve target suffix st ≡ hit h) ↔ (
          (nonzero (draw_words 4 st).0 ≡ true)
          × (h ≡ result_of (draw_words 4 st).0)
          × Wanted (draw_words 4 st).0)
  unfolding test_earlier
  test_earlier_iff st h = (
    λ e. elim (Bool-cases (nonzero (draw_words 4 st).0)) [
      | inl live ↦
          let (same, wanted) = (test_key_iff (draw_words 4 st).0 h).0 (rw live at e) in
          (live, same, wanted)
      | inr zero_key ↦ let never : skipped ≡ hit h = rw zero_key at e in cc
    ],
    λ (live, same, wanted). rw live ((test_key_iff (draw_words 4 st).0 h).1 (same, wanted)),
  )

  module _ (seed : List ℕ) (period n iterations : ℕ) where
    abbrev pub searching : Kernel
    searching = earlier_kernel curve target suffix period iterations

    -- The generator of thread `i` before iteration `m`, and the key that it draws there.
    abbrev pub generator_at : ℕ → ℕ → XorShift
    generator_at = local_at searching (init_xorshift seed)

    abbrev pub key_at : ℕ → ℕ → List ℕ
    key_at i m = (draw_words 4 (generator_at i m)).0

    module _ (s : System searching) (r : Reach searching n (init_xorshift seed) s) where
      -- What a launch of either search reports, whatever the interleaving: a key that one of its
      -- threads draws within its iterations and that is not zero, its public key, and the text of its
      -- address, which begins with the target and ends with the suffix. For 20-byte addresses and
      -- patterns of at most 40 characters.
      pub earlier_report_sound :
          (h : EthResult)
          → s.globals.out ≡ some h
          → (i : ℕ) × (i < n)
            × ((m : ℕ) × (m < iterations)
                × (nonzero (key_at i m) ≡ true)
                × (h ≡ result_of (key_at i m))
                × Wanted (key_at i m))
      earlier_report_sound h e =
          let (i, lt_i, (m, (lt_m, found))) =
            report_sound searching (init_xorshift seed) n s r h e in
          let (live, same, wanted) = (test_earlier_iff (generator_at i m) h).0 found in
          (i, lt_i, (m, lt_m, live, same, wanted))

      -- Once all threads have returned with nothing reported, none of the keys that they were to draw
      -- is wanted, apart from the zero key, which they pass over. For 20-byte addresses and patterns
      -- of at most 40 characters.
      pub earlier_report_complete :
          AllStopped searching (init_xorshift seed) n s r
          → s.globals.out ≡ none
          → (i m : ℕ) → i < n
          → m < iterations
          → nonzero (key_at i m) ≡ true
          → ¬ Wanted (key_at i m)
      earlier_report_complete all e i m lt_i lt_m live wanted =
          subst NotHit
            ((test_earlier_iff (generator_at i m) (result_of (key_at i m))).1 (live, refl, wanted))
            (report_complete searching (init_xorshift seed) n s r all e i lt_i m lt_m)
