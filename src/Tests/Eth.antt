-- ===== src/Tests/Eth.antt =====
-- The Ethereum kernel over a toy curve, in which a key is its own public key and every address is
-- zero, with one thread: a launch that reports its first key, and one that finds nothing.
use vanity_generator_evm_svm.Common.{ℕ, zero, suc, ◌+◌, ◌^◌, ◌<◌, ◌≡◌, refl, ap, ◌∙◌, arith, false}
use vanity_generator_evm_svm.Common.{
  none, some, List, [], ◌∷◌, ◌++◌, get_or, replicate, All, IsByte,
}
use vanity_generator_evm_svm.Base58.Digits.{value_from}
use vanity_generator_evm_svm.Base58.Encode.{IsKey}
use vanity_generator_evm_svm.Rng.{
  init_rng, next32, write_words, refill, chacha_block, add_words, rounds, double_round, qr_at,
}
use vanity_generator_evm_svm.Rng.{
  state_words, chacha_qr, mix_cb, mix_ad, key_word, chacha_rotl, tick,
}
use vanity_generator_evm_svm.Rng.Stream.{after_calls}
use vanity_generator_evm_svm.Match.{
  matches_target_eth_ultra, agree, hex_at, hex_chars, address_to_hex_ultra,
}
use vanity_generator_evm_svm.Search.{Kernel, step, step_head, leave, stopped}
use vanity_generator_evm_svm.Search.System.{System, launch, run, run-Reach, Reach, start}
use vanity_generator_evm_svm.Eth.{
  Curve, EthResult, increment, increment_from, nonzero, address_of, draw, rejected, eth_kernel,
  test_eth, first_walker,
}
use vanity_generator_evm_svm.Eth.Draw.{chunk, order, draw-first, draw-bounds}
use vanity_generator_evm_svm.Eth.Walk.{successor, CurveLaws}
use vanity_generator_evm_svm.Eth.Report.{
  Wanted, address_text, eth_report_sound, eth_report_complete,
}
use native.Mathlib.Decide.{ℕ_discrete}
use native.Mathlib.Nat.{suc-add}

increment_carries : increment (1 ∷ 255 ∷ 255 ∷ []) ≡ 2 ∷ 0 ∷ 0 ∷ []
unfolding increment increment_from
increment_carries = refl

-- The next `n` keys.
abbrev following : ℕ → List ℕ → List (List ℕ)
following zero key = []
following (suc n) key = increment key ∷ following n (increment key)

successor-increment :
    (n : ℕ) (key : List ℕ) → successor n (increment key) ≡ increment (successor n key)
successor-increment zero key = refl
successor-increment (suc n) key = ap increment (successor-increment n key)

get_or-following :
    (n i : ℕ) (key : List ℕ) → i < n → get_or (following n key) i [] ≡ successor (i + 1) key
get_or-following zero i key lt = absurd (omega arith)
get_or-following (suc n) zero key lt = refl
get_or-following (suc n) (suc i) key lt =
    get_or-following n i (increment key) (omega arith)
    ∙ rw (suc-add i 1) (successor-increment (i + 1) key)

abbrev pub toy : Curve
toy = record {
  get_public_key = λ key. key;
  public_add_batch = following 32;
  keccak256_address = λ x y. replicate 20 0;
}

pub toy-CurveLaws : CurveLaws toy
toy-CurveLaws = record {
  batch_law = λ key is_key positive below i lt. get_or-following 32 i key lt;
  address_bytes = λ x y. zeros 20;
  address_length = λ x y. refl;
}
  where
    zeros : (n : ℕ) → All IsByte (replicate n 0)
    zeros zero = tt
    zeros (suc n) = (omega arith, zeros n)

abbrev pub no_seed : List ℕ
no_seed = replicate 32 0

first_taken : rejected (chunk no_seed 0 0) ≡ false
unfolding rejected nonzero next32 write_words refill after_calls init_rng chacha_block add_words
    rounds double_round qr_at state_words chacha_qr mix_cb mix_ad key_word chacha_rotl tick
first_taken = refl

draw-first_example : draw 4 (init_rng no_seed 0) ≡ some (chunk no_seed 0 0)
draw-first_example =
    draw-first no_seed 0 4 0 (λ i lt. absurd (omega arith)) first_taken (omega arith)

abbrev pub first_key : List ℕ
first_key = chunk no_seed 0 0

pub drawn : draw 4 (init_rng no_seed 0) ≡ some first_key
drawn = draw-first no_seed 0 4 0 (λ i lt. absurd (omega arith)) first_taken (omega arith)

draw-bounds_example :
    IsKey first_key
    × (0 < value_from 256 0 first_key)
    × (value_from 256 0 first_key + 2 ^ 64 + 32 < order)
draw-bounds_example = draw-bounds 4 (init_rng no_seed 0) first_key drawn

-- The key 1.
abbrev one : List ℕ
one = replicate 31 0 ++ (1 ∷ [])

drawn_all : (i : ℕ) → i < 1 → draw 4 (init_rng no_seed i) ≡ some first_key
drawn_all zero lt = drawn
drawn_all (suc i) lt = absurd (omega arith)

module _ (wanted : ℕ) where
  abbrev pub kernel : Kernel
  kernel = eth_kernel toy (wanted ∷ []) (b'0' ∷ []) 1

  abbrev pub final : System kernel
  final = run kernel (launch kernel (λ i. first_walker toy first_key)) (replicate 6 0)

  pub final-Reach : Reach kernel 1 (λ i. first_walker toy first_key) final
  final-Reach =
      run-Reach kernel 1 (λ i. first_walker toy first_key)
        (launch kernel (λ i. first_walker toy first_key)) (replicate 6 0) (zeros 6) start
    where
      zeros : (n : ℕ) → All (λ i. i < 1) (replicate n 0)
      zeros zero = tt
      zeros (suc n) = (omega arith, zeros n)

abbrev reported : EthResult
reported = record { private = first_key; public = first_key; address_hex = replicate 40 b'0' }

final_out : (final b'0').globals.out ≡ some reported
unfolding step step_head leave ℕ_discrete test_eth first_walker address_of matches_target_eth_ultra
    agree hex_at hex_chars address_to_hex_ultra
final_out = refl

final-none : (final b'1').globals.out ≡ none
unfolding step step_head leave ℕ_discrete test_eth first_walker address_of matches_target_eth_ultra
    agree hex_at hex_chars address_to_hex_ultra
final-none = refl

final_stopped : (i : ℕ) → i < 1 → (tried : ℕ) × ((final b'1').pc i ≡ stopped tried)
unfolding step step_head leave ℕ_discrete test_eth first_walker address_of matches_target_eth_ultra
    agree hex_at hex_chars address_to_hex_ultra
final_stopped zero lt = (1, refl)
final_stopped (suc i) lt = absurd (omega arith)

eth_report_sound_example :
    (i : ℕ) × (i < 1)
    × ((m : ℕ) × (m < 1)
        × IsKey first_key
        × (value_from 256 0 first_key ≡ value_from 256 0 first_key + m)
        × (first_key ≡ first_key)
        × (reported.address_hex
            ≡ address_text toy toy-CurveLaws
                (b'0' ∷ [])
                (b'0' ∷ [])
                (omega arith)
                (omega arith)
                first_key)
        × Wanted toy toy-CurveLaws (b'0' ∷ []) (b'0' ∷ []) (omega arith) (omega arith) first_key)
eth_report_sound_example =
    eth_report_sound toy toy-CurveLaws (b'0' ∷ []) (b'0' ∷ []) (omega arith) (omega arith) no_seed 4
      1 1 (λ i. first_key) drawn_all (omega arith) (final b'0') (final-Reach b'0') reported
      final_out

eth_report_complete_example :
    ¬ Wanted toy toy-CurveLaws
      (b'1' ∷ [])
      (b'0' ∷ [])
      (omega arith)
      (omega arith)
      (successor 0 first_key)
eth_report_complete_example =
    eth_report_complete toy toy-CurveLaws (b'1' ∷ []) (b'0' ∷ []) (omega arith) (omega arith)
      no_seed 4 1 1 (λ i. first_key) drawn_all (omega arith) (final b'1') (final-Reach b'1')
      final_stopped final-none 0 0 (omega arith) (omega arith)
