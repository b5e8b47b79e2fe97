-- ===== src/Tests/Sol.antt =====
-- The Solana kernel over a toy curve with a single point, with one thread: a launch that reports its
-- first seed, and one that finds nothing.
use vanity_generator_evm_svm.Common.{ℕ, zero, suc, ◌<◌, ◌≡◌, refl, arith, true, ◌↔◌}
use vanity_generator_evm_svm.Common.{none, some, List, [], ◌∷◌, replicate, All, IsByte}
use vanity_generator_evm_svm.Base58.{
  leading_zeros, push_carry, mul_add, to_digits, reference, letter, base58_alphabet,
}
use vanity_generator_evm_svm.Base58.Encode.{IsKey}
use vanity_generator_evm_svm.Match.{
  to_lower, fold_case, agree, matches_target_sol_opt, mod_limbs, suffix_loop,
  base58_suffix_match_mod_32,
}
use vanity_generator_evm_svm.Match.Sol.{accepts}
use vanity_generator_evm_svm.Search.{Kernel, skipped, hit, step, step_head, leave, stopped}
use vanity_generator_evm_svm.Search.System.{System, launch, run, run-Reach, Reach, start}
use vanity_generator_evm_svm.Sol.{Ed25519, ed25519_create_keypair_device_sol, test_seed, sol_kernel}
use vanity_generator_evm_svm.Sol.Candidate.{address_of, result_of, test_seed_iff}
use vanity_generator_evm_svm.Sol.Report.{
  seed_at, streams, Wanted, sol_report_sound, sol_report_complete,
}
use vanity_generator_evm_svm.Rng.{ChaChaRng}
use vanity_generator_evm_svm.Rng.Stream.{after_calls}
use native.Mathlib.Decide.{ℕ_discrete}

abbrev pub point : List ℕ
point = replicate 32 1

abbrev toy : Ed25519
toy = record { sha512 = λ seed. seed; scalarmult_base_bytes = λ private. point }

pub point-IsKey : IsKey point
point-IsKey = (bytes 32, refl)
  where
    bytes : (n : ℕ) → All IsByte (replicate n 1)
    bytes zero = tt
    bytes (suc n) = (omega arith, bytes n)

abbrev seed_key : List ℕ
seed_key = replicate 32 7

-- The seed of the only candidate.
abbrev seed : List ℕ
seed = seed_at toy (λ private. point-IsKey) (b'4' ∷ []) (b'I' ∷ []) true seed_key 1 1 0 0

-- The address of the point begins with 4 and ends with i.
point_accepted : accepts (reference point) (b'4' ∷ []) (b'I' ∷ []) true ≡ true
unfolding reference to_digits mul_add push_carry leading_zeros letter base58_alphabet
    matches_target_sol_opt agree fold_case to_lower
point_accepted = refl

seed_hits :
    test_seed toy (b'4' ∷ []) (b'I' ∷ []) true seed
    ≡ hit (result_of toy (b'4' ∷ []) (b'I' ∷ []) true seed)
unfolding ed25519_create_keypair_device_sol
seed_hits =
    (test_seed_iff toy (b'4' ∷ []) (b'I' ∷ []) true seed point-IsKey
        (result_of toy (b'4' ∷ []) (b'I' ∷ []) true seed)).1
      (point_accepted, refl)

seed_skipped : test_seed toy (b'4' ∷ []) (b'z' ∷ []) true seed ≡ skipped
unfolding test_seed ed25519_create_keypair_device_sol base58_suffix_match_mod_32 suffix_loop
    mod_limbs letter base58_alphabet fold_case to_lower
seed_skipped = refl

module _ (last : ℕ) where
  abbrev kernel : Kernel
  kernel = sol_kernel toy (b'4' ∷ []) (last ∷ []) true 1

  abbrev firsts : ℕ → ChaChaRng
  firsts = streams toy (λ private. point-IsKey) (b'4' ∷ []) (last ∷ []) true seed_key 1 1

  abbrev final : System kernel
  final = run kernel (launch kernel firsts) (replicate 7 0)

  final-Reach : Reach kernel 1 firsts final
  final-Reach = run-Reach kernel 1 firsts (launch kernel firsts) (replicate 7 0) (zeros 7) start
    where
      zeros : (n : ℕ) → All (λ i. i < 1) (replicate n 0)
      zeros zero = tt
      zeros (suc n) = (omega arith, zeros n)

final_out : (final b'I').globals.out ≡ some (result_of toy (b'4' ∷ []) (b'I' ∷ []) true seed)
unfolding step step_head leave ℕ_discrete after_calls
final_out = rw seed_hits refl

final-none : (final b'z').globals.out ≡ none
unfolding step step_head leave ℕ_discrete after_calls
final-none = rw seed_skipped refl

final_stopped : (i : ℕ) → i < 1 → (tried : ℕ) × ((final b'z').pc i ≡ stopped tried)
unfolding step step_head leave ℕ_discrete after_calls
final_stopped zero lt = rw seed_skipped (1, refl)
final_stopped (suc i) lt = absurd (omega arith)

test_seed_iff_example :
    (test_seed toy (b'4' ∷ []) (b'I' ∷ []) true seed
      ≡ hit (result_of toy (b'4' ∷ []) (b'I' ∷ []) true seed))
    ↔ ((accepts (address_of toy (b'4' ∷ []) (b'I' ∷ []) true seed) (b'4' ∷ []) (b'I' ∷ []) true
          ≡ true)
        × (result_of toy (b'4' ∷ []) (b'I' ∷ []) true seed
            ≡ result_of toy (b'4' ∷ []) (b'I' ∷ []) true seed))
unfolding ed25519_create_keypair_device_sol
test_seed_iff_example =
    test_seed_iff toy (b'4' ∷ []) (b'I' ∷ []) true seed point-IsKey
      (result_of toy (b'4' ∷ []) (b'I' ∷ []) true seed)

sol_report_sound_example :
    (i : ℕ) × (i < 1)
    × ((m : ℕ) × (m < 1)
        × (result_of toy (b'4' ∷ []) (b'I' ∷ []) true seed
            ≡ result_of toy (b'4' ∷ []) (b'I' ∷ []) true (
                seed_at toy (λ private. point-IsKey) (b'4' ∷ []) (b'I' ∷ []) true seed_key 1 1 i m))
        × Wanted toy (λ private. point-IsKey) (b'4' ∷ []) (b'I' ∷ []) true seed_key 1 1 seed)
sol_report_sound_example =
    sol_report_sound toy (λ private. point-IsKey) (b'4' ∷ []) (b'I' ∷ []) true seed_key 1 1
      (final b'I') (final-Reach b'I') (result_of toy (b'4' ∷ []) (b'I' ∷ []) true seed) final_out

sol_report_complete_example :
    ¬ Wanted toy (λ private. point-IsKey) (b'4' ∷ []) (b'z' ∷ []) true seed_key 1 1 seed
sol_report_complete_example =
    sol_report_complete toy (λ private. point-IsKey) (b'4' ∷ []) (b'z' ∷ []) true seed_key 1 1
      (final b'z') (final-Reach b'z') final_stopped final-none 0 0 (omega arith) (omega arith)
