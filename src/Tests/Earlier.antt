-- ===== src/Tests/Earlier.antt =====
-- Rounds of the earlier kernels on a GPU whose calls all succeed, and on one that refuses the first copy.
use vanity_generator_evm_svm.Common.{ℕ, zero, suc, ◌≡◌, refl, arith, [], ◌∷◌, replicate, true, inr}
use vanity_generator_evm_svm.Setup.{GpuGlobals}
use vanity_generator_evm_svm.Host.{Runtime, Status, success, failure, Call, copy_to_device}
use vanity_generator_evm_svm.Earlier.{uninitialized, ready}
use vanity_generator_evm_svm.Earlier.Rounds.{eth_vanity_round, keypair_vanity_round, vanity_round}
use vanity_generator_evm_svm.Earlier.Return.{
  Returned, round_size, eth_vanity_round-Returned, keypair_vanity_round-Returned,
}
use vanity_generator_evm_svm.Earlier.Leak.{Leaks, vanity_round-Leaks}
use vanity_generator_evm_svm.Common.{◌≢◌, ◌<◌, none, some, List, All, length}
use vanity_generator_evm_svm.Host.{le_bytes}
use vanity_generator_evm_svm.Match.{agree, hex_chars}
use vanity_generator_evm_svm.Search.{Kernel, step, step_head, leave, stopped}
use vanity_generator_evm_svm.Search.System.{System, launch, run, run-Reach, Reach, start}
use vanity_generator_evm_svm.Eth.{EthResult, nonzero, address_of}
use vanity_generator_evm_svm.Earlier.XorShift.{mix, init_xorshift, xorshift128plus_next, draw_words}
use vanity_generator_evm_svm.Earlier.Streams.{state_at, states_apart}
use vanity_generator_evm_svm.Earlier.Kernel.{
  byte_to_hex, address_to_hex, matches_target_eth, test_key, test_earlier, earlier_kernel,
}
use vanity_generator_evm_svm.Earlier.Report.{
  Wanted, result_of, key_at, earlier_report_sound, earlier_report_complete,
}
use vanity_generator_evm_svm.Tests.Eth.{toy, no_seed}
use native.Mathlib.Decide.{ℕ_discrete}
use vanity_generator_evm_svm.Tests.Host.{runtime, request, idle}

eth_vanity_round-Returned_example :
    let (after, w) = eth_vanity_round runtime 4 ready request uninitialized idle in
    Returned runtime (round_size request 137) idle after w
eth_vanity_round-Returned_example =
    eth_vanity_round-Returned runtime request 4 ready uninitialized idle refl (inr refl) tt

keypair_vanity_round-Returned_example :
    let (after, w) = keypair_vanity_round runtime 4 ready request uninitialized idle in
    Returned runtime (round_size request 172) idle after w
keypair_vanity_round-Returned_example =
    keypair_vanity_round-Returned runtime request 4 ready uninitialized idle refl (inr refl) tt

-- The GPU that refuses every copy to its buffer.
abbrev copyless : Runtime
copyless = record runtime { answer = λ calls. elim calls [ [] ↦ success | c ∷ rest ↦ verdict c ] }
  where
    verdict : Call → Status
    verdict (copy_to_device offset n) = failure 1
    verdict _ = success

abbrev grid : GpuGlobals
grid = record {
  num_threads = 256;
  num_multi_processors = 128;
  max_threads_per_mp = 1536;
  num_blocks = 384;
  target_cycles = 5000000000;
}

vanity_round-Leaks_example :
    Leaks copyless 4 grid
      (replicate 32 1)
      (replicate 32 2)
      request
      idle
      (vanity_round copyless 4 grid (replicate 32 1) (replicate 32 2) request idle).1
vanity_round-Leaks_example =
    vanity_round-Leaks copyless 4 grid (replicate 32 1) (replicate 32 2) request idle refl refl refl
      tt

states_apart_example : state_at no_seed 5 9 ≢ state_at no_seed 6 9
states_apart_example =
    states_apart no_seed 5 6 (omega arith) (omega arith) (λ e. omega (arith, e)) 9

-- One thread that makes one iteration.
module _ (wanted : ℕ) where
  abbrev searching_toy : Kernel
  searching_toy = earlier_kernel toy (wanted ∷ []) (b'0' ∷ []) 100 1

  abbrev final : System searching_toy
  final = run searching_toy (launch searching_toy (init_xorshift no_seed)) (replicate 6 0)

  final-Reach : Reach searching_toy 1 (init_xorshift no_seed) final
  final-Reach =
      run-Reach searching_toy 1 (init_xorshift no_seed)
        (launch searching_toy (init_xorshift no_seed)) (replicate 6 0) (zeros 6) start
    where
      zeros : (n : ℕ) → All (λ i. i < 1) (replicate n 0)
      zeros zero = tt
      zeros (suc n) = (omega arith, zeros n)

abbrev first_key : List ℕ
first_key = (draw_words 4 (init_xorshift no_seed 0)).0

key_live : nonzero first_key ≡ true
unfolding nonzero draw_words xorshift128plus_next init_xorshift mix le_bytes
key_live = refl

abbrev reported : EthResult
reported = record { private = first_key; public = first_key; address_hex = replicate 40 b'0' }

final_out : (final b'0').globals.out ≡ some reported
unfolding step step_head leave ℕ_discrete test_earlier test_key address_of matches_target_eth agree
    hex_chars address_to_hex byte_to_hex
final_out = rw key_live refl

final-none : (final b'1').globals.out ≡ none
unfolding step step_head leave ℕ_discrete test_earlier test_key address_of matches_target_eth agree
    hex_chars address_to_hex byte_to_hex
final-none = rw key_live refl

final_stopped : (i : ℕ) → i < 1 → (tried : ℕ) × ((final b'1').pc i ≡ stopped tried)
unfolding step step_head leave ℕ_discrete test_earlier test_key address_of matches_target_eth agree
    hex_chars address_to_hex byte_to_hex
final_stopped zero lt = rw key_live (1, refl)
final_stopped (suc i) lt = absurd (omega arith)

abbrev toy_address : (x y : List ℕ) → length (toy.keccak256_address x y) ≡ 20
toy_address x y = refl

earlier_report_sound_example :
    (i : ℕ) × (i < 1)
    × ((m : ℕ) × (m < 1)
        × (nonzero (
              key_at toy toy_address
                (b'0' ∷ [])
                (b'0' ∷ [])
                (omega arith)
                (omega arith)
                no_seed
                100
                1
                1
                i
                m)
            ≡ true)
        × (reported
            ≡ result_of toy toy_address (b'0' ∷ []) (b'0' ∷ []) (omega arith) (omega arith) (
                key_at toy toy_address
                  (b'0' ∷ [])
                  (b'0' ∷ [])
                  (omega arith)
                  (omega arith)
                  no_seed
                  100
                  1
                  1
                  i
                  m))
        × Wanted toy toy_address (b'0' ∷ []) (b'0' ∷ []) (omega arith) (omega arith) (
            key_at toy toy_address
              (b'0' ∷ [])
              (b'0' ∷ [])
              (omega arith)
              (omega arith)
              no_seed
              100
              1
              1
              i
              m))
earlier_report_sound_example =
    earlier_report_sound toy toy_address (b'0' ∷ []) (b'0' ∷ []) (omega arith) (omega arith) no_seed
      100 1 1 (final b'0') (final-Reach b'0') reported final_out

earlier_report_complete_example :
    ¬ Wanted toy toy_address (b'1' ∷ []) (b'0' ∷ []) (omega arith) (omega arith) first_key
earlier_report_complete_example =
    earlier_report_complete toy toy_address (b'1' ∷ []) (b'0' ∷ []) (omega arith) (omega arith)
      no_seed 100 1 1 (final b'1') (final-Reach b'1') final_stopped final-none 0 0 (omega arith)
      (omega arith) key_live
