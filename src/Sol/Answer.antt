-- ===== src/Sol/Answer.antt =====
-- A round of kernels/sol_vanity_optimized.cu from the call of `sol_vanity_round_optimized` to the
-- answer at `out`, with the kernel that it launches.
use vanity_generator_evm_svm.Common.{
  ℕ, ◌+◌, ◌*◌, ◌≤◌, ◌<◌, ◌≡◌, refl, ◌∙◌, arith, Option, none, some, ◌↔◌, ◌⊎◌, inl, inr, ◌≢◌, u64,
}
use vanity_generator_evm_svm.Common.{List, length, take, All, pos}
use vanity_generator_evm_svm.Base58.Encode.{IsKey}
use vanity_generator_evm_svm.Host.{Runtime, World}
use vanity_generator_evm_svm.Host.Rounds.{Request, sol_buffer_size, sol_vanity_round_optimized}
use vanity_generator_evm_svm.Host.Hoare.{After, After-map}
use vanity_generator_evm_svm.Host.Stages.{RuntimeLaws, Failed, IsReady, IsWithin}
use vanity_generator_evm_svm.Host.Sol.{sol_vanity_round_optimized-After}
use vanity_generator_evm_svm.Rng.{ChaChaRng, init_rng}
use vanity_generator_evm_svm.Search.Invariant.{Reach-Inv}
use vanity_generator_evm_svm.Search.Results.{done_iff_result, count_total}
use vanity_generator_evm_svm.Sol.{Ed25519, SolResult}
use vanity_generator_evm_svm.Sol.Candidate.{result_of}
use vanity_generator_evm_svm.Sol.Report.{seed_at, Wanted, sol_report_sound, sol_report_complete}
use vanity_generator_evm_svm.Sol.Round.{done_of, count_of, round_kernel, Told, served-Told}
use vanity_generator_evm_svm.Sol.Launch.{result_bytes, LaunchesSol}
use mathlib.Core.Path.{subst}

module _ (ed : Ed25519) (short : (private : List ℕ) → IsKey (ed.scalarmult_base_bytes private))
    (q : Request) where
  -- The seed of thread `i` in iteration `m`, and what makes a seed wanted.
  abbrev pub round_seed : ℕ → ℕ → List ℕ
  round_seed = seed_at ed short q.target q.suffix q.case_insensitive q.seed 0 0

  abbrev pub IsWanted : List ℕ → Type 0
  IsWanted = Wanted ed short q.target q.suffix q.case_insensitive q.seed 0 0

  -- A wanted seed that thread `i` draws in iteration `m`, with its keys and its address, is what `out`
  -- begins with.
  abbrev pub Reports : ℕ → ℕ → List ℕ → Type 0
  Reports i m out =
      let h = result_of ed q.target q.suffix q.case_insensitive (round_seed i m) in
      (take (length (result_bytes h)) out ≡ result_bytes h) × IsWanted h.seed

  -- What a round that ran `n` threads tells in `out`: the flag and a wanted seed, or no flag, no wanted
  -- seed among those of these threads, and how many these are.
  abbrev pub Answer : ℕ → List ℕ → Type 0
  Answer n out =
      ((done_of out ≡ 1)
        × ((i : ℕ) × (i < n) × ((m : ℕ) × (m < q.iterations_per_thread) × Reports i m out)))
      ⊎ ((done_of out ≡ 0)
          × ((i m : ℕ) → i < n → m < q.iterations_per_thread → ¬ IsWanted (round_seed i m))
          × (count_of out ≡ u64 (n * q.iterations_per_thread)))

  module _ (n : ℕ) (out : List ℕ) (t : Told ed q n out) where
    open t use {system, reach, all_stopped, done_at, count_at, bytes_at}

    abbrev iterations : ℕ
    iterations = q.iterations_per_thread

    abbrev firsts : ℕ → ChaChaRng
    firsts = init_rng q.seed

    settled : (system.globals.done ≡ 1) ↔ ((h : SolResult) × (system.globals.out ≡ some h))
    settled = done_iff_result (round_kernel ed q) firsts n system reach all_stopped

    answered : (o : Option SolResult) → system.globals.out ≡ o → Answer n out
    answered none e = inr (
      omega (arith, done_at, (Reach-Inv _ _ reach).flag, not_done),
      sol_report_complete ed short q.target q.suffix q.case_insensitive q.seed n iterations system
          reach all_stopped e,
      count_at ∙ count_total (round_kernel ed q) firsts n system reach all_stopped e,
    )
      where
        not_done : system.globals.done ≢ 1
        not_done one = let (h, found) = settled.0 one in cc
    answered (some h) e =
        let (i, lt_i, (m, lt_m, same, wanted)) =
          sol_report_sound ed short q.target q.suffix q.case_insensitive q.seed n iterations system
            reach h e in
        let bytes =
          subst (λ x. take (length (result_bytes x)) out ≡ result_bytes x) same (bytes_at h e) in
        let own = subst (λ x. IsWanted (SolResult.seed x)) same wanted in
        inl (done_at ∙ settled.1 (h, e), (i, lt_i, (m, lt_m, (bytes, own))))

    pub Told-Answer : Answer n out
    Told-Answer = answered system.globals.out refl

-- On a runtime that launches the Solana kernel, with a 32-byte seed, patterns of 512 bytes together at
-- most, 32-byte public keys and a context that is ready: the round returns 0, and `out` answers for
-- all threads of the launch, from 1 up to the requested number to a block, or it returns the code of
-- an error. The answer has the flag 1 and the bytes of the seed, the keys and the address of a
-- candidate of the launch that is wanted, or the flag 0, and then no candidate of the launch is wanted
-- and the counter is the number of candidates modulo 2 ^ 64.
pub sol_vanity_round_optimized-Answer :
    (ed : Ed25519) (short : (private : List ℕ) → IsKey (ed.scalarmult_base_bytes private))
    (runtime : Runtime) (q : Request) (w : World)
    → RuntimeLaws runtime
    → LaunchesSol runtime ed
    → length q.seed ≡ 32
    → length q.target + length q.suffix ≤ 512
    → IsReady sol_buffer_size w.device
    → All (IsWithin sol_buffer_size) w.calls
    → After
        (λ code w'.
          (code ≡ pos 0)
          × ((n : ℕ) × (0 < n) × (n ≤ q.num_threads) × Answer ed short q (q.num_blocks * n) w'.out))
        (Failed runtime sol_buffer_size q)
        (sol_vanity_round_optimized runtime q w)
sol_vanity_round_optimized-Answer ed short runtime q w laws launches seed_fits patterns_fit ready
      within =
    After-map _
      (λ code w' s. (
        s.code_at,
        (
          s.threads_taken,
          s.positive,
          s.at_most,
          Told-Answer ed short q _ w'.out
              (served-Told ed q runtime laws launches (omega (arith, patterns_fit)) code w' s),
        ),
      ))
      (sol_vanity_round_optimized runtime q w)
      (sol_vanity_round_optimized-After runtime q w laws seed_fits patterns_fit ready within)
