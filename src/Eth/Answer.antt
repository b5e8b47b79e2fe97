-- ===== src/Eth/Answer.antt =====
-- A round of kernels/eth_vanity_ultra.cu from the call of `eth_vanity_round_ultra` to the answer at
-- `out`, with the kernel that it launches.
use vanity_generator_evm_svm.Common.{
  ℕ, ◌+◌, ◌*◌, ◌^◌, ◌≤◌, ◌<◌, ◌≡◌, refl, sym, ◌∙◌, arith, Option, none, some, ◌↔◌, ◌⊎◌, inl, inr,
  ◌≢◌, u64,
}
use vanity_generator_evm_svm.Common.{List, length, take, All, pos}
use vanity_generator_evm_svm.Base58.Digits.{value_from}
use vanity_generator_evm_svm.Base58.Encode.{IsKey}
use vanity_generator_evm_svm.Host.{Runtime, World}
use vanity_generator_evm_svm.Host.Rounds.{Request, eth_buffer_size, eth_vanity_round_ultra}
use vanity_generator_evm_svm.Host.Hoare.{After, After-map}
use vanity_generator_evm_svm.Host.Stages.{RuntimeLaws, Failed, IsReady, IsWithin}
use vanity_generator_evm_svm.Host.Eth.{eth_vanity_round_ultra-After}
use vanity_generator_evm_svm.Rng.{init_rng}
use vanity_generator_evm_svm.Search.Invariant.{Reach-Inv}
use vanity_generator_evm_svm.Search.Results.{done_iff_result, count_total}
use vanity_generator_evm_svm.Eth.{Curve, Walker, EthResult, draw, first_walker}
use vanity_generator_evm_svm.Eth.Walk.{CurveLaws, successor}
use vanity_generator_evm_svm.Eth.Report.{
  Wanted, address_text, eth_report_sound, eth_report_complete,
}
use vanity_generator_evm_svm.Eth.Launch.{result_bytes, DrawsAll, LaunchesEth}
use vanity_generator_evm_svm.Eth.Round.{done_of, count_of, round_kernel, Told, served-Told}
use mathlib.Core.Path.{subst}

module _ (curve : Curve) (laws : CurveLaws curve) (fuel : ℕ) (q : Request)
    (short_target : length q.target ≤ 40) (short_suffix : length q.suffix ≤ 40) where
  abbrev pub IsWanted : List ℕ → Type 0
  IsWanted = Wanted curve laws q.target q.suffix short_target short_suffix

  abbrev pub text_of : List ℕ → List ℕ
  text_of = address_text curve laws q.target q.suffix short_target short_suffix

  -- The key that thread `i` draws.
  abbrev pub Draws : ℕ → List ℕ → Type 0
  Draws i start = draw fuel (init_rng q.seed i) ≡ some start

  -- A wanted key on the walk of thread `i`, `m` steps from its start, with its public key and its
  -- address, is what `out` begins with.
  pub record Report (i m : ℕ) (out : List ℕ) : Type 0 where
    pub start : List ℕ
    pub drawn : Draws i start
    pub result : EthResult
    pub bytes_at : take (length (result_bytes result)) out ≡ result_bytes result
    pub is_key : IsKey result.private
    pub private_at : value_from 256 0 result.private ≡ value_from 256 0 start + m
    pub public_at : result.public ≡ curve.get_public_key result.private
    pub address_at : result.address_hex ≡ text_of result.private
    pub wanted : IsWanted result.private

  -- What a round that ran `n` threads tells in `out`: the flag and a wanted key, or no flag, no wanted
  -- key on the walks of these threads, and how many keys these have.
  abbrev pub Answer : ℕ → List ℕ → Type 0
  Answer n out =
      ((done_of out ≡ 1)
        × ((i : ℕ) × (i < n) × ((m : ℕ) × (m < q.iterations_per_thread) × Report i m out)))
      ⊎ ((done_of out ≡ 0)
          × ((i m : ℕ) (start : List ℕ)
              → i < n
              → m < q.iterations_per_thread
              → Draws i start
              → ¬ IsWanted (successor m start))
          × (count_of out ≡ u64 (n * q.iterations_per_thread)))

  module _ (few : q.iterations_per_thread < 2 ^ 64) (n : ℕ) (out : List ℕ)
      (t : Told curve fuel q n out) where
    open t use {starts, drawn, system, reach, all_stopped, done_at, count_at, bytes_at}

    abbrev iterations : ℕ
    iterations = q.iterations_per_thread

    abbrev firsts : ℕ → Walker
    firsts i = first_walker curve (starts i)

    settled : (system.globals.done ≡ 1) ↔ ((h : EthResult) × (system.globals.out ≡ some h))
    settled = done_iff_result (round_kernel curve fuel q) firsts n system reach all_stopped

    -- Nothing on the walk from the key that thread `i` has drawn.
    passed_over :
        system.globals.out ≡ none
        → (i m : ℕ) (start : List ℕ) → i < n
        → m < iterations
        → Draws i start
        → ¬ IsWanted (successor m start)
    passed_over e i m start lt_i lt_m draws wanted =
        let same : some start ≡ some (starts i) = sym draws ∙ drawn i lt_i in
        let own : start ≡ starts i = cc in
        eth_report_complete curve laws q.target q.suffix short_target short_suffix q.seed fuel n
          iterations starts drawn few system reach all_stopped e i m lt_i lt_m
          (subst (λ s. IsWanted (successor m s)) own wanted)

    answered : (o : Option EthResult) → system.globals.out ≡ o → Answer n out
    answered none e = inr (
      omega (arith, done_at, (Reach-Inv _ _ reach).flag, not_done),
      passed_over e,
      count_at ∙ count_total (round_kernel curve fuel q) firsts n system reach all_stopped e,
    )
      where
        not_done : system.globals.done ≢ 1
        not_done one = let (h, found) = settled.0 one in cc
    answered (some h) e =
        let (i, lt_i, (m, lt_m, is_key, private_at, public_at, address_at, wanted)) =
          eth_report_sound curve laws q.target q.suffix short_target short_suffix q.seed fuel n
            iterations starts drawn few system reach h e in
        let report : Report i m out = record {
          start = starts i;
          drawn = drawn i lt_i;
          result = h;
          bytes_at = bytes_at h e;
          is_key = is_key;
          private_at = private_at;
          public_at = public_at;
          address_at = address_at;
          wanted = wanted;
        } in
        inl (done_at ∙ settled.1 (h, e), (i, lt_i, (m, lt_m, report)))

    pub Told-Answer : Answer n out
    Told-Answer = answered system.globals.out refl

-- On a runtime that launches the Ethereum kernel, and a curve that obeys its laws, with a 32-byte seed
-- from which all requested threads draw a key within the fuel, patterns of at most 40 characters each,
-- less than 2 ^ 64 iterations and a context that is ready: the round returns 0, and `out` answers for
-- all threads of the launch, from 1 up to the requested number to a block, or it returns the code of
-- an error. The answer has the flag 1 and the bytes of a wanted key that one of the threads reaches
-- from the key that it drew, of its public key and of its address, or the flag 0, and then no key on
-- the walks of the threads is wanted and the counter is the number of these keys modulo 2 ^ 64.
pub eth_vanity_round_ultra-Answer :
    (curve : Curve) (laws : CurveLaws curve) (fuel : ℕ) (runtime : Runtime) (q : Request)
    (w : World)
    → RuntimeLaws runtime
    → LaunchesEth runtime curve fuel
    → DrawsAll fuel q.seed (q.num_blocks * q.num_threads)
    → (short_target : length q.target ≤ 40) (short_suffix : length q.suffix ≤ 40)
    → length q.seed ≡ 32
    → q.iterations_per_thread < 2 ^ 64
    → IsReady eth_buffer_size w.device
    → All (IsWithin eth_buffer_size) w.calls
    → After
        (λ code w'.
          (code ≡ pos 0)
          × ((n : ℕ) × (0 < n)
              × (n ≤ q.num_threads)
              × Answer curve laws fuel q short_target short_suffix (q.num_blocks * n) w'.out))
        (Failed runtime eth_buffer_size q)
        (eth_vanity_round_ultra runtime q w)
eth_vanity_round_ultra-Answer curve laws fuel runtime q w runtime_laws launches draws short_target
      short_suffix seed_fits few ready within =
    let fits : length q.target + length q.suffix ≤ 512 =
      omega (arith, short_target, short_suffix) in
    After-map _
      (λ code w' s. (
        s.code_at,
        (
          s.threads_taken,
          s.positive,
          s.at_most,
          Told-Answer curve laws fuel q short_target short_suffix few _ w'.out (
              served-Told curve fuel q runtime runtime_laws launches (omega (arith, fits))
                w.device.symbols code w' s (short_target, short_suffix, few) draws),
        ),
      ))
      (eth_vanity_round_ultra runtime q w)
      (eth_vanity_round_ultra-After runtime q w runtime_laws seed_fits fits ready within)
