-- ===== src/Tests/SolRound.antt =====
-- A round of kernels/sol_vanity_optimized.cu on a GPU that runs the threads of the kernel to their end,
-- over a toy curve with a single point.
use vanity_generator_evm_svm.Common.{ℕ, ◌*◌, ◌≤◌, ◌<◌, ◌≡◌, refl, arith, Bool, some}
use vanity_generator_evm_svm.Common.{
  List, ◌++◌, length, replicate, length-replicate, length-append, pos, All,
}
use vanity_generator_evm_svm.Base58.{reference}
use vanity_generator_evm_svm.Base58.Encode.{IsKey}
use vanity_generator_evm_svm.Host.{Device, Runtime, Symbols}
use vanity_generator_evm_svm.Host.Hoare.{After}
use vanity_generator_evm_svm.Host.Layout.{View, deconstruct}
use vanity_generator_evm_svm.Host.Rounds.{sol_buffer_size, sol_vanity_round_optimized}
use vanity_generator_evm_svm.Host.Stages.{RuntimeLaws, Failed}
use vanity_generator_evm_svm.Rng.{init_rng}
use vanity_generator_evm_svm.Rng.Bytes.{length-next32}
use vanity_generator_evm_svm.Search.{Kernel, stopped}
use vanity_generator_evm_svm.Search.System.{System, Reach, start, launch, run, run-Reach}
use vanity_generator_evm_svm.Search.Schedule.{never_stuck}
use vanity_generator_evm_svm.Sol.{Ed25519, SolResult, clamp, ed25519_create_keypair_device_sol}
use vanity_generator_evm_svm.Sol.Candidate.{result_of, length-reference}
use vanity_generator_evm_svm.Sol.Report.{seed_at, sol_report_sound}
use vanity_generator_evm_svm.Sol.Launch.{result_bytes, kernel, LaunchesSol}
use vanity_generator_evm_svm.Sol.Answer.{Answer, sol_vanity_round_optimized-Answer}
use vanity_generator_evm_svm.Tests.Leave.{leave_result, leave_result-length, leave_result-Written}
use vanity_generator_evm_svm.Tests.Sol.{point, point-IsKey}
use vanity_generator_evm_svm.Tests.Host.{runtime, request, idle, idle-IsReady}

abbrev curve : Ed25519
curve = record { sha512 = λ seed. replicate 64 3; scalarmult_base_bytes = λ private. point }

abbrev curve_short : (private : List ℕ) → IsKey (curve.scalarmult_base_bytes private)
curve_short private = point-IsKey

length-result_bytes :
    (view : View) (ci : Bool) (seed : List ℕ)
    → length seed ≡ 32
    → length (result_bytes (result_of curve view.target view.suffix ci seed)) ≤ 172
unfolding result_bytes ed25519_create_keypair_device_sol clamp
length-result_bytes view ci seed seed_fits =
    let address = reference point in
    let private = clamp (replicate 64 3) in
    omega (
      arith,
      seed_fits,
      length-append ((seed ++ private) ++ point) address,
      length-append (seed ++ private) point,
      length-append seed private,
      length-reference point point-IsKey,
    )

-- All threads return, in the order that the proof that they can finds.
module _ (n iterations : ℕ) (view : View) (ci : Bool) where
  abbrev searching : Kernel
  searching = kernel curve n iterations view ci

  abbrev ending :
      (order : List ℕ) × All (λ i. i < n) order
      × ((i : ℕ)
          → i < n
          → (tried : ℕ) × ((run searching (launch searching (init_rng view.seed)) order).pc i
              ≡ stopped tried))
  ending =
      never_stuck searching (init_rng view.seed) n (launch searching (init_rng view.seed)) start

  abbrev final : System searching
  final = run searching (launch searching (init_rng view.seed)) ending.0

  final-Reach : Reach searching n (init_rng view.seed) final
  final-Reach =
      run-Reach searching n (init_rng view.seed) (launch searching (init_rng view.seed)) ending.0
        ending.1 start

  length-final : (h : SolResult) → final.globals.out ≡ some h → length (result_bytes h) ≤ 172
  length-final h e =
      let (i, lt_i, (m, lt_m, same, wanted)) =
        sol_report_sound curve curve_short view.target view.suffix ci view.seed n iterations final
          final-Reach h e in
      let seed = seed_at curve curve_short view.target view.suffix ci view.seed n iterations i m in
      rw same (length-result_bytes view ci seed (length-next32 _))

  -- What the kernel leaves on a device.
  abbrev left_by : List ℕ → Symbols → Device → Device
  left_by memory symbols d = record d {
    memory = leave_result result_bytes 172 final.globals.out view.out_at memory;
    symbols = record symbols {
      done = final.globals.done;
      count = final.globals.count;
      full_encodes = final.globals.encodes;
    };
  }

abbrev searching_runtime : Runtime
searching_runtime = record runtime {
  run_kernel = λ blocks n iterations d.
      left_by (blocks * n) iterations (deconstruct d.memory) d.symbols.case_insensitive d.memory
        d.symbols d;
}

searching_runtime-RuntimeLaws : RuntimeLaws searching_runtime
searching_runtime-RuntimeLaws = record {
  length-fresh = λ n. length-replicate n 255;
  run_kernel_keeps =
      λ blocks n iterations d. (refl, refl, leave_result-length result_bytes 172 _ _ d.memory);
}

searching_runtime-LaunchesSol : LaunchesSol searching_runtime curve
searching_runtime-LaunchesSol blocks n iterations d reset room =
    let view = deconstruct d.memory in
    let ci = d.symbols.case_insensitive in
    record {
      system = final (blocks * n) iterations view ci;
      reach = final-Reach (blocks * n) iterations view ci;
      all_stopped = (ending (blocks * n) iterations view ci).2;
      done_at = refl;
      count_at = refl;
      full_encodes_at = refl;
      written =
          leave_result-Written result_bytes 172 _ view.out_at d.memory
            (length-final (blocks * n) iterations view ci) room;
    }

sol_vanity_round_optimized-Answer_example :
    After
      (λ code w.
        (code ≡ pos 0)
        × ((n : ℕ) × (0 < n)
            × (n ≤ request.num_threads)
            × Answer curve curve_short request (request.num_blocks * n) w.out))
      (Failed searching_runtime sol_buffer_size request)
      (sol_vanity_round_optimized searching_runtime request idle)
sol_vanity_round_optimized-Answer_example =
    sol_vanity_round_optimized-Answer curve curve_short searching_runtime request idle
      searching_runtime-RuntimeLaws searching_runtime-LaunchesSol refl (omega arith)
      (idle-IsReady sol_buffer_size) tt
