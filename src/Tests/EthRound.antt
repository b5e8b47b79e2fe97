-- ===== src/Tests/EthRound.antt =====
-- A round of kernels/eth_vanity_ultra.cu on a GPU that runs the threads of the kernel to their end,
-- over a toy curve in which a key is its own public key.
use vanity_generator_evm_svm.Common.{
  ℕ, zero, suc, ◌*◌, ◌≤◌, ◌<◌, ◌≡◌, refl, ap, arith, Option, none, some,
}
use vanity_generator_evm_svm.Common.{
  List, [], ◌∷◌, ◌++◌, length, length-replicate, length-append, pos, All,
}
use vanity_generator_evm_svm.Host.{Device, Runtime, Symbols}
use vanity_generator_evm_svm.Host.Hoare.{After}
use vanity_generator_evm_svm.Host.Layout.{View, deconstruct}
use vanity_generator_evm_svm.Host.Rounds.{Request, eth_buffer_size, eth_vanity_round_ultra}
use vanity_generator_evm_svm.Host.Stages.{RuntimeLaws, Failed}
use vanity_generator_evm_svm.Rng.{init_rng}
use vanity_generator_evm_svm.Search.{Kernel, stopped}
use vanity_generator_evm_svm.Search.System.{System, Reach, start, launch, run, run-Reach}
use vanity_generator_evm_svm.Search.Schedule.{never_stuck}
use vanity_generator_evm_svm.Match.{address_to_hex_ultra}
use vanity_generator_evm_svm.Eth.{Walker, EthResult, draw, first_walker, address_of}
use vanity_generator_evm_svm.Eth.Report.{eth_report_sound}
use vanity_generator_evm_svm.Eth.Launch.{result_bytes, kernel, DrawsAll, IsInRange, LaunchesEth}
use vanity_generator_evm_svm.Eth.Answer.{Answer, eth_vanity_round_ultra-Answer}
use vanity_generator_evm_svm.Tests.Leave.{leave_result, leave_result-length, leave_result-Written}
use vanity_generator_evm_svm.Tests.Eth.{toy, toy-CurveLaws, no_seed, first_key, drawn}
use vanity_generator_evm_svm.Tests.Host.{runtime, request, idle, idle-IsReady}

abbrev or_empty : Option (List ℕ) → List ℕ
or_empty none = []
or_empty (some key) = key

-- All threads return, in the order that the proof that they can finds.
module _ (n iterations : ℕ) (view : View) where
  abbrev searching : Kernel
  searching = kernel toy 4 n iterations view

  abbrev starts : ℕ → List ℕ
  starts i = or_empty (draw 4 (init_rng view.seed i))

  starts_drawn :
      DrawsAll 4 view.seed n → (i : ℕ) → i < n → draw 4 (init_rng view.seed i) ≡ some (starts i)
  starts_drawn draws i lt = let (key, e) = draws i lt in rw e refl

  abbrev firsts : ℕ → Walker
  firsts i = first_walker toy (starts i)

  abbrev ending :
      (order : List ℕ) × All (λ i. i < n) order
      × ((i : ℕ)
          → i < n
          → (tried : ℕ) × ((run searching (launch searching firsts) order).pc i ≡ stopped tried))
  ending = never_stuck searching firsts n (launch searching firsts) start

  abbrev final : System searching
  final = run searching (launch searching firsts) ending.0

  final-Reach : Reach searching n firsts final
  final-Reach = run-Reach searching n firsts (launch searching firsts) ending.0 ending.1 start

  length-final :
      IsInRange view iterations
      → DrawsAll 4 view.seed n
      → (h : EthResult) → final.globals.out ≡ some h
      → length (result_bytes h) ≤ 137
  unfolding result_bytes address_to_hex_ultra address_of
  length-final (short_target, short_suffix, few) draws h e =
      let (i, lt_i, (m, lt_m, is_key, private_at, public_at, address_at, wanted)) =
        eth_report_sound toy toy-CurveLaws view.target view.suffix short_target short_suffix
          view.seed 4 n iterations starts (starts_drawn draws) few final final-Reach h e in
      let text : length h.address_hex ≡ 40 = ap length address_at in
      omega (
        arith,
        length-append (h.private ++ h.public) h.address_hex,
        length-append h.private h.public,
        is_key.1,
        ap length public_at,
        text,
      )

  -- What the kernel leaves on a device.
  abbrev left_by : List ℕ → Symbols → Device → Device
  left_by memory symbols d = record d {
    memory = leave_result result_bytes 137 final.globals.out view.out_at memory;
    symbols = record symbols { done = final.globals.done; count = final.globals.count };
  }

abbrev walking_runtime : Runtime
walking_runtime = record runtime {
  run_kernel = λ blocks n iterations d.
      left_by (blocks * n) iterations (deconstruct d.memory) d.memory d.symbols d;
}

walking_runtime-RuntimeLaws : RuntimeLaws walking_runtime
walking_runtime-RuntimeLaws = record {
  length-fresh = λ n. length-replicate n 255;
  run_kernel_keeps =
      λ blocks n iterations d. (refl, refl, leave_result-length result_bytes 137 _ _ d.memory);
}

walking_runtime-LaunchesEth : LaunchesEth walking_runtime toy 4
walking_runtime-LaunchesEth blocks n iterations d reset room in_range draws =
    let view = deconstruct d.memory in
    record {
      starts = starts (blocks * n) iterations view;
      drawn = starts_drawn (blocks * n) iterations view draws;
      system = final (blocks * n) iterations view;
      reach = final-Reach (blocks * n) iterations view;
      all_stopped = (ending (blocks * n) iterations view).2;
      done_at = refl;
      count_at = refl;
      written =
          leave_result-Written result_bytes 137 _ view.out_at d.memory
            (length-final (blocks * n) iterations view in_range draws) room;
    }

-- One thread, which starts from the first chunk of its stream.
abbrev walk : Request
walk = record request {
  seed = no_seed;
  target = b'0' ∷ [];
  suffix = b'0' ∷ [];
  num_blocks = 1;
  num_threads = 1;
}

walk_draws : DrawsAll 4 walk.seed 1
walk_draws zero lt = (first_key, drawn)
walk_draws (suc i) lt = absurd (omega (arith, lt))

eth_vanity_round_ultra-Answer_example :
    After
      (λ code w.
        (code ≡ pos 0)
        × ((n : ℕ) × (0 < n)
            × (n ≤ 1)
            × Answer toy toy-CurveLaws 4 walk (omega arith) (omega arith) (1 * n) w.out))
      (Failed walking_runtime eth_buffer_size walk)
      (eth_vanity_round_ultra walking_runtime walk idle)
eth_vanity_round_ultra-Answer_example =
    eth_vanity_round_ultra-Answer toy toy-CurveLaws 4 walking_runtime walk idle
      walking_runtime-RuntimeLaws walking_runtime-LaunchesEth walk_draws (omega arith) (omega arith)
      refl (omega arith) (idle-IsReady eth_buffer_size) tt
