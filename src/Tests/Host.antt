-- ===== src/Tests/Host.antt =====
-- Rounds and a clean-up on a GPU whose calls all succeed, and on one that rejects large launches.
use vanity_generator_evm_svm.Common.{
  ℕ, ◌+◌, ◌≡◌, refl, arith, [], ◌∷◌, replicate, length-replicate, true, false, ltb, leb,
}
use vanity_generator_evm_svm.Common.{ℤ, pos, if◌then◌else◌}
use vanity_generator_evm_svm.Setup.{
  active, threads, max_threads_per_block, try_threads, halve, vanity_launch_threads,
}
use vanity_generator_evm_svm.Host.{
  Runtime, World, going, Status, success, launch_out_of_resources, Call, launch,
}
use vanity_generator_evm_svm.Host.{write_at, le_bytes, valid_id, call, select_threads, launch_loop}
use vanity_generator_evm_svm.Host.Rounds.{
  Request, sol_buffer_size, sol_vanity_round_optimized, eth_buffer_size, eth_vanity_round_ultra,
  allocate, open_sol, upload, run_search,
}
use vanity_generator_evm_svm.Host.Hoare.{After}
use vanity_generator_evm_svm.Host.Stages.{IsReady, RuntimeLaws, Failed}
use vanity_generator_evm_svm.Host.Served.{Served}
use vanity_generator_evm_svm.Host.Sol.{
  sol_symbols, sol_report, sol_vanity_round_optimized-After, sol_vanity_round_optimized-Served,
}
use vanity_generator_evm_svm.Host.Eth.{eth_symbols, eth_report, eth_vanity_round_ultra-After}

-- A kernel that counts one key for each thread and finds nothing.
abbrev pub runtime : Runtime
runtime = record {
  answer = λ calls. success;
  fresh = λ n. replicate n 255;
  attributes = max_threads_per_block 1024;
  occupancy = λ n. if leb n 256 then active 2 else active 0;
  run_kernel =
      λ blocks n iterations d. record d { symbols = record d.symbols { count = blocks + n } };
}

runtime-RuntimeLaws : RuntimeLaws runtime
runtime-RuntimeLaws = record {
  length-fresh = λ n. length-replicate n 255;
  run_kernel_keeps = λ blocks n iterations d. (refl, refl, refl);
}

-- The same GPU, where launches of more than 64 threads are rejected.
abbrev picky : Runtime
picky = record runtime { answer = λ calls. elim calls [ [] ↦ success | c ∷ rest ↦ verdict c ] }
  where
    verdict : Call → Status
    verdict (launch n) = if ltb 64 n then launch_out_of_resources else success
    verdict _ = success

abbrev pub request : Request
request = record {
  id = pos 3;
  seed = replicate 32 7;
  target = b'A' ∷ b'b' ∷ [];
  suffix = b'z' ∷ [];
  case_insensitive = true;
  num_blocks = 16;
  num_threads = 1000;
  iterations_per_thread = 2;
}

abbrev pub idle : World
idle = record {
  device = record {
    initialized = false;
    buffer_size = 0;
    memory = [];
    num_blocks = 0;
    num_threads = 0;
    iterations_per_thread = 0;
    symbols = record { done = 1; count = 5; full_encodes = 9; case_insensitive = false };
  };
  calls = [];
  out = replicate 192 0;
}

pub idle-IsReady : (size : ℕ) → IsReady size idle.device
idle-IsReady size e = cc

chosen_threads :
    vanity_launch_threads runtime.occupancy runtime.attributes request.num_threads ≡ threads 250
unfolding vanity_launch_threads halve try_threads
chosen_threads = refl

sol_vanity_round_optimized-After_example :
    After
      (Served runtime sol_buffer_size request 172 (sol_symbols request) (sol_report request))
      (Failed runtime sol_buffer_size request)
      (sol_vanity_round_optimized runtime request idle)
sol_vanity_round_optimized-After_example =
    sol_vanity_round_optimized-After runtime request idle runtime-RuntimeLaws refl (omega arith)
      (idle-IsReady sol_buffer_size) tt

eth_vanity_round_ultra-After_example :
    After
      (Served runtime eth_buffer_size request 137
        (eth_symbols idle.device.symbols)
        (eth_report request))
      (Failed runtime eth_buffer_size request)
      (eth_vanity_round_ultra runtime request idle)
eth_vanity_round_ultra-After_example =
    eth_vanity_round_ultra-After runtime request idle runtime-RuntimeLaws refl (omega arith)
      (idle-IsReady eth_buffer_size) tt

sol_vanity_round_optimized-Served_example :
    (code : ℤ) × (w : World) × (sol_vanity_round_optimized runtime request idle ≡ (going code, w))
    × Served runtime sol_buffer_size request 172 (sol_symbols request) (sol_report request) code w
unfolding valid_id
sol_vanity_round_optimized-Served_example =
    sol_vanity_round_optimized-Served runtime request idle runtime-RuntimeLaws refl (omega arith)
      (idle-IsReady sol_buffer_size) tt refl 250 chosen_threads (λ calls. refl)

-- A round on the GPU that rejects large launches, in full.
picky_round : (sol_vanity_round_optimized picky request idle).0 ≡ going (pos 0)
unfolding sol_vanity_round_optimized valid_id call open_sol allocate upload run_search
    select_threads launch_loop vanity_launch_threads halve try_threads write_at le_bytes
picky_round = refl
