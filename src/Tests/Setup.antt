-- ===== src/Tests/Setup.antt =====
-- The launch configuration of a request that is too large, and a common divisor.
use vanity_generator_evm_svm.Common.{
  some, ℕ, ◌==◌, ◌^◌, ◌*◌, ◌<◌, ◌≡◌, refl, arith, leb, if◌then◌else◌,
}
use vanity_generator_evm_svm.Setup.{
  Occupancy, active, threads, max_threads_per_block, try_threads, halve,
}
use vanity_generator_evm_svm.Setup.{vanity_launch_threads, gcd, DeviceProp, GpuGlobals, gpu_init}
use vanity_generator_evm_svm.Setup.Threads.{Told, vanity_launch_threads-Told}
use vanity_generator_evm_svm.Setup.Gcd.{IsGcd, gpu_init-blocks}
use vanity_generator_evm_svm.Common.{none, pos}
use vanity_generator_evm_svm.Setup.{block_size}
use vanity_generator_evm_svm.Setup.Device.{
  Properties, Answers, GpuConfig, cuda_init, started, get_gpu_config, tell_config, filled,
  iterations_for, keys_of_batch, finish,
}
use vanity_generator_evm_svm.Setup.Startup.{Start, cuda_init-Start, Tuned, get_gpu_config-Tuned}

-- A kernel that runs with at most 256 threads to a block.
abbrev device : ℕ → Occupancy
device n = if leb n 256 then active 2 else active 0

selected : vanity_launch_threads device (max_threads_per_block 1024) 10 ≡ threads 10
unfolding vanity_launch_threads halve try_threads
selected = refl

vanity_launch_threads-Told_example :
    Told device
      (max_threads_per_block 1024)
      1000
      (vanity_launch_threads device (max_threads_per_block 1024) 1000)
vanity_launch_threads-Told_example =
    vanity_launch_threads-Told device (max_threads_per_block 1024) 1000

abbrev ada : DeviceProp
ada = record {
  max_threads_per_block = 1024;
  multi_processor_count = 128;
  max_threads_per_multi_processor = 1536;
}

gpu_init-blocks_example :
    (globals : GpuGlobals) × (gpu_init (some ada) ≡ some globals)
    × ((g : ℕ) × (0 < g) × IsGcd 1536 1024 g × (globals.num_blocks * g ≡ 1536 * 128))
    × (globals.num_blocks < 2 ^ 31)
    × (globals.num_multi_processors ≡ 128)
    × (globals.max_threads_per_mp ≡ 1536)
    × (globals.num_threads ≡ 256)
    × (globals.target_cycles ≡ 5000000000)
gpu_init-blocks_example = gpu_init-blocks ada (omega arith) (omega arith)

abbrev lovelace : Properties
lovelace = record {
  basic = ada;
  max_blocks_per_multi_processor = 24;
  total_global_mem = 24 * 2 ^ 30;
  shared_mem_per_block = 49152;
  major = 8;
  minor = 9;
}

-- A machine with one such device, which refuses the flags.
abbrev machine : Answers
machine = record {
  device_count = (0, 1);
  set_device_flags = 708;
  set_device = λ id. if id == 0 then 0 else 101;
  malloc = λ n. 0;
  properties = λ id. if id == 0 then some lovelace else none;
}

abbrev untold : GpuGlobals
untold = record {
  num_threads = 0;
  num_multi_processors = 0;
  max_threads_per_mp = 0;
  num_blocks = 0;
  target_cycles = 0;
}

abbrev blank : GpuConfig
blank = record {
  device_id = 0;
  sm_count = 0;
  max_threads_per_sm = 0;
  max_threads_per_block = 0;
  max_blocks_per_sm = 0;
  total_global_mem = 0;
  shared_mem_per_block = 0;
  compute_capability_major = 0;
  compute_capability_minor = 0;
  optimal_threads_per_block = 0;
  optimal_blocks = 0;
  optimal_iterations_per_thread = 0;
}

started_well :
    cuda_init machine untold
    ≡ started (pos 0) (record {
      num_threads = 256;
      num_multi_processors = 128;
      max_threads_per_mp = 1536;
      num_blocks = 384;
      target_cycles = 5000000000;
    })
unfolding cuda_init finish gpu_init block_size gcd
started_well = refl

cuda_init-Start_example : Start machine untold (cuda_init machine untold)
cuda_init-Start_example = cuda_init-Start machine untold

keys_of_ada : keys_of_batch (get_gpu_config machine 0 blank).1 ≡ 1310720000
unfolding get_gpu_config tell_config filled iterations_for keys_of_batch
keys_of_ada = refl

get_gpu_config-Tuned_example : Tuned machine 0 blank (get_gpu_config machine 0 blank)
get_gpu_config-Tuned_example = get_gpu_config-Tuned machine 0 blank
