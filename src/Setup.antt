-- ===== src/Setup.antt =====
-- The configuration of launches on the host: `gcd` and `gpu_init` of kernels/utils.cu, and
-- `vanity_launch_threads` of kernels/launch_config.cuh. What the CUDA runtime answers is a
-- parameter.
pub mod Gcd
pub mod Threads
pub mod Device
pub mod Startup
use vanity_generator_evm_svm.Common.{
  Option, none, some, ℕ, zero, suc, ◌+◌, ◌*◌, ◌/◌, ◌%◌, Bool, true, false, ltb, leb, ◌==◌,
  if◌then◌else◌,
}

-- `gcd` on fuel, for numbers that are not negative: `a` bounds the calls.
unfoldable pub gcd : ℕ → ℕ → ℕ → ℕ
gcd zero a b = b
gcd (suc fuel) a b = let rest = gcd fuel (b % a) a in if a == 0 then b else rest

-- What `vanity_launch_threads` returns: the error of the runtime, or the selected threads.
pub data Selected : Type 0 where
  invalid_configuration : Selected
  runtime_error : ℕ → Selected
  launch_out_of_resources : Selected
  threads : ℕ → Selected

-- The answer of `cudaOccupancyMaxActiveBlocksPerMultiprocessor` for a number of threads.
pub data Occupancy : Type 0 where
  failed : ℕ → Occupancy
  active : ℕ → Occupancy

-- The answer of `cudaFuncGetAttributes`, as far as it is read.
pub data Attributes : Type 0 where
  no_attributes : ℕ → Attributes
  max_threads_per_block : ℕ → Attributes

module _ (occupancy : ℕ → Occupancy) where
  -- What a legal number of threads leads to: `again` is the loop with half of it.
  unfoldable pub try_threads : ℕ → Occupancy → Selected → Selected
  try_threads n (failed err) again = runtime_error err
  try_threads n (active zero) again = again
  try_threads n (active (suc blocks)) again = threads n

  -- The `while (threads > 0)` loop, on fuel.
  unfoldable pub halve : ℕ → ℕ → ℕ → Selected
  halve zero limit n = launch_out_of_resources
  halve (suc fuel) limit n =
      let again = halve fuel limit (n / 2) in
      if n == 0
      then launch_out_of_resources
      else if leb n limit
      then try_threads n (occupancy n) again
      else again

  unfoldable pub vanity_launch_threads : Attributes → ℕ → Selected
  vanity_launch_threads attributes zero = invalid_configuration
  vanity_launch_threads (no_attributes err) (suc n) = runtime_error err
  vanity_launch_threads (max_threads_per_block limit) (suc n) = halve (suc n) limit (suc n)

-- What `cudaGetDeviceProperties` tells of a device, as far as `gpu_init` reads it.
pub record DeviceProp : Type 0 where
  pub max_threads_per_block : ℕ
  pub multi_processor_count : ℕ
  pub max_threads_per_multi_processor : ℕ

-- The globals of kernels/utils.cu that `gpu_init` sets.
pub record GpuGlobals : Type 0 where
  pub num_threads : ℕ
  pub num_multi_processors : ℕ
  pub max_threads_per_mp : ℕ
  pub num_blocks : ℕ
  pub target_cycles : ℕ

-- `block_size`; the fuel covers the first argument of `gcd`. The source computes with `int`, which the
-- numbers stand for as long as nothing overflows and the divisor is not 0: `gpu_init-blocks` asks for
-- both.
unfoldable pub block_size : DeviceProp → ℕ
block_size prop =
    prop.max_threads_per_multi_processor
    / gcd (suc prop.max_threads_per_multi_processor) prop.max_threads_per_multi_processor
        prop.max_threads_per_block

-- `none` among the arguments is a runtime that does not tell the properties, and among the results
-- the exit of the program.
unfoldable pub gpu_init : Option DeviceProp → Option GpuGlobals
gpu_init none = none
gpu_init (some prop) = some (record {
  num_threads = 256;
  num_multi_processors = prop.multi_processor_count;
  max_threads_per_mp = prop.max_threads_per_multi_processor;
  num_blocks = block_size prop * prop.multi_processor_count;
  target_cycles = 1000000000 * 5;
})
