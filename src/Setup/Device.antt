-- ===== src/Setup/Device.antt =====
-- `get_gpu_config` and `print_gpu_config` of kernels/gpu_config.cu, and `cuda_init` and
-- `cuda_device_count` of kernels/cuda_init.cu. What the CUDA runtime answers is a parameter: 0 is
-- success, every other number an error.
use vanity_generator_evm_svm.Common.{ℕ, ◌*◌, ◌/◌, ◌==◌, leb, if◌then◌else◌, ℤ, pos, negsuc}
use vanity_generator_evm_svm.Common.{Option, none, some}
use vanity_generator_evm_svm.Setup.{DeviceProp, GpuGlobals, gpu_init}

-- `cudaDeviceProp`, as far as kernels/gpu_config.cu reads it; `basic` is what `gpu_init` reads.
pub record Properties : Type 0 where
  pub basic : DeviceProp
  pub max_blocks_per_multi_processor : ℕ
  pub total_global_mem : ℕ
  pub shared_mem_per_block : ℕ
  pub major : ℕ
  pub minor : ℕ

-- The answers of the runtime.
pub record Answers : Type 0 where
  pub device_count : ℕ × ℕ
  pub set_device_flags : ℕ
  pub set_device : ℕ → ℕ
  pub malloc : ℕ → ℕ
  pub properties : ℕ → Option Properties

pub record GpuConfig : Type 0 where
  pub device_id : ℕ
  pub sm_count : ℕ
  pub max_threads_per_sm : ℕ
  pub max_threads_per_block : ℕ
  pub max_blocks_per_sm : ℕ
  pub total_global_mem : ℕ
  pub shared_mem_per_block : ℕ
  pub compute_capability_major : ℕ
  pub compute_capability_minor : ℕ
  pub optimal_threads_per_block : ℕ
  pub optimal_blocks : ℕ
  pub optimal_iterations_per_thread : ℕ

-- The adjustment of the iterations to the compute capability.
unfoldable pub iterations_for : ℕ → ℕ
iterations_for major =
    if leb 8 major then 10 * 1000 else (if leb 7 major then 8 * 1000 else 5 * 1000)

unfoldable pub filled : ℕ → Properties → GpuConfig
filled id prop = record {
  device_id = id;
  sm_count = prop.basic.multi_processor_count;
  max_threads_per_sm = prop.basic.max_threads_per_multi_processor;
  max_threads_per_block = prop.basic.max_threads_per_block;
  max_blocks_per_sm = prop.max_blocks_per_multi_processor;
  total_global_mem = prop.total_global_mem;
  shared_mem_per_block = prop.shared_mem_per_block;
  compute_capability_major = prop.major;
  compute_capability_minor = prop.minor;
  optimal_threads_per_block = 256;
  optimal_blocks = prop.basic.multi_processor_count * 4;
  optimal_iterations_per_thread = iterations_for prop.major;
}

-- What follows the query of the properties.
unfoldable pub tell_config : ℕ → GpuConfig → Option Properties → ℤ × GpuConfig
tell_config id config none = (negsuc 0, config)
tell_config id config (some prop) = (pos 0, filled id prop)

-- The value, and `*config` afterwards.
unfoldable pub get_gpu_config : Answers → ℕ → GpuConfig → ℤ × GpuConfig
get_gpu_config answers id config =
    if answers.set_device id == 0
    then tell_config id config (answers.properties id)
    else (negsuc 0, config)

-- The two last lines of `print_gpu_config`: the number of the iterations that is printed before an
-- `M`, and the keys of one batch.
unfoldable pub printed_iterations : GpuConfig → ℕ
printed_iterations config = config.optimal_iterations_per_thread / (1000 * 1000)

unfoldable pub keys_of_batch : GpuConfig → ℕ
keys_of_batch config =
    config.optimal_blocks * config.optimal_threads_per_block * config.optimal_iterations_per_thread

-- How `cuda_init` ends: with a value and the globals of kernels/utils.cu, or with the exit of the
-- program in `gpu_init`.
pub data Started : Type 0 where
  started : ℤ → GpuGlobals → Started
  exited : Started

unfoldable pub finish : Option GpuGlobals → Started
finish none = exited
finish (some globals) = started (pos 0) globals

unfoldable pub cuda_init : Answers → GpuGlobals → Started
cuda_init answers globals =
    let (err, count) = answers.device_count in
    let basic : Option DeviceProp = elim (answers.properties 0) [
      | none ↦ none
      | some prop ↦ some prop.basic
    ] in
    if err == 0
    then (if count == 0
        then started (negsuc 0) globals
        else (if answers.set_device 0 == 0
            then (if answers.malloc 1 == 0
                then finish (gpu_init basic)
                else started (pos (answers.malloc 1)) globals)
            else started (pos (answers.set_device 0)) globals))
    else started (pos err) globals

unfoldable pub cuda_device_count : Answers → ℤ
cuda_device_count answers =
    let (err, count) = answers.device_count in if err == 0 then pos count else negsuc 0
