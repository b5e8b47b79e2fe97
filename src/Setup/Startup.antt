-- ===== src/Setup/Startup.antt =====
-- `cuda_init` (kernels/cuda_init.cu) and `get_gpu_config` (kernels/gpu_config.cu) on every answer of
-- the runtime.
use vanity_generator_evm_svm.Common.{
  ℕ, ◌*◌, ◌<◌, ◌≡◌, ◌≢◌, refl, arith, true, false, ◌==◌, leb, if◌then◌else◌, ℤ, pos, negsuc,
}
use vanity_generator_evm_svm.Common.{Option, none, some, ◌⊎◌, inl, inr, ◌≤◌}
use vanity_generator_evm_svm.Setup.{GpuGlobals, gpu_init}
use vanity_generator_evm_svm.Setup.Device.{
  Answers, Properties, GpuConfig, Started, started, exited, cuda_init, finish,
}
use vanity_generator_evm_svm.Setup.Device.{
  get_gpu_config, filled, tell_config, iterations_for, printed_iterations, keys_of_batch,
}
use native.Mathlib.Decide.{ℕ_discrete}

-- Either end of a test for 0.
by_zero {ℓ} :
    {A : Type ℓ} (P : A → Type 0) (n : ℕ) (good bad : A)
    → (n ≡ 0 → P good)
    → (n ≢ 0 → P bad)
    → P (if n == 0 then good else bad)
by_zero P n good bad h h' = elim (ℕ_discrete n 0) [
  | yes e ↦ let test : (n == 0) ≡ true = ground arith in rw test (h e)
  | no e ↦ let test : (n == 0) ≡ false = ground arith in rw test (h' e)
]

module _ (answers : Answers) (globals : GpuGlobals) where
  -- The calls of `cuda_init` that are checked all succeed, on a machine with a device.
  abbrev pub IsUsable : Type 0
  IsUsable =
      (answers.device_count.0 ≡ 0)
      × (answers.device_count.1 ≢ 0)
      × (answers.set_device 0 ≡ 0)
      × (answers.malloc 1 ≡ 0)

  -- What an end of `cuda_init` means.
  abbrev pub Start : Started → Type 0
  Start exited = IsUsable × (answers.properties 0 ≡ none)
  Start (started code g) =
      ((code ≡ pos 0)
        × IsUsable
        × ((prop : Properties) × (answers.properties 0 ≡ some prop)
            × (gpu_init (some prop.basic) ≡ some g)))
      ⊎ ((code ≢ pos 0) × (¬ IsUsable) × (g ≡ globals))

  -- An end with an error that is not 0, before anything is set.
  errs_early : (code : ℤ) → code ≢ pos 0 → ¬ IsUsable → Start (started code globals)
  errs_early code bad unusable = inr (bad, unusable, refl)

  -- The call of `gpu_init`, on a usable machine.
  finished :
      (r : Option Properties)
      → answers.properties 0 ≡ r
      → IsUsable
      → Start (finish (gpu_init (elim r [ none ↦ none | some prop ↦ some prop.basic ])))
  unfolding finish gpu_init
  finished none e usable = (usable, e)
  finished (some prop) e usable = inl (refl, usable, (prop, e, refl))

  -- Every end of `cuda_init` has its reason: 0 comes with a usable machine whose properties set the
  -- globals, another value with a machine that is not usable and with the globals as they were, and
  -- the exit of the program with a usable machine that does not tell its properties. The answer on
  -- the flags of the device plays no part.
  pub cuda_init-Start : Start (cuda_init answers globals)
  unfolding cuda_init
  cuda_init-Start =
      by_zero Start answers.device_count.0 _ _
        (λ counted.
          by_zero Start answers.device_count.1 _ _
            (λ none_there. errs_early _ (λ e. cc) (λ u. u.1 none_there))
            (λ there.
              by_zero Start (answers.set_device 0) _ _
                (λ set.
                  by_zero Start (answers.malloc 1) _ _
                    (λ allocated.
                      finished (answers.properties 0) refl (counted, there, set, allocated))
                    (λ bad. errs_early _ (λ e. bad (code e)) (λ u. bad u.3)))
                (λ bad. errs_early _ (λ e. bad (code e)) (λ u. bad u.2))))
        (λ bad. errs_early _ (λ e. bad (code e)) (λ u. bad u.0))
    where
      code : {n : ℕ} → pos n ≡ pos 0 → n ≡ 0
      code e = cc

-- What `get_gpu_config` has filled in for a device with the given properties.
pub record IsTuned (id : ℕ) (prop : Properties) (c : GpuConfig) : Type 0 where
  pub device : c.device_id ≡ id
  pub multi_processors : c.sm_count ≡ prop.basic.multi_processor_count
  pub threads_of_sm : c.max_threads_per_sm ≡ prop.basic.max_threads_per_multi_processor
  pub threads_of_block : c.max_threads_per_block ≡ prop.basic.max_threads_per_block
  pub blocks_of_sm : c.max_blocks_per_sm ≡ prop.max_blocks_per_multi_processor
  pub global_memory : c.total_global_mem ≡ prop.total_global_mem
  pub shared_memory : c.shared_mem_per_block ≡ prop.shared_mem_per_block
  pub capability :
      (c.compute_capability_major ≡ prop.major) × (c.compute_capability_minor ≡ prop.minor)
  -- The iterations for Ampere and newer, for Volta and Turing, and for older devices.
  pub ampere : 8 ≤ prop.major → c.optimal_iterations_per_thread ≡ 10000
  pub turing : prop.major ≡ 7 → c.optimal_iterations_per_thread ≡ 8000
  pub older : prop.major < 7 → c.optimal_iterations_per_thread ≡ 5000
  pub threads : c.optimal_threads_per_block ≡ 256
  pub keys :
      keys_of_batch c ≡ prop.basic.multi_processor_count * 1024 * c.optimal_iterations_per_thread
  pub printed : printed_iterations c ≡ 0

abbrev pub Tuned : Answers → ℕ → GpuConfig → ℤ × GpuConfig → Type 0
Tuned answers id before (code, after) =
    ((code ≡ pos 0)
      × (answers.set_device id ≡ 0)
      × ((prop : Properties) × (answers.properties id ≡ some prop) × IsTuned id prop after))
    ⊎ ((code ≡ negsuc 0)
        × (after ≡ before)
        × ((answers.set_device id ≢ 0) ⊎ (answers.properties id ≡ none)))

ampere_iterations : (major : ℕ) → 8 ≤ major → iterations_for major ≡ 10000
unfolding iterations_for
ampere_iterations major h = let test : leb 8 major ≡ true = ground arith in rw test refl

turing_iterations : (major : ℕ) → major ≡ 7 → iterations_for major ≡ 8000
unfolding iterations_for
turing_iterations major h = rw h refl

older_iterations : (major : ℕ) → major < 7 → iterations_for major ≡ 5000
unfolding iterations_for
older_iterations major h =
    let first : leb 8 major ≡ false = ground arith in
    let second : leb 7 major ≡ false = ground arith in rw (first, second) refl

iterations_at_most : (major : ℕ) → iterations_for major ≤ 10000
unfolding iterations_for
iterations_at_most major = ground arith

filled-IsTuned : (id : ℕ) (prop : Properties) → IsTuned id prop (filled id prop)
unfolding filled keys_of_batch printed_iterations
filled-IsTuned id prop = record {
  device = refl;
  multi_processors = refl;
  threads_of_sm = refl;
  threads_of_block = refl;
  blocks_of_sm = refl;
  global_memory = refl;
  shared_memory = refl;
  capability = (refl, refl);
  ampere = ampere_iterations prop.major;
  turing = turing_iterations prop.major;
  older = older_iterations prop.major;
  threads = refl;
  keys = grind arith;
  printed = omega (arith, iterations_at_most prop.major);
}

-- On every answer of the runtime, `get_gpu_config` returns 0, where the device can be set and tells
-- its properties, with each property in its field; 10000, 8000 or 5000 iterations for a compute
-- capability from 8 on, of 7, or below; 256 threads to a block; 1024 keys for each multiprocessor and iteration in a batch;
-- and iterations that `print_gpu_config` prints as 0 millions. Or it returns -1 with the configuration
-- as it was, where the device cannot be set or does not tell its properties.
pub get_gpu_config-Tuned :
    (answers : Answers) (id : ℕ) (before : GpuConfig)
    → Tuned answers id before (get_gpu_config answers id before)
unfolding get_gpu_config
get_gpu_config-Tuned answers id before =
    by_zero (Tuned answers id before) (answers.set_device id) _ _
      (λ set. told set (answers.properties id) refl) (λ bad. inr (refl, refl, inl bad))
  where
    told :
        answers.set_device id ≡ 0
        → (r : Option Properties) → answers.properties id ≡ r
        → Tuned answers id before (tell_config id before r)
    told set none e = unfold tell_config in inr (refl, refl, inr e)
    told set (some prop) e =
        unfold tell_config in inl (refl, set, (prop, e, filled-IsTuned id prop))
