-- ===== src/Earlier/Rounds.antt =====
-- `vanity_round` of kernels/vanity.cu, `keypair_vanity_round` of kernels/ed25519_vanity.cu and
-- `eth_vanity_round` of kernels/eth_vanity.cu.
use vanity_generator_evm_svm.Common.{ℕ, ◌+◌, List, length, replicate, ℤ, pos, not, if◌then◌else◌}
use vanity_generator_evm_svm.Setup.{GpuGlobals}
use vanity_generator_evm_svm.Host.{
  Runtime, Symbols, World, Host, ◌>>◌, guard, call, same, le_bytes, going, get_device_count,
  set_device, malloc, copy_to_device, copy_to_symbol, launch, synchronize, get_last_error,
  copy_from_device, copy_from_symbol,
}
use vanity_generator_evm_svm.Host.Rounds.{Request, out_offset}
use vanity_generator_evm_svm.Earlier.{
  GpuState, beyond, free_buffer, checked, unchecked, copied_in, symbols_set, copied_out,
  symbol_read, allocated, kernel_run, enter,
}

-- The size of the buffer of `vanity_round`, and the place of its output.
abbrev pub vanity_size : Request → ℕ
vanity_size q = 32 + 32 + 32 + length q.target + length q.suffix + 8 + 8 + 16

abbrev pub vanity_out : Request → ℕ
vanity_out q = 104 + length q.target + length q.suffix + 8

module _ (runtime : Runtime) where
  abbrev pub checked_in : ℕ → List ℕ → Host (Unit {0})
  checked_in offset bytes =
      checked runtime (copy_to_device offset (length bytes)) (copied_in runtime offset bytes)

  abbrev pub checked_symbol : (Symbols → Symbols) → Host (Unit {0})
  checked_symbol f = checked runtime copy_to_symbol (symbols_set runtime f)

  abbrev pub checked_out : ℕ → ℕ → Host (Unit {0})
  checked_out offset n = checked runtime (copy_from_device offset n) (copied_out runtime offset n)

  abbrev pub checked_read : ℕ → ℕ → (Symbols → ℕ) → Host (Unit {0})
  checked_read at n f = checked runtime copy_from_symbol (symbol_read runtime at n f)

  abbrev pub release : Host ℤ
  release w = (going (pos 0), free_buffer w)

  -- The launch, the wait and the look at the last error; only the last one is checked.
  unfoldable pub launch_earlier : ℕ → ℕ → Host (Unit {0})
  launch_earlier blocks n = do
    unchecked runtime (launch n) (kernel_run runtime blocks n)
    unchecked runtime synchronize same
    checked runtime get_last_error same

  -- The copies of the seed, the patterns and their lengths, at their places in the buffer.
  unfoldable pub upload_earlier : Request → Host (Unit {0})
  upload_earlier q = do
    checked_in 0 q.seed
    checked_in 32 (le_bytes 8 (length q.target))
    checked_in 40 q.target
    checked_in (40 + length q.target) (le_bytes 8 (length q.suffix))
    checked_in (40 + length q.target + 8) q.suffix

  unfoldable pub eth_body : Request → Host ℤ
  eth_body q = do
    call runtime (malloc (32 + 8 + length q.target + 8 + length q.suffix + 137)) (pos 0)
        (allocated runtime (32 + 8 + length q.target + 8 + length q.suffix + 137))
    upload_earlier q
    checked_symbol (λ s. record s { done = 0 })
    checked_symbol (λ s. record s { count = 0 })
    checked_in (out_offset q) (replicate 137 0)
    launch_earlier 2048 256
    checked_out (out_offset q) 137
    checked_read 137 8 (λ s. s.count)
    checked_read 145 4 (λ s. s.done)
    release

  unfoldable pub keypair_body : Request → Host ℤ
  keypair_body q = do
    call runtime (malloc (32 + 8 + length q.target + 8 + length q.suffix + 172)) (pos 0)
        (allocated runtime (32 + 8 + length q.target + 8 + length q.suffix + 172))
    upload_earlier q
    unchecked runtime copy_to_symbol
        (symbols_set runtime (λ s. record s { case_insensitive = q.case_insensitive }))
    checked_symbol (λ s. record s { done = 0 })
    checked_symbol (λ s. record s { count = 0 })
    checked_in (out_offset q) (replicate 172 0)
    launch_earlier 1024 256
    checked_out (out_offset q) 172
    checked_read 172 8 (λ s. s.count)
    checked_read 180 4 (λ s. s.done)
    release

  -- A round behind its head.
  unfoldable pub entered : Host ℤ → ℕ → GpuState → ℤ → GpuState → World → GpuState × World
  entered body device_count after_wait id state w =
      let ((after, goes_on), w') = enter runtime device_count after_wait id state w in
      (after, (if goes_on then (body w').1 else w'))

  unfoldable pub eth_vanity_round : ℕ → GpuState → Request → GpuState → World → GpuState × World
  eth_vanity_round device_count after_wait q = entered (eth_body q) device_count after_wait q.id

  unfoldable pub keypair_vanity_round : ℕ → GpuState → Request → GpuState → World → GpuState × World
  keypair_vanity_round device_count after_wait q =
      entered (keypair_body q) device_count after_wait q.id

  -- What follows the copy of the seed.
  unfoldable pub vanity_rest : List ℕ → List ℕ → ℕ → ℕ → Request → Host ℤ
  vanity_rest base owner blocks n q = do
    checked_in 32 base
    checked_in 64 owner
    checked_in 96 (le_bytes 8 (length q.target))
    checked_in 104 q.target
    checked_in (104 + length q.target) (le_bytes 8 (length q.suffix))
    checked_in (104 + length q.target + 8) q.suffix
    unchecked runtime copy_to_symbol
        (symbols_set runtime (λ s. record s { case_insensitive = q.case_insensitive }))
    checked_symbol (λ s. record s { done = 0 })
    checked_symbol (λ s. record s { count = 0 })
    launch_earlier blocks n
    checked_out (vanity_out q) 16
    checked_read 16 8 (λ s. s.count)
    release

  -- `device_count` is what the variable holds behind the call that nobody checks, and `globals` what
  -- `gpu_init` of kernels/utils.cu has set.
  unfoldable pub vanity_round : ℕ → GpuGlobals → List ℕ → List ℕ → Request → Host ℤ
  vanity_round device_count globals base owner q = do
    unchecked runtime get_device_count same
    guard (not (beyond q.id device_count)) (pos 0)
    unchecked runtime set_device same
    call runtime (malloc (vanity_size q)) (pos 0) (allocated runtime (vanity_size q))
    call runtime (copy_to_device 0 (length q.seed)) (pos 0) (copied_in runtime 0 q.seed)
    vanity_rest base owner globals.num_blocks globals.num_threads q
