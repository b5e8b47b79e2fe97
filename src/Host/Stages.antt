-- ===== src/Host/Stages.antt =====
-- What holds of the GPU, the calls and the output between the steps of a round.
use vanity_generator_evm_svm.Common.{ℕ, ◌+◌, ◌≤◌, ◌<◌, ◌≡◌, ◌≢◌, ◌⊎◌, true, false, List, [], ◌∷◌}
use vanity_generator_evm_svm.Common.{length, take, All, ℤ, pos, negsuc}
use vanity_generator_evm_svm.Setup.{threads, vanity_launch_threads}
use vanity_generator_evm_svm.Host.{
  Runtime, Device, Symbols, World, is_success, Call, set_device, malloc,
}
use vanity_generator_evm_svm.Host.{
  copy_to_device, copy_to_symbol, get_device_count, get_last_error, launch, synchronize,
  copy_from_device, copy_from_symbol, free,
}
use vanity_generator_evm_svm.Host.{valid_id}
use vanity_generator_evm_svm.Host.Rounds.{Request}

-- A copy stays within a buffer of `size` bytes.
abbrev pub IsWithin : ℕ → Call → Type 0
IsWithin size (copy_to_device offset n) = offset + n ≤ size
IsWithin size (copy_from_device offset n) = offset + n ≤ size
IsWithin size _ = Unit

-- The code that stands for the failure of a call; the rounds do not make the last three.
unfoldable pub code_of : Call → ℤ
code_of set_device = negsuc 1
code_of (malloc size) = negsuc 2
code_of (copy_to_device offset n) = negsuc 3
code_of copy_to_symbol = negsuc 3
code_of (copy_from_device offset n) = negsuc 3
code_of copy_from_symbol = negsuc 3
code_of synchronize = negsuc 4
code_of (launch n) = negsuc 5
code_of free = pos 0
code_of get_device_count = pos 0
code_of get_last_error = pos 0

-- An open context has a buffer of `size` bytes.
abbrev pub IsReady : ℕ → Device → Type 0
IsReady size d = d.initialized ≡ true → (d.buffer_size ≡ size) × (length d.memory ≡ size)

-- What the model relies on in the runtime: fresh memory has the size that was asked for, and a kernel
-- leaves the context alone.
pub record RuntimeLaws (runtime : Runtime) : Type 0 where
  pub length-fresh : (n : ℕ) → length (runtime.fresh n) ≡ n
  pub run_kernel_keeps :
      (blocks n iterations : ℕ) (d : Device)
      → let after = runtime.run_kernel blocks n iterations d in
        (after.initialized ≡ d.initialized)
        × (after.buffer_size ≡ d.buffer_size)
        × (length after.memory ≡ length d.memory)

module _ (runtime : Runtime) (size : ℕ) (q : Request) where
  -- A device that has no fitting number of threads for the kernel.
  abbrev pub NoThreads : Type 0
  NoThreads =
      (n : ℕ) → vanity_launch_threads runtime.occupancy runtime.attributes q.num_threads ≢ threads n

  -- The last call failed, and `code` stands for that call.
  abbrev pub LastFailed : ℤ → List Call → Type 0
  LastFailed code [] = ⊥
  LastFailed code (c ∷ calls) =
      (code ≡ code_of c) × (is_success (runtime.answer (c ∷ calls)) ≡ false)

  -- A returned code has its reason.
  abbrev pub Explained : ℤ → List Call → Type 0
  Explained code calls =
      ((code ≡ negsuc 0) × (valid_id q.id ≡ false))
      ⊎ (((code ≡ negsuc 5) × NoThreads) ⊎ LastFailed code calls)

  -- On the return of an error.
  pub record Failed (code : ℤ) (w : World) : Type 0 where
    pub ready : IsReady size w.device
    pub within : All (IsWithin size) w.calls
    pub explained : Explained code w.calls

  -- Before the buffer is open.
  pub record Closed (symbols : Symbols) (out : List ℕ) (w : World) : Type 0 where
    pub symbols_at : w.device.symbols ≡ symbols
    pub out_at : w.out ≡ out
    pub ready : IsReady size w.device
    pub within : All (IsWithin size) w.calls

  -- With an open buffer that begins with `bytes`, the given symbols, and `out` as it was.
  pub record Open (bytes : List ℕ) (symbols : Symbols) (out : List ℕ) (w : World) : Type 0 where
    pub is_open : w.device.initialized ≡ true
    pub buffer : w.device.buffer_size ≡ size
    pub memory : length w.device.memory ≡ size
    pub begins : take (length bytes) w.device.memory ≡ bytes
    pub symbols_at : w.device.symbols ≡ symbols
    pub out_at : w.out ≡ out
    pub within : All (IsWithin size) w.calls

  -- After a kernel that was given a buffer that begins with `bytes`, and the given symbols; `out` is
  -- made from what the kernel left.
  pub record Searched (bytes : List ℕ) (symbols : Symbols) (out : Device → List ℕ) (w : World)
      : Type 0 where
    pub threads_taken : ℕ
    pub positive : 0 < threads_taken
    pub at_most : threads_taken ≤ q.num_threads
    pub given : Device
    pub begins : take (length bytes) given.memory ≡ bytes
    pub symbols_at : given.symbols ≡ symbols
    pub device_at :
        w.device ≡ runtime.run_kernel q.num_blocks threads_taken q.iterations_per_thread given
    pub out_at : w.out ≡ out w.device
    pub is_open : w.device.initialized ≡ true
    pub buffer : w.device.buffer_size ≡ size
    pub memory : length w.device.memory ≡ size
    pub within : All (IsWithin size) w.calls
