-- ===== src/Earlier.antt =====
-- The earlier versions of the kernels, which build.rs leaves out: kernels/vanity.cu,
-- kernels/ed25519_vanity.cu and kernels/eth_vanity.cu.
pub mod XorShift
pub mod Injective
pub mod Streams
pub mod Kernel
pub mod Report
pub mod Rounds
pub mod Release
pub mod Return
pub mod Persistent
pub mod Opened
pub mod Opening
pub mod Ready
pub mod Rest
pub mod Leak
use vanity_generator_evm_svm.Common.{
  ℕ, ◌*◌, Bool, true, false, leb, if◌then◌else◌, ◌||◌, ◌==◌, [], ◌∷◌,
}
use vanity_generator_evm_svm.Common.{ℤ, pos, negsuc, List, take, drop}
use vanity_generator_evm_svm.Host.{
  Runtime, Call, World, Symbols, Host, Outcome, going, returned, is_success, write_at, le_bytes,
  free, get_device_count,
}

-- The entry of a GPU in `gpu_initialized` and `gpu_initialized_eth`: -1, 0, 1 and 2.
pub data GpuState : Type 0 where
  failed : GpuState
  uninitialized : GpuState
  initializing : GpuState
  ready : GpuState

-- `id >= deviceCount`, between two numbers of type `int`.
unfoldable pub beyond : ℤ → ℕ → Bool
beyond (pos n) count = leb count n
beyond (negsuc n) count = false

-- `cudaFree(d_buffer)`.
abbrev pub free_buffer : World → World
free_buffer w = record w { device = record w.device { memory = [] }; calls = free ∷ w.calls }

module _ (runtime : Runtime) where
  -- A call that is checked at once: its effect, or a return that frees the buffer.
  unfoldable pub checked : Call → (World → World) → Host (Unit {0})
  checked c effect w =
      let calls = c ∷ w.calls in
      let after : World = record w { calls = calls } in
      if is_success (runtime.answer calls)
      then (going tt, effect after)
      else (returned (pos 0), free_buffer after)

  -- A call that nobody checks.
  unfoldable pub unchecked : Call → (World → World) → Host (Unit {0})
  unchecked c effect w =
      let calls = c ∷ w.calls in
      let after : World = record w { calls = calls } in
      (going tt, (if is_success (runtime.answer calls) then effect after else after))

  -- What a copy to the buffer, to a symbol, from the buffer and from a symbol does.
  abbrev pub copied_in : ℕ → List ℕ → World → World
  copied_in offset bytes w = record w {
    device = record w.device { memory = write_at offset bytes w.device.memory };
  }

  abbrev pub symbols_set : (Symbols → Symbols) → World → World
  symbols_set f w = record w { device = record w.device { symbols = f w.device.symbols } }

  abbrev pub copied_out : ℕ → ℕ → World → World
  copied_out offset n w = record w { out = write_at 0 (take n (drop offset w.device.memory)) w.out }

  abbrev pub symbol_read : ℕ → ℕ → (Symbols → ℕ) → World → World
  symbol_read at n f w = record w { out = write_at at (le_bytes n (f w.device.symbols)) w.out }

  abbrev pub allocated : ℕ → World → World
  allocated size w = record w { device = record w.device { memory = runtime.fresh size } }

  -- The kernel, which the grid tells its stride.
  abbrev pub kernel_run : ℕ → ℕ → World → World
  kernel_run blocks n w = record w { device = runtime.run_kernel blocks n (blocks * n) w.device }

  -- The head of `keypair_vanity_round` and of `eth_vanity_round`: the state of the GPU afterwards, and
  -- whether the round goes on. `after_wait` is the state that the spin wait ends with.
  unfoldable pub enter : ℕ → GpuState → ℤ → GpuState → World → (GpuState × Bool) × World
  enter device_count after_wait id failed w = ((failed, false), w)
  enter device_count after_wait id uninitialized w =
      let calls = get_device_count ∷ w.calls in
      let after : World = record w { calls = calls } in
      if is_success (runtime.answer calls)
      then if device_count == 0 || beyond id device_count
        then ((failed, false), after)
        else ((ready, true), after)
      else ((failed, false), after)
  enter device_count after_wait id initializing w = elim after_wait [
    | failed ↦ ((failed, false), w)
    | other ↦ ((other, true), w)
  ]
  enter device_count after_wait id ready w = ((ready, true), w)
