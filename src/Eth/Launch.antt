-- ===== src/Eth/Launch.antt =====
-- One launch of `eth_vanity_search_ultra` (kernels/eth_vanity_ultra.cu) on a device: what its threads
-- take from the buffer and the symbols, and what they leave there.
use vanity_generator_evm_svm.Common.{ℕ, ◌+◌, ◌*◌, ◌^◌, ◌≤◌, ◌<◌, ◌≡◌, some, List, ◌++◌, length}
use vanity_generator_evm_svm.Host.{Device, Runtime, Symbols}
use vanity_generator_evm_svm.Host.Layout.{View, deconstruct}
use vanity_generator_evm_svm.Host.Written.{Written}
use vanity_generator_evm_svm.Rng.{init_rng}
use vanity_generator_evm_svm.Search.{Kernel}
use vanity_generator_evm_svm.Search.System.{System, Reach}
use vanity_generator_evm_svm.Search.Results.{AllStopped}
use vanity_generator_evm_svm.Eth.{Curve, EthResult, draw, first_walker, eth_kernel}

-- What the winner copies to `out`.
unfoldable pub result_bytes : EthResult → List ℕ
result_bytes h = (h.private ++ h.public) ++ h.address_hex

-- All of the first `n` threads leave the drawing loop within the fuel.
abbrev pub DrawsAll : ℕ → List ℕ → ℕ → Type 0
DrawsAll fuel seed n = (i : ℕ) → i < n → (key : List ℕ) × (draw fuel (init_rng seed i) ≡ some key)

module _ (curve : Curve) (fuel n iterations : ℕ) (view : View) where
  abbrev pub kernel : Kernel
  kernel = eth_kernel curve view.target view.suffix iterations

  -- The device after `n` threads have returned, in some interleaving of them, each with the key that
  -- it has drawn.
  pub record Launched (memory : List ℕ) (after : Device) : Type 0 where
    pub starts : ℕ → List ℕ
    pub drawn : (i : ℕ) → i < n → draw fuel (init_rng view.seed i) ≡ some (starts i)
    pub system : System kernel
    pub reach : Reach kernel n (λ i. first_walker curve (starts i)) system
    pub all_stopped : AllStopped kernel (λ i. first_walker curve (starts i)) n system reach
    pub done_at : after.symbols.done ≡ system.globals.done
    pub count_at : after.symbols.count ≡ system.globals.count
    pub written : Written result_bytes 137 system.globals.out view.out_at memory after.memory

-- The symbols that a launch counts from.
abbrev pub IsReset : Symbols → Type 0
IsReset s = (s.done ≡ 0) × (s.count ≡ 0)

-- The patterns and the iterations that the kernel takes.
abbrev pub IsInRange : View → ℕ → Type 0
IsInRange view iterations =
    (length view.target ≤ 40) × (length view.suffix ≤ 40) × (iterations < 2 ^ 64)

-- The runtime launches this kernel: from reset symbols and a buffer with room for the output, with
-- patterns and iterations in range, it runs all threads of all blocks to their end, if all of them leave
-- the drawing loop.
abbrev pub LaunchesEth : Runtime → Curve → ℕ → Type 0
LaunchesEth runtime curve fuel =
    (blocks n iterations : ℕ) (d : Device)
    → IsReset d.symbols
    → (deconstruct d.memory).out_at + 137 ≤ length d.memory
    → IsInRange (deconstruct d.memory) iterations
    → DrawsAll fuel (deconstruct d.memory).seed (blocks * n)
    → Launched curve fuel (blocks * n) iterations (deconstruct d.memory) d.memory
        (runtime.run_kernel blocks n iterations d)
