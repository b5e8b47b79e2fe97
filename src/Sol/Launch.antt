-- ===== src/Sol/Launch.antt =====
-- One launch of `sol_vanity_search_optimized` (kernels/sol_vanity_optimized.cu) on a device: what its
-- threads take from the buffer and the symbols, and what they leave there.
use vanity_generator_evm_svm.Common.{ℕ, ◌+◌, ◌*◌, ◌≤◌, ◌≡◌, Bool, List, ◌++◌, length}
use vanity_generator_evm_svm.Host.{Device, Runtime, Symbols}
use vanity_generator_evm_svm.Host.Layout.{View, deconstruct}
use vanity_generator_evm_svm.Host.Written.{Written}
use vanity_generator_evm_svm.Rng.{init_rng}
use vanity_generator_evm_svm.Search.{Kernel}
use vanity_generator_evm_svm.Search.System.{System, Reach}
use vanity_generator_evm_svm.Search.Results.{AllStopped}
use vanity_generator_evm_svm.Sol.{Ed25519, SolResult, sol_kernel}

-- What the winner copies to `out`, up to the end of the text of the address.
unfoldable pub result_bytes : SolResult → List ℕ
result_bytes h = ((h.seed ++ h.private) ++ h.public) ++ h.address

module _ (ed : Ed25519) (n iterations : ℕ) (view : View) (case_insensitive : Bool) where
  abbrev pub kernel : Kernel
  kernel = sol_kernel ed view.target view.suffix case_insensitive iterations

  -- The device after `n` threads have returned, in some interleaving of them.
  pub record Launched (memory : List ℕ) (after : Device) : Type 0 where
    pub system : System kernel
    pub reach : Reach kernel n (init_rng view.seed) system
    pub all_stopped : AllStopped kernel (init_rng view.seed) n system reach
    pub done_at : after.symbols.done ≡ system.globals.done
    pub count_at : after.symbols.count ≡ system.globals.count
    pub full_encodes_at : after.symbols.full_encodes ≡ system.globals.encodes
    pub written : Written result_bytes 172 system.globals.out view.out_at memory after.memory

-- The symbols that a launch counts from.
abbrev pub IsReset : Symbols → Type 0
IsReset s = (s.done ≡ 0) × (s.count ≡ 0) × (s.full_encodes ≡ 0)

-- The runtime launches this kernel: from reset symbols and a buffer with room for the output, it runs
-- all threads of all blocks to their end.
abbrev pub LaunchesSol : Runtime → Ed25519 → Type 0
LaunchesSol runtime ed =
    (blocks n iterations : ℕ) (d : Device)
    → IsReset d.symbols
    → (deconstruct d.memory).out_at + 172 ≤ length d.memory
    → Launched ed (blocks * n) iterations (deconstruct d.memory) d.symbols.case_insensitive d.memory
        (runtime.run_kernel blocks n iterations d)
