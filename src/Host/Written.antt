-- ===== src/Host/Written.antt =====
-- What the winner of a launch leaves in the buffer, and what a round of kernels/sol_vanity_optimized.cu
-- or of kernels/eth_vanity_ultra.cu copies of it.
use vanity_generator_evm_svm.Common.{
  ℕ, ◌≤◌, ◌≡◌, sym, ap, ◌∙◌, Option, none, some, List, ◌++◌, length, take, drop, ℤ,
}
use vanity_generator_evm_svm.Host.{Runtime, Device, Symbols, World, write_at}
use vanity_generator_evm_svm.Host.Rounds.{Request}
use vanity_generator_evm_svm.Host.Stages.{RuntimeLaws}
use vanity_generator_evm_svm.Host.Served.{Served}
use vanity_generator_evm_svm.Host.Reading.{drop-write_at}
use mathlib.Core.Path.{subst}

module _ {H : Type 0} (bytes_of : H → List ℕ) (n : ℕ) where
  -- The buffer behind the copies of the winner: `n` bytes, which may end with some that nobody has set.
  abbrev pub Written : Option H → ℕ → List ℕ → List ℕ → Type 0
  Written none out_at memory after = after ≡ memory
  Written (some h) out_at memory after =
      (rest : List ℕ) × (length (bytes_of h ++ rest) ≡ n)
      × (after ≡ write_at out_at (bytes_of h ++ rest) memory)

  -- The slice at the output is what the winner wrote.
  pub slice-Written :
      (o : Option H) (h : H) (out_at : ℕ) (memory after : List ℕ)
      → o ≡ some h
      → out_at ≤ length memory
      → Written o out_at memory after
      → (rest : List ℕ) × (take n (drop out_at after) ≡ bytes_of h ++ rest)
  slice-Written o h out_at memory after e fits written =
      let (rest, as_long, wrote) = subst (λ x. Written x out_at memory after) e written in
      (
        rest,
        ap (λ m. take n (drop out_at m)) wrote
            ∙ ap (λ k. take k (drop out_at (write_at out_at (bytes_of h ++ rest) memory)))
                (sym as_long)
            ∙ drop-write_at out_at (bytes_of h ++ rest) memory fits,
      )

-- The buffer that the kernel was given has its size.
pub length-given :
    (runtime : Runtime) (laws : RuntimeLaws runtime) (size : ℕ) (q : Request) (n : ℕ)
    (symbols : Symbols) (report : Device → List ℕ) (code : ℤ) (w : World)
    (s : Served runtime size q n symbols report code w)
    → length s.given.memory ≡ size
length-given runtime laws size q n symbols report code w s =
    let (still_open, same_size, same_memory) =
      laws.run_kernel_keeps q.num_blocks s.threads_taken q.iterations_per_thread s.given in
    sym same_memory ∙ ap (λ d. length (Device.memory d)) (sym s.device_at) ∙ s.memory
