-- ===== src/Host/Cleanup.antt =====
-- `sol_vanity_cleanup` (kernels/sol_vanity_optimized.cu) and `eth_vanity_cleanup_ultra`
-- (kernels/eth_vanity_ultra.cu).
use vanity_generator_evm_svm.Common.{
  ℕ, arith, ◌≡◌, refl, true, false, ◌&&◌, ℤ, Bool-cases, inl, inr,
}
use vanity_generator_evm_svm.Host.{World, valid_id}
use vanity_generator_evm_svm.Host.Rounds.{vanity_cleanup}
use vanity_generator_evm_svm.Host.Stages.{IsReady}

nothing_open :
    (id : ℤ) (w : World) → (valid_id id && w.device.initialized) ≡ false → vanity_cleanup id w ≡ w
unfolding vanity_cleanup
nothing_open id w closed = elim (Bool-cases (valid_id id && w.device.initialized)) [
  | inl e ↦ cc
  | inr e ↦ simp e refl
]

-- A clean-up keeps the context ready for a round and leaves the context of a valid number closed; a
-- second one in a row makes no call.
pub vanity_cleanup_twice :
    (id : ℤ) (w : World) (size : ℕ)
    → IsReady size w.device
    → IsReady size (vanity_cleanup id w).device
      × (valid_id id ≡ true → (vanity_cleanup id w).device.initialized ≡ false)
      × (vanity_cleanup id (vanity_cleanup id w) ≡ vanity_cleanup id w)
unfolding vanity_cleanup
vanity_cleanup_twice id w size ready =
    (ground arith, ground arith, nothing_open id (vanity_cleanup id w) (ground arith))
