-- ===== src/Production/Launch.antt =====
-- `eth_gpu_launch_kernels` (kernels/eth_vanity_production.cu): both kernels, one after the other.
use vanity_generator_evm_svm.Common.{
  ℕ, zero, suc, ◌+◌, ◌*◌, ◌/◌, ◌%◌, ◌^◌, ◌≤◌, ◌<◌, ◌≡◌, refl, arith, inl, inr, Bool, true, ◌==◌,
  u64, List, map, length, All, get_or, pos,
}
use vanity_generator_evm_svm.Host.{going}
use vanity_generator_evm_svm.Secp.{CurvePoint}
use vanity_generator_evm_svm.Production.Grid.{
  EthMath, Atomic, apply_all, entry, unset, gpu_address_work,
}
use vanity_generator_evm_svm.Production.Inverses.{InverseLaws, Apart, chord}
use vanity_generator_evm_svm.Production.Starts.{Among, init_all, init_all-chord}
use vanity_generator_evm_svm.Production.Order.{Shuffles}
use vanity_generator_evm_svm.Production.Totals.{highest_of, hits_of, work_launch-totals}
use vanity_generator_evm_svm.Production.Memory.{Grid, up_to, eth_gpu_launch_kernels}
use native.Mathlib.Decide.{ℕ_discrete}
use Prim.Native.Nat.{max}
use mathlib.Core.Path.{subst}

up_to-bound : (n m : ℕ) → n ≤ m → All (λ t. t < m) (up_to n)
unfolding up_to
up_to-bound zero m le = tt
up_to-bound (suc n) m le = (le, up_to-bound n m (omega (arith, le)))

up_to-Among : (n t : ℕ) → t < n → Among t (up_to n)
unfolding up_to
up_to-Among zero t lt = absurd (omega (arith, lt))
up_to-Among (suc n) t lt = elim (ℕ_discrete t n) [
  | yes e ↦ inl e
  | no other ↦ inr (up_to-Among n t (omega (arith, lt, other)))
]

module _ (math : EthMath) (laws : InverseLaws math) (w : Grid) (host : List CurvePoint)
    (grid : ℕ) where
  -- The points that the first kernel leaves.
  abbrev pub started : List CurvePoint
  started = init_all math w.thread_offsets host (up_to grid) w.offsets

  -- What a launch leaves: sums by additions that invert one by one, and the totals of the scores of the
  -- points of all threads.
  pub record IsLaunched (after : Grid) : Type 0 where
    pub starts :
        (t i : ℕ)
        → t < grid
        → i < 256
        → get_or after.offsets (t * 256 + i) unset
          ≡ chord math laws (entry host t) w.thread_offsets i
    pub totals : after.results ≡ record w.results {
      max_score =
          max w.results.max_score
            (highest_of w.pattern math laws w.addends after.offsets (up_to (grid * 256)));
      found_count = u64 (
          w.results.found_count
          + hits_of w.pattern math laws w.addends after.offsets (up_to (grid * 256)));
    }

  -- With calls that all succeed, a grid that is a multiple of 256 and has room, the flag down, and no
  -- abscissa of a table at the points that it is added to, the launch returns 0. The first kernel has
  -- then left at entry `i` of every thread the sum of the thread's point with entry `i` of the table,
  -- and the second one the highest score and the number of scores of all points, whatever the
  -- interleaving of its atomics.
  pub eth_gpu_launch_kernels-IsLaunched :
      (ok : ℕ → Bool) (atomics : List Atomic)
      → ((k : ℕ) → ok k ≡ true)
      → grid % 256 ≡ 0
      → grid * 256 ≤ length w.offsets
      → w.results.found_count < 2 ^ 64
      → w.results.done ≡ 0
      → ((t : ℕ) → t < grid → Apart math laws (entry host t) w.thread_offsets 255)
      → All (λ t. Apart math laws (entry started t) w.addends 254) (up_to (grid * 256))
      → Shuffles
          (map
            (gpu_address_work math w.pattern w.results.done w.addends started)
            (up_to (grid * 256)))
          atomics
      → (after : Grid) × (eth_gpu_launch_kernels ok math host grid atomics w
          ≡ (going (pos 0), after))
        × IsLaunched after
  unfolding eth_gpu_launch_kernels
  eth_gpu_launch_kernels-IsLaunched ok atomics fine multiple room count down apart apart'
        interleaved =
      let test : (grid % 256 == 0) ≡ true = ground (arith, multiple) in
      let all_threads : grid / 256 * 256 ≡ grid = omega (arith, multiple) in
      let order =
        subst
          (λ d.
            Shuffles
              (map (gpu_address_work math w.pattern d w.addends started) (up_to (grid * 256)))
              atomics)
          down interleaved in
      let after : Grid = record w {
        block_offsets = host;
        offsets = started;
        results = apply_all atomics w.results;
      } in
      (
        after,
        rw (fine 0, test, fine 1, fine 2, fine 3, fine 4, all_threads) refl,
        record {
          starts = λ t i lt small.
              init_all-chord math w.thread_offsets host laws grid apart (up_to grid) t i w.offsets
                (up_to-bound grid grid (omega arith)) (up_to-Among grid t lt) small room;
          totals =
              work_launch-totals w.pattern math laws w.addends started (up_to (grid * 256)) atomics
                w.results apart' order count;
        },
      )
