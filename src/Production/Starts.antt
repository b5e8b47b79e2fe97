-- ===== src/Production/Starts.antt =====
-- The starting points that the threads of `gpu_address_init` (kernels/eth_vanity_production.cu) leave.
use vanity_generator_evm_svm.Common.{
  ℕ, ◌+◌, ◌*◌, ◌≤◌, ◌<◌, ◌≡◌, refl, ap, ◌∙◌, sym, arith, ◌⊎◌, inl, inr, List, [], ◌∷◌, get_or,
  length, All,
}
use vanity_generator_evm_svm.Secp.{CurvePoint}
use vanity_generator_evm_svm.Production.Grid.{EthMath, entry, unset, gpu_address_init}
use vanity_generator_evm_svm.Production.Inverses.{
  InverseLaws, Apart, chord, start, length-start, start_inside, start_outside,
}
use native.Mathlib.Decide.{ℕ_discrete}

abbrev pub Among : ℕ → List ℕ → Type 0
Among t [] = ⊥
Among t (u ∷ us) = (t ≡ u) ⊎ Among t us

module _ (math : EthMath) (thread_offsets block_offsets : List CurvePoint) where
  -- The threads of the launch, one after another in some order.
  unfoldable pub init_all : List ℕ → List CurvePoint → List CurvePoint
  init_all [] offsets = offsets
  init_all (t ∷ ts) offsets =
      init_all ts (gpu_address_init math thread_offsets block_offsets t offsets)

  module _ (laws : InverseLaws math) (grid : ℕ)
      (apart : (t : ℕ)
        → t < grid
        → Apart math laws (entry block_offsets t) thread_offsets 255) where
    -- The entry `i` of thread `t` is its sum.
    abbrev Right : ℕ → ℕ → List CurvePoint → Type 0
    Right t i offsets =
        get_or offsets (t * 256 + i) unset
        ≡ chord math laws (entry block_offsets t) thread_offsets i

    thread-start :
        (t : ℕ) (offsets : List CurvePoint)
        → gpu_address_init math thread_offsets block_offsets t offsets
          ≡ start math laws (entry block_offsets t) thread_offsets (t * 256) 255 offsets
    unfolding gpu_address_init start
    thread-start t offsets = refl

    thread-length :
        (t : ℕ) (offsets : List CurvePoint)
        → t < grid
        → length (gpu_address_init math thread_offsets block_offsets t offsets) ≡ length offsets
    thread-length t offsets lt =
        ap length (thread-start t offsets)
        ∙ length-start math laws (entry block_offsets t) thread_offsets (t * 256) 255 offsets
            (apart t lt)

    thread-Right :
        (t i : ℕ) (offsets : List CurvePoint)
        → t < grid
        → i < 256
        → grid * 256 ≤ length offsets
        → Right t i (gpu_address_init math thread_offsets block_offsets t offsets)
    thread-Right t i offsets lt small room =
        ap (λ l. get_or l (t * 256 + i) unset) (thread-start t offsets)
        ∙ start_inside math laws (entry block_offsets t) thread_offsets (t * 256) 255 i offsets
            (apart t lt) (omega (arith, small)) (omega (arith, lt, room))

    -- Another thread leaves the entry alone.
    thread_keeps :
        (u t i : ℕ) (offsets : List CurvePoint)
        → u < grid
        → t < grid
        → i < 256
        → grid * 256 ≤ length offsets
        → Right t i offsets
        → Right t i (gpu_address_init math thread_offsets block_offsets u offsets)
    thread_keeps u t i offsets lu lt small room good = elim (ℕ_discrete u t) [
      | yes e ↦ rw e (thread-Right t i offsets lt small room)
      | no other ↦
          ap (λ l. get_or l (t * 256 + i) unset) (thread-start u offsets)
          ∙ start_outside math laws (entry block_offsets u) thread_offsets (u * 256) 255
              (t * 256 + i) offsets (apart u lu) (λ j le e. omega (arith, other, small, le, e))
          ∙ good
    ]

    init_keeps :
        (ts : List ℕ) (t i : ℕ) (offsets : List CurvePoint)
        → All (λ u. u < grid) ts
        → t < grid
        → i < 256
        → grid * 256 ≤ length offsets
        → Right t i offsets
        → Right t i (init_all ts offsets)
    unfolding init_all
    init_keeps [] t i offsets all lt small room good = good
    init_keeps (u ∷ us) t i offsets (lu, all) lt small room good =
        init_keeps us t i _ all lt small (omega (arith, room, thread-length u offsets lu))
          (thread_keeps u t i offsets lu lt small room good)

    -- On an array with room for the grid, and with no abscissa of the table at the starting points of
    -- the blocks, every thread that runs, in whatever order, leaves at each of its 256 entries the sum
    -- of its block's point with the entry of the table, though it inverts but once.
    pub init_all-chord :
        (ts : List ℕ) (t i : ℕ) (offsets : List CurvePoint)
        → All (λ u. u < grid) ts
        → Among t ts
        → i < 256
        → grid * 256 ≤ length offsets
        → get_or (init_all ts offsets) (t * 256 + i) unset
          ≡ chord math laws (entry block_offsets t) thread_offsets i
    unfolding init_all
    init_all-chord [] t i offsets all among small room = absurd among
    init_all-chord (u ∷ us) t i offsets (lu, all) (inl e) small room =
        let lt : t < grid = omega (arith, lu, e) in
        init_keeps us t i _ all lt small (omega (arith, room, thread-length u offsets lu))
          (rw (sym e) (thread-Right t i offsets lt small room))
    init_all-chord (u ∷ us) t i offsets (lu, all) (inr among) small room =
        init_all-chord us t i _ all among small (omega (arith, room, thread-length u offsets lu))
