-- ===== src/Search/Schedule.antt =====
-- The way on from every state of a launch of kernels/sol_vanity_optimized.cu or
-- kernels/eth_vanity_ultra.cu.
use vanity_generator_evm_svm.Common.{
  ℕ, zero, suc, ◌≤◌, ◌<◌, ◌≡◌, ◌≢◌, refl, arith, ◌⊎◌, inl, inr, List, [], ◌∷◌, All,
}
use vanity_generator_evm_svm.Search.{
  Kernel, Pc, head, work, claim, publish, add_encodes, add_count, stopped, step,
}
use vanity_generator_evm_svm.Search.Threads.{sum_over, sum_over-update}
use vanity_generator_evm_svm.Search.System.{System, turn, Reach, later, run}
use vanity_generator_evm_svm.Search.Invariant.{Reach-Inv}
use vanity_generator_evm_svm.Search.Halting.{remaining, step-remaining}
use native.Mathlib.Decide.{ℕ_discrete}

module _ (k : Kernel) (locals : ℕ → k.Local) (n : ℕ) where
  nothing_left : (p : Pc k) → remaining k locals p ≡ 0 → (tried : ℕ) × (p ≡ stopped tried)
  unfolding remaining
  nothing_left (head iter e l) h = absurd (omega (arith, h))
  nothing_left (work iter e l) h = absurd (omega (arith, h))
  nothing_left (claim iter e x) h = absurd (omega (arith, h))
  nothing_left (publish iter e x) h = absurd (omega (arith, h))
  nothing_left (add_encodes e tried) h = absurd (omega (arith, h))
  nothing_left (add_count tried) h = absurd (omega (arith, h))
  nothing_left (stopped tried) h = (tried, refl)

  -- A thread that has not returned, or none among the first ones.
  next_thread :
      (pc : ℕ → Pc k) (m : ℕ)
      → ((i : ℕ) × (i < m) × (remaining k locals (pc i) ≢ 0))
        ⊎ ((i : ℕ) → i < m → remaining k locals (pc i) ≡ 0)
  next_thread pc zero = inr (λ i lt. absurd (omega (arith, lt)))
  next_thread pc (suc m) = elim (ℕ_discrete (remaining k locals (pc m)) 0) [
    | no live ↦ inl (m, omega arith, live)
    | yes at_end ↦ elim (next_thread pc m) [
      | inl (i, lt, live) ↦ inl (i, omega (arith, lt), live)
      | inr all ↦ inr (λ i lt. elim (ℕ_discrete i m) [
        | yes same ↦ rw same at_end
        | no other ↦ all i (omega (arith, lt, other))
      ])
    ]
  ]

  -- An order of turns that lets all threads return.
  abbrev Ending : System k → Type 0
  Ending s =
      (order : List ℕ) × All (λ i. i < n) order
      × ((i : ℕ) → i < n → (tried : ℕ) × ((run k s order).pc i ≡ stopped tried))

  -- A turn of a thread that has not returned brings the end nearer.
  nearer :
      (s : System k)
      → Reach k n locals s
      → (i : ℕ) → i < n
      → remaining k locals (s.pc i) ≢ 0
      → sum_over (remaining k locals) (turn k s i).pc n < sum_over (remaining k locals) s.pc n
  nearer s r i lt live = omega (
    arith,
    sum_over-update (remaining k locals) i (step k s.globals (s.pc i)).1 s.pc n lt,
    step-remaining k locals s.globals i (s.pc i) ((Reach-Inv k locals r).ok i lt) live,
  )

  -- The turn of the next live thread, and what follows.
  proceed :
      (s : System k)
      → Reach k n locals s
      → ((s' : System k)
          → Reach k n locals s'
          → sum_over (remaining k locals) s'.pc n < sum_over (remaining k locals) s.pc n
          → Ending s')
      → Ending s
  proceed s r again = elim (next_thread s.pc n) [
    | inr all ↦ ([], tt, λ i lt. nothing_left (s.pc i) (all i lt))
    | inl (i, lt, live) ↦
        let (order, within, all) = again (turn k s i) (later i lt r) (nearer s r i lt live) in
        (i ∷ order, (lt, within), all)
  ]

  ending :
      (fuel : ℕ) (s : System k)
      → Reach k n locals s
      → sum_over (remaining k locals) s.pc n ≤ fuel
      → Ending s
  ending zero s r le = proceed s r (λ s' r' lt. absurd (omega (arith, lt, le)))
  ending (suc fuel) s r le = proceed s r (λ s' r' lt. ending fuel s' r' (omega (arith, lt, le)))

  -- From every state that a launch of `n` threads reaches, some order of turns of its threads leads
  -- to a state in which all of them have returned: no interleaving leads to a dead end.
  pub never_stuck :
      (s : System k)
      → Reach k n locals s
      → (order : List ℕ) × All (λ i. i < n) order
        × ((i : ℕ) → i < n → (tried : ℕ) × ((run k s order).pc i ≡ stopped tried))
  never_stuck s r = ending (sum_over (remaining k locals) s.pc n) s r (omega arith)
