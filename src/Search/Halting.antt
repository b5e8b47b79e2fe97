-- ===== src/Search/Halting.antt =====
-- The number of steps that a launch of kernels/sol_vanity_optimized.cu or
-- kernels/eth_vanity_ultra.cu can make.
use vanity_generator_evm_svm.Common.{
  ℕ, suc, ◌+◌, ◌-◌, ◌*◌, ◌≤◌, ◌<◌, ◌≢◌, refl, arith, ltb, ◌==◌, ◌&&◌,
}
use vanity_generator_evm_svm.Common.{inl, inr, Bool-cases}
use vanity_generator_evm_svm.Search.{Kernel, Globals, Verdict, skipped, missed, hit}
use vanity_generator_evm_svm.Search.{
  Pc, head, work, claim, publish, add_encodes, add_count, stopped,
}
use vanity_generator_evm_svm.Search.{leave, step_head, after_test, step}
use vanity_generator_evm_svm.Search.Threads.{sum_over, sum_over-update, sum_over-constant}
use vanity_generator_evm_svm.Search.System.{System, turn, launch, Reach, start, later}
use vanity_generator_evm_svm.Search.Invariant.{IsOk, Reach-Inv}

module _ (k : Kernel) (locals : ℕ → k.Local) where
  open k use {Local, Hit, test, counts_encodes, polls, iterations_per_thread}

  -- The steps that a thread can still make.
  unfoldable pub remaining : Pc k → ℕ
  remaining (head iter e l) = 2 * (iterations_per_thread - iter) + 5
  remaining (work iter e l) = 2 * (iterations_per_thread - iter) + 4
  remaining (claim iter e h) = 4
  remaining (publish iter e h) = 3
  remaining (add_encodes e tried) = 2
  remaining (add_count tried) = 1
  remaining (stopped tried) = 0

  leave-remaining : (e tried : ℕ) → remaining (leave k e tried) ≤ 2
  unfolding leave remaining
  leave-remaining e tried = elim (Bool-cases counts_encodes) [
    | inl c ↦ rw c (omega arith)
    | inr c ↦ rw c (omega arith)
  ]

  step_head-remaining :
      (g : Globals Hit) (iter e : ℕ) (l : Local)
      → remaining (step_head k g iter e l) < 2 * (iterations_per_thread - iter) + 5
  unfolding step_head
  step_head-remaining g iter e l = elim (Bool-cases (ltb iter iterations_per_thread)) [
    | inr finished ↦ rw finished (omega (arith, leave-remaining e iterations_per_thread))
    | inl going ↦ elim (Bool-cases (polls iter && g.done == 1)) [
      | inl seen ↦ rw (going, seen) (omega (arith, leave-remaining e iter))
      | inr unseen ↦ rw (going, unseen) (unfold remaining in omega arith)
    ]
  ]

  after_test-remaining :
      (iter e : ℕ) (l : Local) (v : Verdict Hit)
      → iter < iterations_per_thread
      → remaining (after_test k iter e l v) < 2 * (iterations_per_thread - iter) + 4
  unfolding remaining
  after_test-remaining iter e l skipped lt = omega arith
  after_test-remaining iter e l missed lt = omega arith
  after_test-remaining iter e l (hit h) lt = omega arith

  -- A thread that has not returned has one step less to make after each of its steps.
  pub step-remaining :
      (g : Globals Hit) (i : ℕ) (p : Pc k)
      → IsOk k locals g.done i p
      → remaining p ≢ 0
      → remaining (step k g p).1 < remaining p
  unfolding step remaining
  step-remaining g i (head iter e l) ok live = step_head-remaining g iter e l
  step-remaining g i (work iter e l) ok live = after_test-remaining iter e l (test l) ok.0
  step-remaining g i (claim iter e h) ok live = elim (Bool-cases (g.done == 0)) [
    | inl first ↦ rw first (omega arith)
    | inr late ↦ rw late (omega (arith, leave-remaining e (iter + 1)))
  ]
  step-remaining g i (publish iter e h) ok live = omega (arith, leave-remaining e (iter + 1))
  step-remaining g i (add_encodes e tried) ok live = omega arith
  step-remaining g i (add_count tried) ok live = omega arith
  step-remaining g i (stopped tried) ok live = absurd (live refl)

  -- `m` steps, each of a thread that had not returned yet.
  pub data Busy (n : ℕ) : ℕ → System k → Type 0 where
    begin : Busy n 0 (launch k locals)
    next :
        {m : ℕ} {s : System k} (i : ℕ)
        → i < n
        → remaining (s.pc i) ≢ 0
        → Busy n m s
        → Busy n (suc m) (turn k s i)

  Busy-Reach : {n m : ℕ} {s : System k} → Busy n m s → Reach k n locals s
  Busy-Reach begin = start
  Busy-Reach (next i lt live b) = later i lt (Busy-Reach b)

  Busy-remaining :
      {n m : ℕ} {s : System k}
      → Busy n m s
      → m + sum_over remaining s.pc n ≤ n * (2 * iterations_per_thread + 5)
  Busy-remaining {n} begin = omega (
    arith,
    sum_over-constant remaining (2 * iterations_per_thread + 5) (λ i. head 0 0 (locals i)) n
        (λ i lt. unfold remaining in omega arith),
  )
  Busy-remaining {n} (next {s = s} i lt live b) = omega (
    arith,
    Busy-remaining b,
    sum_over-update remaining i (step k s.globals (s.pc i)).1 s.pc n lt,
    step-remaining s.globals i (s.pc i) ((Reach-Inv k locals (Busy-Reach b)).ok i lt) live,
  )

  -- A launch of `n` threads makes at most `n * (2 * iterations_per_thread + 5)` steps, whatever the
  -- interleaving and whatever the tests say, before all its threads have returned.
  pub halting : {n m : ℕ} {s : System k} → Busy n m s → m ≤ n * (2 * iterations_per_thread + 5)
  halting b = omega (arith, Busy-remaining b)
