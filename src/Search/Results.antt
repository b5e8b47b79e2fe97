-- ===== src/Search/Results.antt =====
-- What a launch leaves in the globals, for every interleaving of its threads.
use vanity_generator_evm_svm.Common.{ℕ, ◌*◌, ◌^◌, ◌<◌, ◌≡◌, refl, ap, ◌∙◌}
use vanity_generator_evm_svm.Common.{arith, Option, none, some, ◌↔◌, inl, inr, u64}
use vanity_generator_evm_svm.Search.{
  Kernel, Globals, Pc, head, work, claim, publish, add_encodes, add_count, stopped, step,
}
use vanity_generator_evm_svm.Search.Threads.{
  sum_over, sum_over-update, sum_over-zero, sum_over-constant,
}
use vanity_generator_evm_svm.Search.System.{System, turn, Reach}
use vanity_generator_evm_svm.Search.Invariant.{
  Found, NotHit, local_at, Clean, IsOk, Left, Inv, Reach-Inv,
}
use vanity_generator_evm_svm.Search.Invariant.{publishing, written, counted}
use mathlib.Core.Path.{subst}

module _ (k : Kernel) (locals : ℕ → k.Local) (n : ℕ) (s : System k) (r : Reach k n locals s) where
  open k use {Hit, iterations_per_thread}

  abbrev pub AllStopped : Type 0
  AllStopped = (i : ℕ) → i < n → (tried : ℕ) × (s.pc i ≡ stopped tried)

  inv : Inv k locals n s
  inv = Reach-Inv k locals r

  no_publisher : AllStopped → sum_over (publishing k locals) s.pc n ≡ 0
  no_publisher all =
      sum_over-zero (publishing k locals) s.pc n (λ i lt. let (t, e) = all i lt in rw e refl)

  Left-at : (all : AllStopped) (i : ℕ) (lt : i < n) → Left k locals s.globals.done i (all i lt).0
  Left-at all i lt = subst (IsOk k locals s.globals.done i) (all i lt).1 (inv.ok i lt)

  -- Whatever stands in the output area is a match of one of the launched threads, among the
  -- candidates that the launch allows it.
  pub report_sound :
      (h : Hit) → s.globals.out ≡ some h → (i : ℕ) × (i < n) × ((m : ℕ) × Found k locals i m h)
  report_sound h e = inv.genuine h e

  written-none : (o : Option Hit) → written k locals o ≡ 0 → o ≡ none
  written-none none e = refl
  written-none (some h) e = absurd (omega (arith, e))

  written-some : (o : Option Hit) → written k locals o ≡ 1 → (h : Hit) × (o ≡ some h)
  written-some none e = absurd (omega (arith, e))
  written-some (some h) e = (h, refl)

  -- Once all threads have returned, `done` is 1 exactly when the output area holds a result.
  pub done_iff_result : AllStopped → (s.globals.done ≡ 1) ↔ ((h : Hit) × (s.globals.out ≡ some h))
  done_iff_result all = (
    λ seen. written-some s.globals.out (omega (arith, settled)),
    λ (h, e). omega (arith, settled, ap (written k locals) e),
  )
    where
      settled : written k locals s.globals.out ≡ s.globals.done
      settled = omega (arith, inv.one_winner, no_publisher all)

  -- A thread that has returned while no result is written has tried all its candidates.
  exhausted :
      (all : AllStopped)
      → s.globals.out ≡ none
      → (i : ℕ) (lt : i < n)
      → ((all i lt).0 ≡ iterations_per_thread) × Clean k locals i iterations_per_thread
  exhausted all e i lt = elim (Left-at all i lt).1 [
    | inl seen ↦
        absurd (omega (arith, seen, inv.one_winner, no_publisher all, ap (written k locals) e))
    | inr full ↦ full
  ]

  -- Once all threads have returned with no result, no candidate of any thread is a match: none of
  -- the matches is passed over.
  pub report_complete :
      AllStopped
      → s.globals.out ≡ none
      → (i : ℕ) → i < n
      → (m : ℕ) → m < iterations_per_thread
      → NotHit (k.test (local_at k locals i m))
  report_complete all e i lt = (exhausted all e i lt).1

  -- The counter after a search with no result, modulo its size.
  pub count_total :
      AllStopped → s.globals.out ≡ none → s.globals.count ≡ u64 (n * iterations_per_thread)
  count_total all e = inv.total ∙ ap u64 every
    where
      every : sum_over (counted k locals) s.pc n ≡ n * iterations_per_thread
      every =
          sum_over-constant (counted k locals) iterations_per_thread s.pc n
            (λ i lt. ap (counted k locals) (all i lt).1 ∙ (exhausted all e i lt).0)

  -- Once all threads have returned with no result, and the launch has fewer than 2 ^ 64 candidates,
  -- `count` is the number of all of them.
  pub count_exact :
      AllStopped
      → s.globals.out ≡ none
      → n * iterations_per_thread < 2 ^ 64
      → s.globals.count ≡ n * iterations_per_thread
  count_exact all e fits = omega (arith, count_total all e, fits)

  -- A step of a thread that is not about to write leaves the output area alone.
  keeps_out : (g : Globals Hit) (p : Pc k) → publishing k locals p ≡ 0 → (step k g p).0.out ≡ g.out
  unfolding step
  keeps_out g (head iter l e) quiet = refl
  keeps_out g (work iter l e) quiet = refl
  keeps_out g (claim iter l h) quiet = refl
  keeps_out g (publish iter l h) quiet = absurd (omega (arith, quiet))
  keeps_out g (add_encodes l tried) quiet = refl
  keeps_out g (add_count tried) quiet = refl
  keeps_out g (stopped tried) quiet = refl

  -- The output area is written once: no later step of any thread changes a result that stands there.
  pub write_once :
      (h : Hit) → s.globals.out ≡ some h → (i : ℕ) → i < n → (turn k s i).globals.out ≡ some h
  write_once h e i lt = keeps_out s.globals (s.pc i) quiet ∙ e
    where
      quiet : publishing k locals (s.pc i) ≡ 0
      quiet = omega (
        arith,
        inv.flag,
        inv.one_winner,
        ap (written k locals) e,
        sum_over-update (publishing k locals) i (stopped 0) s.pc n lt,
      )
