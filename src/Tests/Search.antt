-- ===== src/Tests/Search.antt =====
-- Two threads of a small kernel over numbers, in one interleaving that ends with a match and in one
-- without a match.
use vanity_generator_evm_svm.Common.{
  ℕ, zero, suc, ◌+◌, ◌*◌, ◌≤◌, ◌<◌, ◌≡◌, refl, ◌==◌, if◌then◌else◌, arith, true, bit_and,
}
use vanity_generator_evm_svm.Common.{none, some, List, [], ◌∷◌}
use vanity_generator_evm_svm.Search.{Kernel, missed, hit, stopped, step, step_head, leave}
use vanity_generator_evm_svm.Search.System.{System, turn, launch, run, run-Reach, Reach, start}
use vanity_generator_evm_svm.Search.Results.{count_exact}
use vanity_generator_evm_svm.Search.Halting.{Busy, begin, next, remaining, halting}
use native.Mathlib.Decide.{ℕ_discrete}

-- The kernel looks for one number among those that follow each start.
abbrev seeker : ℕ → Kernel
seeker wanted = record {
  Local = ℕ;
  Hit = ℕ;
  test = λ l. if l == wanted then hit l else missed;
  advance = λ l. l + 1;
  counts_encodes = true;
  polls = λ iter. bit_and iter 0x3F == 0;
  iterations_per_thread = 2;
}

abbrev starts : ℕ → ℕ
starts i = 2 * i

-- Thread 1 finds 3 while thread 0 is under way.
abbrev order : List ℕ
order = 1 ∷ 1 ∷ 0 ∷ 1 ∷ 1 ∷ 1 ∷ 0 ∷ 1 ∷ 0 ∷ 1 ∷ 1 ∷ 0 ∷ 0 ∷ 0 ∷ 0 ∷ 0 ∷ []

abbrev searched : (wanted : ℕ) → System (seeker wanted)
searched wanted = run (seeker wanted) (launch (seeker wanted) starts) order

searched-Reach : (wanted : ℕ) → Reach (seeker wanted) 2 starts (searched wanted)
searched-Reach wanted =
    let lt0 : 0 < 2 = omega arith in
    let lt1 : 1 < 2 = omega arith in
    run-Reach (seeker wanted) 2 starts (launch (seeker wanted) starts) order
      (
        lt1,
        (
          lt1,
          (
            lt0,
            (
              lt1,
              (
                lt1,
                (lt1, (lt0, (lt1, (lt0, (lt1, (lt1, (lt0, (lt0, (lt0, (lt0, (lt0, tt))))))))))),
              ),
            ),
          ),
        ),
      )
      start

searched_out : (searched 3).globals.out ≡ some 3
unfolding step step_head leave ℕ_discrete
searched_out = refl

searched-none : (searched 9).globals.out ≡ none
unfolding step step_head leave ℕ_discrete
searched-none = refl

below_two : (P : ℕ → Type 0) → P 0 → P 1 → (i : ℕ) → i < 2 → P i
below_two P p0 p1 zero lt = p0
below_two P p0 p1 (suc zero) lt = p1
below_two P p0 p1 (suc (suc i)) lt = absurd (omega arith)

searched_stopped :
    (wanted : ℕ)
    → ((i : ℕ) → i < 2 → (tried : ℕ) × ((searched 3).pc i ≡ stopped tried))
      × ((i : ℕ) → i < 2 → (tried : ℕ) × ((searched 9).pc i ≡ stopped tried))
unfolding step step_head leave ℕ_discrete
searched_stopped wanted = (
  below_two (λ i. (tried : ℕ) × ((searched 3).pc i ≡ stopped tried)) (2, refl) (2, refl),
  below_two (λ i. (tried : ℕ) × ((searched 9).pc i ≡ stopped tried)) (2, refl) (2, refl),
)

count_exact_example : (searched 9).globals.count ≡ 2 * 2
count_exact_example =
    count_exact (seeker 9) starts 2 (searched 9) (searched-Reach 9) (searched_stopped 9).1
      searched-none (omega arith)

one_step : Busy (seeker 3) starts 2 1 (turn (seeker 3) (launch (seeker 3) starts) 1)
unfolding remaining
one_step = next 1 (omega arith) (omega arith) begin

halting_example : 1 ≤ 2 * (2 * 2 + 5)
halting_example = halting (seeker 3) starts one_step
