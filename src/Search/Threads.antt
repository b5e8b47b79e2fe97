-- ===== src/Search/Threads.antt =====
-- Families indexed by thread: a change at one thread, and sums over the first `n` threads.
use vanity_generator_evm_svm.Common.{ℕ, zero, suc, ◌+◌, ◌*◌, ◌≤◌, ◌<◌, ◌≡◌, refl, arith}
use mathlib.Core.Logic.{ite}
use native.Mathlib.Decide.{dec_lt, ℕ_discrete}

abbrev pub update {ℓ} : {A : Type ℓ} → ℕ → A → (ℕ → A) → ℕ → A
update i a f j = ite (ℕ_discrete j i) a (f j)

module _ {ℓ} {A : Type ℓ} (weight : A → ℕ) where
  unfoldable pub sum_over : (ℕ → A) → ℕ → ℕ
  sum_over f zero = 0
  sum_over f (suc n) = weight (f n) + sum_over f n

  sum_over-update_outside :
      (i : ℕ) (a : A) (f : ℕ → A) (n : ℕ) → n ≤ i → sum_over (update i a f) n ≡ sum_over f n
  unfolding sum_over
  sum_over-update_outside i a f zero h = refl
  sum_over-update_outside i a f (suc n) h = ground (arith, sum_over-update_outside i a f n)

  -- A change at thread `i` trades its old weight for the new one.
  pub sum_over-update :
      (i : ℕ) (a : A) (f : ℕ → A) (n : ℕ)
      → i < n
      → sum_over (update i a f) n + weight (f i) ≡ sum_over f n + weight a
  unfolding sum_over
  sum_over-update i a f zero h = absurd (omega arith)
  sum_over-update i a f (suc n) h = elim (dec_lt i n) [
    | yes inner ↦ ground (arith, sum_over-update i a f n inner)
    | no outer ↦ ground (arith, sum_over-update_outside i a f n)
  ]

  pub sum_over-zero : (f : ℕ → A) (n : ℕ) → ((i : ℕ) → i < n → weight (f i) ≡ 0) → sum_over f n ≡ 0
  unfolding sum_over
  sum_over-zero f zero h = refl
  sum_over-zero f (suc n) h =
      omega (arith, h n (omega arith), sum_over-zero f n (λ i lt. h i (omega arith)))

  -- Threads that all weigh the same.
  pub sum_over-constant :
      (c : ℕ) (f : ℕ → A) (n : ℕ) → ((i : ℕ) → i < n → weight (f i) ≡ c) → sum_over f n ≡ n * c
  unfolding sum_over
  sum_over-constant c f zero h = omega (arith, zero_times c)
    where
      zero_times : (b : ℕ) → 0 * b ≡ 0
      zero_times b = grind arith
  sum_over-constant c f (suc n) h =
      omega (
        arith,
        h n (omega arith),
        sum_over-constant c f n (λ i lt. h i (omega arith)),
        suc_times n c,
      )
    where
      suc_times : (a b : ℕ) → suc a * b ≡ b + a * b
      suc_times a b = grind arith
