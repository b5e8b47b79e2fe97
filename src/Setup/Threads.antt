-- ===== src/Setup/Threads.antt =====
-- `vanity_launch_threads` (kernels/launch_config.cuh) over all halves of the request.
use vanity_generator_evm_svm.Common.{ℕ, zero, suc, ◌/◌, ◌≤◌, ◌<◌, ◌≡◌, refl, arith, ◌⊎◌, inl, inr}
use vanity_generator_evm_svm.Common.{leb, leb→le, ◌==◌, ==_iff, Bool-cases}
use mathlib.Core.Path.{subst, sym}
use native.Mathlib.Nat.{le_refl}
use vanity_generator_evm_svm.Setup.{
  Selected, invalid_configuration, threads, launch_out_of_resources, runtime_error, Occupancy,
  failed, active, Attributes, no_attributes,
}
use vanity_generator_evm_svm.Setup.{
  max_threads_per_block, try_threads, halve, vanity_launch_threads,
}

module _ (occupancy : ℕ → Occupancy) (limit : ℕ) where
  -- The device takes a block of `n` threads.
  abbrev pub Fits : ℕ → Type 0
  Fits n = (n ≤ limit) × ((blocks : ℕ) × (occupancy n ≡ active (suc blocks)))

  -- A request, halved some number of times.
  pub data Half (requested : ℕ) : ℕ → Type 0 where
    whole : Half requested requested
    half : {n : ℕ} → Half requested n → Half requested (n / 2)

  Half-step : (n k : ℕ) → Half n k → (k ≡ n) ⊎ Half (n / 2) k
  Half-step n k whole = inl refl
  Half-step n k (half {n = m} h) = elim (Half-step n m h) [
    | inl same ↦ inr (subst (λ t. Half (n / 2) (t / 2)) (sym same) whole)
    | inr further ↦ inr (half further)
  ]

  pub Half-le : (n k : ℕ) → Half n k → k ≤ n
  Half-le n k whole = le_refl n
  Half-le n k (half {n = m} h) = omega (arith, Half-le n m h)

  Half-front : (n k : ℕ) → Half (n / 2) k → Half n k
  Half-front n k whole = half whole
  Half-front n k (half {n = m} h) = half (Half-front n m h)

  -- The loop passes over `n`: it is too large for a block, or a multiprocessor holds no such block.
  abbrev pub IsRefused : ℕ → Type 0
  IsRefused n = (limit < n) ⊎ (occupancy n ≡ active 0)

  -- All halves of the request above `m` are refused.
  abbrev pub AllRefused : ℕ → ℕ → Type 0
  AllRefused requested m = (k : ℕ) → Half requested k → m < k → IsRefused k

  -- A half of the request that fits, with none above it that does.
  abbrev pub IsLargest : ℕ → ℕ → Type 0
  IsLargest requested m = Half requested m × (0 < m) × Fits m × AllRefused requested m

  -- A half of the request at which the runtime fails, the first that it is asked about and does not
  -- refuse.
  abbrev pub IsBroken : ℕ → ℕ → Type 0
  IsBroken requested err =
      (m : ℕ) × Half requested m
      × (0 < m)
      × (m ≤ limit)
      × (occupancy m ≡ failed err)
      × AllRefused requested m

  -- What a result of the loop says of the number that it starts from.
  abbrev pub Meaning : ℕ → Selected → Type 0
  Meaning requested (threads m) = IsLargest requested m
  Meaning requested (runtime_error err) = IsBroken requested err
  Meaning requested launch_out_of_resources = AllRefused requested 0
  Meaning requested invalid_configuration = ⊥

  -- Refused halves of one half are refused halves of the whole, if that is refused too.
  AllRefused-half : (n m : ℕ) → IsRefused n → AllRefused (n / 2) m → AllRefused n m
  AllRefused-half n m over rest k hk lt = elim (Half-step n k hk) [
    | inl same ↦ subst IsRefused (sym same) over
    | inr further ↦ rest k further lt
  ]

  none_above : (n : ℕ) → AllRefused n n
  none_above n k hk lt = absurd (omega (arith, lt, Half-le n k hk))

  pass_on : (n : ℕ) (r : Selected) → IsRefused n → Meaning (n / 2) r → Meaning n r
  pass_on n (threads m) over (h, pos, fits, top) =
      (Half-front n m h, pos, fits, AllRefused-half n m over top)
  pass_on n launch_out_of_resources over rest = AllRefused-half n 0 over rest
  pass_on n invalid_configuration over rest = absurd rest
  pass_on n (runtime_error err) over (m, h, pos, le, fails, top) =
      (m, Half-front n m h, pos, le, fails, AllRefused-half n m over top)

  try_threads-Meaning :
      (n : ℕ) (o : Occupancy) (r : Selected)
      → occupancy n ≡ o
      → 0 < n
      → n ≤ limit
      → Meaning (n / 2) r
      → Meaning n (try_threads occupancy n o r)
  unfolding try_threads
  try_threads-Meaning n (failed err) r e pos le rest = (n, whole, pos, le, e, none_above n)
  try_threads-Meaning n (active zero) r e pos le rest = pass_on n r (inr e) rest
  try_threads-Meaning n (active (suc blocks)) r e pos le rest =
      (whole, pos, (le, (blocks, e)), none_above n)

  halve-Meaning : (fuel n : ℕ) → n ≤ fuel → Meaning n (halve occupancy fuel limit n)
  unfolding halve
  halve-Meaning zero n le = λ k hk pos. absurd (omega (arith, le, pos, Half-le n k hk))
  halve-Meaning (suc fuel) n le = elim (Bool-cases (n == 0)) [
    | inl none ↦
        let empty = (==_iff n 0).0 none in
        rw none (λ k hk pos. absurd (omega (arith, empty, pos, Half-le n k hk)))
    | inr live ↦
        let rest = halve-Meaning fuel (n / 2) (omega (arith, le)) in
        elim (Bool-cases (leb n limit)) [
          | inl legal ↦
              rw (live, legal)
                (try_threads-Meaning n (occupancy n) _ refl (ground arith) (leb→le n limit legal)
                  rest)
          | inr over ↦ rw (live, over) (pass_on n _ (inl (ground arith)) rest)
        ]
  ]

-- What `vanity_launch_threads` returns for an answer on the attributes and a request.
abbrev pub Told : (ℕ → Occupancy) → Attributes → ℕ → Selected → Type 0
Told occupancy attributes zero r = r ≡ invalid_configuration
Told occupancy (no_attributes err) (suc n) r = r ≡ runtime_error err
Told occupancy (max_threads_per_block limit) (suc n) r = Meaning occupancy limit (suc n) r

-- On every answer of the runtime and every request that is not negative, `vanity_launch_threads`
-- returns. A request of 0 is an invalid configuration, and without the attributes of the kernel their
-- error is returned. Otherwise the result is about the request, its half, the half of that and so on
-- down to 1, of which each is refused that is over the limit or has no active block: threads are the
-- first that is not refused, and the device takes a block of them; an error is that of the first that
-- is not refused, on which the runtime fails; and the lack of resources means that all are refused.
pub vanity_launch_threads-Told :
    (occupancy : ℕ → Occupancy) (attributes : Attributes) (requested : ℕ)
    → Told occupancy attributes requested (vanity_launch_threads occupancy attributes requested)
unfolding vanity_launch_threads
vanity_launch_threads-Told occupancy attributes zero = refl
vanity_launch_threads-Told occupancy (no_attributes err) (suc n) = refl
vanity_launch_threads-Told occupancy (max_threads_per_block limit) (suc n) =
    halve-Meaning occupancy limit (suc n) (suc n) (le_refl (suc n))
