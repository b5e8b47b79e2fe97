-- ===== src/Earlier/Release.antt =====
-- The buffers that the rounds of kernels/vanity.cu, kernels/ed25519_vanity.cu and
-- kernels/eth_vanity.cu take and give back, on every outcome of the calls.
use vanity_generator_evm_svm.Common.{
  ℕ, suc, ◌+◌, ◌-◌, ◌≤◌, ◌≡◌, refl, sym, ap, ◌∙◌, arith, inl, inr,
}
use vanity_generator_evm_svm.Common.{
  true, false, Bool-cases, List, [], ◌∷◌, length, All, ℤ, pos, if◌then◌else◌,
}
use vanity_generator_evm_svm.Host.{Runtime, Symbols, World, call, same, Call, is_success}
use vanity_generator_evm_svm.Host.{
  get_device_count, set_device, malloc, copy_to_device, copy_to_symbol, launch, synchronize,
  get_last_error, copy_from_device, copy_from_symbol, free,
}
use vanity_generator_evm_svm.Host.Rounds.{Request}
use vanity_generator_evm_svm.Host.Hoare.{Triple, bind-Triple}
use vanity_generator_evm_svm.Host.Stages.{IsWithin}
use mathlib.Core.Path.{subst}
use vanity_generator_evm_svm.Host.Memory.{length-le_bytes}
use vanity_generator_evm_svm.Earlier.{
  checked, unchecked, copied_in, symbols_set, copied_out, symbol_read, allocated, kernel_run,
}
use vanity_generator_evm_svm.Earlier.Rounds.{
  checked_in, checked_symbol, checked_out, checked_read, release, launch_earlier, upload_earlier,
}

module _ (runtime : Runtime) where
  -- The buffers that are allocated and not freed.
  unfoldable pub live : List Call → ℕ
  live [] = 0
  live (malloc size ∷ calls) =
      if is_success (runtime.answer (malloc size ∷ calls)) then suc (live calls) else live calls
  live (free ∷ calls) = live calls - 1
  live (_ ∷ calls) = live calls

  -- A call that neither takes nor gives back a buffer.
  abbrev pub IsNeutral : Call → Type 0
  IsNeutral (malloc size) = ⊥
  IsNeutral free = ⊥
  IsNeutral _ = Unit

  pub live_neutral : (c : Call) (calls : List Call) → IsNeutral c → live (c ∷ calls) ≡ live calls
  unfolding live
  live_neutral get_device_count calls h = refl
  live_neutral set_device calls h = refl
  live_neutral (malloc size) calls h = elim h [ ]
  live_neutral (copy_to_device offset n) calls h = refl
  live_neutral copy_to_symbol calls h = refl
  live_neutral (launch n) calls h = refl
  live_neutral synchronize calls h = refl
  live_neutral get_last_error calls h = refl
  live_neutral (copy_from_device offset n) calls h = refl
  live_neutral copy_from_symbol calls h = refl
  live_neutral free calls h = elim h [ ]

  pub malloc_taken :
      (n : ℕ) (calls : List Call)
      → is_success (runtime.answer (malloc n ∷ calls)) ≡ true
      → live (malloc n ∷ calls) ≡ suc (live calls)
  unfolding live
  malloc_taken n calls fine = rw fine refl

  pub malloc_refused :
      (n : ℕ) (calls : List Call)
      → is_success (runtime.answer (malloc n ∷ calls)) ≡ false
      → live (malloc n ∷ calls) ≡ live calls
  unfolding live
  malloc_refused n calls wrong = rw wrong refl

  module _ (size base : ℕ) where
    -- Between the calls: one buffer more than at the start, or as many as at the start.
    abbrev pub Holding : World → Type 0
    Holding w = (live w.calls ≡ suc base) × All (IsWithin size) w.calls

    abbrev pub Released : ℤ → World → Type 0
    Released code w = (live w.calls ≡ base) × All (IsWithin size) w.calls

    abbrev pub Idle : World → Type 0
    Idle w = (live w.calls ≡ base) × All (IsWithin size) w.calls

    abbrev Held : List Call → Type 0
    Held calls = (live calls ≡ suc base) × All (IsWithin size) calls

    freed :
        (calls : List Call)
        → Held calls
        → (live (free ∷ calls) ≡ base) × All (IsWithin size) (free ∷ calls)
    unfolding live
    freed calls (held, within) = (omega (arith, held), (tt, within))

    grown :
        (c : Call) (calls : List Call)
        → IsNeutral c
        → IsWithin size c
        → Held calls
        → Held (c ∷ calls)
    grown c calls neutral fits (held, within) =
        (live_neutral c calls neutral ∙ held, (fits, within))

    pub checked-Holding :
        (c : Call) (effect : World → World)
        → IsNeutral c
        → IsWithin size c
        → ((w : World) → (effect w).calls ≡ w.calls)
        → Triple Holding (checked runtime c effect) (λ _. Holding) Released
    unfolding checked
    checked-Holding c effect neutral fits keeps = record {
      holds = λ w h.
          let now = grown c w.calls neutral fits h in
          elim (Bool-cases (is_success (runtime.answer (c ∷ w.calls)))) [
            | inl fine ↦ rw fine (subst Held (sym (keeps (record w { calls = c ∷ w.calls }))) now)
            | inr wrong ↦ rw wrong (freed (c ∷ w.calls) now)
          ];
    }

    pub unchecked-Holding :
        (c : Call) (effect : World → World)
        → IsNeutral c
        → IsWithin size c
        → ((w : World) → (effect w).calls ≡ w.calls)
        → Triple Holding (unchecked runtime c effect) (λ _. Holding) Released
    unfolding unchecked
    unchecked-Holding c effect neutral fits keeps = record {
      holds = λ w h.
          let now = grown c w.calls neutral fits h in
          elim (Bool-cases (is_success (runtime.answer (c ∷ w.calls)))) [
            | inl fine ↦ rw fine (subst Held (sym (keeps (record w { calls = c ∷ w.calls }))) now)
            | inr wrong ↦ rw wrong now
          ];
    }

    -- The allocation: a return without a buffer, or one buffer more.
    pub malloc-Holding :
        (n : ℕ)
        → Triple Idle
            (call runtime (malloc n) (pos 0) (allocated runtime n))
            (λ _. Holding)
            Released
    unfolding call
    malloc-Holding n = record {
      holds = λ w (idle, within).
          elim (Bool-cases (is_success (runtime.answer (malloc n ∷ w.calls)))) [
            | inl fine ↦ rw fine (malloc_taken n w.calls fine ∙ ap suc idle, (tt, within))
            | inr wrong ↦ rw wrong (malloc_refused n w.calls wrong ∙ idle, (tt, within))
          ];
    }

    pub release-Released : Triple Holding (release runtime) Released Released
    release-Released = record { holds = λ w h. freed w.calls h }

    pub launch_earlier-Holding :
        (blocks n : ℕ) → Triple Holding (launch_earlier runtime blocks n) (λ _. Holding) Released
    unfolding launch_earlier
    launch_earlier-Holding blocks n =
        bind-Triple (unchecked-Holding (launch n) (kernel_run runtime blocks n) tt tt (λ w. refl))
          (λ _.
            bind-Triple (unchecked-Holding synchronize same tt tt (λ w. refl))
              (λ _. checked-Holding get_last_error same tt tt (λ w. refl)))

    pub checked_in-Holding :
        (offset : ℕ) (bytes : List ℕ)
        → offset + length bytes ≤ size
        → Triple Holding (checked_in runtime offset bytes) (λ _. Holding) Released
    checked_in-Holding offset bytes fits =
        checked-Holding (copy_to_device offset (length bytes)) (copied_in runtime offset bytes) tt
          fits (λ w. refl)

    pub checked_symbol-Holding :
        (f : Symbols → Symbols) → Triple Holding (checked_symbol runtime f) (λ _. Holding) Released
    checked_symbol-Holding f =
        checked-Holding copy_to_symbol (symbols_set runtime f) tt tt (λ w. refl)

    pub checked_out-Holding :
        (offset n : ℕ)
        → offset + n ≤ size
        → Triple Holding (checked_out runtime offset n) (λ _. Holding) Released
    checked_out-Holding offset n fits =
        checked-Holding (copy_from_device offset n) (copied_out runtime offset n) tt fits
          (λ w. refl)

    pub checked_read-Holding :
        (at n : ℕ) (f : Symbols → ℕ)
        → Triple Holding (checked_read runtime at n f) (λ _. Holding) Released
    checked_read-Holding at n f =
        checked-Holding copy_from_symbol (symbol_read runtime at n f) tt tt (λ w. refl)

    pub upload_earlier-Holding :
        (q : Request)
        → length q.seed ≡ 32
        → 48 + length q.target + length q.suffix ≤ size
        → Triple Holding (upload_earlier runtime q) (λ _. Holding) Released
    unfolding upload_earlier
    upload_earlier-Holding q seed_fits fits =
        let target_len = length-le_bytes 8 (length q.target) in
        let suffix_len = length-le_bytes 8 (length q.suffix) in
        bind-Triple (checked_in-Holding 0 q.seed (omega (arith, seed_fits, fits))) (λ _.
          bind-Triple (checked_in-Holding 32 _ (omega (arith, target_len, fits))) (λ _.
            bind-Triple (checked_in-Holding 40 q.target (omega (arith, fits))) (λ _.
              bind-Triple
                (checked_in-Holding (40 + length q.target) _ (omega (arith, suffix_len, fits)))
                (λ _.
                  checked_in-Holding (40 + length q.target + 8) q.suffix (omega (arith, fits))))))
