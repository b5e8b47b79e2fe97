-- ===== src/Earlier/Return.antt =====
-- Every round of kernels/ed25519_vanity.cu and of kernels/eth_vanity.cu, from its head to its return.
use vanity_generator_evm_svm.Common.{ℕ, ◌+◌, ◌≡◌, refl, arith, pos, if◌then◌else◌, ◌⊎◌, inl, inr}
use vanity_generator_evm_svm.Common.{
  Bool, true, false, length, replicate, length-replicate, All, ℤ, Bool-cases, ◌==◌, ◌||◌, ◌∷◌,
}
use vanity_generator_evm_svm.Host.{
  Runtime, World, Host, Outcome, going, returned, is_success, copy_to_symbol, get_device_count,
}
use vanity_generator_evm_svm.Host.Rounds.{Request, out_offset}
use vanity_generator_evm_svm.Host.Hoare.{After, Triple, bind-Triple}
use vanity_generator_evm_svm.Host.Stages.{IsWithin}
use vanity_generator_evm_svm.Earlier.{
  GpuState, failed, uninitialized, initializing, ready, beyond, enter,
}
use vanity_generator_evm_svm.Earlier.Rounds.{
  eth_body, keypair_body, entered, eth_vanity_round, keypair_vanity_round,
}
use vanity_generator_evm_svm.Earlier.Release.{
  live, live_neutral, Idle, Released, malloc-Holding, upload_earlier-Holding, unchecked-Holding,
  checked_symbol-Holding, checked_in-Holding, launch_earlier-Holding, checked_out-Holding,
  checked_read-Holding, release-Released,
}

-- The size of the buffer with `n` bytes of output.
abbrev pub round_size : Request → ℕ → ℕ
round_size q n = 32 + 8 + length q.target + 8 + length q.suffix + n

module _ (runtime : Runtime) (q : Request) (seed_fits : length q.seed ≡ 32) (base : ℕ) where
  eth_body-Released :
      Triple
        (Idle runtime (round_size q 137) base)
        (eth_body runtime q)
        (Released runtime (round_size q 137) base)
        (Released runtime (round_size q 137) base)
  unfolding eth_body
  eth_body-Released =
      let size = round_size q 137 in
      let zeros = length-replicate {A = ℕ} 137 0 in
      bind-Triple (malloc-Holding runtime size base size) (λ _.
        bind-Triple (upload_earlier-Holding runtime size base q seed_fits (omega arith)) (λ _.
          bind-Triple (checked_symbol-Holding runtime size base _) (λ _.
            bind-Triple (checked_symbol-Holding runtime size base _) (λ _.
              bind-Triple
                (checked_in-Holding runtime size base (out_offset q) (replicate 137 0)
                  (omega (arith, zeros)))
                (λ _. bind-Triple (launch_earlier-Holding runtime size base 2048 256) (λ _.
                  bind-Triple
                    (checked_out-Holding runtime size base (out_offset q) 137 (omega arith))
                    (λ _. bind-Triple (checked_read-Holding runtime size base 137 8 _) (λ _.
                      bind-Triple (checked_read-Holding runtime size base 145 4 _)
                        (λ _. release-Released runtime size base)))))))))

  keypair_body-Released :
      Triple
        (Idle runtime (round_size q 172) base)
        (keypair_body runtime q)
        (Released runtime (round_size q 172) base)
        (Released runtime (round_size q 172) base)
  unfolding keypair_body
  keypair_body-Released =
      let size = round_size q 172 in
      let zeros = length-replicate {A = ℕ} 172 0 in
      let symbol = checked_symbol-Holding runtime size base in
      bind-Triple (malloc-Holding runtime size base size) (λ _.
        bind-Triple (upload_earlier-Holding runtime size base q seed_fits (omega arith)) (λ _.
          bind-Triple (unchecked-Holding runtime size base copy_to_symbol _ tt tt (λ w. refl)) (λ _.
            bind-Triple (symbol _) (λ _. bind-Triple (symbol _) (λ _.
              bind-Triple
                (checked_in-Holding runtime size base (out_offset q) (replicate 172 0)
                  (omega (arith, zeros)))
                (λ _. bind-Triple (launch_earlier-Holding runtime size base 1024 256) (λ _.
                  bind-Triple
                    (checked_out-Holding runtime size base (out_offset q) 172 (omega arith))
                    (λ _. bind-Triple (checked_read-Holding runtime size base 172 8 _) (λ _.
                      bind-Triple (checked_read-Holding runtime size base 180 4 _)
                        (λ _. release-Released runtime size base))))))))))

-- A GPU whose start has come to an end.
abbrev pub IsSettled : GpuState → Type 0
IsSettled state = (state ≡ failed) ⊎ (state ≡ ready)

not_unsettled : (¬ IsSettled uninitialized) × (¬ IsSettled initializing)
not_unsettled = (λ h. elim h [ inl e ↦ cc | inr e ↦ cc ], λ h. elim h [ inl e ↦ cc | inr e ↦ cc ])

module _ (runtime : Runtime) (size : ℕ) (w : World) where
  -- Behind the head of a round: a failed GPU is passed over, another one goes on.
  abbrev Entered : (GpuState × Bool) × World → Type 0
  Entered ((state, goes_on), w') =
      ((state ≡ failed) × (goes_on ≡ false) ⊎ (state ≡ ready) × (goes_on ≡ true))
      × (w'.device ≡ w.device)
      × (w'.out ≡ w.out)
      × Idle runtime size (live runtime w.calls) w'

  enter-Entered :
      (device_count : ℕ) (after_wait : GpuState) (id : ℤ) (state : GpuState)
      → IsSettled after_wait
      → All (IsWithin size) w.calls
      → Entered (enter runtime device_count after_wait id state w)
  unfolding enter
  enter-Entered device_count after_wait id failed settled within =
      (inl (refl, refl), refl, refl, (refl, within))
  enter-Entered device_count after_wait id ready settled within =
      (inr (refl, refl), refl, refl, (refl, within))
  enter-Entered device_count failed id initializing settled within =
      (inl (refl, refl), refl, refl, (refl, within))
  enter-Entered device_count ready id initializing settled within =
      (inr (refl, refl), refl, refl, (refl, within))
  enter-Entered device_count uninitialized id initializing settled within =
      absurd (not_unsettled.0 settled)
  enter-Entered device_count initializing id initializing settled within =
      absurd (not_unsettled.1 settled)
  enter-Entered device_count after_wait id uninitialized settled within =
      let counted = live_neutral runtime get_device_count w.calls tt in
      elim (Bool-cases (is_success (runtime.answer (get_device_count ∷ w.calls)))) [
        | inr wrong ↦ rw wrong (inl (refl, refl), refl, refl, (counted, (tt, within)))
        | inl fine ↦ elim (Bool-cases (device_count == 0 || beyond id device_count)) [
          | inl none_there ↦
              rw (fine, none_there) (inl (refl, refl), refl, refl, (counted, (tt, within)))
          | inr there ↦ rw (fine, there) (inr (refl, refl), refl, refl, (counted, (tt, within)))
        ]
      ]

  -- A round has returned: the GPU is settled, no buffer is kept, every copy stays in its buffer, and a
  -- GPU that failed is as it was.
  pub record Returned (state : GpuState) (w' : World) : Type 0 where
    pub settled : ((state ≡ failed) × (w'.device ≡ w.device) × (w'.out ≡ w.out)) ⊎ (state ≡ ready)
    pub kept : live runtime w'.calls ≡ live runtime w.calls
    pub within : All (IsWithin size) w'.calls

  finished :
      (r : Outcome ℤ × World)
      → After
          (Released runtime size (live runtime w.calls))
          (Released runtime size (live runtime w.calls))
          r
      → Released runtime size (live runtime w.calls) (pos 0) r.1
  finished (going code, w') h = h
  finished (returned code, w') h = h

  behind_head :
      (body : Host ℤ)
      → Triple
          (Idle runtime size (live runtime w.calls))
          body
          (Released runtime size (live runtime w.calls))
          (Released runtime size (live runtime w.calls))
      → (r : (GpuState × Bool) × World) → Entered r
      → Returned r.0.0 (if r.0.1 then (body r.1).1 else r.1)
  behind_head body released ((state, goes_on), w') (inl (bad, stays), device, out, idle) =
      rw stays (record { settled = inl (bad, device, out); kept = idle.0; within = idle.1 })
  behind_head body released ((state, goes_on), w') (inr (good, goes), device, out, idle) =
      let (kept, within) = finished (body w') (released.holds w' idle) in
      rw goes (record { settled = inr good; kept = kept; within = within })

  pub entered-Returned :
      (body : Host ℤ)
      → Triple
          (Idle runtime size (live runtime w.calls))
          body
          (Released runtime size (live runtime w.calls))
          (Released runtime size (live runtime w.calls))
      → (device_count : ℕ) (after_wait : GpuState) (id : ℤ) (state : GpuState)
      → IsSettled after_wait
      → All (IsWithin size) w.calls
      → let (after, w') = entered runtime body device_count after_wait id state w in
        Returned after w'
  unfolding entered
  entered-Returned body released device_count after_wait id state settled within =
      behind_head body released (enter runtime device_count after_wait id state w)
        (enter-Entered device_count after_wait id state settled within)

-- On every outcome of the calls, a round of kernels/eth_vanity.cu with a 32-byte seed, on a GPU in any
-- state whose start by another thread comes to an end: the GPU is failed or ready afterwards, the
-- round keeps no buffer that it allocated, every copy stays in the buffer, and where the GPU is failed
-- the device and the output are as they were.
pub eth_vanity_round-Returned :
    (runtime : Runtime) (q : Request) (device_count : ℕ) (after_wait state : GpuState) (w : World)
    → length q.seed ≡ 32
    → IsSettled after_wait
    → All (IsWithin (round_size q 137)) w.calls
    → let (after, w') = eth_vanity_round runtime device_count after_wait q state w in
      Returned runtime (round_size q 137) w after w'
unfolding eth_vanity_round
eth_vanity_round-Returned runtime q device_count after_wait state w seed_fits settled within =
    entered-Returned runtime (round_size q 137) w (eth_body runtime q)
      (eth_body-Released runtime q seed_fits (live runtime w.calls)) device_count after_wait q.id
      state settled within

-- On every outcome of the calls, a round of kernels/ed25519_vanity.cu with a 32-byte seed, on a GPU in
-- any state whose start by another thread comes to an end: the GPU is failed or ready afterwards, the
-- round keeps no buffer that it allocated, every copy stays in the buffer, and where the GPU is failed
-- the device and the output are as they were.
pub keypair_vanity_round-Returned :
    (runtime : Runtime) (q : Request) (device_count : ℕ) (after_wait state : GpuState) (w : World)
    → length q.seed ≡ 32
    → IsSettled after_wait
    → All (IsWithin (round_size q 172)) w.calls
    → let (after, w') = keypair_vanity_round runtime device_count after_wait q state w in
      Returned runtime (round_size q 172) w after w'
unfolding keypair_vanity_round
keypair_vanity_round-Returned runtime q device_count after_wait state w seed_fits settled within =
    entered-Returned runtime (round_size q 172) w (keypair_body runtime q)
      (keypair_body-Released runtime q seed_fits (live runtime w.calls)) device_count after_wait
      q.id state settled within
