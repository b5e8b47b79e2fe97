-- ===== src/Earlier/Opened.antt =====
-- What the steps of a round of kernels/eth_vanity_optimized.cu keep while the buffer is open.
use vanity_generator_evm_svm.Common.{ℕ, ◌+◌, ◌*◌, ◌≤◌, ◌≡◌, ◌∙◌, arith, inl, inr, ◌⊎◌}
use vanity_generator_evm_svm.Common.{
  true, false, Bool-cases, List, [], ◌∷◌, length, replicate, length-replicate, All, ℤ,
}
use vanity_generator_evm_svm.Host.{
  Runtime, Device, Symbols, World, call, same, is_success, Call, valid_id,
}
use vanity_generator_evm_svm.Host.{
  copy_to_device, copy_to_symbol, launch, synchronize, get_last_error,
}
use vanity_generator_evm_svm.Host.Rounds.{Request, out_offset, eth_buffer_size}
use vanity_generator_evm_svm.Host.Hoare.{Triple, bind-Triple}
use vanity_generator_evm_svm.Host.Stages.{IsReady, IsWithin, RuntimeLaws}
use vanity_generator_evm_svm.Host.Memory.{length-write_at, length-le_bytes}
use vanity_generator_evm_svm.Earlier.{unchecked, kernel_run}
use vanity_generator_evm_svm.Earlier.Persistent.{
  tried, tried_in, tried_symbol, upload_optimized, launch_optimized,
}

-- The last call failed.
abbrev pub LastFailed : Runtime → List Call → Type 0
LastFailed runtime [] = ⊥
LastFailed runtime (c ∷ calls) = is_success (runtime.answer (c ∷ calls)) ≡ false

-- On a return before the end: the context is ready, and the number of the GPU is out of range or the
-- last call failed.
abbrev pub Left : Runtime → ℤ → ℤ → World → Type 0
Left runtime id code w =
    IsReady eth_buffer_size w.device
    × All (IsWithin eth_buffer_size) w.calls
    × ((valid_id id ≡ false) ⊎ LastFailed runtime w.calls)

module _ (runtime : Runtime) (laws : RuntimeLaws runtime) (id : ℤ) where
  pub tried-Triple :
      (c : Call) (effect : World → World) (P Q : World → Type 0)
      → ((w : World) → P w → Q (effect (record w { calls = c ∷ w.calls })))
      → ((w : World)
          → P w
          → IsReady eth_buffer_size w.device × All (IsWithin eth_buffer_size) (c ∷ w.calls))
      → Triple P (tried runtime c effect) (λ _. Q) (Left runtime id)
  unfolding call
  tried-Triple c effect P Q good bad = record {
    holds = λ w p. elim (Bool-cases (is_success (runtime.answer (c ∷ w.calls)))) [
      | inl fine ↦ rw fine (good w p)
      | inr wrong ↦ let (ready, within) = bad w p in rw wrong (ready, within, inr wrong)
    ];
  }

  -- With an open buffer, and with bytes at `out` that are made from the device.
  pub record Up (out : Device → List ℕ) (w : World) : Type 0 where
    pub is_open : w.device.initialized ≡ true
    pub buffer : w.device.buffer_size ≡ eth_buffer_size
    pub memory : length w.device.memory ≡ eth_buffer_size
    pub out_at : w.out ≡ out w.device
    pub within : All (IsWithin eth_buffer_size) w.calls

  -- A checked call on an open buffer.
  pub tried-Up :
      (c : Call) (effect : World → World) (g h : Device → List ℕ)
      → IsWithin eth_buffer_size c
      → ((w : World) → Up g w → Up h (effect w))
      → Triple (Up g) (tried runtime c effect) (λ _. Up h) (Left runtime id)
  tried-Up c effect g h fits keeps =
      tried-Triple c effect (Up g) (Up h)
        (λ w u.
          keeps (record w { calls = c ∷ w.calls })
            (record {
              is_open = u.is_open;
              buffer = u.buffer;
              memory = u.memory;
              out_at = u.out_at;
              within = (fits, u.within);
            }))
        (λ w u. (λ e. (u.buffer, u.memory), (fits, u.within)))

  module _ (first : List ℕ) where
    abbrev pub as_before : Device → List ℕ
    as_before d = first

    tried_in-Up :
        (offset : ℕ) (bytes : List ℕ)
        → offset + length bytes ≤ eth_buffer_size
        → Triple
            (Up as_before)
            (tried_in runtime offset bytes)
            (λ _. Up as_before)
            (Left runtime id)
    tried_in-Up offset bytes fits =
        tried-Up (copy_to_device offset (length bytes)) _ as_before as_before fits (λ w u. record {
          is_open = u.is_open;
          buffer = u.buffer;
          memory =
              length-write_at offset bytes w.device.memory (omega (arith, fits, u.memory))
              ∙ u.memory;
          out_at = u.out_at;
          within = u.within;
        })

    tried_symbol-Up :
        (f : Symbols → Symbols)
        → Triple (Up as_before) (tried_symbol runtime f) (λ _. Up as_before) (Left runtime id)
    tried_symbol-Up f = tried-Up copy_to_symbol _ as_before as_before tt (λ w u. record {
      is_open = u.is_open;
      buffer = u.buffer;
      memory = u.memory;
      out_at = u.out_at;
      within = u.within;
    })

    pub upload_optimized-Up :
        (q : Request)
        → length q.seed ≡ 32
        → length q.target + length q.suffix ≤ 512
        → Triple (Up as_before) (upload_optimized runtime q) (λ _. Up as_before) (Left runtime id)
    unfolding upload_optimized
    upload_optimized-Up q seed_fits patterns_fit =
        let target_len = length-le_bytes 8 (length q.target) in
        let suffix_len = length-le_bytes 8 (length q.suffix) in
        let zeros = length-replicate {A = ℕ} 137 0 in
        bind-Triple (tried_in-Up 0 q.seed (omega (arith, seed_fits))) (λ _.
          bind-Triple (tried_in-Up 32 _ (omega (arith, target_len))) (λ _.
            bind-Triple (tried_in-Up 40 q.target (omega (arith, patterns_fit))) (λ _.
              bind-Triple
                (tried_in-Up (40 + length q.target) _ (omega (arith, suffix_len, patterns_fit)))
                (λ _.
                  bind-Triple
                    (tried_in-Up (40 + length q.target + 8) q.suffix (omega (arith, patterns_fit)))
                    (λ _. bind-Triple (tried_symbol-Up _) (λ _.
                      bind-Triple (tried_symbol-Up _) (λ _.
                        tried_in-Up (out_offset q) (replicate 137 0)
                          (omega (arith, zeros, patterns_fit)))))))))

    -- The kernel leaves the context alone, whether it runs or not.
    ran-Up :
        Triple
          (Up as_before)
          (unchecked runtime (launch 256) (kernel_run runtime 8192 256))
          (λ _. Up as_before)
          (Left runtime id)
    unfolding unchecked
    ran-Up = record {
      holds = λ w u.
          let (still_open, same_size, same_memory) =
            laws.run_kernel_keeps 8192 256 (8192 * 256) w.device in
          elim (Bool-cases (is_success (runtime.answer (launch 256 ∷ w.calls)))) [
            | inl fine ↦ rw fine (record {
              is_open = still_open ∙ u.is_open;
              buffer = same_size ∙ u.buffer;
              memory = same_memory ∙ u.memory;
              out_at = u.out_at;
              within = (tt, u.within);
            })
            | inr wrong ↦ rw wrong (record {
              is_open = u.is_open;
              buffer = u.buffer;
              memory = u.memory;
              out_at = u.out_at;
              within = (tt, u.within);
            })
          ];
    }

    pub launch_optimized-Up :
        Triple (Up as_before) (launch_optimized runtime) (λ _. Up as_before) (Left runtime id)
    unfolding launch_optimized
    launch_optimized-Up = bind-Triple ran-Up (λ _.
        bind-Triple (tried-Up synchronize same as_before as_before tt (λ w u. u))
          (λ _. tried-Up get_last_error same as_before as_before tt (λ w u. u)))
