-- ===== src/Earlier/Rest.antt =====
-- The round of kernels/vanity.cu behind the copy of the seed.
use vanity_generator_evm_svm.Common.{ℕ, ◌+◌, ◌≡◌, refl, arith}
use vanity_generator_evm_svm.Common.{List, length}
use vanity_generator_evm_svm.Host.{Runtime, copy_to_symbol}
use vanity_generator_evm_svm.Host.Rounds.{Request}
use vanity_generator_evm_svm.Host.Hoare.{Triple, bind-Triple}
use vanity_generator_evm_svm.Host.Memory.{length-le_bytes}
use vanity_generator_evm_svm.Earlier.Rounds.{vanity_size, vanity_out, vanity_rest}
use vanity_generator_evm_svm.Earlier.Release.{
  Holding, Released, unchecked-Holding, checked_symbol-Holding, checked_in-Holding,
  launch_earlier-Holding, checked_out-Holding, checked_read-Holding, release-Released,
}

module _ (runtime : Runtime) (q : Request) (base owner : List ℕ) (base_fits : length base ≡ 32)
    (owner_fits : length owner ≡ 32) (blocks n live_before : ℕ) where
  pub vanity_rest-Released :
      Triple
        (Holding runtime (vanity_size q) live_before)
        (vanity_rest runtime base owner blocks n q)
        (Released runtime (vanity_size q) live_before)
        (Released runtime (vanity_size q) live_before)
  unfolding vanity_rest
  vanity_rest-Released =
      let size = vanity_size q in
      let b = live_before in
      let target_len = length-le_bytes 8 (length q.target) in
      let suffix_len = length-le_bytes 8 (length q.suffix) in
      let copies = checked_in-Holding runtime size b in
      let symbol = checked_symbol-Holding runtime size b in
      bind-Triple (copies 32 base (omega (arith, base_fits))) (λ _.
        bind-Triple (copies 64 owner (omega (arith, owner_fits))) (λ _.
          bind-Triple (copies 96 _ (omega (arith, target_len))) (λ _.
            bind-Triple (copies 104 q.target (omega arith)) (λ _.
              bind-Triple (copies (104 + length q.target) _ (omega (arith, suffix_len))) (λ _.
                bind-Triple (copies (104 + length q.target + 8) q.suffix (omega arith)) (λ _.
                  bind-Triple (unchecked-Holding runtime size b copy_to_symbol _ tt tt (λ w. refl))
                    (λ _. bind-Triple (symbol _) (λ _. bind-Triple (symbol _) (λ _.
                      bind-Triple (launch_earlier-Holding runtime size b blocks n) (λ _.
                        bind-Triple
                          (checked_out-Holding runtime size b (vanity_out q) 16 (omega arith))
                          (λ _.
                            bind-Triple (checked_read-Holding runtime size b 16 8 _)
                              (λ _. release-Released runtime size b))))))))))))
