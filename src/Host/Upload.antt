-- ===== src/Host/Upload.antt =====
-- The copies of a request to the buffer, in kernels/sol_vanity_optimized.cu and in
-- kernels/eth_vanity_ultra.cu.
use vanity_generator_evm_svm.Common.{
  ℕ, ◌+◌, ◌≤◌, ◌≡◌, refl, sym, arith, List, [], ◌++◌, length, replicate, length-append,
  length-replicate,
}
use vanity_generator_evm_svm.Host.{Runtime, Symbols, le_bytes, copy_in}
use vanity_generator_evm_svm.Host.Rounds.{Request, upload, out_offset}
use vanity_generator_evm_svm.Host.Hoare.{Triple, bind-Triple}
use vanity_generator_evm_svm.Host.Stages.{RuntimeLaws, Failed, Open}
use vanity_generator_evm_svm.Host.Memory.{length-le_bytes}
use vanity_generator_evm_svm.Host.Steps.{copy_in-Open}
use vanity_generator_evm_svm.Host.Layout.{packed}

-- A request in the order of the buffer.
abbrev pub packed_request : Request → List ℕ
packed_request q =
    (((q.seed ++ le_bytes 8 (length q.target)) ++ q.target) ++ le_bytes 8 (length q.suffix))
    ++ q.suffix

module _ (runtime : Runtime) (laws : RuntimeLaws runtime) (size : ℕ) (q : Request)
    (seed_fits : length q.seed ≡ 32) where
  module _ (symbols : Symbols) (out : List ℕ) (fits : out_offset q ≤ size) where
    -- How far the copies have come.
    ends :
        (length (q.seed ++ le_bytes 8 (length q.target)) ≡ 40)
        × (length ((q.seed ++ le_bytes 8 (length q.target)) ++ q.target) ≡ 40 + length q.target)
        × (length (
              ((q.seed ++ le_bytes 8 (length q.target)) ++ q.target)
              ++ le_bytes 8 (length q.suffix))
            ≡ 40 + length q.target + 8)
    ends =
        let t = le_bytes 8 (length q.target) in
        let s = le_bytes 8 (length q.suffix) in
        let one = length-append q.seed t in
        let two = length-append (q.seed ++ t) q.target in
        let three = length-append ((q.seed ++ t) ++ q.target) s in
        let t_fits = length-le_bytes 8 (length q.target) in
        let s_fits = length-le_bytes 8 (length q.suffix) in
        (
          omega (arith, one, t_fits, seed_fits),
          omega (arith, one, two, t_fits, seed_fits),
          omega (arith, one, two, three, t_fits, s_fits, seed_fits),
        )

    pub upload-Open :
        Triple
          (Open runtime size q [] symbols out)
          (upload runtime q)
          (λ _. Open runtime size q (packed_request q) symbols out)
          (Failed runtime size q)
    unfolding upload
    upload-Open =
        let t = le_bytes 8 (length q.target) in
        let s = le_bytes 8 (length q.suffix) in
        let t_fits = length-le_bytes 8 (length q.target) in
        let s_fits = length-le_bytes 8 (length q.suffix) in
        let (one, two, three) = ends in
        let copies = copy_in-Open runtime laws size q in
        bind-Triple (copies [] symbols out 0 q.seed refl (omega (arith, fits, seed_fits))) (λ _.
          bind-Triple
            (copies q.seed symbols out 32 t (sym seed_fits)
              (omega (arith, fits, seed_fits, t_fits)))
            (λ _.
              bind-Triple
                (copies (q.seed ++ t) symbols out 40 q.target (sym one) (omega (arith, fits, one)))
                (λ _.
                  bind-Triple
                    (copies ((q.seed ++ t) ++ q.target) symbols out (40 + length q.target) s
                      (sym two) (omega (arith, fits, two, s_fits)))
                    (λ _.
                      copies (((q.seed ++ t) ++ q.target) ++ s) symbols out
                        (40 + length q.target + 8) q.suffix (sym three)
                        (omega (arith, fits, three))))))

    -- The zeros at the output.
    pub clear-Open :
        (n : ℕ)
        → out_offset q + n ≤ size
        → Triple
            (Open runtime size q (packed_request q) symbols out)
            (copy_in runtime (out_offset q) (replicate n 0))
            (λ _. Open runtime size q (packed q n) symbols out)
            (Failed runtime size q)
    clear-Open n room =
        let (one, two, three) = ends in
        let four =
          length-append
            (((q.seed ++ le_bytes 8 (length q.target)) ++ q.target) ++ le_bytes 8 (length q.suffix))
            q.suffix in
        copy_in-Open runtime laws size q (packed_request q) symbols out (out_offset q)
          (replicate n 0) (omega (arith, three, four))
          (omega (arith, room, three, four, length-replicate {A = ℕ} n 0))
