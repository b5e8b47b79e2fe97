-- ===== src/Production/Grid.antt =====
-- The kernels `gpu_address_init` and `gpu_address_work` of kernels/eth_vanity_production.cu. The
-- operations of kernels/eth_math.h are parameters.
use vanity_generator_evm_svm.Common.{ℕ, zero, suc, ◌+◌, ◌-◌, ◌*◌, ltb, ◌==◌, if◌then◌else◌, u64}
use vanity_generator_evm_svm.Common.{List, [], ◌∷◌, ◌++◌, get_or, set}
use vanity_generator_evm_svm.Secp.{Uint256, uint256, CurvePoint, point}
use vanity_generator_evm_svm.Production.Score.{Pattern, score_address}
use vanity_generator_evm_svm.Production.Address.{calculate_ethereum_address}

-- kernels/eth_math.h, as this file uses it.
pub record EthMath : Type 0 where
  pub sub_256 : Uint256 → Uint256 → Uint256
  pub sub_256_mod_p : Uint256 → Uint256 → Uint256
  pub mul_256_mod_p : Uint256 → Uint256 → Uint256
  pub eeuclid_256_mod_p : Uint256 → Uint256

abbrev pub block_size : ℕ
block_size = 256

abbrev pub thread_work : ℕ
thread_work = 256

-- `P`, its lowest word first.
unfoldable pub prime : Uint256
prime =
    uint256 0xFFFFFC2F 0xFFFFFFFE 0xFFFFFFFF 0xFFFFFFFF 0xFFFFFFFF 0xFFFFFFFF 0xFFFFFFFF 0xFFFFFFFF

-- What stands in an array that nothing was written to.
abbrev pub unset : CurvePoint
unset = point (uint256 0 0 0 0 0 0 0 0) (uint256 0 0 0 0 0 0 0 0)

abbrev pub entry : List CurvePoint → ℕ → CurvePoint
entry table i = get_or table i unset

module _ (math : EthMath) where
  open math use {sub_256, sub_256_mod_p, mul_256_mod_p, eeuclid_256_mod_p}

  abbrev pub x_delta : CurvePoint → CurvePoint → Uint256
  x_delta p t = sub_256_mod_p p.x t.x

  -- The sum of `p` and `t`, given the inverse of the difference of their abscissas.
  unfoldable pub sum_with : CurvePoint → CurvePoint → Uint256 → CurvePoint
  sum_with p t y_inv =
      let lambda = mul_256_mod_p (sub_256_mod_p p.y t.y) y_inv in
      let curve_x = sub_256_mod_p (sub_256_mod_p (mul_256_mod_p lambda lambda) p.x) t.x in
      let curve_y = sub_256_mod_p (mul_256_mod_p lambda (sub_256_mod_p p.x curve_x)) p.y in
      point curve_x curve_y

  -- A point of `gpu_address_work` with the one of the opposite ordinate.
  unfoldable pub both_signs : CurvePoint → List CurvePoint
  both_signs s = s ∷ (point s.x (sub_256 prime s.y) ∷ [])

  module _ (p : CurvePoint) (table : List CurvePoint) where
    -- `z[i]`
    unfoldable pub product : ℕ → Uint256
    product zero = x_delta p (entry table zero)
    product (suc i) = mul_256_mod_p (product i) (x_delta p (entry table (suc i)))

    -- The loop of `gpu_address_init` that goes down from index `i`, and its last entry.
    unfoldable pub init_down : ℕ → ℕ → Uint256 → List CurvePoint → List CurvePoint
    init_down base zero q offsets = set offsets base (sum_with p (entry table zero) q)
    init_down base (suc i) q offsets =
        init_down base i (mul_256_mod_p q (x_delta p (entry table (suc i)))) (
          set offsets (base + suc i)
            (sum_with p (entry table (suc i)) (mul_256_mod_p q (product i))))

    -- The loop of `gpu_address_work` that goes down from index `i`, and its last entry: the points
    -- whose addresses are scored.
    unfoldable pub work_down : ℕ → Uint256 → List CurvePoint
    work_down zero q = both_signs (sum_with p (entry table zero) q)
    work_down (suc i) q =
        both_signs (sum_with p (entry table (suc i)) (mul_256_mod_p q (product i)))
        ++ work_down i (mul_256_mod_p q (x_delta p (entry table (suc i))))

  unfoldable pub gpu_address_init :
      List CurvePoint → List CurvePoint → ℕ → List CurvePoint → List CurvePoint
  gpu_address_init thread_offsets block_offsets thread_id offsets =
      let p = get_or block_offsets thread_id unset in
      init_down p thread_offsets (thread_id * block_size) (block_size - 1)
        (eeuclid_256_mod_p (product p thread_offsets (block_size - 1))) offsets

  -- The points of one thread of `gpu_address_work`.
  unfoldable pub points_of : List CurvePoint → CurvePoint → List CurvePoint
  points_of addends p =
      p
      ∷ work_down p addends (thread_work - 2)
          (eeuclid_256_mod_p (product p addends (thread_work - 2)))

-- The result globals.
pub record Results : Type 0 where
  pub max_score : ℕ
  pub found_count : ℕ
  pub found_key : List ℕ
  pub found_address : List ℕ
  pub done : ℕ

-- An atomic of `gpu_address_work`.
pub data Atomic : Type 0 where
  atomic_max : ℕ → Atomic
  atomic_add : Atomic

unfoldable pub apply : Atomic → Results → Results
apply (atomic_max score) r = record r {
  max_score = if ltb r.max_score score then score else r.max_score;
}
apply atomic_add r = record r { found_count = u64 (r.found_count + 1) }

unfoldable pub apply_all : List Atomic → Results → Results
apply_all [] r = r
apply_all (a ∷ as_left) r = apply_all as_left (apply a r)

-- What a thread does with the score of one address.
unfoldable pub report_score : ℕ → List Atomic
report_score score = if ltb 0 score then atomic_max score ∷ (atomic_add ∷ []) else []

unfoldable pub report_all : Pattern → List CurvePoint → List Atomic
report_all pattern [] = []
report_all pattern (s ∷ points) =
    report_score (score_address pattern (calculate_ethereum_address s.x s.y) pattern.case_sensitive)
    ++ report_all pattern points

-- The atomics of one thread, in its order; `done` is what it reads first.
unfoldable pub gpu_address_work :
    EthMath → Pattern → ℕ → List CurvePoint → List CurvePoint → ℕ → List Atomic
gpu_address_work math pattern done addends offsets thread_id =
    if done == 0
    then report_all pattern (points_of math addends (get_or offsets thread_id unset))
    else []
