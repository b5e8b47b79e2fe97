-- ===== src/Keccak/RhoPi.antt =====
-- Where the loop "Rho and Pi" of `keccak_f1600` (kernels/keccak256.cu) puts the lanes.
use vanity_generator_evm_svm.Common.{ℕ, zero, suc, ◌+◌, ◌*◌, ◌%◌, ◌<◌, ◌≡◌, ◌↔◌, refl, arith, List}
use vanity_generator_evm_svm.Keccak.{lane, rotl64, rotation_offsets, target_of, rho_pi, rho_pi_from}

-- The place of FIPS 202 for the lane (x, y).
abbrev pub pi_place : ℕ → ℕ → ℕ
pi_place x y = y + 5 * ((2 * x + 3 * y) % 5)

below_five {ℓ} : (P : ℕ → Type ℓ) (x : ℕ) → x < 5 → P 0 → P 1 → P 2 → P 3 → P 4 → P x
below_five P zero lt a b c d e = a
below_five P (suc zero) lt a b c d e = b
below_five P (suc (suc zero)) lt a b c d e = c
below_five P (suc (suc (suc zero))) lt a b c d e = d
below_five P (suc (suc (suc (suc zero)))) lt a b c d e = e
below_five P (suc (suc (suc (suc (suc x))))) lt a b c d e = absurd (omega (arith, lt))

-- Lane (x, y) goes to its target, turned by its offset.
abbrev Lands : List ℕ → ℕ → ℕ → Type 0
Lands state x y =
    lane (rho_pi state) (target_of x y)
    ≡ rotl64 (lane state (x + 5 * y)) (lane rotation_offsets (5 * y + x))

row :
    (state : List ℕ) (x : ℕ)
    → Lands state x 0
    → Lands state x 1
    → Lands state x 2
    → Lands state x 3
    → Lands state x 4
    → (y : ℕ) → y < 5
    → Lands state x y
row state x a b c d e y hy = below_five (Lands state x) y hy a b c d e

lands : (state : List ℕ) (x y : ℕ) → x < 5 → y < 5 → Lands state x y
unfolding rho_pi rho_pi_from target_of rotation_offsets
lands state x y hx hy =
    below_five (λ t. Lands state t y) x hx (row state 0 refl refl refl refl refl y hy)
      (row state 1 refl refl refl refl refl y hy) (row state 2 refl refl refl refl refl y hy)
      (row state 3 refl refl refl refl refl y hy) (row state 4 refl refl refl refl refl y hy)

-- Every lane (x, y) of the state goes to a place of its own, turned by the offset that the code has
-- for it; it is the place that FIPS 202 gives it only for the lane (0, 2).
pub rho_pi-lane :
    (state : List ℕ) (x y : ℕ)
    → x < 5
    → y < 5
    → (lane (rho_pi state) (target_of x y)
        ≡ rotl64 (lane state (x + 5 * y)) (lane rotation_offsets (5 * y + x)))
      × ((target_of x y ≡ pi_place x y) ↔ ((x ≡ 0) × (y ≡ 2)))
      × ((x' y' : ℕ) → x' < 5 → y' < 5 → target_of x' y' ≡ target_of x y → (x' ≡ x) × (y' ≡ y))
rho_pi-lane state x y hx hy = (
  lands state x y hx hy,
  unfold target_of in
      (λ e. (omega (arith, e, hx, hy), omega (arith, e, hx, hy)), λ (e, e'). omega (arith, e, e')),
  λ x' y' hx' hy' e.
      unfold target_of in (omega (arith, e, hx, hy, hx', hy'), omega (arith, e, hx, hy, hx', hy')),
)
