-- ===== src/Tests/Keccak.antt =====
-- The sponge over a toy permutation, and the place of one lane.
use vanity_generator_evm_svm.Common.{
  ℕ, ◌+◌, ◌*◌, ◌/◌, ◌≡◌, ◌↔◌, arith, List, length, replicate, reverse, ◌<◌,
}
use vanity_generator_evm_svm.Keccak.{sponge, lane, rho_pi, target_of, rotl64, rotation_offsets}
use vanity_generator_evm_svm.Keccak.Sponge.{pad, padded_sponge, sponge-padded_sponge}
use vanity_generator_evm_svm.Keccak.RhoPi.{pi_place, rho_pi-lane}

-- 135 bytes: both bits of the padding fall into the last byte of the block.
abbrev tight : List ℕ
tight = replicate 135 7

sponge-padded_sponge_example :
    (sponge reverse tight ≡ padded_sponge reverse tight)
    × (length (pad tight) ≡ 136 * (length tight / 136 + 1))
sponge-padded_sponge_example = sponge-padded_sponge reverse tight

rho_pi-lane_example :
    (lane (rho_pi (replicate 25 9)) (target_of 3 4)
      ≡ rotl64 (lane (replicate 25 9) (3 + 5 * 4)) (lane rotation_offsets (5 * 4 + 3)))
    × ((target_of 3 4 ≡ pi_place 3 4) ↔ ((◌≡◌ {A = ℕ} 3 0) × (◌≡◌ {A = ℕ} 4 2)))
    × ((x' y' : ℕ) → x' < 5 → y' < 5 → target_of x' y' ≡ target_of 3 4 → (x' ≡ 3) × (y' ≡ 4))
rho_pi-lane_example = rho_pi-lane (replicate 25 9) 3 4 (omega arith) (omega arith)
