-- ===== src/Host/Memory.antt =====
-- `write_at` and little-endian numbers as facts about lists.
use vanity_generator_evm_svm.Common.{
  ℕ, zero, suc, ◌+◌, ◌*◌, ◌/◌, ◌^◌, ◌≤◌, ◌<◌, ◌≡◌, refl, ap, sym, arith,
}
use vanity_generator_evm_svm.Common.{
  List, [], ◌∷◌, ◌++◌, length, take, drop, length-append, length-take, length-drop,
}
use vanity_generator_evm_svm.Common.{take-append_length}
use vanity_generator_evm_svm.Host.{write_at, le_bytes}
use mathlib.Core.List.{append_assoc}
use native.Mathlib.Nat.{pow-suc}

pub length-write_at :
    (offset : ℕ) (bytes area : List ℕ)
    → offset + length bytes ≤ length area
    → length (write_at offset bytes area) ≡ length area
unfolding write_at
length-write_at offset bytes area fits = omega (
  arith,
  fits,
  length-append (take offset area) (bytes ++ drop (offset + length bytes) area),
  length-append bytes (drop (offset + length bytes) area),
  length-take offset area (omega (arith, fits)),
  length-drop (offset + length bytes) area,
)

-- Bytes written behind a known beginning prolong it.
pub begins-write_at :
    (front bytes area : List ℕ)
    → take (length front) area ≡ front
    → take (length (front ++ bytes)) (write_at (length front) bytes area) ≡ front ++ bytes
unfolding write_at
begins-write_at front bytes area known =
    rw (known, sym (append_assoc front bytes (drop (length front + length bytes) area)))
      (take-append_length (front ++ bytes) (drop (length front + length bytes) area))

-- The number of some bytes in little-endian order.
abbrev pub le_value : List ℕ → ℕ
le_value [] = 0
le_value (b ∷ bs) = b + 256 * le_value bs

pub length-le_bytes : (n v : ℕ) → length (le_bytes n v) ≡ n
unfolding le_bytes
length-le_bytes zero v = refl
length-le_bytes (suc n) v = ap suc (length-le_bytes n (v / 256))

pub le_value-le_bytes : (n v : ℕ) → v < 256 ^ n → le_value (le_bytes n v) ≡ v
unfolding le_bytes
le_value-le_bytes zero v lt = omega arith
le_value-le_bytes (suc n) v lt =
    omega (arith, le_value-le_bytes n (v / 256) (omega (arith, lt, pow-suc 256 n)))
