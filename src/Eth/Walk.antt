-- ===== src/Eth/Walk.antt =====
-- The walk of one thread of `eth_vanity_search_ultra` (kernels/eth_vanity_ultra.cu): the private
-- key and the public key in hand, from iteration to iteration.
use vanity_generator_evm_svm.Common.{
  ℕ, zero, suc, ◌+◌, ◌-◌, ◌%◌, ◌^◌, ◌<◌, ◌≡◌, ◌≢◌, refl, arith, ap, ◌∙◌,
}
use vanity_generator_evm_svm.Common.{
  List, [], length, get_or, All, IsByte, false, bit_and, bit_and_mask,
}
use vanity_generator_evm_svm.Common.{◌==◌, if◌then◌else◌}
use vanity_generator_evm_svm.Base58.Digits.{value_from}
use vanity_generator_evm_svm.Base58.Encode.{IsKey}
use vanity_generator_evm_svm.Eth.{Curve, Walker, increment, first_walker, advance_eth, batch_size}
use vanity_generator_evm_svm.Eth.Draw.{order}
use vanity_generator_evm_svm.Eth.Increment.{increment-value, length-increment, increment-IsByte}
use native.Mathlib.Decide.{ℕ_discrete}
use native.Mathlib.Nat.{mod-eq_of_lt, zero-add, suc-add}

-- The `n`th successor of a key.
abbrev pub successor : ℕ → List ℕ → List ℕ
successor zero key = key
successor (suc n) key = increment (successor n key)

pub successor-IsKey : (n : ℕ) (key : List ℕ) → IsKey key → IsKey (successor n key)
successor-IsKey zero key h = h
successor-IsKey (suc n) key h =
    let (bytes, len) = successor-IsKey n key h in
    (increment-IsByte (successor n key) bytes, length-increment (successor n key) ∙ len)

successor-add : (m n : ℕ) (key : List ℕ) → successor n (successor m key) ≡ successor (n + m) key
successor-add m zero key = rw (zero-add m) refl
successor-add m (suc n) key = rw (suc-add n m) (ap increment (successor-add m n key))

-- As long as the number stays below 2 ^ 256, each successor is one more.
pub successor-value :
    (n : ℕ) (key : List ℕ)
    → IsKey key
    → value_from 256 0 key + n < 2 ^ 256
    → value_from 256 0 (successor n key) ≡ value_from 256 0 key + n
successor-value zero key h lt = omega arith
successor-value (suc n) key h lt =
    let (bytes, len) = successor-IsKey n key h in
    let here = successor-value n key h (omega (arith, lt)) in
    increment-value (successor n key) bytes
    ∙ rw (len, here) (mod-eq_of_lt (omega (arith, lt)) ∙ omega arith)

-- What the kernel relies on in `secp256k1_public_add_batch`, by its comment in
-- kernels/secp256k1.h: from the public key of a scalar in [1, n - batch_size - 1], the public keys
-- of the scalars that follow.
pub record CurveLaws (curve : Curve) : Type 0 where
  pub batch_law :
      (key : List ℕ)
      → IsKey key
      → 0 < value_from 256 0 key
      → value_from 256 0 key + batch_size < order
      → (i : ℕ) → i < batch_size
      → get_or (curve.public_add_batch (curve.get_public_key key)) i []
        ≡ curve.get_public_key (successor (i + 1) key)
  pub address_bytes : (x y : List ℕ) → All IsByte (curve.keccak256_address x y)
  pub address_length : (x y : List ℕ) → length (curve.keccak256_address x y) ≡ 20

module _ (curve : Curve) (laws : CurveLaws curve) (key : List ℕ) where
  open curve use {get_public_key, public_add_batch}

  -- The local state before iteration `m`.
  pub record OnWalk (m : ℕ) (w : Walker) : Type 0 where
    pub at_iter : w.iter ≡ m
    pub at_private : w.private ≡ successor m key
    pub at_public : w.public ≡ get_public_key (successor m key)
    pub in_batch :
        m % batch_size ≢ 0
        → w.batch ≡ public_add_batch (get_public_key (successor (m - m % batch_size) key))

  first-OnWalk : OnWalk 0 (first_walker curve key)
  unfolding first_walker
  first-OnWalk = record {
    at_iter = refl;
    at_private = refl;
    at_public = refl;
    in_batch = λ live. absurd (live (omega arith));
  }

  -- The batch that an iteration reads.
  abbrev batch_of : Walker → List (List ℕ)
  batch_of w = if bit_and w.iter (batch_size - 1) == 0 then public_add_batch w.public else w.batch

  slot_mod : (m : ℕ) → bit_and m (batch_size - 1) ≡ m % batch_size
  slot_mod m = bit_and_mask 5 m

  batch_of_lem :
      (m : ℕ) (w : Walker)
      → OnWalk m w
      → batch_of w ≡ public_add_batch (get_public_key (successor (m - m % batch_size) key))
  batch_of_lem m w on = elim (ℕ_discrete (m % batch_size) 0) [
    | yes start ↦
        rw (on.at_iter, slot_mod m, start)
          (ap public_add_batch on.at_public
            ∙ ap (λ t. public_add_batch (get_public_key (successor t key))) (omega (arith, start)))
    | no inner ↦ rw (on.at_iter, slot_mod m, not_zero inner) (on.in_batch inner)
  ]
    where
      not_zero : m % batch_size ≢ 0 → (m % batch_size == 0) ≡ false
      not_zero h = ground (arith, h)

  -- Within a block of iterations, the slots of its batch hold the keys that follow.
  slot_lem :
      (m : ℕ) (w : Walker)
      → IsKey key
      → 0 < value_from 256 0 key
      → value_from 256 0 key + m + batch_size < order
      → OnWalk m w
      → get_or (batch_of w) (bit_and w.iter (batch_size - 1)) []
        ≡ get_public_key (successor (suc m) key)
  slot_lem m w is_key positive below on =
      rw (batch_of_lem m w on, on.at_iter, slot_mod m)
        (laws.batch_law (successor base key) (successor-IsKey base key is_key)
            (omega (arith, value, positive)) (omega (arith, value, below)) (m % batch_size)
            (omega arith)
          ∙ ap get_public_key (successor-add base (m % batch_size + 1) key)
          ∙ ap (λ t. get_public_key (successor t key)) index)
    where
      base : ℕ
      base = m - m % batch_size

      index : m % batch_size + 1 + base ≡ suc m
      index = omega arith

      value : value_from 256 0 (successor base key) ≡ value_from 256 0 key + base
      value = successor-value base key is_key (omega (arith, below))

  advance_eth-OnWalk :
      (m : ℕ) (w : Walker)
      → IsKey key
      → 0 < value_from 256 0 key
      → value_from 256 0 key + m + batch_size < order
      → OnWalk m w
      → OnWalk (suc m) (advance_eth curve w)
  unfolding advance_eth
  advance_eth-OnWalk m w is_key positive below on = record {
    at_iter = omega (arith, on.at_iter);
    at_private = ap increment on.at_private;
    at_public = slot_lem m w is_key positive below on;
    in_batch = λ live.
        batch_of_lem m w on
        ∙ ap (λ t. public_add_batch (get_public_key (successor t key))) (omega (arith, live));
  }

  -- The local state after `m` iterations.
  abbrev pub walker_at : ℕ → Walker
  walker_at zero = first_walker curve key
  walker_at (suc m) = advance_eth curve (walker_at m)

  pub walker_at-OnWalk :
      (m : ℕ)
      → IsKey key
      → 0 < value_from 256 0 key
      → value_from 256 0 key + m + batch_size < order
      → OnWalk m (walker_at m)
  walker_at-OnWalk zero is_key positive below = first-OnWalk
  walker_at-OnWalk (suc m) is_key positive below =
      advance_eth-OnWalk m (walker_at m) is_key positive (omega (arith, below))
        (walker_at-OnWalk m is_key positive (omega (arith, below)))
