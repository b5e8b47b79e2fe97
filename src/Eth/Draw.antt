-- ===== src/Eth/Draw.antt =====
-- The rejection loop at the head of `eth_vanity_search_ultra` (kernels/eth_vanity_ultra.cu).
use vanity_generator_evm_svm.Common.{ℕ, zero, suc, ◌+◌, ◌*◌, ◌^◌, ◌≤◌, ◌<◌, ◌≡◌, ◌≢◌, refl, arith}
use vanity_generator_evm_svm.Common.{List, [], ◌∷◌, length, get_or, Bool, true, false, some}
use vanity_generator_evm_svm.Common.{◌==◌, ◌||◌, not, ==_iff, Bool-cases, inl, inr, ◌⊎◌}
use vanity_generator_evm_svm.Base58.Digits.{value_from}
use vanity_generator_evm_svm.Base58.Encode.{IsKey, value_from-lt}
use vanity_generator_evm_svm.Rng.{ChaChaRng, init_rng, next32}
use vanity_generator_evm_svm.Rng.Stream.{after_calls}
use vanity_generator_evm_svm.Rng.Bytes.{length-next32, next32-IsByte}
use vanity_generator_evm_svm.Eth.{nonzero, rejected, draw}
use native.Mathlib.Decide.{ℕ_discrete}

-- Chunk `i` of a thread's stream.
abbrev pub chunk : List ℕ → ℕ → ℕ → List ℕ
chunk seed idx i = (next32 (after_calls seed idx i)).0

draw_from :
    (seed : List ℕ) (idx fuel s j : ℕ)
    → s ≤ j
    → j < s + fuel
    → ((i : ℕ) → s ≤ i → i < j → rejected (chunk seed idx i) ≡ true)
    → rejected (chunk seed idx j) ≡ false
    → draw fuel (after_calls seed idx s) ≡ some (chunk seed idx j)
unfolding draw after_calls
draw_from seed idx zero s j le lt before here = absurd (omega arith)
draw_from seed idx (suc fuel) s j le lt before here = elim (ℕ_discrete s j) [
  | yes same ↦ rw (same, here) refl
  | no more ↦ rw (before s (omega arith) (omega arith)) (
      draw_from seed idx fuel (suc s) j (omega arith) (omega arith)
        (λ i le_i lt_i. before i (omega arith) lt_i) here)
]

-- The loop takes the first chunk of its stream that is not rejected, on any fuel above its number.
pub draw-first :
    (seed : List ℕ) (idx fuel j : ℕ)
    → ((i : ℕ) → i < j → rejected (chunk seed idx i) ≡ true)
    → rejected (chunk seed idx j) ≡ false
    → j < fuel
    → draw fuel (init_rng seed idx) ≡ some (chunk seed idx j)
draw-first seed idx fuel j before here lt =
    unfold after_calls in
    draw_from seed idx fuel 0 j (omega arith) (omega arith) (λ i le lt_i. before i lt_i) here

draw_step :
    (fuel : ℕ) (rng : ChaChaRng) (key : List ℕ)
    → draw (suc fuel) rng ≡ some key
    → ((next32 rng).0 ≡ key) × (rejected (next32 rng).0 ≡ false)
      ⊎ (draw fuel (next32 rng).1 ≡ some key)
unfolding draw
draw_step fuel rng key e = elim (Bool-cases (rejected (next32 rng).0)) [
  | inl again ↦ inr (rw again at e)
  | inr taken ↦ let found : some (next32 rng).0 ≡ some key = rw taken at e in inl (cc, taken)
]

draw-IsKey :
    (fuel : ℕ) (rng : ChaChaRng) (key : List ℕ)
    → draw fuel rng ≡ some key
    → IsKey key × (rejected key ≡ false)
unfolding draw
draw-IsKey zero rng key e = cc
draw-IsKey (suc fuel) rng key e = elim (draw_step fuel rng key e) [
  | inl (same, taken) ↦ rw (← same) ((next32-IsByte rng, length-next32 rng), taken)
  | inr later ↦ draw-IsKey fuel (next32 rng).1 key later
]

value_from-positive :
    (acc : ℕ) (bs : List ℕ) → (0 < acc) ⊎ (nonzero bs ≡ true) → 0 < value_from 256 acc bs
unfolding nonzero
value_from-positive acc [] (inl h) = h
value_from-positive acc [] (inr h) = cc
value_from-positive acc (b ∷ bs) (inl h) =
    value_from-positive (acc * 256 + b) bs (inl (omega arith))
value_from-positive acc (b ∷ bs) (inr h) = elim (Bool-cases (b == 0)) [
  | inl zero_byte ↦ value_from-positive (acc * 256 + b) bs (inr (rw zero_byte at h))
  | inr live ↦ value_from-positive (acc * 256 + b) bs (inl (ground arith))
]

-- The order of the curve.
abbrev pub order : ℕ
order = 0xFFFFFFFFFFFFFFFFFFFFFFFFFFFFFFFEBAAEDCE6AF48A03BBFD25E8CD0364141

key_below :
    (key : List ℕ) → IsKey key → get_or key 0 0 ≢ 0xff → value_from 256 0 key < 255 * 256 ^ 31
key_below [] (bytes, len) top = absurd (omega (arith, len))
key_below (b ∷ bs) ((hb, bytes), len) top =
    let lt = value_from-lt (0 * 256 + b) 255 bs bytes (omega (arith, hb, top)) in
    let size : length bs ≡ 31 = omega (arith, len) in rw size at lt

rejected_parts : (p q : Bool) → (not p || q) ≡ false → (p ≡ true) × (q ≡ false)
rejected_parts true q e = (refl, e)
rejected_parts false q e = cc

accepted : (key : List ℕ) → rejected key ≡ false → (nonzero key ≡ true) × (get_or key 0 0 ≢ 0xff)
unfolding rejected
accepted key taken =
    let (some_bit, top) = rejected_parts (nonzero key) (get_or key 0 0 == 0xff) taken in
    (some_bit, λ e. cc (top, (==_iff (get_or key 0 0) 0xff).1 e))

-- A key that the loop takes is positive, and more than 2 ^ 64 + 32 below the order of the curve.
pub draw-bounds :
    (fuel : ℕ) (rng : ChaChaRng) (key : List ℕ)
    → draw fuel rng ≡ some key
    → IsKey key × (0 < value_from 256 0 key) × (value_from 256 0 key + 2 ^ 64 + 32 < order)
draw-bounds fuel rng key e =
    let (is_key, taken) = draw-IsKey fuel rng key e in
    let (some_bit, top) = accepted key taken in
    let below : value_from 256 0 key < 255 * 256 ^ 31 = key_below key is_key top in
    (is_key, value_from-positive 0 key (inr some_bit), omega (arith, below))
