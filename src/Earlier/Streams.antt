-- ===== src/Earlier/Streams.antt =====
-- The states of the generator of the earlier kernels, of one thread and of different ones.
use vanity_generator_evm_svm.Common.{
  ℕ, zero, suc, ◌+◌, ◌*◌, ◌/◌, ◌^◌, ◌≤◌, ◌<◌, ◌≡◌, ◌≢◌, refl, sym, ap, ◌∙◌, arith,
}
use vanity_generator_evm_svm.Common.{List, take, drop, bit_xor, u64, ◌<<<◌, ◌>>>◌}
use vanity_generator_evm_svm.Host.Memory.{le_value}
use vanity_generator_evm_svm.Keccak.Xor.{xor_parts, bit_xor_assoc}
use native.Mathlib.Nat.{div-le_self}
use vanity_generator_evm_svm.Earlier.XorShift.{XorShift, mix, init_xorshift, xorshift128plus_next}
use vanity_generator_evm_svm.Earlier.Injective.{
  xor_cancel, bit_xor_lt, right_shift, left_shift_23, first_factor, second_factor,
}

shifted_lt : (k x : ℕ) → x < 2 ^ 64 → bit_xor x (x >>> k) < 2 ^ 64
shifted_lt k x h = bit_xor_lt x (x >>> k) h (omega (arith, h, div-le_self x (2 ^ k)))

mix_lt : (z : ℕ) → mix z < 2 ^ 64
unfolding mix
mix_lt z = shifted_lt 31 _ (omega arith)

mix_cancel : (x y : ℕ) → x < 2 ^ 64 → y < 2 ^ 64 → mix x ≡ mix y → x ≡ y
unfolding mix
mix_cancel x y hx hy e =
    let once = λ (z : ℕ). u64 (bit_xor z (z >>> 30) * 0xbf58476d1ce4e5b9) in
    right_shift 29 x y hx hy (
      first_factor _ _ (shifted_lt 30 x hx) (shifted_lt 30 y hy) (
        right_shift 26 (once x) (once y) (omega arith) (omega arith) (
          second_factor _ _ (shifted_lt 27 (once x) (omega arith))
            (shifted_lt 27 (once y) (omega arith))
            (right_shift 30 _ _ (omega arith) (omega arith) e))))

xor_comm : (n x y : ℕ) → x ≤ n → y ≤ n → bit_xor x y ≡ bit_xor y x
xor_comm zero x y hx hy =
    let no_x : x ≡ 0 = omega arith in let no_y : y ≡ 0 = omega arith in rw (no_x, no_y) refl
xor_comm (suc n) x y hx hy =
    let (half, digit) = xor_parts x y in
    let (half', digit') = xor_parts y x in
    let ih = xor_comm n (x / 2) (y / 2) (omega (arith, hx)) (omega (arith, hy)) in
    omega (arith, half, half', digit, digit', ih)

-- Both words have 64 bits.
abbrev pub IsState : XorShift → Type 0
IsState st = (st.first < 2 ^ 64) × (st.second < 2 ^ 64)

init_xorshift-IsState : (seed : List ℕ) (idx : ℕ) → IsState (init_xorshift seed idx)
unfolding init_xorshift
init_xorshift-IsState seed idx = (mix_lt _, mix_lt _)

-- The threads of a launch start in different states.
init_cancel :
    (seed : List ℕ) (i j : ℕ)
    → i < 2 ^ 64
    → j < 2 ^ 64
    → init_xorshift seed i ≡ init_xorshift seed j
    → i ≡ j
unfolding init_xorshift
init_cancel seed i j hi hj e =
    let k = bit_xor (le_value (take 8 seed)) (le_value (take 8 (drop 16 seed))) in
    let same : u64 (k + i) ≡ u64 (k + j) =
      mix_cancel (u64 (k + i)) (u64 (k + j)) (omega arith) (omega arith) (ap XorShift.first e) in
    omega (arith, same, hi, hj)

-- The state after a draw.
abbrev advance : XorShift → XorShift
advance st = (xorshift128plus_next st).1

advance-IsState : (st : XorShift) → IsState st → IsState (advance st)
unfolding xorshift128plus_next
advance-IsState st (h_first, h_second) =
    let shifted = bit_xor st.first (u64 (st.first <<< 23)) in
    let shifted_below = bit_xor_lt st.first (u64 (st.first <<< 23)) h_first (omega arith) in
    let right : shifted >>> 18 < 2 ^ 64 =
      omega (arith, shifted_below, div-le_self shifted (2 ^ 18)) in
    (
      h_second,
      bit_xor_lt _ (st.second >>> 5)
          (bit_xor_lt _ (shifted >>> 18) (bit_xor_lt shifted st.second shifted_below h_second)
            right)
          (omega (arith, h_second, div-le_self st.second (2 ^ 5))),
    )

-- The middle one of three words moved to the end.
moved : (x y z : ℕ) → bit_xor (bit_xor x y) z ≡ bit_xor (bit_xor x z) y
moved x y z =
    let n = x + y + z in
    bit_xor_assoc n x y z (omega arith) (omega arith) (omega arith)
    ∙ ap (bit_xor x) (xor_comm n y z (omega arith) (omega arith))
    ∙ sym (bit_xor_assoc n x z y (omega arith) (omega arith) (omega arith))

cancel : (a b c : ℕ) → bit_xor a c ≡ bit_xor b c → a ≡ b
cancel a b c = xor_cancel (a + b) a b c (omega arith) (omega arith)

-- A state can be told from the state behind it.
advance_cancel :
    (st st' : XorShift) → IsState st → IsState st' → advance st ≡ advance st' → st ≡ st'
unfolding xorshift128plus_next
advance_cancel st st' (h_first, h_second) (h_first', h_second') e =
    let shifted = bit_xor st.first (u64 (st.first <<< 23)) in
    let shifted' = bit_xor st'.first (u64 (st'.first <<< 23)) in
    let second : st.second ≡ st'.second = ap XorShift.first e in
    let whole : bit_xor (bit_xor (bit_xor shifted st.second) (shifted >>> 18)) (st.second >>> 5)
        ≡ bit_xor (bit_xor (bit_xor shifted' st.second) (shifted' >>> 18)) (st.second >>> 5) =
      ap XorShift.second e
      ∙ ap (λ t. bit_xor (bit_xor (bit_xor shifted' t) (shifted' >>> 18)) (t >>> 5)) (sym second) in
    let inner = cancel _ _ (st.second >>> 5) whole in
    let mixed = cancel _ _ st.second (
      sym (moved shifted st.second (shifted >>> 18))
      ∙ inner
      ∙ moved shifted' st.second (shifted' >>> 18)) in
    let below = bit_xor_lt st.first (u64 (st.first <<< 23)) h_first (omega arith) in
    let below' = bit_xor_lt st'.first (u64 (st'.first <<< 23)) h_first' (omega arith) in
    let first : st.first ≡ st'.first =
      left_shift_23 st.first st'.first h_first h_first'
        (right_shift 17 shifted shifted' below below' mixed) in
    cc

-- The state of thread `i` after `m` draws.
abbrev pub state_at : List ℕ → ℕ → ℕ → XorShift
state_at seed i zero = init_xorshift seed i
state_at seed i (suc m) = advance (state_at seed i m)

state_at-IsState : (seed : List ℕ) (i m : ℕ) → IsState (state_at seed i m)
state_at-IsState seed i zero = init_xorshift-IsState seed i
state_at-IsState seed i (suc m) = advance-IsState (state_at seed i m) (state_at-IsState seed i m)

-- Two threads whose numbers are below 2 ^ 64 and differ are in different states after the same number
-- of draws, whatever the seed and the number.
pub states_apart :
    (seed : List ℕ) (i j : ℕ)
    → i < 2 ^ 64
    → j < 2 ^ 64
    → i ≢ j
    → (m : ℕ) → state_at seed i m ≢ state_at seed j m
states_apart seed i j hi hj apart zero e = apart (init_cancel seed i j hi hj e)
states_apart seed i j hi hj apart (suc m) e = states_apart seed i j hi hj apart m (
    advance_cancel (state_at seed i m) (state_at seed j m) (state_at-IsState seed i m)
      (state_at-IsState seed j m) e)
