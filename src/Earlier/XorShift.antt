-- ===== src/Earlier/XorShift.antt =====
-- The generator of the earlier kernels: `init_xorshift_eth` and `xorshift128plus_next_eth` of
-- kernels/eth_vanity.cu, which kernels/vanity.cu, kernels/ed25519_vanity.cu and
-- kernels/eth_vanity_optimized.cu repeat under other names.
use vanity_generator_evm_svm.Common.{
  ℕ, zero, suc, ◌+◌, ◌*◌, List, [], ◌++◌, take, drop, bit_xor, u64, ◌<<<◌, ◌>>>◌,
}
use vanity_generator_evm_svm.Host.{le_bytes}
use vanity_generator_evm_svm.Host.Memory.{le_value}

-- `s[0]` and `s[1]`.
pub record XorShift : Type 0 where
  pub first : ℕ
  pub second : ℕ

-- The mixing of one word.
unfoldable pub mix : ℕ → ℕ
mix z =
    let once = u64 (bit_xor z (z >>> 30) * 0xbf58476d1ce4e5b9) in
    let twice = u64 (bit_xor once (once >>> 27) * 0x94d049bb133111eb) in
    bit_xor twice (twice >>> 31)

unfoldable pub init_xorshift : List ℕ → ℕ → XorShift
init_xorshift seed idx =
    let k0 = le_value (take 8 seed) in
    let k1 = le_value (take 8 (drop 8 seed)) in
    let k2 = le_value (take 8 (drop 16 seed)) in
    let k3 = le_value (take 8 (drop 24 seed)) in
    record {
      first = mix (u64 (bit_xor k0 k2 + idx));
      second = mix (u64 (bit_xor k1 k3 + u64 (idx + 0x9e3779b97f4a7c15)));
    }

unfoldable pub xorshift128plus_next : XorShift → ℕ × XorShift
xorshift128plus_next st =
    let shifted = bit_xor st.first (u64 (st.first <<< 23)) in
    (
      u64 (st.second + st.first),
      record {
        first = st.second;
        second = bit_xor (bit_xor (bit_xor shifted st.second) (shifted >>> 18)) (st.second >>> 5);
      },
    )

-- `n` draws of eight bytes each, and the generator behind them.
unfoldable pub draw_words : ℕ → XorShift → List ℕ × XorShift
draw_words zero st = ([], st)
draw_words (suc n) st =
    let (word, next) = xorshift128plus_next st in
    let (words, last) = draw_words n next in (le_bytes 8 word ++ words, last)
