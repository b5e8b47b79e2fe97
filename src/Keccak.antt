-- ===== src/Keccak.antt =====
-- kernels/keccak256.cu: `keccak_f1600` and `keccak256`. A lane is a number below 2 ^ 64, the state a
-- list of 25. `rotl64` by 0 shifts right by 64, which C leaves undefined and a GPU takes for 0, as
-- here.
pub mod Xor
pub mod Sponge
pub mod RhoPi
use vanity_generator_evm_svm.Common.{
  ℕ, zero, suc, ◌+◌, ◌-◌, ◌*◌, ◌/◌, ◌%◌, ◌^◌, Bool, true, false, ltb, ◌==◌, if◌then◌else◌,
}
use vanity_generator_evm_svm.Common.{List, [], ◌∷◌, map, length, get_or, set, take, drop, replicate}
use vanity_generator_evm_svm.Common.{bit_and, bit_or, bit_xor, ◌<<<◌, ◌>>>◌, u64, u8}

unfoldable pub keccak_round_constants : List ℕ
keccak_round_constants =
    0x0000000000000001 ∷ 0x0000000000008082 ∷ 0x800000000000808a ∷ 0x8000000080008000
    ∷ 0x000000000000808b ∷ 0x0000000080000001 ∷ 0x8000000080008081 ∷ 0x8000000000008009
    ∷ 0x000000000000008a ∷ 0x0000000000000088 ∷ 0x0000000080008009 ∷ 0x000000008000000a
    ∷ 0x000000008000808b ∷ 0x800000000000008b ∷ 0x8000000000008089 ∷ 0x8000000000008003
    ∷ 0x8000000000008002 ∷ 0x8000000000000080 ∷ 0x000000000000800a ∷ 0x800000008000000a
    ∷ 0x8000000080008081 ∷ 0x8000000000008080 ∷ 0x0000000080000001 ∷ 0x8000000080008008 ∷ []

unfoldable pub rotl64 : ℕ → ℕ → ℕ
rotl64 x n = bit_or (u64 (x <<< n)) (x >>> (64 - n))

abbrev pub lane : List ℕ → ℕ → ℕ
lane state i = get_or state i 0

-- `[f 0, …, f (n - 1)]` from index `i` on: an array filled by a loop.
abbrev pub filled_by : ℕ → ℕ → (ℕ → ℕ) → List ℕ
filled_by zero i f = []
filled_by (suc n) i f = f i ∷ filled_by n (suc i) f

-- The arrays `C` and `D`.
unfoldable pub columns : List ℕ → List ℕ
columns state = filled_by 5 0 (λ x.
    bit_xor
      (bit_xor (bit_xor (bit_xor (lane state x) (lane state (x + 5))) (lane state (x + 10)))
        (lane state (x + 15)))
      (lane state (x + 20)))

unfoldable pub deltas : List ℕ → List ℕ
deltas cs = filled_by 5 0 (λ x. bit_xor (lane cs ((x + 4) % 5)) (rotl64 (lane cs ((x + 1) % 5)) 1))

unfoldable pub theta : List ℕ → List ℕ
theta state =
    let ds = deltas (columns state) in
    filled_by 25 0 (λ i. bit_xor (lane state i) (lane ds (i % 5)))

-- `rotation_offsets`, its rows one after another.
unfoldable pub rotation_offsets : List ℕ
rotation_offsets =
    0 ∷ 36 ∷ 3 ∷ 41 ∷ 18 ∷ 1 ∷ 44 ∷ 10 ∷ 45 ∷ 2 ∷ 62 ∷ 6 ∷ 43 ∷ 15 ∷ 61 ∷ 28 ∷ 55 ∷ 25 ∷ 21 ∷ 56
    ∷ 27 ∷ 20 ∷ 39 ∷ 8 ∷ 14 ∷ []

-- The place of `B` that the lane (x, y) goes to.
unfoldable pub target_of : ℕ → ℕ → ℕ
target_of x y = let r = (x + 1 + (y + 1) * 2) % 5 in let t = (x + 3 * y) % 5 in r + 5 * t

-- Both loops, from pair `k` on with `n` pairs left; pair `k` is (k / 5, k % 5).
unfoldable pub rho_pi_from : ℕ → ℕ → List ℕ → List ℕ → List ℕ
rho_pi_from zero k state b = b
rho_pi_from (suc n) k state b =
    let x = k / 5 in
    let y = k % 5 in
    rho_pi_from n (suc k) state
      (set b (target_of x y) (rotl64 (lane state (x + 5 * y)) (lane rotation_offsets (5 * y + x))))

unfoldable pub rho_pi : List ℕ → List ℕ
rho_pi state = rho_pi_from 25 0 state (replicate 25 0)

unfoldable pub chi : List ℕ → List ℕ
chi b = filled_by 25 0 (λ i.
    let x = i % 5 in
    let y = i / 5 in
    let complement = 2 ^ 64 - 1 - lane b ((x + 1) % 5 + 5 * y) in
    bit_xor (lane b i) (bit_and complement (lane b ((x + 2) % 5 + 5 * y))))

unfoldable pub iota : ℕ → List ℕ → List ℕ
iota constant state = set state 0 (bit_xor (lane state 0) constant)

unfoldable pub keccak_rounds : List ℕ → List ℕ → List ℕ
keccak_rounds [] state = state
keccak_rounds (constant ∷ constants) state =
    keccak_rounds constants (iota constant (chi (rho_pi (theta state))))

unfoldable pub keccak_f1600 : List ℕ → List ℕ
keccak_f1600 state = keccak_rounds keccak_round_constants state

-- `state[i / 8] ^= (uint64_t)byte << (8 * (i % 8))`
unfoldable pub xor_byte : ℕ → ℕ → List ℕ → List ℕ
xor_byte i byte state =
    set state (i / 8) (bit_xor (lane state (i / 8)) (u64 (byte <<< (8 * (i % 8)))))

-- The loop over the bytes of one block, from byte `i` on.
unfoldable pub xor_bytes : ℕ → List ℕ → List ℕ → List ℕ
xor_bytes i [] state = state
xor_bytes i (byte ∷ bytes) state = xor_bytes (suc i) bytes (xor_byte i byte state)

abbrev pub rate : ℕ
rate = 136

unfoldable pub squeeze : ℕ → ℕ → List ℕ → List ℕ
squeeze zero i state = []
squeeze (suc n) i state = u8 (lane state (i / 8) >>> (8 * (i % 8))) ∷ squeeze n (suc i) state

module _ (permute : List ℕ → List ℕ) where
  -- The absorb loop on the rest of the input. The fuel bounds the blocks.
  unfoldable pub absorb : ℕ → List ℕ → List ℕ → List ℕ
  absorb zero input state = state
  absorb (suc fuel) input state =
      let len = length input in
      let block_size = if ltb len rate then len else rate in
      let mixed = xor_bytes 0 (take block_size input) state in
      let rest =
        absorb fuel (drop block_size input) (if block_size == rate then permute mixed else mixed) in
      if ltb 0 len then rest else state

  -- The sponge of `keccak256` over any permutation of the state.
  unfoldable pub sponge : List ℕ → List ℕ
  sponge input =
      let len = length input in
      let absorbed = absorb (suc len) input (replicate 25 0) in
      let padded = xor_byte (rate - 1) 0x80 (xor_byte (len % rate) 1 absorbed) in
      squeeze 32 0 (permute padded)

unfoldable pub keccak256 : List ℕ → List ℕ
keccak256 input = sponge keccak_f1600 input
