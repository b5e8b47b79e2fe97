-- ===== src/Keccak/Sponge.antt =====
-- The sponge of `keccak256` (kernels/keccak256.cu), which pads in place, beside the sponge of FIPS 202
-- on the padded message.
use vanity_generator_evm_svm.Common.{
  ℕ, zero, suc, ◌+◌, ◌-◌, ◌*◌, ◌/◌, ◌%◌, ◌^◌, ◌≤◌, ◌<◌, ◌≡◌, refl, ap, ◌∙◌, sym, arith, true, false,
  ltb, ◌==◌, if◌then◌else◌,
}
use vanity_generator_evm_svm.Common.{
  List, [], ◌∷◌, ◌++◌, length, take, drop, replicate, length-append, length-replicate, length-drop,
  take_all, drop_all, take-append_left, drop-append_left, set, bit_xor, u64, ◌<<<◌, All, IsByte,
}
use vanity_generator_evm_svm.Keccak.{
  rate, lane, xor_byte, xor_bytes, absorb, squeeze, sponge, keccak256,
}
use vanity_generator_evm_svm.Keccak.Xor.{bit_xor-nothing, bit_xor_assoc, set_twice, set_same}
use native.Mathlib.Nat.{le_refl}
use native.Mathlib.Decide.{ℕ_discrete}

-- The bytes of the padding behind a last block of `r` bytes: a first bit, and a last one.
unfoldable pub padding : ℕ → List ℕ
padding r = if r == 135 then 0x81 ∷ [] else (1 ∷ (replicate (134 - r) 0 ++ (0x80 ∷ [])))

abbrev pub pad : List ℕ → List ℕ
pad message = message ++ padding (length message % rate)

module _ (permute : List ℕ → List ℕ) where
  -- `n` whole blocks, each of them mixed into the state and permuted.
  unfoldable pub absorb_blocks : ℕ → List ℕ → List ℕ → List ℕ
  absorb_blocks zero message state = state
  absorb_blocks (suc n) message state =
      absorb_blocks n (drop rate message) (permute (xor_bytes 0 (take rate message) state))

  -- The sponge on the padded message.
  unfoldable pub padded_sponge : List ℕ → List ℕ
  padded_sponge message =
      squeeze 32 0 (absorb_blocks (length (pad message) / rate) (pad message) (replicate 25 0))

xor_bytes-append :
    (i : ℕ) (xs ys state : List ℕ)
    → xor_bytes i (xs ++ ys) state ≡ xor_bytes (i + length xs) ys (xor_bytes i xs state)
unfolding xor_bytes
xor_bytes-append i [] ys state = let same : i + 0 ≡ i = omega arith in rw same refl
xor_bytes-append i (x ∷ xs) ys state =
    let place : suc i + length xs ≡ i + suc (length xs) = omega arith in
    xor_bytes-append (suc i) xs ys (xor_byte i x state)
    ∙ ap (λ k. xor_bytes k ys (xor_bytes (suc i) xs (xor_byte i x state))) place

xor_byte-zero : (i : ℕ) (state : List ℕ) → xor_byte i 0 state ≡ state
unfolding xor_byte
xor_byte-zero i state =
    let nothing : u64 (0 <<< (8 * (i % 8))) ≡ 0 = omega arith in
    rw (nothing, bit_xor-nothing (lane state (i / 8)) (lane state (i / 8)) (le_refl _))
      (set_same state (i / 8))

-- Zeros change nothing.
xor_bytes-zeros :
    (n i : ℕ) (ys state : List ℕ)
    → xor_bytes i (replicate n 0 ++ ys) state ≡ xor_bytes (i + n) ys state
unfolding xor_bytes
xor_bytes-zeros zero i ys state = let same : i + 0 ≡ i = omega arith in rw same refl
xor_bytes-zeros (suc n) i ys state =
    let place : suc i + n ≡ i + suc n = omega arith in
    ap (xor_bytes (suc i) (replicate n 0 ++ ys)) (xor_byte-zero i state)
    ∙ xor_bytes-zeros n (suc i) ys state
    ∙ ap (λ k. xor_bytes k ys state) place

-- The two bits of the padding in one byte.
xor_byte-both :
    (state : List ℕ) → xor_byte 135 0x80 (xor_byte 135 1 state) ≡ xor_byte 135 0x81 state
unfolding xor_byte
xor_byte-both state =
    let v = lane state 16 in
    set_twice state 16 (λ t. bit_xor t (2 ^ 56)) (λ t. bit_xor t (2 ^ 63))
    ∙ ap (set state 16) (
        bit_xor_assoc (v + 2 ^ 64) v (2 ^ 56) (2 ^ 63) (omega arith) (omega arith) (omega arith)
        ∙ ap (bit_xor v) both)
  where
    both : bit_xor (2 ^ 56) (2 ^ 63) ≡ 2 ^ 56 + 2 ^ 63
    both = refl

-- Mixing in the padding is what the code does with two single bytes.
xor_bytes-padding :
    (r : ℕ) (state : List ℕ)
    → r < 136
    → xor_bytes r (padding r) state ≡ xor_byte 135 0x80 (xor_byte r 1 state)
unfolding padding
xor_bytes-padding r state lt = elim (ℕ_discrete r 135) [
  | yes e ↦ rw e (unfold xor_bytes in sym (xor_byte-both state))
  | no short ↦
      let test : (r == 135) ≡ false = ground arith in
      let place : suc r + (134 - r) ≡ 135 = omega (arith, lt, short) in
      rw test (
        unfold xor_bytes in
        xor_bytes-zeros (134 - r) (suc r) (0x80 ∷ []) (xor_byte r 1 state)
        ∙ ap (λ k. xor_byte k 0x80 (xor_byte r 1 state)) place)
]

length-padding : (r : ℕ) → r < 136 → r + length (padding r) ≡ 136
unfolding padding
length-padding r lt = elim (ℕ_discrete r 135) [
  | yes e ↦ rw e refl
  | no short ↦
      let test : (r == 135) ≡ false = ground arith in
      rw test (
        omega (
          arith,
          lt,
          short,
          length-replicate {A = ℕ} (134 - r) 0,
          length-append {A = ℕ} (replicate (134 - r) 0) (0x80 ∷ []),
        ))
]

module _ (permute : List ℕ → List ℕ) where
  absorb_nothing : (fuel : ℕ) (state : List ℕ) → absorb permute fuel [] state ≡ state
  unfolding absorb
  absorb_nothing zero state = refl
  absorb_nothing (suc fuel) state = refl

  -- The last block, which is not whole.
  absorb_short :
      (fuel : ℕ) (input state : List ℕ)
      → length input < 136
      → length input < fuel
      → absorb permute fuel input state ≡ xor_bytes 0 input state
  absorb_short zero input state lt enough = absurd (omega (arith, enough))
  absorb_short (suc fuel) [] state lt enough =
      absorb_nothing (suc fuel) state ∙ unfold xor_bytes in refl
  absorb_short (suc fuel) (x ∷ xs) state lt enough =
      let len = length (x ∷ xs) in
      let short : ltb (suc (length xs)) rate ≡ true = ground (arith, lt) in
      let not_whole : (suc (length xs) == rate) ≡ false = ground (arith, lt) in
      let some_left : ltb 0 (suc (length xs)) ≡ true = ground arith in
      unfold absorb in
      rw (short, not_whole, some_left, take_all xs, drop_all xs)
        (absorb_nothing fuel (xor_bytes 0 (x ∷ xs) state))

  -- A whole block.
  absorb_whole :
      (fuel : ℕ) (input state : List ℕ)
      → 136 ≤ length input
      → absorb permute (suc fuel) input state
        ≡ absorb permute fuel (drop 136 input) (permute (xor_bytes 0 (take 136 input) state))
  unfolding absorb
  absorb_whole fuel input state le =
      let whole : ltb (length input) rate ≡ false = ground (arith, le) in
      let some_left : ltb 0 (length input) ≡ true = ground (arith, le) in rw (whole, some_left) refl

  final :
      (fuel k : ℕ) (input state : List ℕ)
      → length input < fuel
      → length input / 136 ≡ k
      → permute
          (xor_byte 135 0x80 (xor_byte (length input % 136) 1 (absorb permute fuel input state)))
        ≡ absorb_blocks permute (suc k) (pad input) state
  unfolding absorb_blocks
  final zero k input state enough count = absurd (omega (arith, enough))
  final (suc fuel) zero input state enough count =
      let lt : length input < 136 = omega (arith, count) in
      let r : length input % 136 ≡ length input = omega (arith, lt) in
      let size : length (pad input) ≡ 136 = omega (
        arith,
        length-append input (padding (length input % 136)),
        length-padding (length input % 136) (omega arith),
        r,
      ) in
      let whole : take 136 (pad input) ≡ pad input =
        ap (λ n. take n (pad input)) (sym size) ∙ take_all (pad input) in
      let mixed : xor_bytes 0 (pad input) state
          ≡ xor_byte 135 0x80 (xor_byte (length input % 136) 1 (xor_bytes 0 input state)) =
        xor_bytes-append 0 input (padding (length input % 136)) state
        ∙ ap (λ k. xor_bytes k (padding (length input % 136)) (xor_bytes 0 input state))
            (omega (arith, r))
        ∙ xor_bytes-padding (length input % 136) (xor_bytes 0 input state) (omega arith) in
      ap (λ s. permute (xor_byte 135 0x80 (xor_byte (length input % 136) 1 s)))
        (absorb_short (suc fuel) input state lt enough)
      ∙ ap permute (sym mixed ∙ ap (λ l. xor_bytes 0 l state) (sym whole))
  final (suc fuel) (suc k) input state enough count =
      let le : 136 ≤ length input = omega (arith, count) in
      let shorter = length-drop 136 input in
      let r : length (drop 136 input) % 136 ≡ length input % 136 = omega (arith, shorter, le) in
      let next = permute (xor_bytes 0 (take 136 input) state) in
      let ih =
        final fuel k (drop 136 input) next (omega (arith, shorter, enough, le))
          (omega (arith, shorter, count, le)) in
      let rest : pad (drop 136 input) ≡ drop 136 (pad input) =
        ap (λ n. drop 136 input ++ padding n) r
        ∙ sym (drop-append_left 136 input (padding (length input % 136)) le) in
      let front : take 136 input ≡ take 136 (pad input) =
        sym (take-append_left 136 input (padding (length input % 136)) le) in
      ap (λ s. permute (xor_byte 135 0x80 (xor_byte (length input % 136) 1 s)))
        (absorb_whole fuel input state le)
      ∙ ap
          (λ n.
            permute (xor_byte 135 0x80 (xor_byte n 1 (absorb permute fuel (drop 136 input) next))))
          (sym r)
      ∙ ih
      ∙ ap (λ l. absorb_blocks permute (suc k) l next) rest
      ∙ ap
          (λ l.
            absorb_blocks permute (suc k) (drop 136 (pad input)) (permute (xor_bytes 0 l state)))
          front

  -- For every input and every permutation of the state, the routine that pads in place gives the
  -- digest of the sponge on the padded message, which is a whole number of blocks: its fuel, one more
  -- than the length of the input, is enough.
  pub sponge-padded_sponge :
      (input : List ℕ)
      → (sponge permute input ≡ padded_sponge permute input)
        × (length (pad input) ≡ 136 * (length input / 136 + 1))
  unfolding sponge padded_sponge
  sponge-padded_sponge input =
      let size : length (pad input) ≡ 136 * (length input / 136 + 1) = omega (
        arith,
        length-append input (padding (length input % 136)),
        length-padding (length input % 136) (omega arith),
      ) in
      let blocks : length (pad input) / 136 ≡ suc (length input / 136) = omega (arith, size) in
      (
        ap (squeeze 32 0) (
            final (suc (length input)) (length input / 136) input (replicate 25 0) (omega arith)
              refl
            ∙ ap (λ n. absorb_blocks permute n (pad input) (replicate 25 0)) (sym blocks)),
        size,
      )

length-squeeze : (n i : ℕ) (state : List ℕ) → length (squeeze n i state) ≡ n
unfolding squeeze
length-squeeze zero i state = refl
length-squeeze (suc n) i state = ap suc (length-squeeze n (suc i) state)

squeeze-IsByte : (n i : ℕ) (state : List ℕ) → All IsByte (squeeze n i state)
unfolding squeeze
squeeze-IsByte zero i state = tt
squeeze-IsByte (suc n) i state = (omega arith, squeeze-IsByte n (suc i) state)

-- A digest has 32 bytes.
pub keccak256-IsByte :
    (input : List ℕ) → (length (keccak256 input) ≡ 32) × All IsByte (keccak256 input)
unfolding keccak256 sponge
keccak256-IsByte input = (length-squeeze 32 0 _, squeeze-IsByte 32 0 _)
