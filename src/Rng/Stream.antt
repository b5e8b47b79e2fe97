-- ===== src/Rng/Stream.antt =====
-- The chunks that `ChaChaRng.next32` (kernels/chacha_rng.h) returns, beside the blocks that they are
-- taken from.
use vanity_generator_evm_svm.Common.{
  ◌≢◌, ◌⊎◌, ℕ, zero, suc, ◌+◌, ◌*◌, ◌/◌, ◌%◌, ◌^◌, ◌≡◌, refl, arith, ap, ◌∙◌, sym,
}
use vanity_generator_evm_svm.Common.{List, u32, ◌==◌, if◌then◌else◌, Bool-cases, ==_iff, inl, inr}
use vanity_generator_evm_svm.Rng.{
  ChaChaRng, state_words, init_rng, tick, write_words, refill, next32, chacha_block,
}
use native.Mathlib.Decide.{ℕ_discrete}

-- The state for block `n` of a stream: the counter is `n` modulo 2 ^ 64.
abbrev pub block_state : List ℕ → ℕ → ℕ → List ℕ
block_state key stream n = state_words key stream (n % 2 ^ 32) (n / 2 ^ 32 % 2 ^ 32)

-- The generator after `n` calls.
unfoldable pub after_calls : List ℕ → ℕ → ℕ → ChaChaRng
after_calls key stream zero = init_rng key stream
after_calls key stream (suc n) = (next32 (after_calls key stream n)).1

counter_parts :
    (n : ℕ)
    → u32 (n % 2 ^ 32 + 1) ≡ 0
    → ((n + 1) % 2 ^ 32 ≡ 0) × (u32 (n / 2 ^ 32 % 2 ^ 32 + 1) ≡ (n + 1) / 2 ^ 32 % 2 ^ 32)
counter_parts n e = (omega (arith, e), omega (arith, e))

counter_low :
    (n : ℕ)
    → u32 (n % 2 ^ 32 + 1) ≢ 0
    → (u32 (n % 2 ^ 32 + 1) ≡ (n + 1) % 2 ^ 32) × (n / 2 ^ 32 % 2 ^ 32 ≡ (n + 1) / 2 ^ 32 % 2 ^ 32)
counter_low n e = (omega arith, omega (arith, e))

tick-state_words :
    (key : List ℕ) (stream low high : ℕ)
    → tick (state_words key stream low high) ≡ (
        if u32 (low + 1) == 0
        then state_words key stream (u32 (low + 1)) (u32 (high + 1))
        else state_words key stream (u32 (low + 1)) high)
unfolding tick state_words
tick-state_words key stream low high = refl

-- Counting in two words is counting in one.
tick-block_state :
    (key : List ℕ) (stream n : ℕ) → tick (block_state key stream n) ≡ block_state key stream (n + 1)
tick-block_state key stream n = elim (Bool-cases (u32 (n % 2 ^ 32 + 1) == 0)) [
  | inl wraps ↦
      let zero_now = (==_iff (u32 (n % 2 ^ 32 + 1)) 0).0 wraps in
      let (low, high) = counter_parts n zero_now in
      rw (tick-state_words, wraps, high, low, zero_now) refl
  | inr plain ↦
      let (low, high) = counter_low n (λ e. cc (plain, (==_iff _ 0).1 e)) in
      rw (tick-state_words, plain, sym high, low) refl
]

-- What is known of the generator before its call number `n`, counted from 0.
record At (key : List ℕ) (stream n : ℕ) (r : ChaChaRng) : Type 0 where
  state_at : r.state ≡ block_state key stream ((n + 1) / 2)
  place :
      (n % 2 ≡ 0) × (r.offset ≡ 16)
      ⊎ (n % 2 ≡ 1) × (r.offset ≡ 8) × (r.words ≡ chacha_block (block_state key stream (n / 2)))

-- What is known of it after the refill.
record Ready (key : List ℕ) (stream n : ℕ) (r : ChaChaRng) : Type 0 where
  state_at : r.state ≡ block_state key stream (n / 2 + 1)
  words_at : r.words ≡ chacha_block (block_state key stream (n / 2))
  offset_at : r.offset ≡ 8 * (n % 2)

refill-Ready :
    (key : List ℕ) (stream n : ℕ) (r : ChaChaRng)
    → At key stream n r
    → Ready key stream n (refill r)
unfolding refill
refill-Ready key stream n r at = elim at.place [
  | inl (even, full) ↦
      let half : (n + 1) / 2 ≡ n / 2 = omega (arith, even) in
      let now : r.state ≡ block_state key stream (n / 2) =
        at.state_at ∙ ap (block_state key stream) half in
      rw full (record {
        state_at = ap tick now ∙ tick-block_state key stream (n / 2);
        words_at = ap chacha_block now;
        offset_at = omega (arith, even);
      })
  | inr (odd, offset_at, words_at) ↦
      let half : (n + 1) / 2 ≡ n / 2 + 1 = omega (arith, odd) in
      rw offset_at (record {
        state_at = at.state_at ∙ ap (block_state key stream) half;
        words_at = words_at;
        offset_at = omega (arith, odd, offset_at);
      })
]

next32-At :
    (key : List ℕ) (stream n : ℕ) (r : ChaChaRng)
    → Ready key stream n (refill r)
    → At key stream (suc n) (next32 r).1
unfolding next32
next32-At key stream n r ready = record {
  state_at = ready.state_at ∙ ap (block_state key stream) two_on;
  place = placed (ℕ_discrete (n % 2) 0);
}
  where
    two_on : n / 2 + 1 ≡ (suc n + 1) / 2
    two_on = omega arith

    placed :
        Dec (n % 2 ≡ 0)
        → ((suc n % 2 ≡ 0) × ((refill r).offset + 8 ≡ 16))
          ⊎ ((suc n % 2 ≡ 1)
              × ((refill r).offset + 8 ≡ 8)
              × ((refill r).words ≡ chacha_block (block_state key stream (suc n / 2))))
    placed (yes even) = inr (
      omega (arith, even),
      omega (arith, even, ready.offset_at),
      ready.words_at ∙ ap (λ m. chacha_block (block_state key stream m)) (omega (arith, even)),
    )
    placed (no odd) = inl (omega (arith, odd), omega (arith, odd, ready.offset_at))

after_calls-At : (key : List ℕ) (stream n : ℕ) → At key stream n (after_calls key stream n)
unfolding after_calls init_rng
after_calls-At key stream zero = record { state_at = refl; place = inl (omega arith, refl) }
after_calls-At key stream (suc n) =
    next32-At key stream n (after_calls key stream n)
      (refill-Ready key stream n (after_calls key stream n) (after_calls-At key stream n))

-- Chunk `n` of the stream `stream` under `key` is half `n % 2` of the block with counter `n / 2`:
-- the generator neither skips nor repeats a word, and its counter is one of 64 bits.
pub next32-halves :
    (key : List ℕ) (stream n : ℕ)
    → (next32 (after_calls key stream n)).0
      ≡ write_words 8 (chacha_block (block_state key stream (n / 2))) (8 * (n % 2))
next32-halves key stream n = unfold next32 in rw (ready.words_at, ready.offset_at) refl
  where
    ready : Ready key stream n (refill (after_calls key stream n))
    ready = refill-Ready key stream n (after_calls key stream n) (after_calls-At key stream n)
