-- ===== src/Rng/KeyStream.antt =====
-- The chunks of the generator of kernels/chacha_rng.h beside the key stream of Rng/Reference.
use vanity_generator_evm_svm.Common.{
  ℕ, zero, suc, ◌+◌, ◌*◌, ◌/◌, ◌%◌, ◌<◌, ◌≡◌, refl, ap, ◌∙◌, arith, List, [], ◌∷◌,
}
use vanity_generator_evm_svm.Common.{
  IsByte, IsU32, All, get_or, take, drop, bit_or, ◌<<<◌, bit_or_upper,
}
use vanity_generator_evm_svm.Rng.{key_word, state_words, write_words, chacha_block, next32}
use vanity_generator_evm_svm.Rng.Reference.{
  Matrix, word, word_of_key, words_of, state_of, block, serialize, key_stream_chunk,
}
use vanity_generator_evm_svm.Rng.Rounds.{IsMatrix, chacha_block-block}
use vanity_generator_evm_svm.Rng.Stream.{block_state, after_calls, next32-halves}

get_or-IsByte : (bytes : List ℕ) (i : ℕ) → All IsByte bytes → IsByte (get_or bytes i 0)
get_or-IsByte [] i h = omega arith
get_or-IsByte (b ∷ bytes) zero (hb, h) = hb
get_or-IsByte (b ∷ bytes) (suc i) (hb, h) = get_or-IsByte bytes i h

-- Four bytes put together bit by bit are a word.
word_lem :
    (b0 b1 b2 b3 : ℕ)
    → IsByte b0
    → IsByte b1
    → IsByte b2
    → IsByte b3
    → bit_or (bit_or (bit_or b0 (b1 <<< 8)) (b2 <<< 16)) (b3 <<< 24) ≡ word b0 b1 b2 b3
word_lem b0 b1 b2 b3 h0 h1 h2 h3 = ground (
  arith,
  bit_or_upper 8 b1 b0 (omega (arith, h0)),
  bit_or_upper 16 b2 (b1 * 256 + b0) (omega (arith, h0, h1)),
  bit_or_upper 24 b3 (b2 * 65536 + b1 * 256 + b0) (omega (arith, h0, h1, h2)),
)

module _ (key : List ℕ) (bytes : All IsByte key) where
  byte : (i : ℕ) → IsByte (get_or key i 0)
  byte i = get_or-IsByte key i bytes

  key_word-word_of_key : (i : ℕ) → key_word key i ≡ word_of_key key i
  unfolding key_word word_of_key
  key_word-word_of_key i = word_lem _ _ _ _ (byte _) (byte _) (byte _) (byte _)

  word_of_key-IsU32 : (i : ℕ) → IsU32 (word_of_key key i)
  unfolding word_of_key
  word_of_key-IsU32 i =
      omega (arith, byte (4 * i), byte (4 * i + 1), byte (4 * i + 2), byte (4 * i + 3))

  -- The state that the generator is in.
  block_state-state_of :
      (stream n : ℕ) → block_state key stream n ≡ words_of (state_of key stream n)
  unfolding state_words
  block_state-state_of stream n =
      let w = key_word-word_of_key in rw (w 0, w 1, w 2, w 3, w 4, w 5, w 6, w 7) refl

  state_of-IsMatrix : (stream n : ℕ) → IsMatrix (state_of key stream n)
  state_of-IsMatrix stream n =
      let w = word_of_key-IsU32 in
      record {
        first_fits = record {
          a_fits = omega arith;
          b_fits = w 0;
          c_fits = w 4;
          d_fits = omega arith;
        };
        second_fits = record {
          a_fits = omega arith;
          b_fits = w 1;
          c_fits = w 5;
          d_fits = omega arith;
        };
        third_fits = record {
          a_fits = omega arith;
          b_fits = w 2;
          c_fits = w 6;
          d_fits = omega arith;
        };
        fourth_fits = record {
          a_fits = omega arith;
          b_fits = w 3;
          c_fits = w 7;
          d_fits = omega arith;
        };
      }

-- Either half of sixteen words as bytes.
write_words-half :
    (m : Matrix) (h : ℕ)
    → h < 2
    → write_words 8 (words_of m) (8 * h) ≡ take 32 (drop (32 * h) (serialize (words_of m)))
unfolding write_words serialize
write_words-half m zero lt = refl
write_words-half m (suc zero) lt = refl
write_words-half m (suc (suc h)) lt = absurd (omega arith)

-- Under a key of bytes, call number `n`, counted from 0, on the generator of a stream returns bytes 32 n
-- to 32 n + 31 of the key stream of the reference: that of ChaCha20 as RFC 8439 has it, with words
-- as numbers and the state as a matrix, but for a 64-bit block counter and a 64-bit stream number,
-- both of which wrap around.
pub next32-key_stream :
    (key : List ℕ) (stream n : ℕ)
    → All IsByte key
    → (next32 (after_calls key stream n)).0 ≡ key_stream_chunk key stream n
next32-key_stream key stream n bytes =
    let m = state_of key stream (n / 2) in
    next32-halves key stream n
    ∙ ap (λ t. write_words 8 (chacha_block t) (8 * (n % 2)))
        (block_state-state_of key bytes stream (n / 2))
    ∙ ap (λ t. write_words 8 t (8 * (n % 2)))
        (chacha_block-block m (state_of-IsMatrix key bytes stream (n / 2)))
    ∙ write_words-half (block m) (n % 2) (omega arith)
