-- ===== src/Tests/Rng.antt =====
-- The block function on the test vector of RFC 8439, 2.3.2 (kernels/test_primitives.cu), and the
-- key stream of one generator.
use vanity_generator_evm_svm.Common.{ℕ, zero, suc, ◌+◌, ◌≡◌, refl, List, [], ◌∷◌, get_or}
use vanity_generator_evm_svm.Rng.{
  chacha_rotl, mix_ad, mix_cb, chacha_qr, qr_at, double_round, rounds, add_words, chacha_block,
  next32,
}
use vanity_generator_evm_svm.Rng.Stream.{after_calls}
use vanity_generator_evm_svm.Rng.Reference.{key_stream_chunk}
use vanity_generator_evm_svm.Rng.KeyStream.{next32-key_stream}
use vanity_generator_evm_svm.Common.{All, IsByte, ◌≤◌, arith}

-- The bytes from `n` on, `count` of them.
abbrev ascending : ℕ → ℕ → List ℕ
ascending zero n = []
ascending (suc count) n = n ∷ ascending count (n + 1)

-- The state of the vector: block counter 1 and its nonce in words 12 to 15.
abbrev rfc_state : List ℕ
rfc_state =
    0x61707865 ∷ 0x3320646e ∷ 0x79622d32 ∷ 0x6b206574 ∷ 0x03020100 ∷ 0x07060504 ∷ 0x0b0a0908
    ∷ 0x0f0e0d0c ∷ 0x13121110 ∷ 0x17161514 ∷ 0x1b1a1918 ∷ 0x1f1e1d1c ∷ 0x00000001 ∷ 0x09000000
    ∷ 0x4a000000 ∷ 0x00000000 ∷ []

rfc_block_first : get_or (chacha_block rfc_state) 0 0 ≡ 0xe4e7f110
unfolding chacha_block add_words rounds double_round qr_at chacha_qr mix_cb mix_ad chacha_rotl
rfc_block_first = refl

ascending-IsByte : (count n : ℕ) → count + n ≤ 256 → All IsByte (ascending count n)
ascending-IsByte zero n le = tt
ascending-IsByte (suc count) n le =
    (omega (arith, le), ascending-IsByte count (n + 1) (omega (arith, le)))

next32-key_stream_example :
    (next32 (after_calls (ascending 32 0) 7 3)).0 ≡ key_stream_chunk (ascending 32 0) 7 3
next32-key_stream_example =
    next32-key_stream (ascending 32 0) 7 3 (ascending-IsByte 32 0 (omega arith))
