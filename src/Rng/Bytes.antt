-- ===== src/Rng/Bytes.antt =====
-- The shape of the chunks of `ChaChaRng.next32` (kernels/chacha_rng.h).
use vanity_generator_evm_svm.Common.{ℕ, zero, suc, ◌+◌, ◌*◌, ◌≡◌, arith, List, length, All, IsByte}
use vanity_generator_evm_svm.Rng.{ChaChaRng, write_words, refill, next32}

length-write_words : (n : ℕ) (words : List ℕ) (at : ℕ) → length (write_words n words at) ≡ 4 * n
unfolding write_words
length-write_words zero words at = omega arith
length-write_words (suc n) words at = omega (arith, length-write_words n words (at + 1))

write_words-IsByte : (n : ℕ) (words : List ℕ) (at : ℕ) → All IsByte (write_words n words at)
unfolding write_words
write_words-IsByte zero words at = tt
write_words-IsByte (suc n) words at =
    (omega arith, (omega arith, (omega arith, (omega arith, write_words-IsByte n words (at + 1)))))

pub length-next32 : (rng : ChaChaRng) → length (next32 rng).0 ≡ 32
unfolding next32
length-next32 rng = length-write_words 8 (refill rng).words (refill rng).offset

pub next32-IsByte : (rng : ChaChaRng) → All IsByte (next32 rng).0
unfolding next32
next32-IsByte rng = write_words-IsByte 8 (refill rng).words (refill rng).offset
