-- ===== src/Production/Address.antt =====
-- `calculate_ethereum_address` of kernels/eth_vanity_production.cu. In kernels/eth_math.h the word `a`
-- of a `_uint256` is the lowest one.
use vanity_generator_evm_svm.Common.{
  ℕ, zero, suc, ◌+◌, ◌*◌, ◌/◌, ◌%◌, ◌^◌, ◌≤◌, ◌<◌, ◌≡◌, refl, ap, ◌∙◌, sym, arith, ◌↔◌, true,
}
use vanity_generator_evm_svm.Common.{
  List, [], ◌∷◌, ◌++◌, length, get_or, drop, All, IsByte, be32, be32_lem,
}
use vanity_generator_evm_svm.Secp.{Uint256, write_word}
use vanity_generator_evm_svm.Keccak.{keccak256}
use vanity_generator_evm_svm.Keccak.Sponge.{keccak256-IsByte}
use vanity_generator_evm_svm.Match.{matches_target_eth_ultra}
use vanity_generator_evm_svm.Production.Score.{Address, Pattern, address_bytes, score_address}
use vanity_generator_evm_svm.Production.FullScore.{score_address-matches_target_eth_ultra}

-- One coordinate in big-endian bytes.
unfoldable pub pack_coordinate : Uint256 → List ℕ
pack_coordinate v =
    write_word v.h
    ++ (write_word v.g
        ++ (write_word v.f
            ++ (write_word v.e
                ++ (write_word v.d ++ (write_word v.c ++ (write_word v.b ++ write_word v.a))))))

unfoldable pub hash_address : List ℕ → Address
hash_address hash = record { a = word 12; b = word 16; c = word 20; d = word 24; e = word 28 }
  where
    word : ℕ → ℕ
    word i =
        be32 (get_or hash i 0) (get_or hash (i + 1) 0) (get_or hash (i + 2) 0)
          (get_or hash (i + 3) 0)

unfoldable pub calculate_ethereum_address : Uint256 → Uint256 → Address
calculate_ethereum_address x y = hash_address (keccak256 (pack_coordinate x ++ pack_coordinate y))

write_word-be32 :
    (b0 b1 b2 b3 : ℕ)
    → IsByte b0
    → IsByte b1
    → IsByte b2
    → IsByte b3
    → write_word (be32 b0 b1 b2 b3) ≡ b0 ∷ (b1 ∷ (b2 ∷ (b3 ∷ [])))
unfolding write_word
write_word-be32 b0 b1 b2 b3 h0 h1 h2 h3 =
    let v = be32_lem b0 b1 b2 b3 h0 h1 h2 h3 in
    let e0 : be32 b0 b1 b2 b3 / 2 ^ 24 % 2 ^ 8 ≡ b0 = omega (arith, v, h0, h1, h2, h3) in
    let e1 : be32 b0 b1 b2 b3 / 2 ^ 16 % 2 ^ 8 ≡ b1 = omega (arith, v, h0, h1, h2, h3) in
    let e2 : be32 b0 b1 b2 b3 / 2 ^ 8 % 2 ^ 8 ≡ b2 = omega (arith, v, h0, h1, h2, h3) in
    let e3 : be32 b0 b1 b2 b3 % 2 ^ 8 ≡ b3 = omega (arith, v, h0, h1, h2, h3) in
    λ i. e0 i ∷ (e1 i ∷ (e2 i ∷ (e3 i ∷ [])))

get_or-IsByte : (xs : List ℕ) (i : ℕ) → All IsByte xs → IsByte (get_or xs i 0)
get_or-IsByte [] i h = omega arith
get_or-IsByte (x ∷ xs) zero (hx, h) = hx
get_or-IsByte (x ∷ xs) (suc i) (hx, h) = get_or-IsByte xs i h

drop_step : (i : ℕ) (xs : List ℕ) → i < length xs → drop i xs ≡ get_or xs i 0 ∷ drop (suc i) xs
drop_step i [] lt = absurd (omega (arith, lt))
drop_step zero (x ∷ xs) lt = refl
drop_step (suc i) (x ∷ xs) lt = drop_step i xs (omega (arith, lt))

-- A word of the hash, written again.
word_step :
    (i : ℕ) (xs : List ℕ)
    → All IsByte xs
    → i + 3 < length xs
    → write_word (
          be32
            (get_or xs i 0)
            (get_or xs (suc i) 0)
            (get_or xs (suc (suc i)) 0)
            (get_or xs (suc (suc (suc i))) 0))
        ++ drop (suc (suc (suc (suc i)))) xs
      ≡ drop i xs
word_step i xs bytes lt =
    let byte = λ (k : ℕ). get_or-IsByte xs k bytes in
    let rest = drop (suc (suc (suc (suc i)))) xs in
    ap (λ l. l ++ rest)
      (write_word-be32 (get_or xs i 0) (get_or xs (suc i) 0) (get_or xs (suc (suc i)) 0)
        (get_or xs (suc (suc (suc i))) 0) (byte i) (byte (suc i)) (byte (suc (suc i)))
        (byte (suc (suc (suc i)))))
    ∙ sym (
        drop_step i xs (omega (arith, lt))
        ∙ ap (λ l. get_or xs i 0 ∷ l)
            (drop_step (suc i) xs (omega (arith, lt))
              ∙ ap (λ l. get_or xs (suc i) 0 ∷ l)
                  (drop_step (suc (suc i)) xs (omega (arith, lt))
                    ∙ ap (λ l. get_or xs (suc (suc i)) 0 ∷ l)
                        (drop_step (suc (suc (suc i))) xs (omega (arith, lt))))))

drop_none : (xs : List ℕ) (n : ℕ) → length xs ≤ n → drop n xs ≡ []
drop_none [] zero le = refl
drop_none [] (suc n) le = refl
drop_none (x ∷ xs) zero le = absurd (omega (arith, le))
drop_none (x ∷ xs) (suc n) le = drop_none xs n (omega (arith, le))

append_nothing : (xs : List ℕ) → xs ++ [] ≡ xs
append_nothing [] = refl
append_nothing (x ∷ xs) = ap (λ r. x ∷ r) (append_nothing xs)

address_bytes-hash_address :
    (hash : List ℕ)
    → All IsByte hash
    → length hash ≡ 32
    → address_bytes (hash_address hash) ≡ drop 12 hash
unfolding address_bytes hash_address
address_bytes-hash_address hash bytes len =
    let word = λ (i : ℕ). write_word (
      be32 (get_or hash i 0) (get_or hash (suc i) 0) (get_or hash (suc (suc i)) 0)
        (get_or hash (suc (suc (suc i))) 0)) in
    let last : word 28 ≡ drop 28 hash =
      sym (append_nothing (word 28))
      ∙ ap (λ l. word 28 ++ l) (sym (drop_none hash 32 (omega (arith, len))))
      ∙ word_step 28 hash bytes (omega (arith, len)) in
    let fourth = ap (λ l. word 24 ++ l) last ∙ word_step 24 hash bytes (omega (arith, len)) in
    let third = ap (λ l. word 20 ++ l) fourth ∙ word_step 20 hash bytes (omega (arith, len)) in
    let second = ap (λ l. word 16 ++ l) third ∙ word_step 16 hash bytes (omega (arith, len)) in
    ap (λ l. word 12 ++ l) second ∙ word_step 12 hash bytes (omega (arith, len))

-- The bytes of the address of a point are the last twenty of the hash of its coordinates.
pub calculate_ethereum_address-bytes :
    (x y : Uint256)
    → address_bytes (calculate_ethereum_address x y)
      ≡ drop 12 (keccak256 (pack_coordinate x ++ pack_coordinate y))
unfolding calculate_ethereum_address
calculate_ethereum_address-bytes x y =
    let public = pack_coordinate x ++ pack_coordinate y in
    address_bytes-hash_address (keccak256 public) (keccak256-IsByte public).1
      (keccak256-IsByte public).0

-- With patterns of at most 40 characters and regard to case, the address of a point has the highest
-- score exactly when `matches_target_eth_ultra` accepts the last twenty bytes of the hash of its
-- coordinates.
pub score_address-point :
    (pattern : Pattern) (x y : Uint256)
    → pattern.prefix_len ≡ length pattern.prefix
    → pattern.suffix_len ≡ length pattern.suffix
    → length pattern.prefix ≤ 40
    → length pattern.suffix ≤ 40
    → (score_address pattern (calculate_ethereum_address x y) true
        ≡ 1000 * (length pattern.prefix + length pattern.suffix))
      ↔ (matches_target_eth_ultra
            (drop 12 (keccak256 (pack_coordinate x ++ pack_coordinate y)))
            pattern.prefix
            (length pattern.prefix)
            pattern.suffix
            (length pattern.suffix)
          ≡ true)
score_address-point pattern x y prefix_all suffix_all short_prefix short_suffix =
    rw (sym (calculate_ethereum_address-bytes x y)) (
      score_address-matches_target_eth_ultra pattern (calculate_ethereum_address x y) prefix_all
        suffix_all short_prefix short_suffix)
