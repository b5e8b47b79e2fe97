-- ===== src/Match/Eth.antt =====
-- `matches_target_eth_ultra` (kernels/eth_vanity_ultra.cu), which reads nibbles of the address,
-- beside `address_to_hex_ultra`, which writes its text.
use vanity_generator_evm_svm.Common.{ℕ, zero, suc, ◌+◌, ◌-◌, ◌*◌, ◌/◌, ◌≤◌, ◌<◌, ◌≡◌, refl, ap, ◌∙◌}
use vanity_generator_evm_svm.Common.{sym, u64, ◌^◌, true, arith, List, [], ◌∷◌, length, get_or}
use vanity_generator_evm_svm.Common.{&&_parts, ◌↔◌, bit_and, bit_and_mask, ◌>>>◌, All, IsByte}
use vanity_generator_evm_svm.Match.{agree, hex_at, hex_chars, matches_target_eth_ultra}
use vanity_generator_evm_svm.Match.{address_to_hex_ultra}
use vanity_generator_evm_svm.Match.Split.{StartsWith, EndsWith, agree_front, agree_back}

pub length-address_to_hex : (bs : List ℕ) → length (address_to_hex_ultra bs) ≡ 2 * length bs
unfolding address_to_hex_ultra
length-address_to_hex [] = omega arith
length-address_to_hex (b ∷ bs) = omega (arith, length-address_to_hex bs)

high_nibble : (b : ℕ) → b < 256 → bit_and (b >>> 4) 15 ≡ b >>> 4
high_nibble b h = omega (arith, bit_and_mask 4 (b / 16))

hex_at-suc : (b : ℕ) (bs : List ℕ) (i : ℕ) → hex_at (b ∷ bs) (suc (suc i)) ≡ hex_at bs i
unfolding hex_at
hex_at-suc b bs i = rw (half, same) refl
  where
    half : suc (suc i) / 2 ≡ suc (i / 2)
    half = omega arith

    same : bit_and (suc (suc i)) 1 ≡ bit_and i 1
    same = omega (arith, bit_and_mask 1 (suc (suc i)), bit_and_mask 1 i)

-- Nibble `i` as the match reads it is character `i` of the text.
pub hex_at-get_or :
    (bs : List ℕ) (i : ℕ)
    → All IsByte bs
    → i < 2 * length bs
    → hex_at bs i ≡ get_or (address_to_hex_ultra bs) i 0
unfolding address_to_hex_ultra
hex_at-get_or [] i h lt = absurd (omega arith)
hex_at-get_or (b ∷ bs) zero (hb, h) lt =
    unfold hex_at in ap (λ n. get_or hex_chars n 0) (high_nibble b hb)
hex_at-get_or (b ∷ bs) (suc zero) (hb, h) lt =
    unfold hex_at in ap (λ n. get_or hex_chars (bit_and n 15) 0) (omega arith)
hex_at-get_or (b ∷ bs) (suc (suc i)) (hb, h) lt =
    hex_at-suc b bs i ∙ hex_at-get_or bs i h (omega arith)

module _ (address target suffix : List ℕ) (bytes : All IsByte address) (len : length address ≡ 20)
    (short_target : length target ≤ 40) (short_suffix : length suffix ≤ 40) where
  abbrev hex : List ℕ
  hex = address_to_hex_ultra address

  hex_len : length hex ≡ 40
  hex_len = omega (arith, length-address_to_hex address, len)

  front_iff :
      (agree (length target) 0 (hex_at address) (λ i. get_or target i 0) ≡ true)
      ↔ StartsWith hex target
  front_iff =
      agree_front hex target _ _ (omega (arith, hex_len))
        (λ j lt. (hex_at-get_or address j bytes (omega (arith, len)), refl))

  back_iff :
      (agree
          (length suffix)
          0
          (λ i. hex_at address (u64 (40 + 2 ^ 64 - length suffix + i)))
          (λ i. get_or suffix i 0)
        ≡ true)
      ↔ EndsWith hex suffix
  back_iff = agree_back hex suffix _ _ (omega (arith, hex_len)) (λ j lt. (
    ap (hex_at address) (omega arith)
        ∙ hex_at-get_or address (40 - length suffix + j) bytes (omega (arith, len))
        ∙ ap (λ n. get_or hex (n - length suffix + j) 0) (sym hex_len),
    refl,
  ))

  -- For a 20-byte address and patterns of at most 40 characters, `matches_target_eth_ultra` accepts
  -- exactly when the text that `address_to_hex_ultra` writes begins with the target and ends with
  -- the suffix.
  pub matches_target_eth_ultra_iff :
      (matches_target_eth_ultra address target (length target) suffix (length suffix) ≡ true) ↔ (
        StartsWith (address_to_hex_ultra address) target
        × EndsWith (address_to_hex_ultra address) suffix)
  unfolding matches_target_eth_ultra
  matches_target_eth_ultra_iff = (
    λ e. let (p, s) = &&_parts _ _ e in (front_iff.0 p, back_iff.0 s),
    λ (p, s). rw (front_iff.1 p) (back_iff.1 s),
  )
