-- ===== src/Match/Prefilter.antt =====
-- The suffix prefilter `base58_suffix_match_mod_32` (kernels/base58_simple.cu) beside the full
-- test of the Solana kernel.
use vanity_generator_evm_svm.Common.{
  ℕ, zero, suc, ◌+◌, ◌-◌, ◌*◌, ◌/◌, ◌%◌, ◌^◌, ◌≤◌, ◌<◌, ◌≡◌, refl, ap, ◌∙◌,
}
use vanity_generator_evm_svm.Common.{
  sym, Bool, true, arith, List, [], ◌∷◌, ◌++◌, length, get_or, ◌==◌,
}
use vanity_generator_evm_svm.Common.{All, IsByte, map, reverse, replicate, u64, ◌<<<◌}
use vanity_generator_evm_svm.Common.{
  bit_or, bit_or_fields, be32, be32_lem, get_or-reverse, length-replicate,
}
use vanity_generator_evm_svm.Common.{length-append, length-reverse, Bool-cases, inl, inr}
use vanity_generator_evm_svm.Base58.{letter, leading_zeros, reference}
use vanity_generator_evm_svm.Base58.Digits.{value_from, digits58}
use vanity_generator_evm_svm.Base58.Encode.{IsKey, key_value, key_value-lt}
use vanity_generator_evm_svm.Base58.Reference.{reference-digits}
use vanity_generator_evm_svm.Match.{fold_case, mod_limbs, suffix_loop, base58_suffix_match_mod_32}
use vanity_generator_evm_svm.Match.Split.{agree→eq}
use vanity_generator_evm_svm.Match.Sol.{accepts, accepts_parts, back_loop}
use mathlib.Core.List.{reverse-append, reverse-reverse}
use native.Mathlib.Nat.{add-zero, pow-suc}

abbrev modulus : ℕ
modulus = 11316496

value_from-mod :
    (a : ℕ) (xs : List ℕ)
    → value_from 256 (a % modulus) xs % modulus ≡ value_from 256 a xs % modulus
value_from-mod a [] = omega arith
value_from-mod a (x ∷ xs) =
    sym (value_from-mod (a % modulus * 256 + x) xs)
    ∙ ap (λ t. value_from 256 t xs % modulus) (omega arith)
    ∙ value_from-mod (a * 256 + x) xs

-- The words of the key leave its value modulo 58 ^ 4.
mod_limbs_lem :
    (r : ℕ) (bs : List ℕ) (k : ℕ)
    → length bs ≡ 4 * k
    → All IsByte bs
    → r < modulus
    → mod_limbs r bs ≡ value_from 256 r bs % modulus
unfolding mod_limbs
mod_limbs_lem r [] k e h lt = omega arith
mod_limbs_lem r (a ∷ []) k e h lt = absurd (omega arith)
mod_limbs_lem r (a ∷ b ∷ []) k e h lt = absurd (omega arith)
mod_limbs_lem r (a ∷ b ∷ c ∷ []) k e h lt = absurd (omega arith)
mod_limbs_lem r (a ∷ b ∷ c ∷ d ∷ bs) k e (ha, (hb, (hc, (hd, h)))) lt =
    ap (λ t. mod_limbs (t % modulus) bs) joined
    ∙ mod_limbs_lem ((r * 2 ^ 32 + word) % modulus) bs (k - 1) (omega arith) h (omega arith)
    ∙ value_from-mod (r * 2 ^ 32 + word) bs
    ∙ ap (λ t. value_from 256 t bs % modulus) (omega arith)
  where
    word : ℕ
    word = a * 2 ^ 24 + b * 2 ^ 16 + c * 2 ^ 8 + d

    joined : bit_or (u64 (r <<< 32)) (be32 a b c d) ≡ r * 2 ^ 32 + word
    joined =
        rw (be32_lem a b c d ha hb hc hd) (ground (arith, bit_or_fields 32 r word (omega arith)))

-- Digit `j` in base 58, the lowest first.
nth_digit : ℕ → ℕ → ℕ
nth_digit x zero = x % 58
nth_digit x (suc j) = nth_digit (x / 58) j

nth_digit-mod : (x j : ℕ) → j < 4 → nth_digit (x % modulus) j ≡ nth_digit x j
unfolding nth_digit
nth_digit-mod x zero lt = omega arith
nth_digit-mod x (suc zero) lt = omega arith
nth_digit-mod x (suc (suc zero)) lt = omega arith
nth_digit-mod x (suc (suc (suc zero))) lt = omega arith
nth_digit-mod x (suc (suc (suc (suc j)))) lt = absurd (omega arith)

nth_digit-zero : (j : ℕ) → nth_digit 0 j ≡ 0
unfolding nth_digit
nth_digit-zero zero = refl
nth_digit-zero (suc j) = nth_digit-zero j

-- The loop passes if each of its characters is the one that the digits give.
suffix_loop-true :
    (n i r : ℕ) (suffix : List ℕ) (size : ℕ) (ci : Bool)
    → ((j : ℕ)
        → j < n
        → fold_case ci (letter (nth_digit r j))
          ≡ fold_case ci (get_or suffix (size - 1 - (i + j)) 0))
    → suffix_loop n i r suffix size ci ≡ true
unfolding suffix_loop nth_digit
suffix_loop-true zero i r suffix size ci h = refl
suffix_loop-true (suc n) i r suffix size ci h =
    ground (arith, now, suffix_loop-true n (i + 1) (r / 58) suffix size ci later)
  where
    now : fold_case ci (letter (r % 58)) ≡ fold_case ci (get_or suffix (size - 1 - i) 0)
    now = h 0 (omega arith) ∙ ap (λ t. fold_case ci (get_or suffix (size - 1 - t) 0)) (add-zero i)

    later :
        (j : ℕ)
        → j < n
        → fold_case ci (letter (nth_digit (r / 58) j))
          ≡ fold_case ci (get_or suffix (size - 1 - (i + 1 + j)) 0)
    later j lt =
        h (suc j) (omega arith)
        ∙ ap (λ t. fold_case ci (get_or suffix (size - 1 - t) 0)) (omega arith)

get_or-replicate : (z c j : ℕ) → j < z → get_or (replicate z c) j 0 ≡ c
get_or-replicate zero c j lt = elim lt [ ]
get_or-replicate (suc z) c zero lt = refl
get_or-replicate (suc z) c (suc j) lt = get_or-replicate z c j (omega arith)

padding :
    (x z j : ℕ) → x ≡ 0 → j < z → get_or (reverse (replicate z b'1')) j 0 ≡ letter (nth_digit x j)
padding x z j none_left lt =
    let len = length-replicate {A = ℕ} z b'1' in
    rw (none_left, nth_digit-zero j)
      (ap (λ t. get_or (reverse (replicate z b'1')) t 0) (omega (arith, len))
        ∙ get_or-reverse (replicate z b'1') (z - 1 - j) 0 (omega (arith, len))
        ∙ get_or-replicate z b'1' (z - 1 - j) (omega arith)
        ∙ unfold letter in refl)

-- The text read backwards is the letters of the digits, where `1` stands for the digits above.
backwards :
    (k x z j : ℕ)
    → x < 58 ^ k
    → j < length (map letter (digits58 k x)) + z
    → get_or (map letter (digits58 k x) ++ reverse (replicate z b'1')) j 0 ≡ letter (nth_digit x j)
unfolding digits58 nth_digit
backwards zero x z j small lt = padding x z j (omega arith) (omega arith)
backwards (suc k) x z zero small lt = elim (Bool-cases (x == 0)) [
  | inl none_left ↦ rw none_left (padding x z zero (ground arith) (ground arith))
  | inr more ↦ rw more refl
]
backwards (suc k) x z (suc j) small lt = elim (Bool-cases (x == 0)) [
  | inl none_left ↦ rw none_left (padding x z (suc j) (ground arith) (ground arith))
  | inr more ↦ rw more (backwards k (x / 58) z j (omega (arith, pow-suc 58 k)) (ground arith))
]

module _ (input : List ℕ) (key : IsKey input) where
  -- Character `j` of the address from its end.
  address_back :
      (j : ℕ)
      → j < length (reference input)
      → get_or (reference input) (length (reference input) - 1 - j) 0
        ≡ letter (nth_digit (key_value input) j)
  address_back j lt =
      ap (λ t. get_or t (length (reference input) - 1 - j) 0) (sym turned)
      ∙ ap (λ t. get_or (reverse back) (t - 1 - j) 0) (sym same_length)
      ∙ get_or-reverse back j 0 (rw same_length lt)
      ∙ backwards 45 (key_value input) z j (omega (arith, key_value-lt input key)) inside
    where
      z : ℕ
      z = leading_zeros input

      letters : List ℕ
      letters = map letter (digits58 45 (key_value input))

      back : List ℕ
      back = letters ++ reverse (replicate z b'1')

      turned : reverse back ≡ reference input
      turned =
          rw
            (
              reverse-append letters (reverse (replicate z b'1')),
              reverse-reverse {A = ℕ} (replicate z b'1'),
            )
            (sym (reference-digits input key))

      same_length : length back ≡ length (reference input)
      same_length = sym (length-reverse back) ∙ ap length turned

      inside : j < length letters + z
      inside = omega (
        arith,
        lt,
        same_length,
        length-append letters (reverse (replicate z b'1')),
        length-reverse {A = ℕ} (replicate z b'1'),
        length-replicate {A = ℕ} z b'1',
      )

  -- Whenever `matches_target_sol_opt` accepts the address of a 32-byte key, the prefilter
  -- `base58_suffix_match_mod_32` accepts the key: the kernel's early `continue` loses no match.
  pub prefilter_complete :
      (target suffix : List ℕ) (ci : Bool)
      → accepts (reference input) target suffix ci ≡ true
      → base58_suffix_match_mod_32 input suffix (length suffix) ci ≡ true
  unfolding base58_suffix_match_mod_32
  prefilter_complete target suffix ci e =
      suffix_loop-true _ 0 (mod_limbs 0 input) suffix size ci (λ j lt.
        let near : j < 4 = ground arith in
        let inside : j < size = ground arith in
        ap (λ t. fold_case ci (letter t)) (digit j near)
        ∙ ap (fold_case ci) (sym (address_back j (omega (arith, fits))))
        ∙ ap (λ t. fold_case ci (get_or (reference input) t 0)) (omega (arith, fits))
        ∙ agree→eq size 0 _ _ (size - 1 - j) back (omega arith) (omega arith)
        ∙ ap (λ t. fold_case ci (get_or suffix (size - 1 - t) 0)) (omega arith))
    where
      size : ℕ
      size = length suffix

      fits : size ≤ length (reference input)
      fits = (accepts_parts (reference input) target suffix ci e).1

      back : back_loop (reference input) target suffix ci ≡ true
      back = (accepts_parts (reference input) target suffix ci e).3

      digit : (j : ℕ) → j < 4 → nth_digit (mod_limbs 0 input) j ≡ nth_digit (key_value input) j
      digit j lt =
          ap (λ t. nth_digit t j) (mod_limbs_lem 0 input 8 key.1 key.0 (omega arith))
          ∙ nth_digit-mod (key_value input) j lt
