-- ===== src/Production/FullScore.antt =====
-- The highest score of `score_address` (kernels/eth_vanity_production.cu) beside
-- `matches_target_eth_ultra` (kernels/eth_vanity_ultra.cu).
use vanity_generator_evm_svm.Common.{
  ℕ, zero, suc, ◌+◌, ◌-◌, ◌*◌, ◌≤◌, ◌<◌, ◌≡◌, refl, ap, ◌∙◌, sym, arith, Bool, true, false, ltb,
  ◌==◌, if◌then◌else◌, ◌↔◌,
}
use vanity_generator_evm_svm.Common.{List, [], ◌∷◌, map, length, get_or, Bool-cases, inl, inr}
use vanity_generator_evm_svm.Common.{get_or-map, length-map}
use vanity_generator_evm_svm.Match.Eth.{matches_target_eth_ultra_iff}
use vanity_generator_evm_svm.Match.{agree, matches_target_eth_ultra}
use vanity_generator_evm_svm.Match.Split.{
  agree→eq, eq→agree, agree_front, agree_back, StartsWith, EndsWith,
}
use vanity_generator_evm_svm.Production.Score.{
  Address, Pattern, address_bytes, hex_of, fold_hex, matches, rounds_of, prefix_score, suffix_score,
  score_address,
}
use vanity_generator_evm_svm.Production.Hex.{
  hex_of-address_to_hex_ultra, address_bytes-IsByte, length-address_bytes,
}

-- The loop counts at most its rounds.
matches-bound : (n i : ℕ) (f g : ℕ → ℕ) → matches n i f g ≤ n
unfolding matches
matches-bound zero i f g = omega arith
matches-bound (suc n) i f g = ground (arith, matches-bound n (i + 1) f g)

-- It counts all of them exactly where the two sides agree.
matches-agree : (n i : ℕ) (f g : ℕ → ℕ) → (matches n i f g ≡ n) ↔ (agree n i f g ≡ true)
unfolding matches agree
matches-agree zero i f g = (λ e. refl, λ e. refl)
matches-agree (suc n) i f g =
    let (there, back) = matches-agree n (i + 1) f g in
    elim (Bool-cases (f i == g i)) [
      | inl e ↦ rw e ((λ h. there (omega (arith, h)), λ h. ap suc (back h)))
      | inr e ↦ rw e ((λ h. absurd (omega (arith, h)), λ h. absurd (cc)))
    ]

-- The loop that goes backwards agrees with the one that goes forwards.
agree_backwards :
    (n : ℕ) (f g f' g' : ℕ → ℕ)
    → ((j : ℕ) → j < n → (f' j ≡ f (n - 1 - j)) × (g' j ≡ g (n - 1 - j)))
    → (agree n 0 f' g' ≡ true) ↔ (agree n 0 f g ≡ true)
agree_backwards n f g f' g' turned = (
  λ e. eq→agree n 0 f g (λ j low high.
      let (p, r) = turned (n - 1 - j) (omega arith) in
      let back : n - 1 - (n - 1 - j) ≡ j = omega arith in
      ap f (sym back)
      ∙ sym p
      ∙ agree→eq n 0 f' g' (n - 1 - j) e (omega arith) (omega arith)
      ∙ r
      ∙ ap g back),
  λ e. eq→agree n 0 f' g' (λ j low high.
      let (p, r) = turned j (omega arith) in
      p ∙ agree→eq n 0 f g (n - 1 - j) e (omega arith) (omega arith) ∙ sym r),
)

fold_hex-nul : (b : Bool) → fold_hex b 0 ≡ 0
unfolding fold_hex
fold_hex-nul true = refl
fold_hex-nul false = refl

abbrev pub folded : Bool → List ℕ → List ℕ
folded case_sensitive = map (fold_hex case_sensitive)

get_or-folded :
    (b : Bool) (xs : List ℕ) (i : ℕ) → fold_hex b (get_or xs i 0) ≡ get_or (folded b xs) i 0
get_or-folded b xs i =
    sym (get_or-map (fold_hex b) xs i 0) ∙ ap (get_or (folded b xs) i) (fold_hex-nul b)

length-hex_of : (bs : List ℕ) → length (hex_of bs) ≡ 2 * length bs
unfolding hex_of
length-hex_of [] = omega arith
length-hex_of (b ∷ bs) = omega (arith, length-hex_of bs)

-- A thousand points for each round that is counted, and for no pattern none.
counted :
    (len n : ℕ) (f g : ℕ → ℕ)
    → len ≤ 40
    → n ≡ (if ltb 0 len then matches (rounds_of len) 0 f g * 1000 else 0)
    → (n ≤ 1000 * len) × ((n ≡ 1000 * len) ↔ (agree len 0 f g ≡ true))
counted zero n f g le e = (omega (arith, e), (λ h. unfold agree in refl, λ h. omega (arith, e)))
counted (suc len) n f g le e =
    let all_rounds : rounds_of (suc len) ≡ suc len = ground (arith, le) in
    let some_len : ltb 0 (suc len) ≡ true = ground arith in
    let count : n ≡ matches (suc len) 0 f g * 1000 = rw (some_len, all_rounds) at e in
    let (there, back) = matches-agree (suc len) 0 f g in
    (
      omega (arith, count, matches-bound (suc len) 0 f g),
      (λ h. there (omega (arith, count, h)), λ h. omega (arith, count, back h)),
    )

module _ (pattern : Pattern) (addr : Address) (b : Bool)
    (prefix_all : pattern.prefix_len ≡ length pattern.prefix)
    (suffix_all : pattern.suffix_len ≡ length pattern.suffix)
    (short_prefix : length pattern.prefix ≤ 40) (short_suffix : length pattern.suffix ≤ 40) where
  abbrev hex : List ℕ
  hex = hex_of (address_bytes addr)

  hex_len : length hex ≡ 40
  hex_len = omega (arith, length-hex_of (address_bytes addr), length-address_bytes addr)

  folded_len : (xs : List ℕ) → length (folded b xs) ≡ length xs
  folded_len xs = length-map (fold_hex b) xs

  prefix_score_iff :
      (prefix_score pattern hex b ≤ 1000 * length pattern.prefix)
      × ((prefix_score pattern hex b ≡ 1000 * length pattern.prefix)
          ↔ StartsWith (folded b hex) (folded b pattern.prefix))
  unfolding prefix_score
  prefix_score_iff =
      let f = λ (i : ℕ). fold_hex b (get_or hex i 0) in
      let g = λ (i : ℕ). fold_hex b (get_or pattern.prefix i 0) in
      let (bound, (there, back)) =
        counted (length pattern.prefix) (prefix_score pattern hex b) f g short_prefix
          (rw prefix_all refl) in
      let (split, join) =
        agree_front (folded b hex) (folded b pattern.prefix) f g
          (omega (arith, folded_len hex, folded_len pattern.prefix, hex_len, short_prefix))
          (λ j lt. (get_or-folded b hex j, get_or-folded b pattern.prefix j)) in
      let len = folded_len pattern.prefix in
      (bound, (λ h. split (rw len (there h)), λ h. back (rw len at (join h))))

  suffix_score_iff :
      (suffix_score pattern hex b ≤ 1000 * length pattern.suffix)
      × ((suffix_score pattern hex b ≡ 1000 * length pattern.suffix)
          ↔ EndsWith (folded b hex) (folded b pattern.suffix))
  unfolding suffix_score
  suffix_score_iff =
      let n = length pattern.suffix in
      let f' = λ (i : ℕ). fold_hex b (get_or hex (40 - 1 - i) 0) in
      let g' = λ (i : ℕ). fold_hex b (get_or pattern.suffix (n - 1 - i) 0) in
      let f = λ (i : ℕ). fold_hex b (get_or hex (40 - n + i) 0) in
      let g = λ (i : ℕ). fold_hex b (get_or pattern.suffix i 0) in
      let (bound, (there, back)) =
        counted n (suffix_score pattern hex b) f' g' short_suffix (rw suffix_all refl) in
      let (forth, turned) =
        agree_backwards n f g f' g'
          (λ j lt. (ap (λ k. fold_hex b (get_or hex k 0)) (mirrored j lt), refl)) in
      let len = folded_len pattern.suffix in
      let (split, join) =
        agree_back (folded b hex) (folded b pattern.suffix) f g
          (omega (arith, folded_len hex, len, hex_len, short_suffix))
          (λ j lt. (
            get_or-folded b hex (40 - n + j) ∙ ap (λ k. get_or (folded b hex) k 0) (placed j),
            get_or-folded b pattern.suffix j,
          )) in
      (bound, (λ h. split (rw len (forth (there h))), λ h. back (turned (rw len at (join h)))))
    where
      mirrored :
          (j : ℕ)
          → j < length pattern.suffix
          → 40 - 1 - j ≡ 40 - length pattern.suffix + (length pattern.suffix - 1 - j)
      mirrored j lt = omega (arith, lt, short_suffix)

      placed :
          (j : ℕ)
          → 40 - length pattern.suffix + j
            ≡ length (folded b hex) - length (folded b pattern.suffix) + j
      placed j = omega (arith, folded_len hex, folded_len pattern.suffix, hex_len)

  -- With patterns of at most 40 characters, the score is at most 1000 for each character of both
  -- patterns, and reaches that exactly when the text of the address begins with the prefix and ends
  -- with the suffix, up to the case of the letters A to F where that is asked for.
  pub score_address_iff :
      (score_address pattern addr b ≤ 1000 * (length pattern.prefix + length pattern.suffix))
      × ((score_address pattern addr b ≡ 1000 * (length pattern.prefix + length pattern.suffix)) ↔ (
          StartsWith (folded b (hex_of (address_bytes addr))) (folded b pattern.prefix)
          × EndsWith (folded b (hex_of (address_bytes addr))) (folded b pattern.suffix)))
  unfolding score_address
  score_address_iff =
      let (bound, (there, back)) = prefix_score_iff in
      let (bound', (there', back')) = suffix_score_iff in
      (
        omega (arith, bound, bound'),
        (
          λ h. (there (omega (arith, h, bound, bound')), there' (omega (arith, h, bound, bound'))),
          λ (h, h'). omega (arith, back h, back' h'),
        ),
      )

folded-same : (xs : List ℕ) → folded true xs ≡ xs
unfolding fold_hex
folded-same [] = refl
folded-same (x ∷ xs) = ap (λ r. x ∷ r) (folded-same xs)

-- With patterns of at most 40 characters and regard to case, an address has the highest score, 1000
-- for each character of both patterns, exactly when `matches_target_eth_ultra` accepts its bytes.
pub score_address-matches_target_eth_ultra :
    (pattern : Pattern) (addr : Address)
    → pattern.prefix_len ≡ length pattern.prefix
    → pattern.suffix_len ≡ length pattern.suffix
    → length pattern.prefix ≤ 40
    → length pattern.suffix ≤ 40
    → (score_address pattern addr true ≡ 1000 * (length pattern.prefix + length pattern.suffix)) ↔ (
        matches_target_eth_ultra
          (address_bytes addr)
          pattern.prefix
          (length pattern.prefix)
          pattern.suffix
          (length pattern.suffix)
        ≡ true)
score_address-matches_target_eth_ultra pattern addr prefix_all suffix_all short_prefix
      short_suffix =
    let (bound, (there, back)) =
      score_address_iff pattern addr true prefix_all suffix_all short_prefix short_suffix in
    let bytes = address_bytes-IsByte addr in
    let (split, join) =
      matches_target_eth_ultra_iff (address_bytes addr) pattern.prefix pattern.suffix bytes
        (length-address_bytes addr) short_prefix short_suffix in
    let same = hex_of-address_to_hex_ultra (address_bytes addr) bytes in
    (
      λ h. join (
          rw
            (
              folded-same pattern.prefix,
              folded-same pattern.suffix,
              folded-same (hex_of (address_bytes addr)),
              same,
            )
            at (there h)),
      λ h. back (
          rw
            (
              folded-same pattern.prefix,
              folded-same pattern.suffix,
              folded-same (hex_of (address_bytes addr)),
              same,
            )
            (split h)),
    )
