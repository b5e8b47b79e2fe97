-- ===== src/Match/Split.antt =====
-- The comparison loops as statements about lists.
use vanity_generator_evm_svm.Common.{
  ℕ, zero, suc, ◌+◌, ◌-◌, ◌≤◌, ◌<◌, ◌≡◌, refl, ap, ◌∙◌, sym, true, arith, ◌↔◌,
}
use vanity_generator_evm_svm.Common.{List, [], ◌∷◌, ◌++◌, length, get_or, take, drop}
use vanity_generator_evm_svm.Common.{get_or-append_left, get_or-append_right, length-append}
use vanity_generator_evm_svm.Match.{agree}
use mathlib.Core.Path.{ap₂}
use native.Mathlib.Nat.{zero-add, suc-add}
use native.Mathlib.Decide.{ℕ_discrete}

pub agree→eq :
    (n i : ℕ) (f g : ℕ → ℕ) (j : ℕ) → agree n i f g ≡ true → i ≤ j → j < i + n → f j ≡ g j
unfolding agree
agree→eq zero i f g j e le lt = absurd (omega arith)
agree→eq (suc n) i f g j e le lt = elim (ℕ_discrete i j) [
  | yes here ↦ rw (← here) (ground arith)
  | no later ↦ agree→eq n (i + 1) f g j (ground arith) (omega arith) (omega arith)
]

pub eq→agree :
    (n i : ℕ) (f g : ℕ → ℕ) → ((j : ℕ) → i ≤ j → j < i + n → f j ≡ g j) → agree n i f g ≡ true
unfolding agree
eq→agree zero i f g h = refl
eq→agree (suc n) i f g h = ground (
  arith,
  h i (omega arith) (omega arith),
  eq→agree n (i + 1) f g (λ j le lt. h j (omega arith) (omega arith)),
)

-- A list that agrees with `ts` in its first places begins with `ts`.
pub prefix_split :
    (xs ts : List ℕ)
    → length ts ≤ length xs
    → ((j : ℕ) → j < length ts → get_or xs j 0 ≡ get_or ts j 0)
    → xs ≡ ts ++ drop (length ts) xs
prefix_split xs [] le h = refl
prefix_split [] (t ∷ ts) le h = absurd (omega arith)
prefix_split (x ∷ xs) (t ∷ ts) le h =
    ap₂ ◌∷◌ (h 0 (omega arith)) (prefix_split xs ts (omega arith) (λ j lt. h (suc j) (omega arith)))

tail_split :
    (k : ℕ) (xs ts : List ℕ)
    → length xs ≡ k + length ts
    → ((j : ℕ) → j < length ts → get_or xs (k + j) 0 ≡ get_or ts j 0)
    → xs ≡ take k xs ++ ts
tail_split zero [] [] e h = refl
tail_split zero [] (t ∷ ts) e h = absurd (omega arith)
tail_split zero (x ∷ xs) [] e h = absurd (omega arith)
tail_split zero (x ∷ xs) (t ∷ ts) e h = ap₂ ◌∷◌ (h 0 (omega arith)) (
    tail_split zero xs ts (omega arith)
      (λ j lt. rw zero-add (rw zero-add at (h (suc j) (omega arith)))))
tail_split (suc k) [] ts e h = absurd (omega arith)
tail_split (suc k) (x ∷ xs) ts e h =
    ap (λ r. x ∷ r) (tail_split k xs ts (omega arith) (λ j lt. rw suc-add at (h j lt)))

-- So for the last places.
pub suffix_split :
    (xs ts : List ℕ)
    → length ts ≤ length xs
    → ((j : ℕ) → j < length ts → get_or xs (length xs - length ts + j) 0 ≡ get_or ts j 0)
    → xs ≡ take (length xs - length ts) xs ++ ts
suffix_split xs ts le h = tail_split (length xs - length ts) xs ts (omega arith) h

-- The converses.
pub prefix_agree :
    (xs ts rest : List ℕ) (j : ℕ) → xs ≡ ts ++ rest → j < length ts → get_or xs j 0 ≡ get_or ts j 0
prefix_agree xs ts rest j e lt = rw e (get_or-append_left ts rest j 0 lt)

pub suffix_agree :
    (xs front ts : List ℕ) (j : ℕ)
    → xs ≡ front ++ ts
    → get_or xs (length xs - length ts + j) 0 ≡ get_or ts j 0
suffix_agree xs front ts j e =
    let at_front : length xs - length ts ≡ length front =
      omega (arith, ap length e, length-append front ts) in
    rw at_front (rw e (get_or-append_right front ts j 0))

-- `xs` begins with `ts`, and ends with `ts`.
abbrev pub StartsWith : List ℕ → List ℕ → Type 0
StartsWith xs ts = (rest : List ℕ) × (xs ≡ ts ++ rest)

abbrev pub EndsWith : List ℕ → List ℕ → Type 0
EndsWith xs ts = (front : List ℕ) × (xs ≡ front ++ ts)

pub StartsWith-length : (xs ts : List ℕ) → StartsWith xs ts → length ts ≤ length xs
StartsWith-length xs ts (rest, e) = omega (arith, ap length e, length-append ts rest)

pub EndsWith-length : (xs ts : List ℕ) → EndsWith xs ts → length ts ≤ length xs
EndsWith-length xs ts (front, e) = omega (arith, ap length e, length-append front ts)

-- A loop over the places of `ts` at the front of `xs`, and at its back.
pub agree_front :
    (xs ts : List ℕ) (f g : ℕ → ℕ)
    → length ts ≤ length xs
    → ((j : ℕ) → j < length ts → (f j ≡ get_or xs j 0) × (g j ≡ get_or ts j 0))
    → (agree (length ts) 0 f g ≡ true) ↔ StartsWith xs ts
agree_front xs ts f g le look = (
  λ e. (
    drop (length ts) xs,
    prefix_split xs ts le (λ j lt.
        let (p, q) = look j lt in
        sym p ∙ agree→eq (length ts) 0 f g j e (omega arith) (omega arith) ∙ q),
  ),
  λ (rest, e). eq→agree (length ts) 0 f g (λ j le' lt.
      let (p, q) = look j (omega arith) in p ∙ prefix_agree xs ts rest j e (omega arith) ∙ sym q),
)

pub agree_back :
    (xs ts : List ℕ) (f g : ℕ → ℕ)
    → length ts ≤ length xs
    → ((j : ℕ)
        → j < length ts
        → (f j ≡ get_or xs (length xs - length ts + j) 0) × (g j ≡ get_or ts j 0))
    → (agree (length ts) 0 f g ≡ true) ↔ EndsWith xs ts
agree_back xs ts f g le look = (
  λ e. (
    take (length xs - length ts) xs,
    suffix_split xs ts le (λ j lt.
        let (p, q) = look j lt in
        sym p ∙ agree→eq (length ts) 0 f g j e (omega arith) (omega arith) ∙ q),
  ),
  λ (front, e).
      eq→agree (length ts) 0 f g
        (λ j le' lt. let (p, q) = look j (omega arith) in p ∙ suffix_agree xs front ts j e ∙ sym q),
)
