-- ===== src/Production/Order.antt =====
-- The atomics of `gpu_address_work` (kernels/eth_vanity_production.cu) in any order of the threads.
use vanity_generator_evm_svm.Common.{
  ℕ, suc, ◌+◌, ◌^◌, ◌<◌, ◌≡◌, refl, ap, ◌∙◌, arith, ltb, if◌then◌else◌, u64, List, [], ◌∷◌,
}
use vanity_generator_evm_svm.Production.Grid.{
  Results, Atomic, atomic_max, atomic_add, apply, apply_all,
}
use Prim.Native.Nat.{max}

-- An interleaving of two sequences, each in its order.
pub data Shuffle {ℓ} {A : Type ℓ} : List A → List A → List A → Type ℓ where
  ended : Shuffle [] [] []
  left : {x : A} {xs ys zs : List A} → Shuffle xs ys zs → Shuffle (x ∷ xs) ys (x ∷ zs)
  right : {y : A} {xs ys zs : List A} → Shuffle xs ys zs → Shuffle xs (y ∷ ys) (y ∷ zs)

-- An interleaving of any number of sequences.
abbrev pub Shuffles {ℓ} : {A : Type ℓ} → List (List A) → List A → Type ℓ
Shuffles {A = A} [] zs = zs ≡ []
Shuffles {A = A} (xs ∷ xss) zs = (rest : List A) × Shuffles xss rest × Shuffle xs rest zs

-- The highest score among some atomics, and the number of their additions.
abbrev pub top : List Atomic → ℕ
top [] = 0
top (atomic_max score ∷ rest) = max score (top rest)
top (atomic_add ∷ rest) = top rest

abbrev pub additions : List Atomic → ℕ
additions [] = 0
additions (atomic_max score ∷ rest) = additions rest
additions (atomic_add ∷ rest) = suc (additions rest)

top-Shuffle : {xs ys zs : List Atomic} → Shuffle xs ys zs → top zs ≡ max (top xs) (top ys)
top-Shuffle ended = refl
top-Shuffle (left {x = atomic_max s} h) = omega (arith, top-Shuffle h)
top-Shuffle (left {x = atomic_add} h) = top-Shuffle h
top-Shuffle (right {y = atomic_max s} h) = omega (arith, top-Shuffle h)
top-Shuffle (right {y = atomic_add} h) = top-Shuffle h

additions-Shuffle :
    {xs ys zs : List Atomic} → Shuffle xs ys zs → additions zs ≡ additions xs + additions ys
additions-Shuffle ended = refl
additions-Shuffle (left {x = atomic_max s} h) = additions-Shuffle h
additions-Shuffle (left {x = atomic_add} h) = omega (arith, additions-Shuffle h)
additions-Shuffle (right {y = atomic_max s} h) = additions-Shuffle h
additions-Shuffle (right {y = atomic_add} h) = omega (arith, additions-Shuffle h)

-- The same over all threads.
abbrev pub top_of_all : List (List Atomic) → ℕ
top_of_all [] = 0
top_of_all (xs ∷ xss) = max (top xs) (top_of_all xss)

abbrev pub additions_of_all : List (List Atomic) → ℕ
additions_of_all [] = 0
additions_of_all (xs ∷ xss) = additions xs + additions_of_all xss

pub Shuffles-totals :
    (xss : List (List Atomic)) (zs : List Atomic)
    → Shuffles xss zs
    → (top zs ≡ top_of_all xss) × (additions zs ≡ additions_of_all xss)
Shuffles-totals [] zs e = (ap top e, ap additions e)
Shuffles-totals (xs ∷ xss) zs (rest, h, s) =
    let (same_top, same_additions) = Shuffles-totals xss rest h in
    (
      top-Shuffle s ∙ ap (max (top xs)) same_top,
      additions-Shuffle s ∙ ap (λ n. additions xs + n) same_additions,
    )

abbrev pub with_totals : Results → ℕ → ℕ → Results
with_totals r best count = record r { max_score = best; found_count = count }

pub with_totals_path :
    (r : Results) {best best' count count' : ℕ}
    → best ≡ best'
    → count ≡ count'
    → with_totals r best count ≡ with_totals r best' count'
with_totals_path r p e = λ i. with_totals r (p i) (e i)

-- A sequence of atomics leaves the highest score and counts its additions; nothing else changes.
pub apply_all-totals :
    (atomics : List Atomic) (r : Results)
    → r.found_count < 2 ^ 64
    → apply_all atomics r
      ≡ with_totals r (max r.max_score (top atomics)) (u64 (r.found_count + additions atomics))
unfolding apply_all apply
apply_all-totals [] r lt = with_totals_path r (omega arith) (omega (arith, lt))
apply_all-totals (atomic_max s ∷ rest) r lt =
    let best : (if ltb r.max_score s then s else r.max_score) ≡ max r.max_score s = ground arith in
    apply_all-totals rest
      (with_totals r (if ltb r.max_score s then s else r.max_score) r.found_count) lt
    ∙ with_totals_path r (omega (arith, best)) refl
apply_all-totals (atomic_add ∷ rest) r lt =
    apply_all-totals rest (with_totals r r.max_score (u64 (r.found_count + 1))) (omega arith)
    ∙ with_totals_path r refl (omega arith)
