-- ===== src/Match/Sol.antt =====
-- `matches_target_sol_opt` (kernels/sol_vanity_optimized.cu) beside the beginnings and ends of
-- lists.
use vanity_generator_evm_svm.Common.{
  ℕ, ◌+◌, ◌-◌, ◌≤◌, ◌≡◌, refl, ap, ◌∙◌, sym, Bool, true, false, arith,
}
use vanity_generator_evm_svm.Common.{List, map, length, get_or, ◌↔◌}
use vanity_generator_evm_svm.Common.{length-map, get_or-map}
use vanity_generator_evm_svm.Match.{to_lower, fold_case, matches_target_sol_opt, agree}
use vanity_generator_evm_svm.Match.Split.{StartsWith, EndsWith, agree_front, agree_back}
use vanity_generator_evm_svm.Match.Split.{StartsWith-length, EndsWith-length}

fold_case-zero : (ci : Bool) → fold_case ci 0 ≡ 0
unfolding fold_case to_lower
fold_case-zero true = refl
fold_case-zero false = refl

abbrev pub folded : Bool → List ℕ → List ℕ
folded ci = map (fold_case ci)

folded_at :
    (ci : Bool) (xs : List ℕ) (j : ℕ) → fold_case ci (get_or xs j 0) ≡ get_or (folded ci xs) j 0
folded_at ci xs j =
    sym (get_or-map (fold_case ci) xs j 0) ∙ ap (λ d. get_or (folded ci xs) j d) (fold_case-zero ci)

module _ (address target suffix : List ℕ) (ci : Bool) where
  abbrev pub accepts : Bool
  accepts =
      matches_target_sol_opt address (length address) target (length target) suffix (length suffix)
        ci

  abbrev pub front_loop : Bool
  front_loop =
      agree (length target) 0 (λ i. fold_case ci (get_or address i 0))
        (λ i. fold_case ci (get_or target i 0))

  abbrev pub back_loop : Bool
  back_loop =
      agree (length suffix) 0
        (λ i. fold_case ci (get_or address (length address - length suffix + i) 0))
        (λ i. fold_case ci (get_or suffix i 0))

  pub accepts_parts :
      accepts ≡ true
      → (length target ≤ length address)
        × (length suffix ≤ length address)
        × (front_loop ≡ true)
        × (back_loop ≡ true)
  unfolding matches_target_sol_opt
  accepts_parts e = ground arith

  accepts_of_parts :
      length target ≤ length address
      → length suffix ≤ length address
      → front_loop ≡ true
      → back_loop ≡ true
      → accepts ≡ true
  unfolding matches_target_sol_opt
  accepts_of_parts lt ls p s = ground arith

  prefix_iff :
      length target ≤ length address
      → (front_loop ≡ true) ↔ StartsWith (folded ci address) (folded ci target)
  prefix_iff le = rw (length-map (fold_case ci) target) at (
      agree_front (folded ci address) (folded ci target) _ _
        (rw (length-map (fold_case ci) target, length-map (fold_case ci) address) le)
        (λ j lt. (folded_at ci address j, folded_at ci target j)))

  suffix_iff :
      length suffix ≤ length address
      → (back_loop ≡ true) ↔ EndsWith (folded ci address) (folded ci suffix)
  suffix_iff le =
      rw (length-map (fold_case ci) suffix, length-map (fold_case ci) address) at
        (agree_back (folded ci address) (folded ci suffix)
          (λ i.
            fold_case ci
              (get_or address (length (folded ci address) - length (folded ci suffix) + i) 0))
          (λ i. fold_case ci (get_or suffix i 0))
          (rw (length-map (fold_case ci) suffix, length-map (fold_case ci) address) le)
          (λ j lt. (folded_at ci address _, folded_at ci suffix j)))

  -- With the true lengths of its three texts, `matches_target_sol_opt` accepts an address exactly
  -- when it begins with the target and ends with the suffix; with `case_insensitive`, after
  -- capital letters are made small in all three.
  pub matches_target_sol_opt_iff : (accepts ≡ true) ↔ (
      StartsWith (folded ci address) (folded ci target)
      × EndsWith (folded ci address) (folded ci suffix))
  matches_target_sol_opt_iff = (
    λ e. let (lt, ls, p, s) = accepts_parts e in ((prefix_iff lt).0 p, (suffix_iff ls).0 s),
    λ (p, s).
        let lt =
          rw (length-map (fold_case ci) target, length-map (fold_case ci) address) at
            (StartsWith-length (folded ci address) (folded ci target) p) in
        let ls =
          rw (length-map (fold_case ci) suffix, length-map (fold_case ci) address) at
            (EndsWith-length (folded ci address) (folded ci suffix) s) in
        accepts_of_parts lt ls ((prefix_iff lt).1 p) ((suffix_iff ls).1 s),
  )
