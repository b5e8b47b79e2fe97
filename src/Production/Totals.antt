-- ===== src/Production/Totals.antt =====
-- A launch of `gpu_address_work` (kernels/eth_vanity_production.cu): what its threads leave in the
-- result globals.
use vanity_generator_evm_svm.Common.{
  ℕ, zero, suc, ◌+◌, ◌^◌, ◌<◌, ◌≡◌, refl, ap, ◌∙◌, arith, true, ltb, if◌then◌else◌, u64, List, [],
  ◌∷◌, ◌++◌, map, All,
}
use vanity_generator_evm_svm.Secp.{CurvePoint}
use vanity_generator_evm_svm.Production.Score.{Pattern, score_address}
use vanity_generator_evm_svm.Production.Address.{calculate_ethereum_address}
use vanity_generator_evm_svm.Production.Grid.{
  EthMath, Results, Atomic, apply_all, entry, points_of, report_score, report_all, gpu_address_work,
}
use vanity_generator_evm_svm.Production.Inverses.{
  InverseLaws, Apart, sums_down, work_down-sums_down,
}
use vanity_generator_evm_svm.Production.Order.{
  Shuffles, top, additions, top_of_all, additions_of_all, Shuffles-totals, with_totals_path,
  apply_all-totals,
}
use Prim.Native.Nat.{max}

-- The highest of some scores, and the number of those that are not 0.
abbrev pub highest : List ℕ → ℕ
highest [] = 0
highest (s ∷ scores) = max s (highest scores)

abbrev pub hits : List ℕ → ℕ
hits [] = 0
hits (s ∷ scores) = (if ltb 0 s then 1 else 0) + hits scores

module _ (pattern : Pattern) where
  abbrev pub score_of : CurvePoint → ℕ
  score_of s = score_address pattern (calculate_ethereum_address s.x s.y) pattern.case_sensitive

  top-report_score : (s : ℕ) (rest : List Atomic) → top (report_score s ++ rest) ≡ max s (top rest)
  unfolding report_score
  top-report_score zero rest = omega arith
  top-report_score (suc s) rest = let hit : ltb 0 (suc s) ≡ true = ground arith in rw hit refl

  additions-report_score :
      (s : ℕ) (rest : List Atomic)
      → additions (report_score s ++ rest) ≡ (if ltb 0 s then 1 else 0) + additions rest
  unfolding report_score
  additions-report_score zero rest = omega arith
  additions-report_score (suc s) rest =
      let hit : ltb 0 (suc s) ≡ true = ground arith in rw hit (omega arith)

  report_all-totals :
      (points : List CurvePoint)
      → (top (report_all pattern points) ≡ highest (map score_of points))
        × (additions (report_all pattern points) ≡ hits (map score_of points))
  unfolding report_all
  report_all-totals [] = (refl, refl)
  report_all-totals (p ∷ points) =
      let (best, count) = report_all-totals points in
      (
        top-report_score (score_of p) (report_all pattern points) ∙ ap (max (score_of p)) best,
        additions-report_score (score_of p) (report_all pattern points)
            ∙ ap (λ n. (if ltb 0 (score_of p) then 1 else 0) + n) count,
      )

  module _ (math : EthMath) (laws : InverseLaws math) (addends offsets : List CurvePoint) where
    -- The points of a thread: its own, and both signs of its sum with each of the 255 addends, by
    -- additions that invert one by one.
    abbrev pub scored : ℕ → List CurvePoint
    scored t = entry offsets t ∷ sums_down math laws (entry offsets t) addends 254

    abbrev pub scores : ℕ → List ℕ
    scores t = map score_of (scored t)

    -- The same over all threads.
    abbrev pub highest_of : List ℕ → ℕ
    highest_of [] = 0
    highest_of (t ∷ ts) = max (highest (scores t)) (highest_of ts)

    abbrev pub hits_of : List ℕ → ℕ
    hits_of [] = 0
    hits_of (t ∷ ts) = hits (scores t) + hits_of ts

    work-totals :
        (t : ℕ)
        → Apart math laws (entry offsets t) addends 254
        → (top (gpu_address_work math pattern 0 addends offsets t) ≡ highest (scores t))
          × (additions (gpu_address_work math pattern 0 addends offsets t) ≡ hits (scores t))
    unfolding gpu_address_work points_of
    work-totals t apart =
        rw (work_down-sums_down math laws (entry offsets t) addends 254 apart)
          (report_all-totals (scored t))

    threads-totals :
        (ts : List ℕ)
        → All (λ t. Apart math laws (entry offsets t) addends 254) ts
        → (top_of_all (map (gpu_address_work math pattern 0 addends offsets) ts) ≡ highest_of ts)
          × (additions_of_all (map (gpu_address_work math pattern 0 addends offsets) ts)
              ≡ hits_of ts)
    threads-totals [] all = (refl, refl)
    threads-totals (t ∷ ts) (apart, all) =
        let (best, count) = work-totals t apart in
        let (best', count') = threads-totals ts all in
        (omega (arith, best, best'), omega (arith, count, count'))

    -- With no addend on the abscissa of a thread's point, a launch that finds the flag down leaves the
    -- highest score of all points of its threads and counts those with a score, whatever the
    -- interleaving of the atomics; the key, the address and the flag stay as they were.
    pub work_launch-totals :
        (ts : List ℕ) (atomics : List Atomic) (r : Results)
        → All (λ t. Apart math laws (entry offsets t) addends 254) ts
        → Shuffles (map (gpu_address_work math pattern 0 addends offsets) ts) atomics
        → r.found_count < 2 ^ 64
        → apply_all atomics r ≡ record r {
          max_score = max r.max_score (highest_of ts);
          found_count = u64 (r.found_count + hits_of ts);
        }
    work_launch-totals ts atomics r all interleaved lt =
        let (best, count) = threads-totals ts all in
        let (best', count') =
          Shuffles-totals (map (gpu_address_work math pattern 0 addends offsets) ts) atomics
            interleaved in
        apply_all-totals atomics r lt
        ∙ with_totals_path r (ap (max r.max_score) (best' ∙ best))
            (ap (λ n. u64 (r.found_count + n)) (count' ∙ count))
