-- ===== src/Sol/Report.antt =====
-- What `sol_vanity_search_optimized` (kernels/sol_vanity_optimized.cu) reports and passes over.
use vanity_generator_evm_svm.Common.{
  ℕ, zero, suc, ◌<◌, ◌≡◌, refl, ap, ◌∙◌, sym, Bool, none, some, List,
}
use vanity_generator_evm_svm.Base58.Encode.{IsKey}
use vanity_generator_evm_svm.Match.Split.{StartsWith, EndsWith}
use vanity_generator_evm_svm.Match.Sol.{folded, matches_target_sol_opt_iff}
use vanity_generator_evm_svm.Rng.{ChaChaRng, init_rng, next32}
use vanity_generator_evm_svm.Rng.Stream.{after_calls}
use vanity_generator_evm_svm.Search.System.{System, Reach}
use vanity_generator_evm_svm.Search.Invariant.{local_at, NotHit}
use vanity_generator_evm_svm.Search.Results.{AllStopped, report_sound, report_complete}
use vanity_generator_evm_svm.Sol.{
  Ed25519, SolResult, ed25519_create_keypair_device_sol, test_seed, sol_kernel,
}
use vanity_generator_evm_svm.Sol.Candidate.{address_of, result_of, keys_of, test_seed_iff}
use mathlib.Core.Path.{subst}

module _ (ed : Ed25519) (short : (private : List ℕ) → IsKey (ed.scalarmult_base_bytes private))
    (target suffix : List ℕ) (ci : Bool) (key : List ℕ) (n iterations : ℕ) where
  -- The seed that thread `i` draws in iteration `m`.
  abbrev pub seed_at : ℕ → ℕ → List ℕ
  seed_at i m = (next32 (after_calls key i m)).0

  abbrev pub streams : ℕ → ChaChaRng
  streams i = init_rng key i

  -- The patterns as the user means them.
  abbrev pub Wanted : List ℕ → Type 0
  Wanted seed =
      StartsWith (folded ci (address_of ed target suffix ci seed)) (folded ci target)
      × EndsWith (folded ci (address_of ed target suffix ci seed)) (folded ci suffix)

  public_key : (seed : List ℕ) → IsKey (keys_of ed target suffix ci seed).public
  unfolding ed25519_create_keypair_device_sol
  public_key seed = short _

  local_at-after_calls :
      (i m : ℕ)
      → local_at (sol_kernel ed target suffix ci iterations) streams i m ≡ after_calls key i m
  unfolding after_calls
  local_at-after_calls i zero = refl
  local_at-after_calls i (suc m) = ap (λ r. (next32 r).1) (local_at-after_calls i m)

  module _ (s : System (sol_kernel ed target suffix ci iterations))
      (r : Reach (sol_kernel ed target suffix ci iterations) n streams s) where
    -- What a launch reports, whatever the interleaving: a seed that one of its threads draws within
    -- its iterations, the key pair of that seed, and the base-58 text of its public key, which
    -- begins with the target and ends with the suffix, up to case where that is asked for.
    pub sol_report_sound :
        (h : SolResult)
        → s.globals.out ≡ some h
        → (i : ℕ) × (i < n)
          × ((m : ℕ) × (m < iterations)
              × (h ≡ result_of ed target suffix ci (seed_at i m))
              × Wanted h.seed)
    sol_report_sound h e =
        let (i, lt_i, (m, (lt_m, found))) =
          report_sound (sol_kernel ed target suffix ci iterations) streams n s r h e in
        let seed = seed_at i m in
        let (accepted, same) = (test_seed_iff ed target suffix ci seed (public_key seed) h).0 (
          ap (λ g. test_seed ed target suffix ci (next32 g).0) (sym (local_at-after_calls i m))
          ∙ found) in
        (
          i,
          lt_i,
          (
            m,
            lt_m,
            same,
            subst Wanted (ap SolResult.seed (sym same)) (
                (matches_target_sol_opt_iff (address_of ed target suffix ci seed) target suffix
                    ci).0
                  accepted),
          ),
        )

    -- Once all threads have returned with nothing reported, no seed that the launch is to try is
    -- wanted.
    pub sol_report_complete :
        AllStopped (sol_kernel ed target suffix ci iterations) streams n s r
        → s.globals.out ≡ none
        → (i m : ℕ) → i < n
        → m < iterations
        → ¬ Wanted (seed_at i m)
    sol_report_complete all e i m lt_i lt_m wanted =
        let seed = seed_at i m in
        let accepted =
          (matches_target_sol_opt_iff (address_of ed target suffix ci seed) target suffix ci).1
            wanted in
        let quiet =
          subst (λ g. NotHit (test_seed ed target suffix ci (next32 g).0))
            (local_at-after_calls i m)
            (report_complete (sol_kernel ed target suffix ci iterations) streams n s r all e i lt_i
              m lt_m) in
        subst NotHit
          ((test_seed_iff ed target suffix ci seed (public_key seed)
              (result_of ed target suffix ci seed)).1
            (accepted, refl))
          quiet
