-- ===== src/Eth/Report.antt =====
-- What `eth_vanity_search_ultra` (kernels/eth_vanity_ultra.cu) reports and passes over.
use vanity_generator_evm_svm.Common.{
  ℕ, zero, suc, ◌+◌, ◌^◌, ◌≤◌, ◌<◌, ◌≡◌, refl, arith, ap, ◌∙◌, sym, ◌↔◌,
}
use vanity_generator_evm_svm.Common.{List, length, Bool, true, none, some, Bool-cases, inl, inr}
use mathlib.Core.Path.{subst}
use vanity_generator_evm_svm.Base58.Digits.{value_from}
use vanity_generator_evm_svm.Base58.Encode.{IsKey}
use vanity_generator_evm_svm.Match.{matches_target_eth_ultra, address_to_hex_ultra}
use vanity_generator_evm_svm.Match.Split.{StartsWith, EndsWith}
use vanity_generator_evm_svm.Match.Eth.{matches_target_eth_ultra_iff}
use vanity_generator_evm_svm.Rng.{init_rng}
use vanity_generator_evm_svm.Search.{missed, hit}
use vanity_generator_evm_svm.Search.System.{System, Reach}
use vanity_generator_evm_svm.Search.Invariant.{local_at, NotHit}
use vanity_generator_evm_svm.Search.Results.{AllStopped, report_sound, report_complete}
use vanity_generator_evm_svm.Eth.{
  Curve, Walker, EthResult, first_walker, draw, address_of, test_eth, advance_eth, eth_kernel,
}
use vanity_generator_evm_svm.Eth.Draw.{draw-bounds}
use vanity_generator_evm_svm.Eth.Walk.{
  CurveLaws, OnWalk, walker_at, walker_at-OnWalk, successor, successor-value, successor-IsKey,
}

module _ (curve : Curve) (laws : CurveLaws curve) (target suffix : List ℕ)
    (short_target : length target ≤ 40) (short_suffix : length suffix ≤ 40) where
  open curve use {get_public_key}

  -- The text of the address that a private key owns.
  abbrev pub address_text : List ℕ → List ℕ
  address_text private = address_to_hex_ultra (address_of curve (get_public_key private))

  -- The patterns as the user means them.
  abbrev pub Wanted : List ℕ → Type 0
  Wanted private = StartsWith (address_text private) target × EndsWith (address_text private) suffix

  matches_public : List ℕ → Bool
  matches_public public =
      matches_target_eth_ultra (address_of curve public) target (length target) suffix
        (length suffix)

  matches_iff :
      (private : List ℕ) → (matches_public (get_public_key private) ≡ true) ↔ Wanted private
  matches_iff private =
      unfold matches_public in
      matches_target_eth_ultra_iff (address_of curve (get_public_key private)) target suffix
        (unfold address_of in laws.address_bytes _ _) (unfold address_of in laws.address_length _ _)
        short_target short_suffix

  test_hit :
      (w : Walker) (h : EthResult)
      → test_eth curve target suffix w ≡ hit h
      → (matches_public w.public ≡ true)
        × (h.private ≡ w.private)
        × (h.public ≡ w.public)
        × (h.address_hex ≡ address_to_hex_ultra (address_of curve w.public))
  unfolding test_eth matches_public
  test_hit w h e = elim (Bool-cases (matches_public w.public)) [
    | inl found ↦ let same : hit _ ≡ hit h = rw found at e in (found, cc, cc, cc)
    | inr lost ↦ let never : missed ≡ hit h = rw lost at e in cc
  ]

  test_missed :
      (w : Walker) → NotHit (test_eth curve target suffix w) → matches_public w.public ≡ true → ⊥
  unfolding test_eth matches_public
  test_missed w e found = rw found at e

  module _ (seed : List ℕ) (fuel n iterations : ℕ) (starts : ℕ → List ℕ)
      (drawn : (i : ℕ) → i < n → draw fuel (init_rng seed i) ≡ some (starts i))
      (fits : iterations < 2 ^ 64) where
    -- The local states that the threads of the launch start from.
    abbrev pub first_walkers : ℕ → Walker
    first_walkers i = first_walker curve (starts i)

    local_at-walker_at :
        (i m : ℕ)
        → local_at (eth_kernel curve target suffix iterations) first_walkers i m
          ≡ walker_at curve laws (starts i) m
    local_at-walker_at i zero = refl
    local_at-walker_at i (suc m) = ap (advance_eth curve) (local_at-walker_at i m)

    on_walk :
        (i m : ℕ)
        → i < n
        → m < iterations
        → OnWalk curve laws (starts i) m (walker_at curve laws (starts i) m)
    on_walk i m lt_i lt_m =
        let (is_key, positive, below) =
          draw-bounds fuel (init_rng seed i) (starts i) (drawn i lt_i) in
        walker_at-OnWalk curve laws (starts i) m is_key positive (omega (arith, below, fits, lt_m))

    key_of_value :
        (i m : ℕ)
        → i < n
        → m < iterations
        → value_from 256 0 (successor m (starts i)) ≡ value_from 256 0 (starts i) + m
    key_of_value i m lt_i lt_m =
        let (is_key, positive, below) =
          draw-bounds fuel (init_rng seed i) (starts i) (drawn i lt_i) in
        successor-value m (starts i) is_key (omega (arith, below, fits, lt_m))

    key_IsKey : (i m : ℕ) → i < n → IsKey (successor m (starts i))
    key_IsKey i m lt_i =
        successor-IsKey m (starts i)
          (draw-bounds fuel (init_rng seed i) (starts i) (drawn i lt_i)).0

    module _ (s : System (eth_kernel curve target suffix iterations))
        (r : Reach (eth_kernel curve target suffix iterations) n first_walkers s) where
      -- What a launch reports, whatever the interleaving: a private key that is the drawn key of one
      -- of its threads plus a number of iterations, of 32 bytes, its public key, and the text of its address,
      -- which begins with the target and ends with the suffix. For threads whose key is drawn within
      -- the fuel, patterns of at most 40 characters, and less than 2 ^ 64 iterations per thread.
      pub eth_report_sound :
          (h : EthResult)
          → s.globals.out ≡ some h
          → (i : ℕ) × (i < n)
            × ((m : ℕ) × (m < iterations)
                × IsKey h.private
                × (value_from 256 0 h.private ≡ value_from 256 0 (starts i) + m)
                × (h.public ≡ get_public_key h.private)
                × (h.address_hex ≡ address_text h.private)
                × Wanted h.private)
      eth_report_sound h e =
          let (i, lt_i, (m, (lt_m, found))) =
            report_sound (eth_kernel curve target suffix iterations) first_walkers n s r h e in
          let (accepted, private, public, hex) =
            test_hit (walker_at curve laws (starts i) m) h
              (ap (test_eth curve target suffix) (sym (local_at-walker_at i m)) ∙ found) in
          let on = on_walk i m lt_i lt_m in
          let key : h.private ≡ successor m (starts i) = private ∙ on.at_private in
          let own : h.public ≡ get_public_key h.private =
            public ∙ on.at_public ∙ ap get_public_key (sym key) in
          (
            i,
            lt_i,
            (
              m,
              lt_m,
              subst IsKey (sym key) (key_IsKey i m lt_i),
              ap (value_from 256 0) key ∙ key_of_value i m lt_i lt_m,
              own,
              hex ∙ ap (λ t. address_to_hex_ultra (address_of curve t)) (sym public ∙ own),
              (matches_iff h.private).0 (ap matches_public (sym own ∙ public) ∙ accepted),
            ),
          )

      -- Once all threads have returned with nothing reported, none of the keys that the launch is to
      -- try is wanted: not the drawn key of a thread, nor any that follows it within the iterations.
      pub eth_report_complete :
          AllStopped (eth_kernel curve target suffix iterations) first_walkers n s r
          → s.globals.out ≡ none
          → (i m : ℕ) → i < n
          → m < iterations
          → ¬ Wanted (successor m (starts i))
      eth_report_complete all e i m lt_i lt_m wanted =
          test_missed (walker_at curve laws (starts i) m)
            (subst (λ w. NotHit (test_eth curve target suffix w)) (local_at-walker_at i m)
              (report_complete (eth_kernel curve target suffix iterations) first_walkers n s r all e
                i lt_i m lt_m))
            (ap matches_public (on_walk i m lt_i lt_m).at_public
              ∙ (matches_iff (successor m (starts i))).1 wanted)
