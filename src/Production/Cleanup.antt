-- ===== src/Production/Cleanup.antt =====
-- `eth_gpu_allocate_memory` followed by `eth_gpu_cleanup` (kernels/eth_vanity_production.cu).
use vanity_generator_evm_svm.Common.{
  ℕ, suc, ◌+◌, ◌<◌, ◌≡◌, refl, ◌∙◌, arith, Bool, true, false, ◌==◌, none, some, List, [], ◌∷◌, All,
  Bool-cases, inl, inr, ==_refl,
}
use vanity_generator_evm_svm.Production.Memory.{
  Grid, is_live, without, cuda_free, malloc_blocks, malloc_offsets, allocate_offsets,
  eth_gpu_allocate_memory, eth_gpu_cleanup,
}

is_live-first : (q : ℕ) (live : List ℕ) → is_live q (q ∷ live) ≡ true
unfolding is_live
is_live-first q live = rw (==_refl q) refl

without-first : (q : ℕ) (live : List ℕ) → without q (q ∷ live) ≡ live
unfolding without
without-first q live = rw (==_refl q) refl

-- Behind a newer allocation.
is_live-second : (q r : ℕ) (live : List ℕ) → q < r → is_live q (r ∷ (q ∷ live)) ≡ true
unfolding is_live
is_live-second q r live lt =
    let other : (q == r) ≡ false = ground (arith, lt) in rw (other, ==_refl q) refl

without-second : (q r : ℕ) (live : List ℕ) → q < r → without q (r ∷ (q ∷ live)) ≡ r ∷ live
unfolding without
without-second q r live lt =
    let other : (q == r) ≡ false = ground (arith, lt) in rw (other, ==_refl q) refl

is_live-new : (q : ℕ) (live : List ℕ) → All (λ r. r < q) live → is_live q live ≡ false
unfolding is_live
is_live-new q [] all = refl
is_live-new q (r ∷ live) (lt, all) =
    let other : (q == r) ≡ false = ground (arith, lt) in rw (other, is_live-new q live all) refl

-- What a clean-up leaves.
pub record IsCleaned (live : List ℕ) (bad : ℕ) (w : Grid) : Type 0 where
  pub freed : w.live ≡ live
  pub counted : w.bad_frees ≡ bad
  pub no_blocks : w.d_block_offsets ≡ none
  pub no_offsets : w.d_offsets ≡ none

freed_none :
    (w : Grid)
    → w.d_block_offsets ≡ none
    → w.d_offsets ≡ none
    → IsCleaned w.live w.bad_frees (eth_gpu_cleanup w)
unfolding eth_gpu_cleanup
freed_none w eb eo =
    rw (eb, eo) (record { freed = refl; counted = refl; no_blocks = refl; no_offsets = refl })

freed_both :
    (w : Grid) (q r : ℕ) (live : List ℕ)
    → w.d_block_offsets ≡ some q
    → w.d_offsets ≡ some r
    → w.live ≡ r ∷ (q ∷ live)
    → q < r
    → IsCleaned live w.bad_frees (eth_gpu_cleanup w)
unfolding eth_gpu_cleanup cuda_free
freed_both w q r live eb eo el lt =
    let there = is_live-second q r live lt in
    let left = without-second q r live lt in
    rw (eb, eo, el, there, left, is_live-first r live, without-first r live)
      (record { freed = refl; counted = refl; no_blocks = refl; no_offsets = refl })

dangling :
    (w : Grid) (q : ℕ)
    → w.d_block_offsets ≡ some q
    → w.d_offsets ≡ none
    → is_live q w.live ≡ false
    → IsCleaned w.live (suc w.bad_frees) (eth_gpu_cleanup w)
unfolding eth_gpu_cleanup cuda_free
dangling w q eb eo gone =
    rw (eb, gone, eo) (record { freed = refl; counted = refl; no_blocks = refl; no_offsets = refl })

-- How far an allocation comes, by its two calls of `cudaMalloc`.
abbrev pub double_frees : Bool → Bool → ℕ
double_frees true false = 1
double_frees _ _ = 0

-- The memory after an allocation that comes as far as both, or that stops at the second.
both_allocated :
    (w : Grid) (rest : Grid)
    → rest.d_block_offsets ≡ some w.following
    → rest.d_offsets ≡ some (suc w.following)
    → rest.live ≡ suc w.following ∷ (w.following ∷ w.live)
    → rest.bad_frees ≡ w.bad_frees
    → IsCleaned w.live w.bad_frees (eth_gpu_cleanup rest)
both_allocated w rest eb eo el e =
    let cleaned = freed_both rest w.following (suc w.following) w.live eb eo el (omega arith) in
    record {
      freed = cleaned.freed;
      counted = cleaned.counted ∙ e;
      no_blocks = cleaned.no_blocks;
      no_offsets = cleaned.no_offsets;
    }

plain : {live : List ℕ} {bad : ℕ} {w : Grid} → IsCleaned live bad w → IsCleaned live (bad + 0) w
plain c = record {
  freed = c.freed;
  counted = c.counted ∙ omega arith;
  no_blocks = c.no_blocks;
  no_offsets = c.no_offsets;
}

-- The second call of `cudaMalloc` fails.
half_allocated :
    (w : Grid)
    → w.d_offsets ≡ none
    → All (λ q. q < w.following) w.live
    → IsCleaned w.live (w.bad_frees + 1) (eth_gpu_cleanup (cuda_free w.following (malloc_blocks w)))
half_allocated w eo fresh =
    let there = is_live-first w.following w.live in
    let left = without-first w.following w.live in
    let state : cuda_free w.following (malloc_blocks w)
        ≡ record (malloc_blocks w) { live = w.live } =
      unfold cuda_free malloc_blocks in rw (there, left) refl in
    let cleaned : IsCleaned w.live (suc w.bad_frees)
        (eth_gpu_cleanup (record (malloc_blocks w) { live = w.live })) =
      unfold malloc_blocks in
      dangling (record (malloc_blocks w) { live = w.live }) w.following refl eo
        (is_live-new w.following w.live fresh) in
    rw state (record {
      freed = cleaned.freed;
      counted = cleaned.counted ∙ omega arith;
      no_blocks = cleaned.no_blocks;
      no_offsets = cleaned.no_offsets;
    })

-- From null pointers, a clean-up behind an allocation, however that ends, frees all memory that the
-- allocation took and leaves null pointers. Exactly when the second call of `cudaMalloc` fails after
-- the first, it frees an allocation that is freed already.
pub eth_gpu_cleanup-allocate :
    (ok : ℕ → Bool) (w : Grid)
    → w.d_block_offsets ≡ none
    → w.d_offsets ≡ none
    → All (λ q. q < w.following) w.live
    → IsCleaned w.live
        (w.bad_frees + double_frees (ok 0) (ok 1))
        (eth_gpu_cleanup (eth_gpu_allocate_memory ok w).1)
unfolding eth_gpu_allocate_memory allocate_offsets malloc_blocks malloc_offsets
eth_gpu_cleanup-allocate ok w eb eo fresh = elim (Bool-cases (ok 0)) [
  | inr e0 ↦ rw e0 (plain (freed_none w eb eo))
  | inl e0 ↦ elim (Bool-cases (ok 1)) [
    | inr e1 ↦ rw (e0, e1) (half_allocated w eo fresh)
    | inl e1 ↦ elim (Bool-cases (ok 2)) [
      | inr e2 ↦ rw (e0, e1, e2) (plain (both_allocated w _ refl refl refl refl))
      | inl e2 ↦ elim (Bool-cases (ok 3)) [
        | inr e3 ↦ rw (e0, e1, e2, e3) (plain (both_allocated w _ refl refl refl refl))
        | inl e3 ↦ elim (Bool-cases (ok 4)) [
          | inr e4 ↦ rw (e0, e1, e2, e3, e4) (plain (both_allocated w _ refl refl refl refl))
          | inl e4 ↦ rw (e0, e1, e2, e3, e4) (plain (both_allocated w _ refl refl refl refl))
        ]
      ]
    ]
  ]
]
