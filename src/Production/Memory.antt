-- ===== src/Production/Memory.antt =====
-- The host functions of kernels/eth_vanity_production.cu: the pattern, the tables, the memory of the
-- grid, the launch, the results and the clean-up. `ok k` says whether call number `k` of the CUDA
-- runtime in a function succeeds.
use vanity_generator_evm_svm.Common.{
  ℕ, zero, suc, ◌*◌, ◌/◌, ◌%◌, Bool, true, false, ◌==◌, ltb, if◌then◌else◌, Option, none, some,
  List, [], ◌∷◌, ℤ, pos, negsuc, take,
}
use vanity_generator_evm_svm.Host.{Outcome, going, returned, write_at}
use vanity_generator_evm_svm.Secp.{CurvePoint}
use vanity_generator_evm_svm.Production.Score.{Pattern}
use vanity_generator_evm_svm.Production.Grid.{EthMath, Results, Atomic, apply_all, block_size}
use vanity_generator_evm_svm.Production.Starts.{init_all}

-- The globals of the file, the device's included. `live` holds the allocations in use, and
-- `bad_frees` counts the calls of `cudaFree` on anything else.
pub record Grid : Type 0 where
  pub d_block_offsets : Option ℕ
  pub d_offsets : Option ℕ
  pub live : List ℕ
  pub following : ℕ
  pub bad_frees : ℕ
  pub block_offsets : List CurvePoint
  pub offsets : List CurvePoint
  pub thread_offsets : List CurvePoint
  pub addends : List CurvePoint
  pub pattern : Pattern
  pub results : Results

abbrev pub Steps {ℓ} : Type ℓ → Type ℓ
Steps A = Grid → Outcome A × Grid

infixl 5 ◌>>=◌ ◌>>◌
abbrev pub ◌>>=◌ {ℓ κ} : {A : Type ℓ} {B : Type κ} → Steps A → (A → Steps B) → Steps B
◌>>=◌ m f w = let (o, w') = m w in elim o [ going a ↦ f a w' | returned c ↦ (returned c, w') ]

abbrev pub ◌>>◌ {ℓ} : {B : Type ℓ} → Steps (Unit {0}) → Steps B → Steps B
m >> k = m >>= λ _. k

abbrev pub give {ℓ} : {A : Type ℓ} → A → Steps A
give a w = (going a, w)

-- A call that is checked at once.
abbrev pub attempt : Bool → ℤ → (Grid → Grid) → Steps (Unit {0})
attempt done_well code effect w = if done_well then (going tt, effect w) else (returned code, w)

abbrev pub same : Grid → Grid
same w = w

unfoldable pub is_live : ℕ → List ℕ → Bool
is_live q [] = false
is_live q (r ∷ live) = let rest = is_live q live in if q == r then true else rest

unfoldable pub without : ℕ → List ℕ → List ℕ
without q [] = []
without q (r ∷ live) = let rest = without q live in if q == r then live else r ∷ rest

-- `cudaFree`
unfoldable pub cuda_free : ℕ → Grid → Grid
cuda_free q w =
    if is_live q w.live
    then record w { live = without q w.live }
    else record w { bad_frees = suc w.bad_frees }

-- `cudaMalloc` where it succeeds: a new allocation.
unfoldable pub malloc_blocks : Grid → Grid
malloc_blocks w = record w {
  d_block_offsets = some w.following;
  live = w.following ∷ w.live;
  following = suc w.following;
}

unfoldable pub malloc_offsets : Grid → Grid
malloc_offsets w = record w {
  d_offsets = some w.following;
  live = w.following ∷ w.live;
  following = suc w.following;
}

abbrev pub free_pointer : Option ℕ → Grid → Grid
free_pointer none w = w
free_pointer (some q) w = cuda_free q w

-- The second allocation, with what follows its failure.
unfoldable pub allocate_offsets : Bool → Steps (Unit {0})
allocate_offsets done_well w =
    if done_well
    then (going tt, malloc_offsets w)
    else (returned (negsuc 1), free_pointer w.d_block_offsets w)

unfoldable pub eth_gpu_allocate_memory : (ℕ → Bool) → Steps ℤ
eth_gpu_allocate_memory ok = do
  attempt (ok 0) (negsuc 0) malloc_blocks
  allocate_offsets (ok 1)
  attempt (ok 2) (negsuc 2) (λ w. record w { results = record w.results { found_count = 0 } })
  attempt (ok 3) (negsuc 3) (λ w. record w { results = record w.results { max_score = 0 } })
  attempt (ok 4) (negsuc 4) (λ w. record w { results = record w.results { done = 0 } })
  give (pos 0)

unfoldable pub eth_gpu_cleanup : Grid → Grid
eth_gpu_cleanup w =
    let freed = free_pointer w.d_block_offsets w in
    let first : Grid = record freed { d_block_offsets = none } in
    let freed' = free_pointer first.d_offsets first in record freed' { d_offsets = none }

-- The upload of a pattern, where there is one.
abbrev pub upload_pattern :
    Option (List ℕ) → ℕ → Bool → ℤ → (List ℕ → Grid → Grid) → Steps (Unit {0})
upload_pattern none len done_well code store = give tt
upload_pattern (some chars) len done_well code store =
    if ltb 0 len then attempt done_well code (store (take len chars)) else give tt

unfoldable pub eth_gpu_set_pattern :
    (ℕ → Bool) → Option (List ℕ) → ℕ → Option (List ℕ) → ℕ → Bool → Steps ℤ
eth_gpu_set_pattern ok prefix prefix_len suffix suffix_len case_sensitive = do
  upload_pattern prefix prefix_len (ok 0) (negsuc 0) (λ chars w. record w {
    pattern = record w.pattern { prefix = write_at 0 chars w.pattern.prefix };
  })
  upload_pattern suffix suffix_len (ok 1) (negsuc 1) (λ chars w. record w {
    pattern = record w.pattern { suffix = write_at 0 chars w.pattern.suffix };
  })
  attempt (ok 2) (negsuc 2)
      (λ w. record w { pattern = record w.pattern { prefix_len = prefix_len } })
  attempt (ok 3) (negsuc 3)
      (λ w. record w { pattern = record w.pattern { suffix_len = suffix_len } })
  attempt (ok 4) (negsuc 4)
      (λ w. record w { pattern = record w.pattern { case_sensitive = case_sensitive } })
  give (pos 0)

unfoldable pub eth_gpu_init_tables : (ℕ → Bool) → List CurvePoint → List CurvePoint → Steps ℤ
eth_gpu_init_tables ok addends_host thread_offsets_host = do
  attempt (ok 0) (negsuc 0) (λ w. record w { addends = addends_host })
  attempt (ok 1) (negsuc 1) (λ w. record w { thread_offsets = thread_offsets_host })
  give (pos 0)

-- `[0, …, n - 1]`
unfoldable pub up_to : ℕ → List ℕ
up_to zero = []
up_to (suc n) = n ∷ up_to n

-- The launch; `atomics` is the order that the atomics of the second kernel are taken in.
unfoldable pub eth_gpu_launch_kernels :
    (ℕ → Bool) → EthMath → List CurvePoint → ℕ → List Atomic → Steps ℤ
eth_gpu_launch_kernels ok math block_offsets_host grid_size atomics = do
  attempt (ok 0) (negsuc 0) (λ w. record w { block_offsets = block_offsets_host })
  attempt (grid_size % block_size == 0) (negsuc 0) same
  attempt (ok 1) (negsuc 1) (λ w. record w {
    offsets =
        init_all math w.thread_offsets w.block_offsets (up_to (grid_size / block_size * block_size))
          w.offsets;
  })
  attempt (ok 2) (negsuc 2) same
  attempt (ok 3) (negsuc 3) (λ w. record w { results = apply_all atomics w.results })
  attempt (ok 4) (negsuc 4) same
  give (pos 0)

-- The copies of the results: the count, the score, the key and the address, as far as they are made.
pub record Copied : Type 0 where
  pub found_count : Option ℕ
  pub max_score : Option ℕ
  pub found_key : Option (List ℕ)
  pub found_address : Option (List ℕ)

abbrev pub nothing_copied : Copied
nothing_copied = record {
  found_count = none;
  max_score = none;
  found_key = none;
  found_address = none;
}

unfoldable pub eth_gpu_get_results : (ℕ → Bool) → Results → ℤ × Copied
eth_gpu_get_results ok r =
    let one : Copied = record nothing_copied { found_count = some r.found_count } in
    let two : Copied = record one { max_score = some r.max_score } in
    let three : Copied = record two { found_key = some r.found_key } in
    let four : Copied = record three { found_address = some r.found_address } in
    if ok 0
    then (if ok 1
        then (if ok 2 then (if ok 3 then (pos 0, four) else (negsuc 3, three)) else (negsuc 2, two))
        else (negsuc 1, one))
    else (negsuc 0, nothing_copied)
