-- ===== src/Host/Served.antt =====
-- What a round of kernels/sol_vanity_optimized.cu or of kernels/eth_vanity_ultra.cu that returns 0
-- has done, and what lies at `out`.
use vanity_generator_evm_svm.Common.{ℕ, ◌+◌, ◌^◌, ◌<◌, ◌≤◌, ◌≡◌, refl, ap, ◌∙◌, arith, true}
use vanity_generator_evm_svm.Common.{
  List, [], ◌∷◌, ◌++◌, length, take, drop, replicate, All, ℤ, pos, inl, inr, length-take,
  length-drop,
}
use vanity_generator_evm_svm.Host.{Runtime, Device, Symbols, World, write_at, le_bytes}
use vanity_generator_evm_svm.Host.Rounds.{Request, out_offset}
use vanity_generator_evm_svm.Host.{Outcome, going, returned, valid_id, is_success, Call}
use vanity_generator_evm_svm.Host.Hoare.{After}
use vanity_generator_evm_svm.Setup.{threads, vanity_launch_threads}
use vanity_generator_evm_svm.Host.Stages.{IsWithin, Searched, Failed, LastFailed, Explained}
use vanity_generator_evm_svm.Host.Memory.{begins-write_at}
use vanity_generator_evm_svm.Host.Layout.{deconstruct, packed, deconstruct-packed}

module _ (runtime : Runtime) (size : ℕ) (q : Request) (n : ℕ) where
  -- The kernel ran once, on the request and on the given symbols with `n` zeros for its output; the
  -- output begins with what `report` takes from what the kernel left.
  pub record Served (symbols : Symbols) (report : Device → List ℕ) (code : ℤ) (w : World)
      : Type 0 where
    pub code_at : code ≡ pos 0
    pub threads_taken : ℕ
    pub positive : 0 < threads_taken
    pub at_most : threads_taken ≤ q.num_threads
    pub given : Device
    pub request :
        deconstruct given.memory
        ≡ record { seed = q.seed; target = q.target; suffix = q.suffix; out_at = out_offset q }
    pub cleared : take n (drop (out_offset q) given.memory) ≡ replicate n 0
    pub symbols_at : given.symbols ≡ symbols
    pub device_at :
        w.device ≡ runtime.run_kernel q.num_blocks threads_taken q.iterations_per_thread given
    pub out_at : take (length (report w.device)) w.out ≡ report w.device
    pub is_open : w.device.initialized ≡ true
    pub memory : length w.device.memory ≡ size
    pub within : All (IsWithin size) w.calls

  -- The bytes that the kernel left at its output.
  abbrev pub slice : Device → List ℕ
  slice d = take n (drop (out_offset q) d.memory)

  pub length-slice :
      out_offset q + n ≤ size → (d : Device) → length d.memory ≡ size → length (slice d) ≡ n
  length-slice fits d memory =
      length-take n (drop (out_offset q) d.memory)
        (omega (arith, fits, memory, length-drop (out_offset q) d.memory))

  pub searched_served :
      (symbols : Symbols) (out report : Device → List ℕ)
      → length q.seed ≡ 32
      → length q.target < 2 ^ 64
      → length q.suffix < 2 ^ 64
      → ((d : Device) → length d.memory ≡ size → take (length (report d)) (out d) ≡ report d)
      → (w : World) → Searched runtime size q (packed q n) symbols out w
      → Served symbols report (pos 0) w
  searched_served symbols out report seed_fits target_fits suffix_fits reads w s =
      let (request, cleared) =
        deconstruct-packed q n s.given.memory seed_fits s.begins target_fits suffix_fits in
      record {
        code_at = refl;
        threads_taken = s.threads_taken;
        positive = s.positive;
        at_most = s.at_most;
        given = s.given;
        request = request;
        cleared = cleared;
        symbols_at = s.symbols_at;
        device_at = s.device_at;
        out_at = ap (take (length (report w.device))) s.out_at ∙ reads w.device s.memory;
        is_open = s.is_open;
        memory = s.memory;
        within = s.within;
      }

  -- With a valid number, threads that fit and calls that all succeed, no code has a reason.
  no_reason :
      (code : ℤ) (w : World)
      → valid_id q.id ≡ true
      → (m : ℕ)
      → vanity_launch_threads runtime.occupancy runtime.attributes q.num_threads ≡ threads m
      → ((calls : List Call) → is_success (runtime.answer calls) ≡ true)
      → ¬ (Failed runtime size q code w)
  no_reason code w valid m found fine f = reason f.explained
    where
      last : (calls : List Call) → ¬ (LastFailed runtime size q code calls)
      last [] h = h
      last (c ∷ calls) h = let ok = fine (c ∷ calls) in let bad = h.1 in cc

      reason : ¬ (Explained runtime size q code w.calls)
      reason (inl h) = let bad = h.1 in cc
      reason (inr (inl h)) = h.1 m found
      reason (inr (inr h)) = last w.calls h

  pub must_serve :
      (Q : ℤ → World → Type 0) (r : Outcome ℤ × World)
      → After Q (Failed runtime size q) r
      → valid_id q.id ≡ true
      → (m : ℕ)
      → vanity_launch_threads runtime.occupancy runtime.attributes q.num_threads ≡ threads m
      → ((calls : List Call) → is_success (runtime.answer calls) ≡ true)
      → (code : ℤ) × (w : World) × (r ≡ (going code, w)) × Q code w
  must_serve Q (going code, w) h valid m found fine = (code, w, refl, h)
  must_serve Q (returned code, w) h valid m found fine =
      absurd (no_reason code w valid m found fine h)

-- A number written in little-endian order behind what `area` begins with.
pub behind :
    (front area : List ℕ) (offset n v : ℕ)
    → offset ≡ length front
    → take (length front) area ≡ front
    → take (length (front ++ le_bytes n v)) (write_at offset (le_bytes n v) area)
      ≡ front ++ le_bytes n v
behind front area offset n v place known =
    rw place (begins-write_at front (le_bytes n v) area known)
