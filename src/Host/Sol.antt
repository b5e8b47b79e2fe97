-- ===== src/Host/Sol.antt =====
-- `sol_vanity_round_optimized` (kernels/sol_vanity_optimized.cu), from its guard to its return.
use vanity_generator_evm_svm.Common.{ℕ, ◌+◌, ◌≤◌, ◌≡◌, refl, sym, arith, true}
use vanity_generator_evm_svm.Common.{
  List, [], ◌++◌, length, take, drop, replicate, All, ℤ, pos, length-append,
}
use vanity_generator_evm_svm.Host.{
  Runtime, Device, Symbols, World, write_at, le_bytes, valid_id, is_success, Call, going, give,
  ◌>>◌,
}
use vanity_generator_evm_svm.Host.{copy_in, set_symbol, copy_out, read_symbol}
use vanity_generator_evm_svm.Host.Rounds.{
  Request, out_offset, sol_buffer_size, sol_vanity_round_optimized, run_search,
}
use vanity_generator_evm_svm.Host.Stages.{
  RuntimeLaws, Failed, Closed, Open, Searched, IsReady, IsWithin,
}
use vanity_generator_evm_svm.Host.Hoare.{After, Triple, bind-Triple}
use vanity_generator_evm_svm.Host.Memory.{begins-write_at, length-le_bytes}
use vanity_generator_evm_svm.Host.Steps.{set_device-Open, set_symbol-Open}
use vanity_generator_evm_svm.Host.Opening.{guard-Closed, open_sol-Open}
use vanity_generator_evm_svm.Host.Launch.{run_search-Searched}
use vanity_generator_evm_svm.Host.Copies.{copy_out-Searched, read_symbol-Searched}
use vanity_generator_evm_svm.Host.Layout.{packed}
use vanity_generator_evm_svm.Host.Upload.{packed_request, upload-Open, clear-Open}
use vanity_generator_evm_svm.Host.Served.{Served, length-slice, searched_served, behind, must_serve}
use vanity_generator_evm_svm.Setup.{threads, vanity_launch_threads}

-- The symbols that the kernel is given.
abbrev pub sol_symbols : Request → Symbols
sol_symbols q = record {
  done = 0;
  count = 0;
  full_encodes = 0;
  case_insensitive = q.case_insensitive;
}

-- What lies at `out` after a round.
abbrev pub sol_report : Request → Device → List ℕ
sol_report q d =
    ((take 172 (drop (out_offset q) d.memory) ++ le_bytes 8 d.symbols.count)
      ++ le_bytes 8 d.symbols.full_encodes)
    ++ le_bytes 4 d.symbols.done

module _ (runtime : Runtime) (laws : RuntimeLaws runtime) (q : Request) where
  sol_out-report :
      (out : List ℕ) (d : Device)
      → out_offset q + 172 ≤ sol_buffer_size
      → length d.memory ≡ sol_buffer_size
      → take (length (sol_report q d)) (
          write_at 188 (le_bytes 4 d.symbols.done) (
            write_at 180 (le_bytes 8 d.symbols.full_encodes) (
              write_at 172
                (le_bytes 8 d.symbols.count)
                (write_at 0 (take 172 (drop (out_offset q) d.memory)) out))))
        ≡ sol_report q d
  sol_out-report out d fits memory =
      let s = take 172 (drop (out_offset q) d.memory) in
      let count = le_bytes 8 d.symbols.count in
      let full = le_bytes 8 d.symbols.full_encodes in
      let s_fits = length-slice runtime sol_buffer_size q 172 fits d memory in
      let count_fits = length-append s count in
      let full_fits = length-append (s ++ count) full in
      let count_length = length-le_bytes 8 d.symbols.count in
      let full_length = length-le_bytes 8 d.symbols.full_encodes in
      behind ((s ++ count) ++ full) _ 188 4 d.symbols.done
        (omega (arith, s_fits, count_fits, full_fits, count_length, full_length))
        (behind (s ++ count) _ 180 8 d.symbols.full_encodes
          (omega (arith, s_fits, count_fits, count_length))
          (behind s _ 172 8 d.symbols.count (sym s_fits) (begins-write_at [] s out refl)))

  module _ (seed_fits : length q.seed ≡ 32)
      (patterns_fit : length q.target + length q.suffix ≤ 512) where
    room : out_offset q + 172 ≤ sol_buffer_size
    room = omega (arith, patterns_fit)

    module _ (symbols : Symbols) (out : List ℕ) where
      sets :
          (s : Symbols) (f : Symbols → Symbols)
          → Triple
              (Open runtime sol_buffer_size q (packed_request q) s out)
              (set_symbol runtime f)
              (λ _. Open runtime sol_buffer_size q (packed_request q) (f s) out)
              (Failed runtime sol_buffer_size q)
      sets s f = set_symbol-Open runtime laws sol_buffer_size q (packed_request q) s out f

      served :
          Triple
            (Searched runtime sol_buffer_size q (packed q 172) (sol_symbols q) (λ d.
              write_at 188 (le_bytes 4 d.symbols.done) (
                write_at 180 (le_bytes 8 d.symbols.full_encodes) (
                  write_at 172
                    (le_bytes 8 d.symbols.count)
                    (write_at 0 (take 172 (drop (out_offset q) d.memory)) out)))))
            (give (pos 0))
            (Served runtime sol_buffer_size q 172 (sol_symbols q) (sol_report q))
            (Failed runtime sol_buffer_size q)
      served = record {
        holds = λ w s.
            searched_served runtime sol_buffer_size q 172 (sol_symbols q) _ (sol_report q) seed_fits
              (omega (arith, patterns_fit)) (omega (arith, patterns_fit))
              (λ d memory. sol_out-report out d room memory) w s;
      }

      -- From the answers of the kernel to the return.
      reported :
          Triple
            (Searched runtime sol_buffer_size q (packed q 172) (sol_symbols q) (λ _. out))
            (do
              copy_out runtime (out_offset q) 172
              read_symbol runtime 172 8 (λ s. s.count)
              read_symbol runtime 180 8 (λ s. s.full_encodes)
              read_symbol runtime 188 4 (λ s. s.done)
              give (pos 0))
            (Served runtime sol_buffer_size q 172 (sol_symbols q) (sol_report q))
            (Failed runtime sol_buffer_size q)
      reported =
          let reads =
            read_symbol-Searched runtime laws sol_buffer_size q (packed q 172) (sol_symbols q) in
          bind-Triple
            (copy_out-Searched runtime laws sol_buffer_size q (packed q 172) (sol_symbols q)
              (out_offset q) 172 _ room)
            (λ _. bind-Triple (reads 172 8 _ _) (λ _.
              bind-Triple (reads 180 8 _ _) (λ _. bind-Triple (reads 188 4 _ _) (λ _. served))))

      -- From the symbols to the kernel.
      searched :
          Triple
            (Open runtime sol_buffer_size q (packed_request q) symbols out)
            (do
              set_symbol runtime (λ s. record s { case_insensitive = q.case_insensitive })
              set_symbol runtime (λ s. record s { done = 0 })
              set_symbol runtime (λ s. record s { count = 0 })
              set_symbol runtime (λ s. record s { full_encodes = 0 })
              copy_in runtime (out_offset q) (replicate 172 0)
              run_search runtime q
              copy_out runtime (out_offset q) 172
              read_symbol runtime 172 8 (λ s. s.count)
              read_symbol runtime 180 8 (λ s. s.full_encodes)
              read_symbol runtime 188 4 (λ s. s.done)
              give (pos 0))
            (Served runtime sol_buffer_size q 172 (sol_symbols q) (sol_report q))
            (Failed runtime sol_buffer_size q)
      searched =
          let clear =
            clear-Open runtime laws sol_buffer_size q seed_fits (sol_symbols q) out
              (omega (arith, patterns_fit)) 172 room in
          let run =
            run_search-Searched runtime laws sol_buffer_size q (packed q 172) (sol_symbols q) out in
          bind-Triple (sets _ _) (λ _. bind-Triple (sets _ _) (λ _. bind-Triple (sets _ _) (λ _.
            bind-Triple (sets _ _)
              (λ _. bind-Triple clear (λ _. bind-Triple run (λ _. reported))))))

      pub sol_round_steps :
          Triple
            (Closed runtime sol_buffer_size q symbols out)
            (sol_vanity_round_optimized runtime q)
            (Served runtime sol_buffer_size q 172 (sol_symbols q) (sol_report q))
            (Failed runtime sol_buffer_size q)
      unfolding sol_vanity_round_optimized
      sol_round_steps =
          let load =
            upload-Open runtime laws sol_buffer_size q seed_fits symbols out
              (omega (arith, patterns_fit)) in
          bind-Triple (guard-Closed runtime laws sol_buffer_size q symbols out) (λ _.
            bind-Triple (open_sol-Open runtime laws sol_buffer_size q symbols out) (λ _.
              bind-Triple (set_device-Open runtime laws sol_buffer_size q [] symbols out)
                (λ _. bind-Triple load (λ _. searched))))

-- With a 32-byte seed, patterns of 512 bytes together at most, and a context that is ready: the round
-- returns 0, and the kernel, run once on one number of threads, read the request back from its buffer
-- with reset symbols and a cleared output, and `out` begins with the kernel's 172 bytes, the two
-- counters and the flag; or the round returns -1, -2, -3, -4, -5 or -6, which stands for a number of
-- the GPU out of range, for no fitting number of threads, or for the failure of the last call. The
-- context is ready in both cases, and every copy stays in the buffer.
pub sol_vanity_round_optimized-After :
    (runtime : Runtime) (q : Request) (w : World)
    → RuntimeLaws runtime
    → length q.seed ≡ 32
    → length q.target + length q.suffix ≤ 512
    → IsReady sol_buffer_size w.device
    → All (IsWithin sol_buffer_size) w.calls
    → After
        (Served runtime sol_buffer_size q 172 (sol_symbols q) (sol_report q))
        (Failed runtime sol_buffer_size q)
        (sol_vanity_round_optimized runtime q w)
sol_vanity_round_optimized-After runtime q w laws seed_fits patterns_fit ready within =
    (sol_round_steps runtime laws q seed_fits patterns_fit w.device.symbols w.out).holds w
      (record { symbols_at = refl; out_at = refl; ready = ready; within = within })

-- With a valid number of the GPU, a fitting number of threads and calls that all succeed, a round as
-- above returns 0 and has served the request.
pub sol_vanity_round_optimized-Served :
    (runtime : Runtime) (q : Request) (w : World)
    → RuntimeLaws runtime
    → length q.seed ≡ 32
    → length q.target + length q.suffix ≤ 512
    → IsReady sol_buffer_size w.device
    → All (IsWithin sol_buffer_size) w.calls
    → valid_id q.id ≡ true
    → (n : ℕ) → vanity_launch_threads runtime.occupancy runtime.attributes q.num_threads ≡ threads n
    → ((calls : List Call) → is_success (runtime.answer calls) ≡ true)
    → (code : ℤ) × (w' : World) × (sol_vanity_round_optimized runtime q w ≡ (going code, w'))
      × Served runtime sol_buffer_size q 172 (sol_symbols q) (sol_report q) code w'
sol_vanity_round_optimized-Served runtime q w laws seed_fits patterns_fit ready within =
    must_serve runtime sol_buffer_size q 172 _ (sol_vanity_round_optimized runtime q w)
      (sol_vanity_round_optimized-After runtime q w laws seed_fits patterns_fit ready within)
