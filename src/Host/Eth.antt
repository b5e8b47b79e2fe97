-- ===== src/Host/Eth.antt =====
-- `eth_vanity_round_ultra` (kernels/eth_vanity_ultra.cu), from its guard to its return.
use vanity_generator_evm_svm.Common.{ℕ, ◌+◌, ◌≤◌, ◌≡◌, refl, sym, arith}
use vanity_generator_evm_svm.Common.{
  List, [], ◌++◌, length, take, drop, replicate, All, pos, length-append,
}
use vanity_generator_evm_svm.Host.{Runtime, Device, Symbols, World, write_at, le_bytes, give, ◌>>◌}
use vanity_generator_evm_svm.Host.{copy_in, set_symbol, copy_out, read_symbol}
use vanity_generator_evm_svm.Host.Rounds.{
  Request, out_offset, eth_buffer_size, eth_vanity_round_ultra, run_search,
}
use vanity_generator_evm_svm.Host.Stages.{
  RuntimeLaws, Failed, Closed, Open, Searched, IsReady, IsWithin,
}
use vanity_generator_evm_svm.Host.Hoare.{After, Triple, bind-Triple}
use vanity_generator_evm_svm.Host.Memory.{begins-write_at, length-le_bytes}
use vanity_generator_evm_svm.Host.Steps.{set_device-Open, set_symbol-Open}
use vanity_generator_evm_svm.Host.Opening.{guard-Closed, open_eth-Open}
use vanity_generator_evm_svm.Host.Launch.{run_search-Searched}
use vanity_generator_evm_svm.Host.Copies.{copy_out-Searched, read_symbol-Searched}
use vanity_generator_evm_svm.Host.Layout.{packed}
use vanity_generator_evm_svm.Host.Upload.{packed_request, upload-Open, clear-Open}
use vanity_generator_evm_svm.Host.Served.{Served, length-slice, searched_served, behind}

-- The symbols that the kernel is given: the first two are reset, the others are as they were.
abbrev pub eth_symbols : Symbols → Symbols
eth_symbols s = record s { done = 0; count = 0 }

-- What lies at `out` after a round.
abbrev pub eth_report : Request → Device → List ℕ
eth_report q d =
    (take 137 (drop (out_offset q) d.memory) ++ le_bytes 8 d.symbols.count)
    ++ le_bytes 4 d.symbols.done

module _ (runtime : Runtime) (laws : RuntimeLaws runtime) (q : Request) where
  pub eth_out-report :
      (out : List ℕ) (d : Device)
      → out_offset q + 137 ≤ eth_buffer_size
      → length d.memory ≡ eth_buffer_size
      → take (length (eth_report q d)) (
          write_at 145 (le_bytes 4 d.symbols.done) (
            write_at 137
              (le_bytes 8 d.symbols.count)
              (write_at 0 (take 137 (drop (out_offset q) d.memory)) out)))
        ≡ eth_report q d
  eth_out-report out d fits memory =
      let s = take 137 (drop (out_offset q) d.memory) in
      let count = le_bytes 8 d.symbols.count in
      let s_fits = length-slice runtime eth_buffer_size q 137 fits d memory in
      let count_fits = length-append s count in
      let count_length = length-le_bytes 8 d.symbols.count in
      behind (s ++ count) _ 145 4 d.symbols.done (omega (arith, s_fits, count_fits, count_length))
        (behind s _ 137 8 d.symbols.count (sym s_fits) (begins-write_at [] s out refl))

  module _ (seed_fits : length q.seed ≡ 32)
      (patterns_fit : length q.target + length q.suffix ≤ 512) where
    room : out_offset q + 137 ≤ eth_buffer_size
    room = omega (arith, patterns_fit)

    module _ (symbols : Symbols) (out : List ℕ) where
      sets :
          (s : Symbols) (f : Symbols → Symbols)
          → Triple
              (Open runtime eth_buffer_size q (packed_request q) s out)
              (set_symbol runtime f)
              (λ _. Open runtime eth_buffer_size q (packed_request q) (f s) out)
              (Failed runtime eth_buffer_size q)
      sets s f = set_symbol-Open runtime laws eth_buffer_size q (packed_request q) s out f

      served :
          Triple
            (Searched runtime eth_buffer_size q (packed q 137) (eth_symbols symbols) (λ d.
              write_at 145 (le_bytes 4 d.symbols.done) (
                write_at 137
                  (le_bytes 8 d.symbols.count)
                  (write_at 0 (take 137 (drop (out_offset q) d.memory)) out))))
            (give (pos 0))
            (Served runtime eth_buffer_size q 137 (eth_symbols symbols) (eth_report q))
            (Failed runtime eth_buffer_size q)
      served = record {
        holds = λ w s.
            searched_served runtime eth_buffer_size q 137 (eth_symbols symbols) _ (eth_report q)
              seed_fits (omega (arith, patterns_fit)) (omega (arith, patterns_fit))
              (λ d memory. eth_out-report out d room memory) w s;
      }

      -- From the answers of the kernel to the return.
      reported :
          Triple
            (Searched runtime eth_buffer_size q (packed q 137) (eth_symbols symbols) (λ _. out))
            (do
              copy_out runtime (out_offset q) 137
              read_symbol runtime 137 8 (λ s. s.count)
              read_symbol runtime 145 4 (λ s. s.done)
              give (pos 0))
            (Served runtime eth_buffer_size q 137 (eth_symbols symbols) (eth_report q))
            (Failed runtime eth_buffer_size q)
      reported =
          let reads =
            read_symbol-Searched runtime laws eth_buffer_size q (packed q 137)
              (eth_symbols symbols) in
          bind-Triple
            (copy_out-Searched runtime laws eth_buffer_size q (packed q 137) (eth_symbols symbols)
              (out_offset q) 137 _ room)
            (λ _. bind-Triple (reads 137 8 _ _) (λ _. bind-Triple (reads 145 4 _ _) (λ _. served)))

      -- From the symbols to the kernel.
      searched :
          Triple
            (Open runtime eth_buffer_size q (packed_request q) symbols out)
            (do
              set_symbol runtime (λ s. record s { done = 0 })
              set_symbol runtime (λ s. record s { count = 0 })
              copy_in runtime (out_offset q) (replicate 137 0)
              run_search runtime q
              copy_out runtime (out_offset q) 137
              read_symbol runtime 137 8 (λ s. s.count)
              read_symbol runtime 145 4 (λ s. s.done)
              give (pos 0))
            (Served runtime eth_buffer_size q 137 (eth_symbols symbols) (eth_report q))
            (Failed runtime eth_buffer_size q)
      searched =
          let clear =
            clear-Open runtime laws eth_buffer_size q seed_fits (eth_symbols symbols) out
              (omega (arith, patterns_fit)) 137 room in
          let run =
            run_search-Searched runtime laws eth_buffer_size q (packed q 137) (eth_symbols symbols)
              out in
          bind-Triple (sets _ _) (λ _.
            bind-Triple (sets _ _) (λ _. bind-Triple clear (λ _. bind-Triple run (λ _. reported))))

      pub eth_round_steps :
          Triple
            (Closed runtime eth_buffer_size q symbols out)
            (eth_vanity_round_ultra runtime q)
            (Served runtime eth_buffer_size q 137 (eth_symbols symbols) (eth_report q))
            (Failed runtime eth_buffer_size q)
      unfolding eth_vanity_round_ultra
      eth_round_steps =
          let load =
            upload-Open runtime laws eth_buffer_size q seed_fits symbols out
              (omega (arith, patterns_fit)) in
          bind-Triple (guard-Closed runtime laws eth_buffer_size q symbols out) (λ _.
            bind-Triple (open_eth-Open runtime laws eth_buffer_size q symbols out) (λ _.
              bind-Triple (set_device-Open runtime laws eth_buffer_size q [] symbols out)
                (λ _. bind-Triple load (λ _. searched))))

-- With a 32-byte seed, patterns of 512 bytes together at most, and a context that is ready: the round
-- returns 0, and the kernel, run once on one number of threads, read the request back from its buffer
-- with the flag and the counter reset and a cleared output, and `out` begins with the kernel's 137 bytes, the
-- counter and the flag; or the round returns -1, -2, -3, -4, -5 or -6, which stands for a number of
-- the GPU out of range, for no fitting number of threads, or for the failure of the last call. The
-- context is ready in both cases, and every copy stays in the buffer.
pub eth_vanity_round_ultra-After :
    (runtime : Runtime) (q : Request) (w : World)
    → RuntimeLaws runtime
    → length q.seed ≡ 32
    → length q.target + length q.suffix ≤ 512
    → IsReady eth_buffer_size w.device
    → All (IsWithin eth_buffer_size) w.calls
    → After
        (Served runtime eth_buffer_size q 137 (eth_symbols w.device.symbols) (eth_report q))
        (Failed runtime eth_buffer_size q)
        (eth_vanity_round_ultra runtime q w)
eth_vanity_round_ultra-After runtime q w laws seed_fits patterns_fit ready within =
    (eth_round_steps runtime laws q seed_fits patterns_fit w.device.symbols w.out).holds w
      (record { symbols_at = refl; out_at = refl; ready = ready; within = within })
