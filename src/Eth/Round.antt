-- ===== src/Eth/Round.antt =====
-- What a round of kernels/eth_vanity_ultra.cu leaves at `out` of what the threads of its kernel
-- have left on the device.
use vanity_generator_evm_svm.Common.{
  ℕ, ◌+◌, ◌*◌, ◌^◌, ◌≤◌, ◌<◌, ◌≡◌, refl, sym, ap, ◌∙◌, arith, some,
}
use vanity_generator_evm_svm.Common.{List, [], ◌++◌, length, take, drop, ℤ, length-append}
use vanity_generator_evm_svm.Host.{Runtime, Device, Symbols, World, le_bytes}
use vanity_generator_evm_svm.Host.Rounds.{Request, out_offset, eth_buffer_size}
use vanity_generator_evm_svm.Host.Stages.{RuntimeLaws}
use vanity_generator_evm_svm.Host.Memory.{le_value, length-le_bytes, le_value-le_bytes}
use vanity_generator_evm_svm.Host.Reading.{known_part, known_end}
use vanity_generator_evm_svm.Host.Layout.{View, deconstruct}
use vanity_generator_evm_svm.Host.Served.{Served, length-slice}
use vanity_generator_evm_svm.Host.Eth.{eth_symbols, eth_report}
use vanity_generator_evm_svm.Host.Written.{slice-Written, length-given}
use vanity_generator_evm_svm.Rng.{init_rng}
use vanity_generator_evm_svm.Search.{Kernel}
use vanity_generator_evm_svm.Search.System.{System, Reach}
use vanity_generator_evm_svm.Search.Invariant.{Reach-Inv}
use vanity_generator_evm_svm.Search.Results.{AllStopped}
use vanity_generator_evm_svm.Eth.{Curve, EthResult, draw, first_walker, eth_kernel}
use vanity_generator_evm_svm.Eth.Launch.{
  result_bytes, Launched, IsReset, IsInRange, DrawsAll, LaunchesEth,
}
use native.Mathlib.Nat.{mul-le-mul_left}
use mathlib.Core.Path.{subst}
use mathlib.Core.List.{append_assoc}

-- The flag and the counter of candidates in the 149 bytes of a round.
abbrev pub done_of : List ℕ → ℕ
done_of out = le_value (take 4 (drop 145 out))

abbrev pub count_of : List ℕ → ℕ
count_of out = le_value (take 8 (drop 137 out))

module _ (curve : Curve) (fuel : ℕ) (q : Request) where
  -- What the kernel searches for in a round.
  abbrev pub round_kernel : Kernel
  round_kernel = eth_kernel curve q.target q.suffix q.iterations_per_thread

  -- What `out` tells of the `n` threads of the kernel, all returned, from the keys that they drew.
  pub record Told (n : ℕ) (out : List ℕ) : Type 0 where
    pub starts : ℕ → List ℕ
    pub drawn : (i : ℕ) → i < n → draw fuel (init_rng q.seed i) ≡ some (starts i)
    pub system : System round_kernel
    pub reach : Reach round_kernel n (λ i. first_walker curve (starts i)) system
    pub all_stopped : AllStopped round_kernel (λ i. first_walker curve (starts i)) n system reach
    pub done_at : done_of out ≡ system.globals.done
    pub count_at : count_of out ≡ system.globals.count
    pub bytes_at :
        (h : EthResult)
        → system.globals.out ≡ some h
        → take (length (result_bytes h)) out ≡ result_bytes h

  module _ (runtime : Runtime) (laws : RuntimeLaws runtime)
      (launches : LaunchesEth runtime curve fuel) (room : out_offset q + 137 ≤ eth_buffer_size)
      (base : Symbols) (code : ℤ) (w : World)
      (s : Served runtime eth_buffer_size q 137 (eth_symbols base) (eth_report q) code w) where
    abbrev n : ℕ
    n = q.num_blocks * s.threads_taken

    given_memory : length s.given.memory ≡ eth_buffer_size
    given_memory =
        length-given runtime laws eth_buffer_size q 137 (eth_symbols base) (eth_report q) code w s

    abbrev request : View
    request = record { seed = q.seed; target = q.target; suffix = q.suffix; out_at = out_offset q }

    abbrev Ran : View → Device → Type 0
    Ran view after = Launched curve fuel n q.iterations_per_thread view s.given.memory after

    module _ (in_range : IsInRange request q.iterations_per_thread)
        (draws : DrawsAll fuel q.seed (q.num_blocks * q.num_threads)) where
      draws_given : DrawsAll fuel (deconstruct s.given.memory).seed n
      draws_given i lt =
          let fewer = mul-le-mul_left q.num_blocks s.at_most in
          let (key, e) = draws i (omega (arith, lt, fewer)) in
          (key, ap (λ v. draw fuel (init_rng (View.seed v) i)) s.request ∙ e)

      -- What the kernel was given is the request.
      launched : Ran request w.device
      launched =
          let reset : IsReset s.given.symbols =
            (ap Symbols.done s.symbols_at, ap Symbols.count s.symbols_at) in
          let fits : (deconstruct s.given.memory).out_at + 137 ≤ length s.given.memory =
            omega (arith, room, given_memory, ap View.out_at s.request) in
          let left =
            runtime.run_kernel q.num_blocks s.threads_taken q.iterations_per_thread s.given in
          let given_range =
            subst (λ v. IsInRange v q.iterations_per_thread) (sym s.request) in_range in
          let ran : Ran (deconstruct s.given.memory) left =
            launches q.num_blocks s.threads_taken q.iterations_per_thread s.given reset fits
              given_range draws_given in
          let asked : Ran request left = subst (λ v. Ran v left) s.request ran in
          subst (Ran request) (sym s.device_at) asked

      open launched use {starts, drawn, system, reach, all_stopped}

      abbrev slice : List ℕ
      slice = take 137 (drop (out_offset q) w.device.memory)

      slice_fits : length slice ≡ 137
      slice_fits = length-slice runtime eth_buffer_size q 137 room w.device s.memory

      abbrev count_bytes : List ℕ
      count_bytes = le_bytes 8 w.device.symbols.count

      abbrev done_bytes : List ℕ
      done_bytes = le_bytes 4 w.device.symbols.done

      flag : system.globals.done ≤ 1
      flag = (Reach-Inv _ _ reach).flag

      below : system.globals.count < 2 ^ 64
      below = omega (arith, (Reach-Inv _ _ reach).total)

      -- The numbers that the host reads at `out`.
      done_at : done_of w.out ≡ system.globals.done
      done_at =
          let count_ends = length-append slice count_bytes in
          let count_length = length-le_bytes 8 w.device.symbols.count in
          ap le_value (
            known_end w.out (slice ++ count_bytes) done_bytes 145 4 s.out_at
              (omega (arith, count_ends, count_length, slice_fits))
              (sym (length-le_bytes 4 w.device.symbols.done)))
          ∙ le_value-le_bytes 4 w.device.symbols.done (omega (arith, launched.done_at, flag))
          ∙ launched.done_at

      count_at : count_of w.out ≡ system.globals.count
      count_at =
          ap le_value (
            known_part w.out (eth_report q w.device) slice count_bytes done_bytes 137 8 s.out_at
              (append_assoc slice count_bytes done_bytes) (sym slice_fits)
              (sym (length-le_bytes 8 w.device.symbols.count)))
          ∙ le_value-le_bytes 8 w.device.symbols.count (omega (arith, launched.count_at, below))
          ∙ launched.count_at

      bytes_at :
          (h : EthResult)
          → system.globals.out ≡ some h
          → take (length (result_bytes h)) w.out ≡ result_bytes h
      bytes_at h e =
          let fits : out_offset q ≤ length s.given.memory = omega (arith, room, given_memory) in
          let (rest, slice_at) =
            slice-Written result_bytes 137 system.globals.out h (out_offset q) s.given.memory
              w.device.memory e fits launched.written in
          let known = eth_report q w.device in
          known_part w.out known [] (result_bytes h) (rest ++ (count_bytes ++ done_bytes)) 0
            (length (result_bytes h)) s.out_at
            (append_assoc slice count_bytes done_bytes
              ∙ ap (λ (l : List ℕ). l ++ (count_bytes ++ done_bytes)) slice_at
              ∙ append_assoc (result_bytes h) rest (count_bytes ++ done_bytes))
            refl refl

      pub served-Told : Told n w.out
      served-Told = record {
        starts = starts;
        drawn = drawn;
        system = system;
        reach = reach;
        all_stopped = all_stopped;
        done_at = done_at;
        count_at = count_at;
        bytes_at = bytes_at;
      }
