-- ===== src/Sol/Round.antt =====
-- What a round of kernels/sol_vanity_optimized.cu leaves at `out` of what the threads of its kernel
-- have left on the device.
use vanity_generator_evm_svm.Common.{
  ℕ, ◌+◌, ◌*◌, ◌^◌, ◌≤◌, ◌<◌, ◌≡◌, refl, sym, ap, ◌∙◌, arith, Bool, some,
}
use vanity_generator_evm_svm.Common.{List, [], ◌++◌, length, take, drop, ℤ, length-append}
use vanity_generator_evm_svm.Host.{Runtime, Device, Symbols, World, le_bytes}
use vanity_generator_evm_svm.Host.Rounds.{Request, out_offset, sol_buffer_size}
use vanity_generator_evm_svm.Host.Stages.{RuntimeLaws}
use vanity_generator_evm_svm.Host.Memory.{le_value, length-le_bytes, le_value-le_bytes}
use vanity_generator_evm_svm.Host.Reading.{known_part, known_end}
use vanity_generator_evm_svm.Host.Layout.{View, deconstruct}
use vanity_generator_evm_svm.Host.Served.{Served, length-slice}
use vanity_generator_evm_svm.Host.Sol.{sol_symbols, sol_report}
use vanity_generator_evm_svm.Host.Written.{slice-Written, length-given}
use vanity_generator_evm_svm.Rng.{init_rng}
use vanity_generator_evm_svm.Search.{Kernel}
use vanity_generator_evm_svm.Search.System.{System, Reach}
use vanity_generator_evm_svm.Search.Invariant.{Reach-Inv}
use vanity_generator_evm_svm.Search.Results.{AllStopped}
use vanity_generator_evm_svm.Sol.{Ed25519, SolResult, sol_kernel}
use vanity_generator_evm_svm.Sol.Launch.{result_bytes, Launched, IsReset, LaunchesSol}
use mathlib.Core.Path.{subst}
use mathlib.Core.List.{append_assoc}

-- The flag and the counter of candidates in the 192 bytes of a round.
abbrev pub done_of : List ℕ → ℕ
done_of out = le_value (take 4 (drop 188 out))

abbrev pub count_of : List ℕ → ℕ
count_of out = le_value (take 8 (drop 172 out))

module _ (ed : Ed25519) (q : Request) where
  -- What the kernel searches for in a round.
  abbrev pub round_kernel : Kernel
  round_kernel = sol_kernel ed q.target q.suffix q.case_insensitive q.iterations_per_thread

  -- What `out` tells of the `n` threads of the kernel, all returned.
  pub record Told (n : ℕ) (out : List ℕ) : Type 0 where
    pub system : System round_kernel
    pub reach : Reach round_kernel n (init_rng q.seed) system
    pub all_stopped : AllStopped round_kernel (init_rng q.seed) n system reach
    pub done_at : done_of out ≡ system.globals.done
    pub count_at : count_of out ≡ system.globals.count
    pub bytes_at :
        (h : SolResult)
        → system.globals.out ≡ some h
        → take (length (result_bytes h)) out ≡ result_bytes h

  module _ (runtime : Runtime) (laws : RuntimeLaws runtime) (launches : LaunchesSol runtime ed)
      (room : out_offset q + 172 ≤ sol_buffer_size) (code : ℤ) (w : World)
      (s : Served runtime sol_buffer_size q 172 (sol_symbols q) (sol_report q) code w) where
    abbrev n : ℕ
    n = q.num_blocks * s.threads_taken

    given_memory : length s.given.memory ≡ sol_buffer_size
    given_memory =
        length-given runtime laws sol_buffer_size q 172 (sol_symbols q) (sol_report q) code w s

    abbrev request : View
    request = record { seed = q.seed; target = q.target; suffix = q.suffix; out_at = out_offset q }

    abbrev Ran : View → Bool → Device → Type 0
    Ran view ci after = Launched ed n q.iterations_per_thread view ci s.given.memory after

    -- What the kernel was given is the request.
    launched : Ran request q.case_insensitive w.device
    launched =
        let reset : IsReset s.given.symbols = (
          ap Symbols.done s.symbols_at,
          ap Symbols.count s.symbols_at,
          ap Symbols.full_encodes s.symbols_at,
        ) in
        let fits : (deconstruct s.given.memory).out_at + 172 ≤ length s.given.memory =
          omega (arith, room, given_memory, ap View.out_at s.request) in
        let left =
          runtime.run_kernel q.num_blocks s.threads_taken q.iterations_per_thread s.given in
        let ran : Ran (deconstruct s.given.memory) s.given.symbols.case_insensitive left =
          launches q.num_blocks s.threads_taken q.iterations_per_thread s.given reset fits in
        let asked : Ran request s.given.symbols.case_insensitive left =
          subst (λ v. Ran v s.given.symbols.case_insensitive left) s.request ran in
        let folded : Ran request q.case_insensitive left =
          subst (λ c. Ran request c left) (ap Symbols.case_insensitive s.symbols_at) asked in
        subst (Ran request q.case_insensitive) (sym s.device_at) folded

    open launched use {system, reach, all_stopped}

    abbrev slice : List ℕ
    slice = take 172 (drop (out_offset q) w.device.memory)

    slice_fits : length slice ≡ 172
    slice_fits = length-slice runtime sol_buffer_size q 172 room w.device s.memory

    abbrev count_bytes : List ℕ
    count_bytes = le_bytes 8 w.device.symbols.count

    abbrev full_bytes : List ℕ
    full_bytes = le_bytes 8 w.device.symbols.full_encodes

    abbrev done_bytes : List ℕ
    done_bytes = le_bytes 4 w.device.symbols.done

    flag : system.globals.done ≤ 1
    flag = (Reach-Inv _ _ reach).flag

    below : system.globals.count < 2 ^ 64
    below = omega (arith, (Reach-Inv _ _ reach).total)

    -- The numbers that the host reads at `out`.
    done_at : done_of w.out ≡ system.globals.done
    done_at =
        let ends = length-append (slice ++ count_bytes) full_bytes in
        let count_ends = length-append slice count_bytes in
        let count_length = length-le_bytes 8 w.device.symbols.count in
        let full_length = length-le_bytes 8 w.device.symbols.full_encodes in
        ap le_value (
          known_end w.out ((slice ++ count_bytes) ++ full_bytes) done_bytes 188 4 s.out_at
            (omega (arith, ends, count_ends, count_length, full_length, slice_fits))
            (sym (length-le_bytes 4 w.device.symbols.done)))
        ∙ le_value-le_bytes 4 w.device.symbols.done (omega (arith, launched.done_at, flag))
        ∙ launched.done_at

    count_at : count_of w.out ≡ system.globals.count
    count_at =
        ap le_value (
          known_part w.out (sol_report q w.device) slice count_bytes (full_bytes ++ done_bytes) 172
            8 s.out_at
            (append_assoc (slice ++ count_bytes) full_bytes done_bytes
              ∙ append_assoc slice count_bytes (full_bytes ++ done_bytes))
            (sym slice_fits) (sym (length-le_bytes 8 w.device.symbols.count)))
        ∙ le_value-le_bytes 8 w.device.symbols.count (omega (arith, launched.count_at, below))
        ∙ launched.count_at

    bytes_at :
        (h : SolResult)
        → system.globals.out ≡ some h
        → take (length (result_bytes h)) w.out ≡ result_bytes h
    bytes_at h e =
        let fits : out_offset q ≤ length s.given.memory = omega (arith, room, given_memory) in
        let (rest, slice_at) =
          slice-Written result_bytes 172 system.globals.out h (out_offset q) s.given.memory
            w.device.memory e fits launched.written in
        let known = sol_report q w.device in
        known_part w.out known [] (result_bytes h)
          (rest ++ (count_bytes ++ (full_bytes ++ done_bytes))) 0 (length (result_bytes h)) s.out_at
          (append_assoc (slice ++ count_bytes) full_bytes done_bytes
            ∙ append_assoc slice count_bytes (full_bytes ++ done_bytes)
            ∙ ap (λ (l : List ℕ). l ++ (count_bytes ++ (full_bytes ++ done_bytes))) slice_at
            ∙ append_assoc (result_bytes h) rest (count_bytes ++ (full_bytes ++ done_bytes)))
          refl refl

    pub served-Told : Told n w.out
    served-Told = record {
      system = system;
      reach = reach;
      all_stopped = all_stopped;
      done_at = done_at;
      count_at = count_at;
      bytes_at = bytes_at;
    }
