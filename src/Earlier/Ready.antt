-- ===== src/Earlier/Ready.antt =====
-- What a round of kernels/eth_vanity_optimized.cu keeps, and what it leaves at `out`.
use vanity_generator_evm_svm.Common.{ℕ, ◌+◌, ◌≤◌, ◌≡◌, refl, ap, ◌∙◌, arith}
use vanity_generator_evm_svm.Common.{true, false, List, length, take, drop, All, ℤ, pos}
use vanity_generator_evm_svm.Host.{
  Runtime, Device, Symbols, World, give, valid_id, same, write_at, le_bytes,
}
use vanity_generator_evm_svm.Host.{set_device, copy_from_device, copy_from_symbol}
use vanity_generator_evm_svm.Host.Rounds.{Request, out_offset, eth_buffer_size}
use vanity_generator_evm_svm.Host.Hoare.{After, Triple, bind-Triple}
use vanity_generator_evm_svm.Host.Stages.{IsReady, IsWithin, RuntimeLaws}
use vanity_generator_evm_svm.Host.Eth.{eth_report, eth_out-report}
use vanity_generator_evm_svm.Earlier.{copied_out, symbol_read}
use vanity_generator_evm_svm.Earlier.Persistent.{
  tried, report_optimized, eth_vanity_round_optimized, eth_vanity_cleanup,
}
use vanity_generator_evm_svm.Earlier.Opened.{
  Left, Up, tried-Up, as_before, upload_optimized-Up, launch_optimized-Up,
}
use vanity_generator_evm_svm.Earlier.Opening.{Before, open_optimized-Up, guard-Before}
use vanity_generator_evm_svm.Host.Cleanup.{vanity_cleanup_twice}

-- At the end: 0, an open context, and an output that begins with the report of the device.
record Reported (q : Request) (code : ℤ) (w : World) : Type 0 where
  zero_code : code ≡ pos 0
  is_open : w.device.initialized ≡ true
  ready : IsReady eth_buffer_size w.device
  begins : take (length (eth_report q w.device)) w.out ≡ eth_report q w.device
  within : All (IsWithin eth_buffer_size) w.calls

module _ (runtime : Runtime) (laws : RuntimeLaws runtime) (id : ℤ) (first : List ℕ) where
  module _ (q : Request) where
    abbrev with_slice : Device → List ℕ
    with_slice d = write_at 0 (take 137 (drop (out_offset q) d.memory)) first

    abbrev with_count : Device → List ℕ
    with_count d = write_at 137 (le_bytes 8 d.symbols.count) (with_slice d)

    abbrev with_flag : Device → List ℕ
    with_flag d = write_at 145 (le_bytes 4 d.symbols.done) (with_count d)

    symbol_read-Up :
        (at n : ℕ) (f : Symbols → ℕ) (g : Device → List ℕ)
        → Triple
            (Up runtime laws id g)
            (tried runtime copy_from_symbol (symbol_read runtime at n f))
            (λ _. Up runtime laws id (λ d. write_at at (le_bytes n (f d.symbols)) (g d)))
            (Left runtime id)
    symbol_read-Up at n f g = tried-Up runtime laws id copy_from_symbol _ g _ tt (λ w u. record {
      is_open = u.is_open;
      buffer = u.buffer;
      memory = u.memory;
      out_at = ap (write_at at (le_bytes n (f w.device.symbols))) u.out_at;
      within = u.within;
    })

    slice-Up :
        out_offset q + 137 ≤ eth_buffer_size
        → Triple
            (Up runtime laws id (as_before runtime laws id first))
            (tried runtime
              (copy_from_device (out_offset q) 137)
              (copied_out runtime (out_offset q) 137))
            (λ _. Up runtime laws id with_slice)
            (Left runtime id)
    slice-Up room =
        tried-Up runtime laws id (copy_from_device (out_offset q) 137) _
          (as_before runtime laws id first) with_slice room
          (λ w u. record {
            is_open = u.is_open;
            buffer = u.buffer;
            memory = u.memory;
            out_at = ap (write_at 0 (take 137 (drop (out_offset q) w.device.memory))) u.out_at;
            within = u.within;
          })

    done-Reported :
        out_offset q + 137 ≤ eth_buffer_size
        → Triple (Up runtime laws id with_flag) (give (pos 0)) (Reported q) (Left runtime id)
    done-Reported room = record {
      holds = λ w u. record {
        zero_code = refl;
        is_open = u.is_open;
        ready = λ e. (u.buffer, u.memory);
        begins =
            ap (take (length (eth_report q w.device))) u.out_at
            ∙ eth_out-report runtime laws q first w.device room u.memory;
        within = u.within;
      };
    }

    report_optimized-Up :
        out_offset q + 137 ≤ eth_buffer_size
        → Triple
            (Up runtime laws id (as_before runtime laws id first))
            (report_optimized runtime q)
            (Reported q)
            (Left runtime id)
    unfolding report_optimized
    report_optimized-Up room = bind-Triple (slice-Up room) (λ _.
        bind-Triple (symbol_read-Up 137 8 _ with_slice)
          (λ _. bind-Triple (symbol_read-Up 145 4 _ with_count) (λ _. done-Reported room)))

-- From the guard to the return.
round_steps :
    (runtime : Runtime) (laws : RuntimeLaws runtime) (first : List ℕ) (q : Request)
    → length q.seed ≡ 32
    → length q.target + length q.suffix ≤ 512
    → Triple
        (Before runtime laws q.id first)
        (eth_vanity_round_optimized runtime q)
        (Reported q)
        (Left runtime q.id)
unfolding eth_vanity_round_optimized
round_steps runtime laws first q seed_fits patterns_fit =
    let same_out = as_before runtime laws q.id first in
    bind-Triple (guard-Before runtime laws q.id first) (λ _.
      bind-Triple (open_optimized-Up runtime laws q.id first) (λ _.
        bind-Triple (tried-Up runtime laws q.id set_device same same_out same_out tt (λ w u. u))
          (λ _.
            bind-Triple (upload_optimized-Up runtime laws q.id first q seed_fits patterns_fit) (λ _.
              bind-Triple (launch_optimized-Up runtime laws q.id first) (λ _.
                report_optimized-Up runtime laws q.id first q (omega (arith, patterns_fit)))))))

-- With a 32-byte seed, patterns of 512 bytes together at most, and a context that is ready: on every
-- outcome of the calls, a round of kernels/eth_vanity_optimized.cu either comes to its end with an
-- open context, and `out` begins with the 137 bytes of the kernel, the counter and the flag; or it
-- has left before, since the number of the GPU is out of range or the last call failed. The context is ready for the next round in both cases, and every copy stays in the
-- buffer.
eth_vanity_round_optimized-Ready :
    (runtime : Runtime) (q : Request) (w : World)
    → RuntimeLaws runtime
    → length q.seed ≡ 32
    → length q.target + length q.suffix ≤ 512
    → IsReady eth_buffer_size w.device
    → All (IsWithin eth_buffer_size) w.calls
    → After (Reported q) (Left runtime q.id) (eth_vanity_round_optimized runtime q w)
eth_vanity_round_optimized-Ready runtime q w laws seed_fits patterns_fit ready within =
    (round_steps runtime laws w.out q seed_fits patterns_fit).holds w (refl, ready, within)

-- A clean-up keeps the context ready for a round and leaves the context of a valid number closed; a
-- second one in a row makes no call.
eth_vanity_cleanup_twice :
    (id : ℤ) (w : World)
    → IsReady eth_buffer_size w.device
    → IsReady eth_buffer_size (eth_vanity_cleanup id w).device
      × (valid_id id ≡ true → (eth_vanity_cleanup id w).device.initialized ≡ false)
      × (eth_vanity_cleanup id (eth_vanity_cleanup id w) ≡ eth_vanity_cleanup id w)
unfolding eth_vanity_cleanup
eth_vanity_cleanup_twice id w ready = vanity_cleanup_twice id w eth_buffer_size ready
