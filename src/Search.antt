-- ===== src/Search.antt =====
-- The loop that every search kernel runs in each GPU thread, with the atomics on the device globals:
-- `sol_vanity_search_optimized` (kernels/sol_vanity_optimized.cu) and `eth_vanity_search_ultra`
-- (kernels/eth_vanity_ultra.cu) are instances. A thread's local work between two atomics is one
-- step; the threads of a launch are interleaved in any order.
pub mod Threads
pub mod System
pub mod Invariant
pub mod Results
pub mod Halting
pub mod Schedule
use vanity_generator_evm_svm.Common.{
  ℕ, zero, suc, ◌+◌, ◌%◌, ◌^◌, Bool, true, false, Option, none, some,
}
use vanity_generator_evm_svm.Common.{ltb, ◌==◌, if◌then◌else◌, bit_and, u64, ◌&&◌}
use Prim.Native.Nat.{max}

-- What one iteration makes of its candidate: rejected before encoding, encoded without a match, or
-- a match, with what the winner writes to `out`.
pub data Verdict (H : Type 0) : Type 0 where
  skipped : Verdict H
  missed : Verdict H
  hit : H → Verdict H

-- A kernel: its per-thread local state, one iteration on it, whether full encodings are counted, in
-- which iterations it looks at `done`, and `iterations_per_thread`.
pub record Kernel : Type 1 where
  pub Local : Type 0
  pub Hit : Type 0
  pub test : Local → Verdict Hit
  pub advance : Local → Local
  pub counts_encodes : Bool
  pub polls : ℕ → Bool
  pub iterations_per_thread : ℕ

-- The device globals `done`, `count` and the full-encode count, and the output area.
pub record Globals (H : Type 0) : Type 0 where
  pub done : ℕ
  pub count : ℕ
  pub encodes : ℕ
  pub out : Option H

module _ (k : Kernel) where
  open k use {Local, Hit, test, advance, counts_encodes, polls, iterations_per_thread}

  -- Where a thread stands, with the locals that are live there.
  pub data Pc : Type 0 where
    head : (iter : ℕ) → (local_encodes : ℕ) → Local → Pc  -- the test of the `for`
    work : (iter : ℕ) → (local_encodes : ℕ) → Local → Pc  -- behind the periodic look at `done`
    claim : (iter : ℕ) → (local_encodes : ℕ) → Hit → Pc  -- before `atomicMax(&done, 1)`
    publish : (iter : ℕ) → (local_encodes : ℕ) → Hit → Pc  -- the winner, before it writes `out`
    add_encodes : (local_encodes : ℕ) → (tried : ℕ) → Pc  -- before `atomicAdd(&fullencode_count)`
    add_count : (tried : ℕ) → Pc  -- before `atomicAdd(&count)`
    stopped : (tried : ℕ) → Pc  -- returned, after `tried` candidates

  -- Leaving the loop: both counters where encodings are counted, else only the candidates.
  unfoldable pub leave : ℕ → ℕ → Pc
  leave local_encodes tried =
      if counts_encodes then add_encodes local_encodes tried else add_count tried

  -- The test of the loop, and every so often `atomicMax(&done, 0) == 1`.
  unfoldable pub step_head : Globals Hit → ℕ → ℕ → Local → Pc
  step_head g iter local_encodes l =
      if ltb iter iterations_per_thread
      then if polls iter && g.done == 1 then leave local_encodes iter else work iter local_encodes l
      else leave local_encodes iterations_per_thread

  -- `continue` on a rejected candidate, `++local_encodes` on an encoded one.
  abbrev pub after_test : ℕ → ℕ → Local → Verdict Hit → Pc
  after_test iter local_encodes l skipped = head (iter + 1) local_encodes (advance l)
  after_test iter local_encodes l missed = head (iter + 1) (local_encodes + 1) (advance l)
  after_test iter local_encodes l (hit h) = claim iter (local_encodes + 1) h

  -- One step of one thread on the globals.
  unfoldable pub step : Globals Hit → Pc → Globals Hit × Pc
  step g (head iter e l) = (g, step_head g iter e l)
  step g (work iter e l) = (g, after_test iter e l (test l))
  step g (claim iter e h) = (
    record g { done = max g.done 1 },
    if g.done == 0 then publish iter e h else leave e (iter + 1),
  )
  step g (publish iter e h) = (record g { out = some h }, leave e (iter + 1))
  step g (add_encodes e tried) = (record g { encodes = u64 (g.encodes + e) }, add_count tried)
  step g (add_count tried) = (record g { count = u64 (g.count + tried) }, stopped tried)
  step g (stopped tried) = (g, stopped tried)
