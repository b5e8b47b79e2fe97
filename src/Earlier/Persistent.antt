-- ===== src/Earlier/Persistent.antt =====
-- `eth_vanity_round_optimized` of kernels/eth_vanity_optimized.cu, whose buffer stays allocated from
-- one round to the next.
use vanity_generator_evm_svm.Common.{ℕ, ◌+◌, List, length, replicate, ℤ, pos, if◌then◌else◌}
use vanity_generator_evm_svm.Host.{
  Runtime, World, Host, ◌>>◌, give, guard, modify, valid_id, call, same, le_bytes, Symbols, Call,
  set_device, malloc, copy_to_device, copy_to_symbol, launch, synchronize, get_last_error,
  copy_from_device, copy_from_symbol,
}
use vanity_generator_evm_svm.Host.Rounds.{
  Request, out_offset, eth_buffer_size, mark_sol, vanity_cleanup,
}
use vanity_generator_evm_svm.Earlier.{
  unchecked, copied_in, symbols_set, copied_out, symbol_read, allocated, kernel_run,
}

module _ (runtime : Runtime) where
  -- A call that is checked at once, with a plain return.
  abbrev pub tried : Call → (World → World) → Host (Unit {0})
  tried c effect = call runtime c (pos 0) effect

  abbrev pub tried_in : ℕ → List ℕ → Host (Unit {0})
  tried_in offset bytes =
      tried (copy_to_device offset (length bytes)) (copied_in runtime offset bytes)

  abbrev pub tried_symbol : (Symbols → Symbols) → Host (Unit {0})
  tried_symbol f = tried copy_to_symbol (symbols_set runtime f)

  -- The allocation of the persistent buffer, on the first round of a GPU.
  unfoldable pub open_optimized : Host (Unit {0})
  open_optimized w =
      if w.device.initialized
      then give tt w
      else (do
        tried set_device same
        modify (λ d. record d { buffer_size = eth_buffer_size })
        tried (malloc eth_buffer_size) (allocated runtime eth_buffer_size)
        modify mark_sol)
          w

  unfoldable pub upload_optimized : Request → Host (Unit {0})
  upload_optimized q = do
    tried_in 0 q.seed
    tried_in 32 (le_bytes 8 (length q.target))
    tried_in 40 q.target
    tried_in (40 + length q.target) (le_bytes 8 (length q.suffix))
    tried_in (40 + length q.target + 8) q.suffix
    tried_symbol (λ s. record s { done = 0 })
    tried_symbol (λ s. record s { count = 0 })
    tried_in (out_offset q) (replicate 137 0)

  -- The launch is not checked itself, but the wait and the last error are.
  unfoldable pub launch_optimized : Host (Unit {0})
  launch_optimized = do
    unchecked runtime (launch 256) (kernel_run runtime 8192 256)
    tried synchronize same
    tried get_last_error same

  unfoldable pub report_optimized : Request → Host ℤ
  report_optimized q = do
    tried (copy_from_device (out_offset q) 137) (copied_out runtime (out_offset q) 137)
    tried copy_from_symbol (symbol_read runtime 137 8 (λ s. s.count))
    tried copy_from_symbol (symbol_read runtime 145 4 (λ s. s.done))
    give (pos 0)

  unfoldable pub eth_vanity_round_optimized : Request → Host ℤ
  eth_vanity_round_optimized q = do
    guard (valid_id q.id) (pos 0)
    open_optimized
    tried set_device same
    upload_optimized q
    launch_optimized
    report_optimized q

-- `eth_vanity_cleanup`, which is the clean-up of kernels/sol_vanity_optimized.cu with other names.
unfoldable pub eth_vanity_cleanup : ℤ → World → World
eth_vanity_cleanup = vanity_cleanup
