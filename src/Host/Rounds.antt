-- ===== src/Host/Rounds.antt =====
-- `sol_vanity_round_optimized` and `sol_vanity_cleanup` of kernels/sol_vanity_optimized.cu, and
-- `eth_vanity_round_ultra` and `eth_vanity_cleanup_ultra` of kernels/eth_vanity_ultra.cu.
use vanity_generator_evm_svm.Common.{
  ℕ, ◌+◌, Bool, true, false, List, [], length, replicate, ℤ, pos, negsuc, ◌&&◌, if◌then◌else◌,
}
use vanity_generator_evm_svm.Host.{
  Runtime, Device, World, Host, ◌>>=◌, ◌>>◌, give, guard, modify, call, same, set_device, malloc,
}
use vanity_generator_evm_svm.Host.{
  copy_in, set_symbol, copy_out, read_symbol, select_threads, launch_loop, synchronize, le_bytes,
}
use vanity_generator_evm_svm.Host.{valid_id, free, ◌∷◌}

-- The arguments of a round that both kernels share.
pub record Request : Type 0 where
  pub id : ℤ
  pub seed : List ℕ
  pub target : List ℕ
  pub suffix : List ℕ
  pub case_insensitive : Bool
  pub num_blocks : ℕ
  pub num_threads : ℕ
  pub iterations_per_thread : ℕ

-- The marks that a context is open; the Ethereum context also keeps the launch settings.
abbrev pub mark_sol : Device → Device
mark_sol d = record d { initialized = true }

abbrev pub mark_eth : Request → Device → Device
mark_eth q d = record d {
  num_blocks = q.num_blocks;
  num_threads = q.num_threads;
  iterations_per_thread = q.iterations_per_thread;
  initialized = true;
}

-- The place of the output in the buffer.
abbrev pub out_offset : Request → ℕ
out_offset q = 40 + length q.target + length q.suffix + 8

-- The sizes of the buffers.
abbrev pub sol_buffer_size : ℕ
sol_buffer_size = 32 + 8 + 256 + 8 + 256 + 172

abbrev pub eth_buffer_size : ℕ
eth_buffer_size = 32 + 8 + 256 + 8 + 256 + 137

module _ (runtime : Runtime) where
  -- The allocation of the persistent buffer, on the first round of a GPU.
  unfoldable pub allocate : ℕ → Host (Unit {0})
  allocate size = do
    call runtime set_device (negsuc 1) same
    modify (λ d. record d { buffer_size = size })
    call runtime (malloc size) (negsuc 2)
        (λ w. record w { device = record w.device { memory = runtime.fresh size } })

  unfoldable pub open_sol : ℕ → Host (Unit {0})
  open_sol size w =
      if w.device.initialized then (give tt w) else (do allocate size; modify mark_sol) w

  unfoldable pub open_eth : Request → ℕ → Host (Unit {0})
  open_eth q size w =
      if w.device.initialized then (give tt w) else (do allocate size; modify (mark_eth q)) w

  -- The copies of the seed, the patterns and their lengths.
  unfoldable pub upload : Request → Host (Unit {0})
  upload q = do
    copy_in runtime 0 q.seed
    copy_in runtime 32 (le_bytes 8 (length q.target))
    copy_in runtime 40 q.target
    copy_in runtime (40 + length q.target) (le_bytes 8 (length q.suffix))
    copy_in runtime (40 + length q.target + 8) q.suffix

  -- Choosing the threads, the launch, and waiting for the kernel.
  unfoldable pub run_search : Request → Host (Unit {0})
  run_search q = do
    n ← select_threads runtime q.num_threads
    launch_loop runtime n q.num_blocks q.iterations_per_thread n
    call runtime synchronize (negsuc 4) same

  unfoldable pub sol_vanity_round_optimized : Request → Host ℤ
  sol_vanity_round_optimized q = do
    guard (valid_id q.id) (negsuc 0)
    open_sol sol_buffer_size
    call runtime set_device (negsuc 1) same
    upload q
    set_symbol runtime (λ s. record s { case_insensitive = q.case_insensitive })
    set_symbol runtime (λ s. record s { done = 0 })
    set_symbol runtime (λ s. record s { count = 0 })
    set_symbol runtime (λ s. record s { full_encodes = 0 })
    copy_in runtime (out_offset q) (replicate 172 0)
    run_search q
    copy_out runtime (out_offset q) 172
    read_symbol runtime 172 8 (λ s. s.count)
    read_symbol runtime 180 8 (λ s. s.full_encodes)
    read_symbol runtime 188 4 (λ s. s.done)
    give (pos 0)

  unfoldable pub eth_vanity_round_ultra : Request → Host ℤ
  eth_vanity_round_ultra q = do
    guard (valid_id q.id) (negsuc 0)
    open_eth q eth_buffer_size
    call runtime set_device (negsuc 1) same
    upload q
    set_symbol runtime (λ s. record s { done = 0 })
    set_symbol runtime (λ s. record s { count = 0 })
    copy_in runtime (out_offset q) (replicate 137 0)
    run_search q
    copy_out runtime (out_offset q) 137
    read_symbol runtime 137 8 (λ s. s.count)
    read_symbol runtime 145 4 (λ s. s.done)
    give (pos 0)

-- `sol_vanity_cleanup` and `eth_vanity_cleanup_ultra`, whose calls nobody checks.
unfoldable pub vanity_cleanup : ℤ → World → World
vanity_cleanup id w =
    if valid_id id && w.device.initialized
    then record w {
      device = record w.device { memory = []; initialized = false };
      calls = free ∷ set_device ∷ w.calls;
    }
    else w
