-- ===== src/Host.antt =====
-- The host side of a search: the calls of the CUDA runtime that `sol_vanity_round_optimized`
-- (kernels/sol_vanity_optimized.cu) and `eth_vanity_round_ultra` (kernels/eth_vanity_ultra.cu) make
-- for one GPU. What the runtime answers and what a launched kernel leaves are parameters.
pub mod Rounds
pub mod Hoare
pub mod Steps
pub mod Opening
pub mod Copies
pub mod Stages
pub mod Layout
pub mod Upload
pub mod Served
pub mod Launch
pub mod Memory
pub mod Reading
pub mod Written
pub mod Sol
pub mod Eth
pub mod Cleanup
use vanity_generator_evm_svm.Common.{
  ℕ, zero, suc, ◌+◌, ◌*◌, ◌/◌, ◌%◌, Bool, true, false, List, [], ◌∷◌, ◌++◌, length, take, drop,
}
use vanity_generator_evm_svm.Common.{ltb, leb, if◌then◌else◌, ℤ, pos, negsuc, u8}
use vanity_generator_evm_svm.Setup.{
  Attributes, Occupancy, Selected, threads, invalid_configuration, runtime_error,
  vanity_launch_threads,
}

pub data Status : Type 0 where
  success : Status
  launch_out_of_resources : Status
  failure : ℕ → Status

-- A call of the runtime, with the place and the length of what is copied.
pub data Call : Type 0 where
  get_device_count : Call
  set_device : Call
  malloc : (size : ℕ) → Call
  copy_to_device : (offset : ℕ) → (length : ℕ) → Call
  copy_to_symbol : Call
  launch : (threads : ℕ) → Call
  synchronize : Call
  get_last_error : Call
  copy_from_device : (offset : ℕ) → (length : ℕ) → Call
  copy_from_symbol : Call
  free : Call

-- The `__device__` variables of a kernel.
pub record Symbols : Type 0 where
  pub done : ℕ
  pub count : ℕ
  pub full_encodes : ℕ
  pub case_insensitive : Bool

-- One GPU: its entry of the table of contexts, the bytes of its buffer, and its symbols. The launch
-- settings stand in the Ethereum context only.
pub record Device : Type 0 where
  pub initialized : Bool
  pub buffer_size : ℕ
  pub memory : List ℕ
  pub num_blocks : ℕ
  pub num_threads : ℕ
  pub iterations_per_thread : ℕ
  pub symbols : Symbols

-- What the host cannot know: the answer to the last call, from the calls so far, the latest first;
-- the bytes of fresh memory; what the runtime tells of the kernel; and what the kernel leaves.
pub record Runtime : Type 0 where
  pub answer : List Call → Status
  pub fresh : ℕ → List ℕ
  pub attributes : Attributes
  pub occupancy : ℕ → Occupancy
  pub run_kernel : (blocks threads iterations : ℕ) → Device → Device

-- The GPU, the calls made, and the bytes at `out`.
pub record World : Type 0 where
  pub device : Device
  pub calls : List Call
  pub out : List ℕ

-- A host function goes on with a value, or has returned a code.
pub data Outcome {ℓ} (A : Type ℓ) : Type ℓ where
  going : A → Outcome A
  returned : ℤ → Outcome A

abbrev pub Host {ℓ} : Type ℓ → Type ℓ
Host A = World → Outcome A × World

infixl 5 ◌>>=◌ ◌>>◌
abbrev pub ◌>>=◌ {ℓ κ} : {A : Type ℓ} {B : Type κ} → Host A → (A → Host B) → Host B
◌>>=◌ m f w = let (o, w') = m w in elim o [ going a ↦ f a w' | returned c ↦ (returned c, w') ]

abbrev pub ◌>>◌ {ℓ} : {B : Type ℓ} → Host (Unit {0}) → Host B → Host B
m >> k = m >>= λ _. k

abbrev pub give {ℓ} : {A : Type ℓ} → A → Host A
give a w = (going a, w)

abbrev pub guard : Bool → ℤ → Host (Unit {0})
guard test code w = if test then (going tt, w) else (returned code, w)

abbrev pub modify : (Device → Device) → Host (Unit {0})
modify f w = (going tt, record w { device = f w.device })

abbrev pub is_success : Status → Bool
is_success success = true
is_success _ = false

-- `memcpy` of some bytes to an offset of an area that holds them.
unfoldable pub write_at : ℕ → List ℕ → List ℕ → List ℕ
write_at offset bytes area = take offset area ++ (bytes ++ drop (offset + length bytes) area)

-- The `n` bytes of a number in little-endian order.
unfoldable pub le_bytes : ℕ → ℕ → List ℕ
le_bytes zero v = []
le_bytes (suc n) v = u8 v ∷ le_bytes n (v / 256)

-- `id < 0 || id >= 16` is the invalid case.
unfoldable pub valid_id : ℤ → Bool
valid_id (pos n) = ltb n 16
valid_id (negsuc n) = false

-- A call that changes nothing that the model keeps.
abbrev pub same : World → World
same w = w

module _ (runtime : Runtime) where
  open runtime use {answer, fresh, attributes, occupancy, run_kernel}

  -- A call that is checked at once: its effect, or the return of a code.
  unfoldable pub call : Call → ℤ → (World → World) → Host (Unit {0})
  call c code effect w =
      let calls = c ∷ w.calls in
      let after : World = record w { calls = calls } in
      if is_success (answer calls) then (going tt, effect after) else (returned code, after)

  -- `cudaMemcpy` to the buffer.
  abbrev pub copy_in : ℕ → List ℕ → Host (Unit {0})
  copy_in offset bytes = call (copy_to_device offset (length bytes)) (negsuc 3) (λ w. record w {
    device = record w.device { memory = write_at offset bytes w.device.memory };
  })

  -- `cudaMemcpyToSymbol`.
  abbrev pub set_symbol : (Symbols → Symbols) → Host (Unit {0})
  set_symbol f =
      call copy_to_symbol (negsuc 3)
        (λ w. record w { device = record w.device { symbols = f w.device.symbols } })

  -- `cudaMemcpy` of `n` bytes at an offset of the buffer to the beginning of `out`.
  abbrev pub copy_out : ℕ → ℕ → Host (Unit {0})
  copy_out offset n =
      call (copy_from_device offset n) (negsuc 3)
        (λ w. record w { out = write_at 0 (take n (drop offset w.device.memory)) w.out })

  -- `cudaMemcpyFromSymbol` of `n` bytes to an offset of `out`.
  abbrev pub read_symbol : ℕ → ℕ → (Symbols → ℕ) → Host (Unit {0})
  read_symbol at n f =
      call copy_from_symbol (negsuc 3)
        (λ w. record w { out = write_at at (le_bytes n (f w.device.symbols)) w.out })

  -- What the round makes of the selection: the threads, or the return of -6.
  abbrev pub chosen : Selected → Host ℕ
  chosen (threads n) w = (going n, w)
  chosen invalid_configuration w = (returned (negsuc 5), w)
  chosen (runtime_error e) w = (returned (negsuc 5), w)
  chosen Selected.launch_out_of_resources w = (returned (negsuc 5), w)

  unfoldable pub select_threads : ℕ → Host ℕ
  select_threads num_threads = chosen (vanity_launch_threads occupancy attributes num_threads)

  -- What the round makes of a launch: the kernel has run, or the launch is tried again, or -6.
  abbrev pub launched :
      Status
      → (n : ℕ) → (ran after : World) → (again : Outcome (Unit {0}) × World)
      → Outcome (Unit {0}) × World
  launched success n ran after again = (going tt, ran)
  launched launch_out_of_resources n ran after again =
      if ltb 1 n then again else (returned (negsuc 5), after)
  launched (failure e) n ran after again = (returned (negsuc 5), after)

  -- The `for (;;)` around the launch, on fuel: a launch that the device rejects for its resources has
  -- done no work, and is tried again with half of the threads.
  unfoldable pub launch_loop : ℕ → ℕ → ℕ → ℕ → Host (Unit {0})
  launch_loop zero blocks iterations n w = (returned (negsuc 5), w)
  launch_loop (suc fuel) blocks iterations n w =
      let calls = launch n ∷ w.calls in
      let after : World = record w { calls = calls } in
      let ran : World = record after { device = run_kernel blocks n iterations w.device } in
      launched (answer calls) n ran after (launch_loop fuel blocks iterations (n / 2) after)
