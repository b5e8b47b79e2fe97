-- ===== src/Lib.antt =====
-- The kernels of the vanity address generator, modelled and proved. The program searches on GPUs
-- for a key pair whose Solana or Ethereum address begins and ends with given characters. Its host
-- program, in Rust, launches rounds of one of two kernels; in a round, every GPU thread draws keys
-- from its own ChaCha20 stream, derives an address from each, and compares it with the patterns;
-- the first thread to find a match raises a flag on the device and writes its result to the output
-- area; the others see the flag every 64 candidates and return. This library is about the code of
-- kernels/, on the device and on the host. The parts and their files:
--
-- - Common and its children: the names and helpers that the models share, Boolean tests, lists
--   over the native numbers, and machine words. A 32-bit or 64-bit operation is written with its
--   wrap-around.
-- - Base58: kernels/base58_simple.cu, simple_base58_encode_32 and simple_base58_suffix_32, and the
--   reference encoder of kernels/test_primitives.cu. A key is the list of its 32 bytes. The
--   division loop of the encoder runs on fuel 10, for at most nine passes: a number below 2 ^ 256
--   has at most 44 digits, and a pass takes five.
-- - Match: matches_target_sol_opt of kernels/sol_vanity_optimized.cu, matches_target_eth_ultra and
--   address_to_hex_ultra of kernels/eth_vanity_ultra.cu, and the prefilter
--   base58_suffix_match_mod_32 of kernels/base58_simple.cu. A pattern is a list of character
--   codes, passed with its length as in the source.
-- - Search: what sol_vanity_search_optimized and eth_vanity_search_ultra share, the loop of a
--   thread with its atomics on the device globals. A kernel is a record of its local state, the
--   test of a candidate and the step to the next one. A thread goes from atomic to atomic, and any
--   number of threads take their steps in any order (Search/System). The write of the output area
--   is one step after the atomic that wins it. Search/Schedule finds an order of turns to the end
--   from every state.
-- - Rng: kernels/chacha_rng.h, the block function and the generator ChaChaRng. Rng/Reference is
--   ChaCha20 written down apart from it, after RFC 8439, with words as numbers and the state as a
--   matrix.
-- - Sol: kernels/sol_vanity_optimized.cu, the key pair and the candidate of one iteration, as an
--   instance of Search. SHA-512 and the curve, a copy of another project in kernels/ed25519, are
--   the parameters of the record Ed25519; that a public key has 32 bytes is a hypothesis.
--   Sol/Launch says what one launch of the kernel leaves on a device, Sol/Round what the host
--   round copies of it, and Sol/Answer puts round and kernel together: a runtime that launches the
--   kernel is the hypothesis LaunchesSol.
-- - Eth: kernels/eth_vanity_ultra.cu, the drawing of the first key, the walk through its
--   successors and the candidate, as an instance of Search. The drawing loop runs on fuel, since
--   nothing bounds its number of rounds; fuel above the number of the first chunk that is not
--   rejected is enough. The curve arithmetic and the Keccak address are the interface Curve of
--   Eth, with the laws CurveLaws of Eth/Walk: the batch law is the documented contract of
--   secp256k1_public_add_batch in kernels/secp256k1.h. Eth/Launch, Eth/Round and Eth/Answer put
--   round and kernel together as for Solana, for seeds from which all requested threads leave the
--   drawing loop within the fuel.
-- - Secp: kernels/secp256k1_mrspike.cu, affine point arithmetic, the byte form of points, scalar
--   multiplication, and the table and the batch addition with one inversion. The field operations
--   of kernels/eth_math_working.h are the parameters of the record FieldOps, with the laws
--   FieldLaws of Secp/Batch. The two loops of the batch are one recursion over the table: the
--   products on the way in, the points on the way out. That the points of the curve form a group
--   is not proved: the multiples of a point are the record Multiples of Secp/Multiply, and the
--   batch law of Eth stays a hypothesis there.
-- - Setup: gcd and gpu_init of kernels/utils.cu, and vanity_launch_threads of
--   kernels/launch_config.cuh; cuda_init of kernels/cuda_init.cu and get_gpu_config of
--   kernels/gpu_config.cu. The loop runs on fuel, the request itself, which halving uses up no
--   faster than counting down; gcd runs on fuel from its first argument on, which each call
--   lowers. The numbers of type int are ℕ here, so that num_blocks and optimal_blocks are those of
--   the source as long as nothing overflows. The answers of the CUDA runtime are arguments.
-- - Host: the rounds sol_vanity_round_optimized and eth_vanity_round_ultra with their clean-up
--   functions, on one GPU, as steps of a monad of state and return codes. A call of the CUDA
--   runtime is logged with the place and length of its copy; its answer, the bytes of fresh memory
--   and what the kernel leaves are fields of Runtime. The launch loop runs on fuel, the number of
--   threads, which every round of the loop halves. Host/Layout has the kernel's reading of the
--   buffer, Host/Written what the winner leaves in it, Host/Hoare the rules of reasoning.
-- - Earlier: the earlier versions of the searches, which build.rs leaves out: the generator
--   XorShift128+ (Earlier/XorShift), the searches eth_vanity_search of kernels/eth_vanity.cu and
--   eth_vanity_search_optimized of kernels/eth_vanity_optimized.cu as instances of Search
--   (Earlier/Kernel), and the rounds eth_vanity_round, keypair_vanity_round of
--   kernels/ed25519_vanity.cu and vanity_round of kernels/vanity.cu (Earlier/Rounds), with the
--   buffers that they take and give back, and the round eth_vanity_round_optimized with
--   eth_vanity_cleanup (Earlier/Persistent), whose buffer stays open. The state of a GPU that
--   another thread starts is an argument of the round, the end of its spin wait another one; the
--   properties that gpu_init asks for are taken to be known.
-- - Keccak: kernels/keccak256.cu, the permutation keccak_f1600 as it is written and the sponge of
--   keccak256. The absorb loop runs on fuel, one more than the length of the input, since every
--   round of it takes a byte at least.
-- - Production: kernels/eth_vanity_production.cu, which build.rs leaves out: the scores of
--   addresses, the two kernels with one inversion for a table of points, the atomics on the result
--   globals, and the host functions. The operations of kernels/eth_math.h are the fields of
--   EthMath, with the laws InverseLaws of Production/Inverses. The threads of the first kernel run
--   one after another, in any order; the atomics of the second one are taken in any interleaving.
--   Production/Memory counts the frees of what is not allocated.
-- - Tests: runs at concrete inputs, among them the vector of RFC 8439, and each theorem at an
--   input that meets its hypotheses.
--
-- Not modelled: the copies of other projects (kernels/ed25519, kernels/sha256.cu,
-- kernels/keccak256_mrspike.h, kernels/eth_math_working.h, kernels/eth_math.h, kernels/base58.cu),
-- which are parameters where the kernels call them; of the earlier versions the kernels of
-- kernels/vanity.cu, which is made of such copies, and of kernels/ed25519_vanity.cu; and the Rust
-- program. The memory of the device is taken to be sequentially consistent, and what a match leaves
-- behind the text in the 44-byte address field is not described.
pub mod Common
pub mod Base58
pub mod Match
pub mod Search
pub mod Rng
pub mod Sol
pub mod Eth
pub mod Secp
pub mod Setup
pub mod Host
pub mod Earlier
pub mod Keccak
pub mod Production
pub mod Tests
