-- ===== src/Tests/Production.antt =====
-- Scores, an allocation that fails half-way, and a launch over a field of one number.
use vanity_generator_evm_svm.Common.{
  ℕ, ◌+◌, ◌*◌, ◌≡◌, ◌↔◌, refl, sym, arith, true, false, ◌==◌, not,
}
use vanity_generator_evm_svm.Common.{
  none, List, [], ◌∷◌, ◌++◌, length, replicate, length-replicate, drop, map, All, pos,
}
use vanity_generator_evm_svm.Match.{matches_target_eth_ultra}
use vanity_generator_evm_svm.Host.{going}
use vanity_generator_evm_svm.Secp.{Uint256, uint256, CurvePoint, point, write_word}
use vanity_generator_evm_svm.Keccak.{keccak256}
use vanity_generator_evm_svm.Production.Score.{
  Address, Pattern, nibble_to_hex, address_bytes, hex_of, fold_hex, matches, prefix_score,
  suffix_score, score_address,
}
use vanity_generator_evm_svm.Production.Address.{
  pack_coordinate, calculate_ethereum_address, score_address-point,
}
use vanity_generator_evm_svm.Production.Grid.{EthMath, Atomic, entry, unset, gpu_address_work}
use vanity_generator_evm_svm.Production.Inverses.{InverseLaws, Apart}
use vanity_generator_evm_svm.Production.Order.{Shuffle, ended, left, right, Shuffles}
use vanity_generator_evm_svm.Production.Memory.{
  Grid, up_to, eth_gpu_allocate_memory, eth_gpu_cleanup, eth_gpu_launch_kernels,
}
use vanity_generator_evm_svm.Production.Cleanup.{IsCleaned, eth_gpu_cleanup-allocate}
use vanity_generator_evm_svm.Production.Launch.{
  started, IsLaunched, eth_gpu_launch_kernels-IsLaunched,
}

abbrev wanted : Pattern
wanted = record {
  prefix = b'0' ∷ (b'A' ∷ []);
  suffix = b'f' ∷ (b'f' ∷ []);
  prefix_len = 2;
  suffix_len = 2;
  case_sensitive = true;
}

-- 0a...efff: with regard to case, one character of the prefix and both of the suffix.
abbrev near : Address
near = record { a = 0x0A000000; b = 0; c = 0; d = 0; e = 0xEFFF }

score_near : score_address wanted near true ≡ 3000
unfolding score_address prefix_score suffix_score address_bytes write_word hex_of nibble_to_hex
    matches fold_hex
score_near = refl

score_near_folded : score_address wanted near false ≡ 4000
unfolding score_address prefix_score suffix_score address_bytes write_word hex_of nibble_to_hex
    matches fold_hex
score_near_folded = refl

abbrev five : Uint256
five = uint256 5 0 0 0 0 0 0 0

score_address-point_example :
    (score_address wanted (calculate_ethereum_address five five) true
      ≡ 1000 * (length wanted.prefix + length wanted.suffix))
    ↔ (matches_target_eth_ultra
          (drop 12 (keccak256 (pack_coordinate five ++ pack_coordinate five)))
          wanted.prefix
          (length wanted.prefix)
          wanted.suffix
          (length wanted.suffix)
        ≡ true)
score_address-point_example =
    score_address-point wanted five five refl refl (omega arith) (omega arith)

-- A field in which every number is five.
abbrev math : EthMath
math = record {
  sub_256 = λ x y. five;
  sub_256_mod_p = λ x y. five;
  mul_256_mod_p = λ x y. five;
  eeuclid_256_mod_p = λ x. five;
}

unfoldable laws : InverseLaws math
laws = record {
  Invertible = λ x. x ≡ five;
  one = five;
  one-Invertible = refl;
  mul-Invertible = λ x y hx hy. refl;
  inverse-Invertible = λ x hx. refl;
  mul_assoc = λ x y z hx hy hz. refl;
  mul_comm = λ x y hx hy. refl;
  one-mul = λ x hx. sym hx;
  mul_inverse = λ x hx. refl;
}

always_Apart : (p : CurvePoint) (table : List CurvePoint) (n : ℕ) → Apart math laws p table n
unfolding laws
always_Apart p table n i le = refl

-- Room for 256 threads of the first kernel.
unfoldable room : List CurvePoint
room = replicate 65536 unset

length-room : length room ≡ 65536
unfolding room
length-room = length-replicate 65536 unset

abbrev fresh : Grid
fresh = record {
  d_block_offsets = none;
  d_offsets = none;
  live = 1 ∷ [];
  following = 2;
  bad_frees = 0;
  block_offsets = [];
  offsets = room;
  thread_offsets = point five five ∷ [];
  addends = point five five ∷ [];
  pattern = wanted;
  results = record { max_score = 0; found_count = 0; found_key = []; found_address = []; done = 0 };
}

-- The second call fails.
eth_gpu_cleanup-allocate_example :
    IsCleaned (1 ∷ []) 1 (eth_gpu_cleanup (eth_gpu_allocate_memory (λ k. not (k == 1)) fresh).1)
eth_gpu_cleanup-allocate_example =
    eth_gpu_cleanup-allocate (λ k. not (k == 1)) fresh refl refl (omega arith, tt)

-- The threads one after another, as one interleaving.
in_sequence : List (List Atomic) → List Atomic
in_sequence [] = []
in_sequence (xs ∷ xss) = xs ++ in_sequence xss

Shuffle-append : (xs ys : List Atomic) → Shuffle xs ys (xs ++ ys)
Shuffle-append [] [] = ended
Shuffle-append [] (y ∷ ys) = right (Shuffle-append [] ys)
Shuffle-append (x ∷ xs) ys = left (Shuffle-append xs ys)

Shuffles-in_sequence : (xss : List (List Atomic)) → Shuffles xss (in_sequence xss)
unfolding in_sequence
Shuffles-in_sequence [] = refl
Shuffles-in_sequence (xs ∷ xss) =
    (in_sequence xss, Shuffles-in_sequence xss, Shuffle-append xs (in_sequence xss))

everywhere :
    (points table : List CurvePoint) (ts : List ℕ)
    → All (λ t. Apart math laws (entry points t) table 254) ts
everywhere points table [] = tt
everywhere points table (t ∷ ts) =
    (always_Apart (entry points t) table 254, everywhere points table ts)

abbrev host : List CurvePoint
host = point five five ∷ []

unfoldable order : List Atomic
order = in_sequence (
    map (gpu_address_work math wanted 0 fresh.addends (started math laws fresh host 256))
      (up_to (256 * 256)))

Shuffles-order :
    Shuffles
      (map
        (gpu_address_work math wanted 0 fresh.addends (started math laws fresh host 256))
        (up_to (256 * 256)))
      order
unfolding order
Shuffles-order = Shuffles-in_sequence (
    map (gpu_address_work math wanted 0 fresh.addends (started math laws fresh host 256))
      (up_to (256 * 256)))

eth_gpu_launch_kernels-IsLaunched_example :
    (after : Grid) × (eth_gpu_launch_kernels (λ k. true) math host 256 order fresh
      ≡ (going (pos 0), after))
    × IsLaunched math laws fresh host 256 after
eth_gpu_launch_kernels-IsLaunched_example =
    eth_gpu_launch_kernels-IsLaunched math laws fresh host 256 (λ k. true) order (λ k. refl) refl
      (omega (arith, length-room)) (omega arith) refl
      (λ t lt. always_Apart (entry host t) fresh.thread_offsets 255)
      (everywhere (started math laws fresh host 256) fresh.addends (up_to (256 * 256)))
      Shuffles-order
