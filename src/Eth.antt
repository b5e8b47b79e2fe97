-- ===== src/Eth.antt =====
-- kernels/eth_vanity_ultra.cu, the device side: each thread draws a private key, walks through its
-- successors with the public keys that `secp256k1_public_add_batch` prepares, and tests addresses.
pub mod Draw
pub mod Increment
pub mod Walk
pub mod Report
pub mod Launch
pub mod Round
pub mod Answer
use vanity_generator_evm_svm.Common.{
  ℕ, zero, suc, ◌+◌, ◌-◌, ◌*◌, ◌%◌, ◌^◌, ◌<◌, ◌≡◌, Bool, true, false, Option, none, some,
}
use vanity_generator_evm_svm.Common.{
  List, [], ◌∷◌, ◌++◌, reverse, length, get_or, be32, All, IsByte, u8, u32, ◌>>>◌, bit_and,
}
use vanity_generator_evm_svm.Common.{◌==◌, if◌then◌else◌, not, ◌||◌}
use vanity_generator_evm_svm.Base58.Digits.{value_from}
use vanity_generator_evm_svm.Match.{matches_target_eth_ultra, address_to_hex_ultra}
use vanity_generator_evm_svm.Rng.{ChaChaRng, init_rng, next32}
use vanity_generator_evm_svm.Search.{Verdict, missed, hit, Kernel}

-- `nonzero |= local_private[i] != 0` for all bytes.
unfoldable pub nonzero : List ℕ → Bool
nonzero [] = false
nonzero (byte ∷ bytes) = not (byte == 0) || nonzero bytes

-- The condition under which the drawing loop goes round again.
unfoldable pub rejected : List ℕ → Bool
rejected key = not (nonzero key) || get_or key 0 0 == 0xff

-- The `do … while` loop, on fuel.
unfoldable pub draw : ℕ → ChaChaRng → Option (List ℕ)
draw zero rng = none
draw (suc fuel) rng =
    let (key, rest) = next32 rng in
    let again = draw fuel rest in if rejected key then again else some key

-- The carry loop of the increment, over the bytes from the last one up.
unfoldable pub increment_from : ℕ → List ℕ → List ℕ
increment_from carry [] = []
increment_from carry (byte ∷ bytes) =
    let sum = u32 (byte + carry) in
    let carried = bit_and (sum >>> 8) 1 in
    let rest = increment_from carried bytes in
    bit_and sum 0xFF ∷ (if carried == 0 then bytes else rest)

unfoldable pub increment : List ℕ → List ℕ
increment key = reverse (increment_from 1 (reverse key))

abbrev pub batch_size : ℕ
batch_size = 32

-- The curve arithmetic of kernels/secp256k1_mrspike.cu and the Keccak address of
-- kernels/keccak256_mrspike.h, as the kernel uses them.
pub record Curve : Type 0 where
  pub get_public_key : List ℕ → List ℕ
  pub public_add_batch : List ℕ → List (List ℕ)
  pub keccak256_address : List ℕ → List ℕ → List ℕ  -- of the words of `x` and of `y`

-- `n` words of a coordinate, from the byte `at` of the public key on.
unfoldable pub coordinate : ℕ → ℕ → List ℕ → List ℕ
coordinate zero at public = []
coordinate (suc n) at public =
    be32 (get_or public at 0) (get_or public (at + 1) 0) (get_or public (at + 2) 0)
      (get_or public (at + 3) 0)
    ∷ coordinate n (at + 4) public

-- The locals that live from one iteration to the next.
pub record Walker : Type 0 where
  pub iter : ℕ
  pub private : List ℕ
  pub public : List ℕ
  pub batch : List (List ℕ)

-- What the winner copies to `out`.
pub record EthResult : Type 0 where
  pub private : List ℕ
  pub public : List ℕ
  pub address_hex : List ℕ

module _ (curve : Curve) where
  open curve use {get_public_key, public_add_batch, keccak256_address}

  -- `secp256k1_get_public_key` on the key that was drawn.
  unfoldable pub first_walker : List ℕ → Walker
  first_walker key = record { iter = 0; private = key; public = get_public_key key; batch = [] }

  -- The address of an uncompressed public key, whose coordinates follow the prefix byte.
  unfoldable pub address_of : List ℕ → List ℕ
  address_of public = keccak256_address (coordinate 8 1 public) (coordinate 8 33 public)

  unfoldable pub test_eth : List ℕ → List ℕ → Walker → Verdict EthResult
  test_eth target suffix w =
      let address = address_of w.public in
      if matches_target_eth_ultra address target (length target) suffix (length suffix)
      then hit (record {
        private = w.private;
        public = w.public;
        address_hex = address_to_hex_ultra address;
      })
      else missed

  -- The next private key, and its public key out of the batch, made afresh when it is used up.
  unfoldable pub advance_eth : Walker → Walker
  advance_eth w =
      let slot = bit_and w.iter (batch_size - 1) in
      let batch = if slot == 0 then public_add_batch w.public else w.batch in
      record {
        iter = w.iter + 1;
        private = increment w.private;
        public = get_or batch slot [];
        batch = batch;
      }

  -- `eth_vanity_search_ultra` counts candidates and has no count of encodings.
  abbrev pub eth_kernel : List ℕ → List ℕ → ℕ → Kernel
  eth_kernel target suffix n = record {
    Local = Walker;
    Hit = EthResult;
    test = test_eth target suffix;
    advance = advance_eth;
    counts_encodes = false;
    polls = λ iter. bit_and iter 0x3F == 0;
    iterations_per_thread = n;
  }
