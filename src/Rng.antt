-- ===== src/Rng.antt =====
-- kernels/chacha_rng.h: the ChaCha20 block function and the generator `ChaChaRng` that gives each
-- thread of a launch its own stream of 32-byte chunks. A state is the list of its sixteen words.
pub mod Reference
pub mod Rounds
pub mod Stream
pub mod KeyStream
pub mod Bytes
use vanity_generator_evm_svm.Common.{ℕ, zero, suc, ◌+◌, ◌-◌, ◌*◌, ◌/◌, ◌%◌, ◌^◌, bit_or, bit_xor}
use vanity_generator_evm_svm.Common.{
  List, [], ◌∷◌, ◌++◌, u8, u32, ◌<<<◌, ◌>>>◌, get_or, set, replicate,
}
use vanity_generator_evm_svm.Common.{◌==◌, if◌then◌else◌}

unfoldable pub chacha_rotl : ℕ → ℕ → ℕ
chacha_rotl x n = bit_or (u32 (x <<< n)) (x >>> (32 - n))

-- The four words that a quarter round works on.
pub record Quad : Type 0 where
  pub a : ℕ
  pub b : ℕ
  pub c : ℕ
  pub d : ℕ

-- `a += b; d = chacha_rotl(d ^ a, n);`
unfoldable pub mix_ad : ℕ → Quad → Quad
mix_ad n q =
    let sum = u32 (q.a + q.b) in
    record { a = sum; b = q.b; c = q.c; d = chacha_rotl (bit_xor q.d sum) n }

-- `c += d; b = chacha_rotl(b ^ c, n);`
unfoldable pub mix_cb : ℕ → Quad → Quad
mix_cb n q =
    let sum = u32 (q.c + q.d) in
    record { a = q.a; b = chacha_rotl (bit_xor q.b sum) n; c = sum; d = q.d }

unfoldable pub chacha_qr : Quad → Quad
chacha_qr q = mix_cb 7 (mix_ad 8 (mix_cb 12 (mix_ad 16 q)))

-- `chacha_qr(out[i], out[j], out[k], out[l])`
unfoldable pub qr_at : ℕ → ℕ → ℕ → ℕ → List ℕ → List ℕ
qr_at i j k l out =
    let q =
      chacha_qr (record {
        a = get_or out i 0;
        b = get_or out j 0;
        c = get_or out k 0;
        d = get_or out l 0;
      }) in
    set (set (set (set out i q.a) j q.b) k q.c) l q.d

-- One pass of the loop: four column and four diagonal quarter rounds.
unfoldable pub double_round : List ℕ → List ℕ
double_round out =
    let columns = qr_at 3 7 11 15 (qr_at 2 6 10 14 (qr_at 1 5 9 13 (qr_at 0 4 8 12 out))) in
    qr_at 3 4 9 14 (qr_at 2 7 8 13 (qr_at 1 6 11 12 (qr_at 0 5 10 15 columns)))

unfoldable pub rounds : ℕ → List ℕ → List ℕ
rounds zero out = out
rounds (suc n) out = rounds n (double_round out)

-- `out[i] += state[i]`
unfoldable pub add_words : List ℕ → List ℕ → List ℕ
add_words (x ∷ xs) (y ∷ ys) = u32 (x + y) ∷ add_words xs ys
add_words _ _ = []

unfoldable pub chacha_block : List ℕ → List ℕ
chacha_block state = add_words (rounds 10 state) state

pub record ChaChaRng : Type 0 where
  pub state : List ℕ
  pub words : List ℕ
  pub offset : ℕ

-- Word `i` of the key, of four bytes in little-endian order.
unfoldable pub key_word : List ℕ → ℕ → ℕ
key_word key i =
    bit_or
      (bit_or (bit_or (get_or key (4 * i) 0) (get_or key (4 * i + 1) 0 <<< 8))
        (get_or key (4 * i + 2) 0 <<< 16))
      (get_or key (4 * i + 3) 0 <<< 24)

-- The sixteen words of `state`, the counter in words 12 and 13.
unfoldable pub state_words : List ℕ → ℕ → ℕ → ℕ → List ℕ
state_words key stream low high =
    0x61707865
    ∷ 0x3320646e
    ∷ 0x79622d32
    ∷ 0x6b206574
    ∷ key_word key 0
    ∷ key_word key 1
    ∷ key_word key 2
    ∷ key_word key 3
    ∷ key_word key 4
    ∷ key_word key 5
    ∷ key_word key 6
    ∷ key_word key 7
    ∷ low
    ∷ high
    ∷ u32 stream
    ∷ u32 (stream >>> 32)
    ∷ []

-- The constructor of `ChaChaRng`; `words` is not read before the first block.
unfoldable pub init_rng : List ℕ → ℕ → ChaChaRng
init_rng key stream = record {
  state = state_words key stream 0 0;
  words = replicate 16 0;
  offset = 16;
}

-- `if (++state[12] == 0) ++state[13];`
unfoldable pub tick : List ℕ → List ℕ
tick state =
    let low = u32 (get_or state 12 0 + 1) in
    if low == 0 then set (set state 12 low) 13 (u32 (get_or state 13 0 + 1)) else set state 12 low

-- The eight words from `offset` on, each as four bytes in little-endian order.
unfoldable pub write_words : ℕ → List ℕ → ℕ → List ℕ
write_words zero words offset = []
write_words (suc n) words offset =
    let w = get_or words offset 0 in
    u8 w ∷ u8 (w >>> 8) ∷ u8 (w >>> 16) ∷ u8 (w >>> 24) ∷ write_words n words (offset + 1)

-- The refill at the head of `next32`.
unfoldable pub refill : ChaChaRng → ChaChaRng
refill rng =
    if rng.offset == 16
    then record { state = tick rng.state; words = chacha_block rng.state; offset = 0 }
    else rng

unfoldable pub next32 : ChaChaRng → List ℕ × ChaChaRng
next32 rng =
    let ready = refill rng in
    (write_words 8 ready.words ready.offset, record ready { offset = ready.offset + 8 })
