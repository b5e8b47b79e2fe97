-- ===== src/Rng/Reference.antt =====
-- ChaCha20 with a 64-bit counter and a 64-bit stream number, after RFC 8439, 2.1 to 2.4: words as
-- numbers, the state as the four columns of its matrix, the diagonals as shifted columns. The model
-- of kernels/chacha_rng.h shares the bitwise exclusive or with it, and the record of four words.
use vanity_generator_evm_svm.Common.{ℕ, zero, suc, ◌+◌, ◌-◌, ◌*◌, ◌/◌, ◌%◌, ◌^◌, bit_xor}
use vanity_generator_evm_svm.Common.{List, [], ◌∷◌, get_or, take, drop}
use vanity_generator_evm_svm.Rng.{Quad}

-- Rotation of a 32-bit word to the left by `n` bits: the upper `n` bits come in at the bottom.
unfoldable pub rotate : ℕ → ℕ → ℕ
rotate n x = x % 2 ^ (32 - n) * 2 ^ n + x / 2 ^ (32 - n)

-- `a += b; d ^= a; d <<<= m; c += d; b ^= c; b <<<= n`
unfoldable pub half_quarter : ℕ → ℕ → Quad → Quad
half_quarter m n q =
    let a = (q.a + q.b) % 2 ^ 32 in
    let d = rotate m (bit_xor q.d a) in
    let c = (q.c + d) % 2 ^ 32 in record { a = a; b = rotate n (bit_xor q.b c); c = c; d = d }

unfoldable pub quarter_round : Quad → Quad
quarter_round q = half_quarter 8 7 (half_quarter 16 12 q)

-- The four columns.
pub record Matrix : Type 0 where
  pub first : Quad
  pub second : Quad
  pub third : Quad
  pub fourth : Quad

abbrev pub on_columns : (Quad → Quad) → Matrix → Matrix
on_columns f m = record {
  first = f m.first;
  second = f m.second;
  third = f m.third;
  fourth = f m.fourth;
}

-- The diagonal that begins in the first of four columns.
abbrev pub diagonal : Quad → Quad → Quad → Quad → Quad
diagonal p q r s = record { a = p.a; b = q.b; c = r.c; d = s.d }

-- The diagonals as columns, and back.
abbrev pub shift : Matrix → Matrix
shift m = record {
  first = diagonal m.first m.second m.third m.fourth;
  second = diagonal m.second m.third m.fourth m.first;
  third = diagonal m.third m.fourth m.first m.second;
  fourth = diagonal m.fourth m.first m.second m.third;
}

abbrev pub unshift : Matrix → Matrix
unshift m = record {
  first = diagonal m.first m.fourth m.third m.second;
  second = diagonal m.second m.first m.fourth m.third;
  third = diagonal m.third m.second m.first m.fourth;
  fourth = diagonal m.fourth m.third m.second m.first;
}

-- Two rounds, with a function in the place of the quarter round.
abbrev pub two_rounds : (Quad → Quad) → Matrix → Matrix
two_rounds f m = unshift (on_columns f (shift (on_columns f m)))

unfoldable pub mixed : ℕ → Matrix → Matrix
mixed zero m = m
mixed (suc n) m = mixed n (two_rounds quarter_round m)

abbrev pub add_quads : Quad → Quad → Quad
add_quads p q = record {
  a = (p.a + q.a) % 2 ^ 32;
  b = (p.b + q.b) % 2 ^ 32;
  c = (p.c + q.c) % 2 ^ 32;
  d = (p.d + q.d) % 2 ^ 32;
}

abbrev pub add_matrices : Matrix → Matrix → Matrix
add_matrices m m' = record {
  first = add_quads m.first m'.first;
  second = add_quads m.second m'.second;
  third = add_quads m.third m'.third;
  fourth = add_quads m.fourth m'.fourth;
}

-- Twenty rounds and the sum.
abbrev pub block : Matrix → Matrix
block m = add_matrices (mixed 10 m) m

-- The words row by row.
abbrev pub words_of : Matrix → List ℕ
words_of m =
    m.first.a ∷ m.second.a ∷ m.third.a ∷ m.fourth.a ∷ m.first.b ∷ m.second.b ∷ m.third.b
    ∷ m.fourth.b ∷ m.first.c ∷ m.second.c ∷ m.third.c ∷ m.fourth.c ∷ m.first.d ∷ m.second.d
    ∷ m.third.d ∷ m.fourth.d ∷ []

-- Four bytes as a number, the lowest first.
abbrev pub word : ℕ → ℕ → ℕ → ℕ → ℕ
word b0 b1 b2 b3 = b0 + 256 * b1 + 256 ^ 2 * b2 + 256 ^ 3 * b3

-- Word `i` of a key.
unfoldable pub word_of_key : List ℕ → ℕ → ℕ
word_of_key key i =
    word (get_or key (4 * i) 0) (get_or key (4 * i + 1) 0) (get_or key (4 * i + 2) 0)
      (get_or key (4 * i + 3) 0)

-- A column of the state for a block: a letter group of "expand 32-byte k", two words of the key, and a
-- word of the counter or of the stream number.
abbrev pub column : List ℕ → ℕ → ℕ → ℕ → Quad
column key i constant last = record {
  a = constant;
  b = word_of_key key i;
  c = word_of_key key (i + 4);
  d = last;
}

abbrev pub state_of : List ℕ → ℕ → ℕ → Matrix
state_of key stream counter = record {
  first = column key 0 (word b'e' b'x' b'p' b'a') (counter % 2 ^ 32);
  second = column key 1 (word b'n' b'd' b' ' b'3') (counter / 2 ^ 32 % 2 ^ 32);
  third = column key 2 (word b'2' b'-' b'b' b'y') (stream % 2 ^ 32);
  fourth = column key 3 (word b't' b'e' b' ' b'k') (stream / 2 ^ 32 % 2 ^ 32);
}

-- Words as bytes, the lowest first.
unfoldable pub serialize : List ℕ → List ℕ
serialize [] = []
serialize (w ∷ words) =
    w % 256 ∷ w / 256 % 256 ∷ w / 256 ^ 2 % 256 ∷ w / 256 ^ 3 % 256 ∷ serialize words

-- Bytes 32 n to 32 n + 31 of the key stream: a half of a block of 64 bytes.
abbrev pub key_stream_chunk : List ℕ → ℕ → ℕ → List ℕ
key_stream_chunk key stream n =
    take 32 (drop (32 * (n % 2)) (serialize (words_of (block (state_of key stream (n / 2))))))
