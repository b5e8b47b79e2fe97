-- ===== src/Rng/Rounds.antt =====
-- `chacha_block` (kernels/chacha_rng.h) beside the block function of Rng/Reference.
use vanity_generator_evm_svm.Common.{
  ℕ, zero, suc, ◌+◌, ◌-◌, ◌*◌, ◌/◌, ◌%◌, ◌^◌, ◌<◌, ◌≡◌, refl, ap, ◌∙◌, arith,
}
use vanity_generator_evm_svm.Common.{bit_xor, u32, bit_or_fields, bit_xor_below, IsU32}
use vanity_generator_evm_svm.Rng.{
  chacha_rotl, Quad, mix_ad, mix_cb, chacha_qr, qr_at, double_round, rounds, add_words,
  chacha_block,
}
use vanity_generator_evm_svm.Rng.Reference.{
  rotate, half_quarter, quarter_round, Matrix, two_rounds, mixed, block, words_of, on_columns,
  shift, unshift,
}

-- The rotation by two shifts, with what is known of the amount.
chacha_rotl-rotate :
    (n x : ℕ)
    → x / 2 ^ (32 - n) < 2 ^ n
    → u32 (x * 2 ^ n) ≡ x % 2 ^ (32 - n) * 2 ^ n
    → chacha_rotl x n ≡ rotate n x
unfolding chacha_rotl rotate
chacha_rotl-rotate n x low high = rw high (bit_or_fields n (x % 2 ^ (32 - n)) _ low)

pub record IsQuad (q : Quad) : Type 0 where
  pub a_fits : IsU32 q.a
  pub b_fits : IsU32 q.b
  pub c_fits : IsU32 q.c
  pub d_fits : IsU32 q.d

-- Two of the four lines of a quarter round, by amounts that rotate words.
module _ (m n : ℕ) (is_m : (x : ℕ) → IsU32 x → (chacha_rotl x m ≡ rotate m x) × IsU32 (rotate m x))
    (is_n : (x : ℕ) → IsU32 x → (chacha_rotl x n ≡ rotate n x) × IsU32 (rotate n x)) where
  half_same :
      (q : Quad)
      → IsQuad q
      → (mix_cb n (mix_ad m q) ≡ half_quarter m n q) × IsQuad (half_quarter m n q)
  unfolding mix_cb mix_ad half_quarter
  half_same q fits =
      let a = u32 (q.a + q.b) in
      let (d_same, d_fits) =
        is_m (bit_xor q.d a) (bit_xor_below 32 q.d a fits.d_fits (omega arith)) in
      let c = u32 (q.c + rotate m (bit_xor q.d a)) in
      let (b_same, b_fits) =
        is_n (bit_xor q.b c) (bit_xor_below 32 q.b c fits.b_fits (omega arith)) in
      (
        rw (d_same, b_same) refl,
        record { a_fits = omega arith; b_fits = b_fits; c_fits = omega arith; d_fits = d_fits },
      )

rotates_16 : (x : ℕ) → IsU32 x → (chacha_rotl x 16 ≡ rotate 16 x) × IsU32 (rotate 16 x)
unfolding rotate
rotates_16 x h = (chacha_rotl-rotate 16 x (omega (arith, h)) (omega arith), omega (arith, h))

rotates_12 : (x : ℕ) → IsU32 x → (chacha_rotl x 12 ≡ rotate 12 x) × IsU32 (rotate 12 x)
unfolding rotate
rotates_12 x h = (chacha_rotl-rotate 12 x (omega (arith, h)) (omega arith), omega (arith, h))

rotates_8 : (x : ℕ) → IsU32 x → (chacha_rotl x 8 ≡ rotate 8 x) × IsU32 (rotate 8 x)
unfolding rotate
rotates_8 x h = (chacha_rotl-rotate 8 x (omega (arith, h)) (omega arith), omega (arith, h))

rotates_7 : (x : ℕ) → IsU32 x → (chacha_rotl x 7 ≡ rotate 7 x) × IsU32 (rotate 7 x)
unfolding rotate
rotates_7 x h = (chacha_rotl-rotate 7 x (omega (arith, h)) (omega arith), omega (arith, h))

chacha_qr-quarter_round :
    (q : Quad) → IsQuad q → (chacha_qr q ≡ quarter_round q) × IsQuad (quarter_round q)
unfolding chacha_qr quarter_round
chacha_qr-quarter_round q fits =
    let (first_same, first_fits) = half_same 16 12 rotates_16 rotates_12 q fits in
    let (same, last_fits) = half_same 8 7 rotates_8 rotates_7 (half_quarter 16 12 q) first_fits in
    (ap (λ t. mix_cb 7 (mix_ad 8 t)) first_same ∙ same, last_fits)

pub record IsMatrix (m : Matrix) : Type 0 where
  pub first_fits : IsQuad m.first
  pub second_fits : IsQuad m.second
  pub third_fits : IsQuad m.third
  pub fourth_fits : IsQuad m.fourth

on_columns-same :
    (m : Matrix)
    → IsMatrix m
    → (on_columns chacha_qr m ≡ on_columns quarter_round m) × IsMatrix (on_columns quarter_round m)
on_columns-same m fits =
    let (s1, f1) = chacha_qr-quarter_round m.first fits.first_fits in
    let (s2, f2) = chacha_qr-quarter_round m.second fits.second_fits in
    let (s3, f3) = chacha_qr-quarter_round m.third fits.third_fits in
    let (s4, f4) = chacha_qr-quarter_round m.fourth fits.fourth_fits in
    (
      rw (s1, s2, s3, s4) refl,
      record { first_fits = f1; second_fits = f2; third_fits = f3; fourth_fits = f4 },
    )

-- The quarter rounds at fixed places are those of columns and diagonals.
double_round-words_of : (m : Matrix) → double_round (words_of m) ≡ words_of (two_rounds chacha_qr m)
unfolding double_round qr_at
double_round-words_of m = refl

shift-IsMatrix : (m : Matrix) → IsMatrix m → IsMatrix (shift m)
shift-IsMatrix m f =
    let p = f.first_fits in
    let q = f.second_fits in
    let r = f.third_fits in
    let s = f.fourth_fits in
    record {
      first_fits = record {
        a_fits = p.a_fits;
        b_fits = q.b_fits;
        c_fits = r.c_fits;
        d_fits = s.d_fits;
      };
      second_fits = record {
        a_fits = q.a_fits;
        b_fits = r.b_fits;
        c_fits = s.c_fits;
        d_fits = p.d_fits;
      };
      third_fits = record {
        a_fits = r.a_fits;
        b_fits = s.b_fits;
        c_fits = p.c_fits;
        d_fits = q.d_fits;
      };
      fourth_fits = record {
        a_fits = s.a_fits;
        b_fits = p.b_fits;
        c_fits = q.c_fits;
        d_fits = r.d_fits;
      };
    }

unshift-IsMatrix : (m : Matrix) → IsMatrix m → IsMatrix (unshift m)
unshift-IsMatrix m f =
    let p = f.first_fits in
    let q = f.second_fits in
    let r = f.third_fits in
    let s = f.fourth_fits in
    record {
      first_fits = record {
        a_fits = p.a_fits;
        b_fits = s.b_fits;
        c_fits = r.c_fits;
        d_fits = q.d_fits;
      };
      second_fits = record {
        a_fits = q.a_fits;
        b_fits = p.b_fits;
        c_fits = s.c_fits;
        d_fits = r.d_fits;
      };
      third_fits = record {
        a_fits = r.a_fits;
        b_fits = q.b_fits;
        c_fits = p.c_fits;
        d_fits = s.d_fits;
      };
      fourth_fits = record {
        a_fits = s.a_fits;
        b_fits = r.b_fits;
        c_fits = q.c_fits;
        d_fits = p.d_fits;
      };
    }

two_rounds-same :
    (m : Matrix)
    → IsMatrix m
    → (two_rounds chacha_qr m ≡ two_rounds quarter_round m) × IsMatrix (two_rounds quarter_round m)
two_rounds-same m fits =
    let (columns_same, columns_fit) = on_columns-same m fits in
    let turned = shift (on_columns quarter_round m) in
    let (same, fit) =
      on_columns-same turned (shift-IsMatrix (on_columns quarter_round m) columns_fit) in
    (
      ap (λ t. unshift (on_columns chacha_qr (shift t))) columns_same ∙ ap unshift same,
      unshift-IsMatrix (on_columns quarter_round turned) fit,
    )

rounds-mixed : (n : ℕ) (m : Matrix) → IsMatrix m → rounds n (words_of m) ≡ words_of (mixed n m)
unfolding rounds mixed
rounds-mixed zero m fits = refl
rounds-mixed (suc n) m fits =
    let (same, fit) = two_rounds-same m fits in
    ap (rounds n) (double_round-words_of m ∙ ap words_of same)
    ∙ rounds-mixed n (two_rounds quarter_round m) fit

-- On words, the block function is that of the reference.
pub chacha_block-block : (m : Matrix) → IsMatrix m → chacha_block (words_of m) ≡ words_of (block m)
unfolding chacha_block add_words
chacha_block-block m fits = rw (rounds-mixed 10 m fits) refl
