-- ===== src/Secp.antt =====
-- kernels/secp256k1_mrspike.cu: affine point arithmetic on secp256k1 and the public keys of scalars.
-- The field operations of kernels/eth_math_working.h, a copy of another project, are parameters.
pub mod Table
pub mod Bytes
pub mod Batch
pub mod Multiply
use vanity_generator_evm_svm.Common.{
  ℕ, zero, suc, ◌+◌, ◌*◌, ◌%◌, ◌/◌, ◌^◌, Bool, true, false, ◌&&◌, ◌||◌, not,
}
use vanity_generator_evm_svm.Common.{
  Option, none, some, List, [], ◌∷◌, ◌++◌, get_or, be32, u8, u32, ◌<<<◌, ◌>>>◌,
}
use vanity_generator_evm_svm.Common.{bit_and, ltb, leb, ◌==◌, if◌then◌else◌}

-- `_uint256`, the most significant word first.
pub record Uint256 : Type 0 where
  pub a : ℕ
  pub b : ℕ
  pub c : ℕ
  pub d : ℕ
  pub e : ℕ
  pub f : ℕ
  pub g : ℕ
  pub h : ℕ

abbrev pub uint256 : ℕ → ℕ → ℕ → ℕ → ℕ → ℕ → ℕ → ℕ → Uint256
uint256 a b c d e f g h = record { a = a; b = b; c = c; d = d; e = e; f = f; g = g; h = h }

pub record CurvePoint : Type 0 where
  pub x : Uint256
  pub y : Uint256

abbrev pub point : Uint256 → Uint256 → CurvePoint
point x y = record { x = x; y = y }

unfoldable pub secp_p : Uint256
secp_p =
    uint256 0xFFFFFFFF 0xFFFFFFFF 0xFFFFFFFF 0xFFFFFFFF 0xFFFFFFFF 0xFFFFFFFF 0xFFFFFFFE 0xFFFFFC2F

-- `{G_X, G_Y}`
unfoldable pub generator : CurvePoint
generator =
    point
      (uint256 0x79BE667E 0xF9DCBBAC 0x55A06295 0xCE870B07 0x029BFCDB 0x2DCE28D9 0x59F2815B
        0x16F81798)
      (uint256 0x483ADA77 0x26A3C465 0x5DA4FBFC 0x0E1108A8 0xFD17B448 0xA6855419 0x9C47D08F
        0xFB10D4B8)

abbrev pub uint32_to_uint256 : ℕ → Uint256
uint32_to_uint256 x = uint256 0 0 0 0 0 0 0 x

unfoldable pub gte_256 : Uint256 → Uint256 → Bool
gte_256 x y =
    let equal_a = x.a == y.a in
    let equal_b = equal_a && x.b == y.b in
    let equal_c = equal_b && x.c == y.c in
    let equal_d = equal_c && x.d == y.d in
    let equal_e = equal_d && x.e == y.e in
    let equal_f = equal_e && x.f == y.f in
    let equal_g = equal_f && x.g == y.g in
    ltb y.a x.a
    || (ltb y.b x.b && equal_a)
    || (ltb y.c x.c && equal_b)
    || (ltb y.d x.d && equal_c)
    || (ltb y.e x.e && equal_d)
    || (ltb y.f x.f && equal_e)
    || (ltb y.g x.g && equal_f)
    || (leb y.h x.h && equal_g)

unfoldable pub eqeq_256 : Uint256 → Uint256 → Bool
eqeq_256 x y =
    x.a == y.a
    && x.b == y.b
    && x.c == y.c
    && x.d == y.d
    && x.e == y.e
    && x.f == y.f
    && x.g == y.g
    && x.h == y.h

-- Eight words in big-endian bytes, from the index `at` on.
unfoldable pub batch_read : List ℕ → ℕ → Uint256
batch_read bytes at =
    uint256 (word 0) (word 4) (word 8) (word 12) (word 16) (word 20) (word 24) (word 28)
  where
    word : ℕ → ℕ
    word i =
        be32 (get_or bytes (at + i) 0) (get_or bytes (at + i + 1) 0) (get_or bytes (at + i + 2) 0)
          (get_or bytes (at + i + 3) 0)

unfoldable pub write_word : ℕ → List ℕ
write_word w = u8 (w >>> 24) ∷ u8 (w >>> 16) ∷ u8 (w >>> 8) ∷ u8 w ∷ []

unfoldable pub batch_write : Uint256 → List ℕ
batch_write v =
    write_word v.a
    ++ (write_word v.b
        ++ (write_word v.c
            ++ (write_word v.d
                ++ (write_word v.e ++ (write_word v.f ++ (write_word v.g ++ write_word v.h))))))

-- An uncompressed public key: 4, then the coordinates.
unfoldable pub write_point : CurvePoint → List ℕ
write_point q = 4 ∷ (batch_write q.x ++ batch_write q.y)

unfoldable pub read_point : List ℕ → CurvePoint
read_point public = point (batch_read public 1) (batch_read public 33)

-- kernels/eth_math_working.h, as this file uses it.
pub record FieldOps : Type 0 where
  pub add_256_with_c : Uint256 → Uint256 → Bool × Uint256
  pub sub_256_mod_p : Uint256 → Uint256 → Uint256
  pub mul_256_mod_p : Uint256 → Uint256 → Uint256
  pub eeuclid_256_mod_p : Uint256 → Uint256

module _ (ops : FieldOps) where
  open ops use {add_256_with_c, sub_256_mod_p, mul_256_mod_p, eeuclid_256_mod_p}

  unfoldable pub add_256_mod_p : Uint256 → Uint256 → Uint256
  add_256_mod_p x y =
      let (carry, result) = add_256_with_c x y in
      if carry || gte_256 result secp_p then sub_256_mod_p result secp_p else result

  unfoldable pub point_double_lambda : CurvePoint → Uint256
  point_double_lambda p =
      let three_x_sq = mul_256_mod_p (uint32_to_uint256 3) (mul_256_mod_p p.x p.x) in
      let two_y = mul_256_mod_p (uint32_to_uint256 2) p.y in
      mul_256_mod_p three_x_sq (eeuclid_256_mod_p two_y)

  unfoldable pub point_add_lambda : CurvePoint → CurvePoint → Uint256
  point_add_lambda p q =
      mul_256_mod_p (sub_256_mod_p q.y p.y) (eeuclid_256_mod_p (sub_256_mod_p q.x p.x))

  -- The point on the line of slope `lambda` through `p` and `q`.
  unfoldable pub third_point : Uint256 → CurvePoint → CurvePoint → CurvePoint
  third_point lambda p q =
      let x_r = sub_256_mod_p (sub_256_mod_p (mul_256_mod_p lambda lambda) p.x) q.x in
      let y_r = sub_256_mod_p (mul_256_mod_p lambda (sub_256_mod_p p.x x_r)) p.y in point x_r y_r

  unfoldable pub point_add : CurvePoint → CurvePoint → CurvePoint
  point_add p q =
      third_point (if eqeq_256 p.x q.x then point_double_lambda p else point_add_lambda p q) p q

  -- The state of the multiplication: `result`, `none` while at infinity, and `temp`.
  pub record Doubling : Type 0 where
    pub result : Option CurvePoint
    pub temp : CurvePoint

  unfoldable pub accumulate : Option CurvePoint → CurvePoint → CurvePoint
  accumulate none temp = temp
  accumulate (some result) temp = point_add result temp

  -- The loop over the bits of one word, from bit `i` on.
  unfoldable pub process_word : ℕ → ℕ → ℕ → Doubling → Doubling
  process_word zero i word s = s
  process_word (suc n) i word s = process_word n (i + 1) word (record {
    result =
        if bit_and word (u32 (1 <<< i)) == 0 then s.result else some (accumulate s.result s.temp);
    temp = point_add s.temp s.temp;
  })

  -- `none` where the source returns a point that it has not set.
  unfoldable pub point_multiply : CurvePoint → Uint256 → Option CurvePoint
  point_multiply p scalar =
      let start : Doubling = record { result = none; temp = p } in
      let low = process_word 32 0 scalar.e (
        process_word 32 0 scalar.f
          (process_word 32 0 scalar.g (process_word 32 0 scalar.h start))) in
      let high = process_word 32 0 scalar.a (
        process_word 32 0 scalar.b (process_word 32 0 scalar.c (process_word 32 0 scalar.d low))) in
      high.result

  unfoldable pub secp256k1_get_public_key : List ℕ → Option (List ℕ)
  secp256k1_get_public_key private =
      write_optional (point_multiply generator (batch_read private 0))
    where
      write_optional : Option CurvePoint → Option (List ℕ)
      write_optional none = none
      write_optional (some q) = some (write_point q)

  unfoldable pub secp256k1_public_add_generator : List ℕ → List ℕ
  secp256k1_public_add_generator public = write_point (point_add (read_point public) generator)

  -- The loop of the degenerate case: each key is the generator more than the one before.
  unfoldable pub add_generators : ℕ → List ℕ → List (List ℕ)
  add_generators zero current = []
  add_generators (suc n) current =
      let following = secp256k1_public_add_generator current in
      following ∷ add_generators n following

  -- Both loops of the batch: the products are made on the way in, the inverse of the last product
  -- is taken at the end, and the points are made on the way out, where `inverse` is the inverse of
  -- the product in hand. `first` is the test `i ? … : …`; `none` is the degenerate case.
  unfoldable pub batch_from :
      CurvePoint → Bool → Uint256 → List CurvePoint → Option (Uint256 × List CurvePoint)
  batch_from p first product [] = some (eeuclid_256_mod_p product, [])
  batch_from p first product (q ∷ qs) =
      let dx = sub_256_mod_p q.x p.x in
      let rest = batch_from p false (mul_256_mod_p product dx) qs in
      if eqeq_256 dx (uint32_to_uint256 0) then none else way_out dx rest
    where
      way_out : Uint256 → Option (Uint256 × List CurvePoint) → Option (Uint256 × List CurvePoint)
      way_out dx none = none
      way_out dx (some (inverse, points)) =
          let inv_dx = if first then inverse else mul_256_mod_p inverse product in
          let lambda = mul_256_mod_p (sub_256_mod_p q.y p.y) inv_dx in
          some (mul_256_mod_p inverse dx, third_point lambda p q ∷ points)
