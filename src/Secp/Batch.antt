-- ===== src/Secp/Batch.antt =====
-- `secp256k1_public_add_batch` (kernels/secp256k1_mrspike.cu) beside the addition of single
-- points.
use vanity_generator_evm_svm.Common.{
  arith, ℕ, ◌≡◌, refl, ap, ◌∙◌, sym, Bool, true, false, some, List, [], ◌∷◌, map, All,
}
use vanity_generator_evm_svm.Common.{if◌then◌else◌, Bool-cases, inl, inr}
use vanity_generator_evm_svm.Secp.{
  Uint256, uint256, CurvePoint, FieldOps, uint32_to_uint256, eqeq_256,
}
use vanity_generator_evm_svm.Secp.{
  read_point, write_point, point_add, point_add_lambda, third_point, batch_from,
}
use mathlib.Core.List.{map-map}
use vanity_generator_evm_svm.Secp.Table.{batch_g, write_batch, secp256k1_public_add_batch}

abbrev pub one : Uint256
one = uint32_to_uint256 1

abbrev pub nil : Uint256
nil = uint32_to_uint256 0

-- What the additions rely on in kernels/eth_math_working.h: the
-- multiplication of the numbers below the prime is that of a field, and `eeuclid_256_mod_p` inverts every number but zero;
-- the difference of coordinates of points is below the prime, and zero where they are the same.
pub record FieldLaws (ops : FieldOps) : Type 1 where
  pub InRange : Uint256 → Type 0  -- the coordinates of points
  pub Reduced : Uint256 → Type 0  -- the results of the operations
  pub sub_reduced : (x y : Uint256) → InRange x → InRange y → Reduced (ops.sub_256_mod_p x y)
  pub mul_reduced : (x y : Uint256) → Reduced x → Reduced y → Reduced (ops.mul_256_mod_p x y)
  pub inverse_reduced : (x : Uint256) → Reduced x → Reduced (ops.eeuclid_256_mod_p x)
  pub one_reduced : Reduced one
  pub mul_assoc :
      (x y z : Uint256)
      → Reduced x
      → Reduced y
      → Reduced z
      → ops.mul_256_mod_p (ops.mul_256_mod_p x y) z ≡ ops.mul_256_mod_p x (ops.mul_256_mod_p y z)
  pub mul_comm :
      (x y : Uint256) → Reduced x → Reduced y → ops.mul_256_mod_p x y ≡ ops.mul_256_mod_p y x
  pub one-mul : (x : Uint256) → Reduced x → ops.mul_256_mod_p one x ≡ x
  pub mul_inverse :
      (x : Uint256)
      → Reduced x
      → eqeq_256 x nil ≡ false
      → ops.mul_256_mod_p x (ops.eeuclid_256_mod_p x) ≡ one
  pub mul_nonzero :
      (x y : Uint256)
      → Reduced x
      → Reduced y
      → eqeq_256 x nil ≡ false
      → eqeq_256 y nil ≡ false
      → eqeq_256 (ops.mul_256_mod_p x y) nil ≡ false
  pub sub_self : (x : Uint256) → InRange x → ops.sub_256_mod_p x x ≡ nil

eqeq_256_sound : (x y : Uint256) → eqeq_256 x y ≡ true → x ≡ y
unfolding eqeq_256
eqeq_256_sound x y e =
    let ea : x.a ≡ y.a = ground (arith, e) in
    let eb : x.b ≡ y.b = ground (arith, e) in
    let ec : x.c ≡ y.c = ground (arith, e) in
    let ed : x.d ≡ y.d = ground (arith, e) in
    let ee : x.e ≡ y.e = ground (arith, e) in
    let ef : x.f ≡ y.f = ground (arith, e) in
    let eg : x.g ≡ y.g = ground (arith, e) in
    let eh : x.h ≡ y.h = ground (arith, e) in
    λ i. uint256 (ea i) (eb i) (ec i) (ed i) (ee i) (ef i) (eg i) (eh i)

eqeq_256-nil : eqeq_256 nil nil ≡ true
unfolding eqeq_256
eqeq_256-nil = refl

module _ (ops : FieldOps) (laws : FieldLaws ops) where
  open ops use {sub_256_mod_p, mul_256_mod_p, eeuclid_256_mod_p}
  open laws use {
    InRange, Reduced, sub_reduced, mul_reduced, inverse_reduced, one_reduced, mul_assoc, mul_comm,
    one-mul, mul_inverse, mul_nonzero, sub_self,
  }

  inverse_unique :
      (u x : Uint256)
      → Reduced u
      → Reduced x
      → eqeq_256 x nil ≡ false
      → mul_256_mod_p u x ≡ one
      → u ≡ eeuclid_256_mod_p x
  inverse_unique u x hu hx nonzero e =
      let hi = inverse_reduced x hx in
      sym (one-mul u hu)
      ∙ mul_comm one u one_reduced hu
      ∙ ap (mul_256_mod_p u) (sym (mul_inverse x hx nonzero))
      ∙ sym (mul_assoc u x (eeuclid_256_mod_p x) hu hx hi)
      ∙ ap (λ t. mul_256_mod_p t (eeuclid_256_mod_p x)) e
      ∙ one-mul (eeuclid_256_mod_p x) hi

  module _ (product dx : Uint256) (hp : Reduced product) (hd : Reduced dx)
      (np : eqeq_256 product nil ≡ false) (nd : eqeq_256 dx nil ≡ false) where
    abbrev inverse : Uint256
    inverse = eeuclid_256_mod_p (mul_256_mod_p product dx)

    hi : Reduced inverse
    hi = inverse_reduced _ (mul_reduced product dx hp hd)

    cancels : mul_256_mod_p inverse (mul_256_mod_p product dx) ≡ one
    cancels =
        mul_comm inverse (mul_256_mod_p product dx) hi (mul_reduced product dx hp hd)
        ∙ mul_inverse (mul_256_mod_p product dx) (mul_reduced product dx hp hd)
            (mul_nonzero product dx hp hd np nd)

    -- The inverse of a product, times one factor, is the inverse of the other.
    inverse_dx : mul_256_mod_p inverse product ≡ eeuclid_256_mod_p dx
    inverse_dx =
        inverse_unique (mul_256_mod_p inverse product) dx (mul_reduced inverse product hi hp) hd nd
          (mul_assoc inverse product dx hi hp hd ∙ cancels)

    inverse_front : mul_256_mod_p inverse dx ≡ eeuclid_256_mod_p product
    inverse_front =
        inverse_unique (mul_256_mod_p inverse dx) product (mul_reduced inverse dx hi hd) hp np (
          mul_assoc inverse dx product hi hd hp
          ∙ ap (mul_256_mod_p inverse) (mul_comm dx product hd hp)
          ∙ cancels)

  module _ (p : CurvePoint) (hp : InRange p.x) where
    -- The addition of a point with another `x`, with an inversion of its own.
    abbrev chord : CurvePoint → CurvePoint
    chord q = third_point ops (point_add_lambda ops p q) p q

    -- A point of the batch: in range, and with another `x` than `p`.
    abbrev pub Apart : CurvePoint → Type 0
    Apart q = InRange q.x × (eqeq_256 (sub_256_mod_p q.x p.x) nil ≡ false)

    chord-point_add : (q : CurvePoint) → Apart q → chord q ≡ point_add ops p q
    unfolding point_add
    chord-point_add q (hq, nonzero) = elim (Bool-cases (eqeq_256 p.x q.x)) [
      | inr apart ↦ rw apart refl
      | inl same ↦
          let equal = eqeq_256_sound p.x q.x same in
          let zero_dx : sub_256_mod_p q.x p.x ≡ nil =
            ap (λ t. sub_256_mod_p q.x t) equal ∙ sub_self q.x hq in
          let never : eqeq_256 nil nil ≡ false = rw zero_dx at nonzero in cc (never, eqeq_256-nil)
    ]

    -- On the way out, the inverse of one difference of abscissas.
    inv_dx_lem :
        (first : Bool) (product dx : Uint256)
        → (first ≡ true → product ≡ one)
        → Reduced product
        → Reduced dx
        → eqeq_256 product nil ≡ false
        → eqeq_256 dx nil ≡ false
        → (if first
            then eeuclid_256_mod_p (mul_256_mod_p product dx)
            else mul_256_mod_p (eeuclid_256_mod_p (mul_256_mod_p product dx)) product)
          ≡ eeuclid_256_mod_p dx
    inv_dx_lem true product dx start hr hd np nd = rw (start refl, one-mul dx hd) refl
    inv_dx_lem false product dx start hr hd np nd = inverse_dx product dx hr hd np nd

    -- With the points apart from `p`, the batch ends in the inverse of the product in hand, and in
    -- the sums of `p` with each point.
    batch_from_lem :
        (first : Bool) (product : Uint256) (qs : List CurvePoint)
        → (first ≡ true → product ≡ one)
        → Reduced product
        → eqeq_256 product nil ≡ false
        → All Apart qs
        → batch_from ops p first product qs
          ≡ some (eeuclid_256_mod_p product, map (point_add ops p) qs)
    unfolding batch_from
    batch_from_lem first product [] start hr nonzero h = refl
    batch_from_lem first product (q ∷ qs) start hr nonzero ((hq, apart), h) =
        let dx = sub_256_mod_p q.x p.x in
        let hd = sub_reduced q.x p.x hq hp in
        let rest =
          batch_from_lem false (mul_256_mod_p product dx) qs (λ e. cc)
            (mul_reduced product dx hr hd) (mul_nonzero product dx hr hd nonzero apart) h in
        rw
          (
            apart,
            rest,
            inverse_front product dx hr hd nonzero apart,
            inv_dx_lem first product dx start hr hd nonzero apart,
          )
          (ap (λ r. some (eeuclid_256_mod_p product, r ∷ map (point_add ops p) qs))
            (slope q ∙ chord-point_add q (hq, apart)))
      where
        slope :
            (r : CurvePoint)
            → third_point ops
                (mul_256_mod_p (sub_256_mod_p r.y p.y) (eeuclid_256_mod_p (sub_256_mod_p r.x p.x)))
                p
                r
              ≡ chord r
        slope r = unfold point_add_lambda in refl

  -- From a point with an `x` in range that no point of the table has, `secp256k1_public_add_batch` writes
  -- for each point of the table its ordinary sum with the input, though it inverts but once: on
  -- field operations that obey the laws of a field.
  pub public_add_batch-point_add :
      (public : List ℕ)
      → (reduced : InRange (read_point public).x) → All (Apart (read_point public) reduced) batch_g
      → secp256k1_public_add_batch ops public
        ≡ map (λ q. write_point (point_add ops (read_point public) q)) batch_g
  unfolding secp256k1_public_add_batch
  public_add_batch-point_add public reduced apart =
      ap (write_batch ops public) (
        batch_from_lem (read_point public) reduced true one batch_g (λ e. refl) one_reduced
          one_nonzero apart)
      ∙ written (point_add ops (read_point public)) batch_g
    where
      one_nonzero : eqeq_256 one nil ≡ false
      one_nonzero = unfold eqeq_256 in refl

      written :
          (f : CurvePoint → CurvePoint) (qs : List CurvePoint)
          → write_batch ops public (some (eeuclid_256_mod_p one, map f qs))
            ≡ map (λ q. write_point (f q)) qs
      written f qs = unfold write_batch in map-map write_point f qs
