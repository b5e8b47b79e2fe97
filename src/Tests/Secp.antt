-- ===== src/Tests/Secp.antt =====
-- The batch addition over a field of two numbers.
use vanity_generator_evm_svm.Common.{none, some, ◌≢◌}
use vanity_generator_evm_svm.Secp.{uint256, point, third_point, point_multiply}
use vanity_generator_evm_svm.Secp.Multiply.{Multiples, value_256, point_multiply-multiple}
use vanity_generator_evm_svm.Common.{
  ℕ, ◌≡◌, refl, ◌⊎◌, inl, inr, true, false, Bool-cases, if◌then◌else◌, arith,
}
use vanity_generator_evm_svm.Common.{List, map, replicate, All}
use vanity_generator_evm_svm.Secp.{Uint256, FieldOps, eqeq_256, read_point, write_point, point_add}
use vanity_generator_evm_svm.Secp.{batch_read}
use vanity_generator_evm_svm.Secp.{generator}
use vanity_generator_evm_svm.Secp.Bytes.{IsWords, read-write_point}
use vanity_generator_evm_svm.Secp.Table.{batch_g, secp256k1_public_add_batch}
use vanity_generator_evm_svm.Secp.Batch.{one, nil, FieldLaws, Apart, public_add_batch-point_add}

abbrev toy : FieldOps
toy = record {
  add_256_with_c = λ x y. (false, if eqeq_256 x y then nil else one);
  sub_256_mod_p = λ x y. if eqeq_256 x y then nil else one;
  mul_256_mod_p = λ x y. if eqeq_256 x nil then nil else (if eqeq_256 y nil then nil else one);
  eeuclid_256_mod_p = λ x. x;
}

abbrev Bit : Uint256 → Type 0
Bit x = (x ≡ nil) ⊎ (x ≡ one)

eqeq_256_refl : (x : Uint256) → eqeq_256 x x ≡ true
unfolding eqeq_256
eqeq_256_refl x = ground arith

difference-Bit : (x y : Uint256) → Bit (toy.sub_256_mod_p x y)
difference-Bit x y = elim (Bool-cases (eqeq_256 x y)) [
  | inl same ↦ rw same (inl refl)
  | inr apart ↦ rw apart (inr refl)
]

unfoldable toy_laws : FieldLaws toy
unfolding eqeq_256
toy_laws = record {
  InRange = λ x. Unit;
  Reduced = Bit;
  sub_reduced = λ x y hx hy. difference-Bit x y;
  mul_reduced = mul_reduced;
  inverse_reduced = λ x hx. hx;
  one_reduced = inr refl;
  mul_assoc = mul_assoc;
  mul_comm = mul_comm;
  one-mul = one-mul;
  mul_inverse = mul_inverse;
  mul_nonzero = mul_nonzero;
  sub_self = λ x hx. rw (eqeq_256_refl x) refl;
}
  where
    mul_reduced : (x y : Uint256) → Bit x → Bit y → Bit (toy.mul_256_mod_p x y)
    mul_reduced x y (inl hx) hy = rw hx (inl refl)
    mul_reduced x y (inr hx) (inl hy) = rw (hx, hy) (inl refl)
    mul_reduced x y (inr hx) (inr hy) = rw (hx, hy) (inr refl)

    mul_assoc :
        (x y z : Uint256)
        → Bit x
        → Bit y
        → Bit z
        → toy.mul_256_mod_p (toy.mul_256_mod_p x y) z ≡ toy.mul_256_mod_p x (toy.mul_256_mod_p y z)
    mul_assoc x y z (inl hx) hy hz = rw hx refl
    mul_assoc x y z (inr hx) (inl hy) hz = rw (hx, hy) refl
    mul_assoc x y z (inr hx) (inr hy) (inl hz) = rw (hx, hy, hz) refl
    mul_assoc x y z (inr hx) (inr hy) (inr hz) = rw (hx, hy, hz) refl

    mul_comm : (x y : Uint256) → Bit x → Bit y → toy.mul_256_mod_p x y ≡ toy.mul_256_mod_p y x
    mul_comm x y (inl hx) (inl hy) = rw (hx, hy) refl
    mul_comm x y (inl hx) (inr hy) = rw (hx, hy) refl
    mul_comm x y (inr hx) (inl hy) = rw (hx, hy) refl
    mul_comm x y (inr hx) (inr hy) = rw (hx, hy) refl

    one-mul : (x : Uint256) → Bit x → toy.mul_256_mod_p one x ≡ x
    one-mul x (inl hx) = rw hx refl
    one-mul x (inr hx) = rw hx refl

    mul_inverse : (x : Uint256) → Bit x → eqeq_256 x nil ≡ false → toy.mul_256_mod_p x x ≡ one
    mul_inverse x (inl hx) nonzero = let never : true ≡ false = rw hx at nonzero in cc
    mul_inverse x (inr hx) nonzero = rw hx refl

    mul_nonzero :
        (x y : Uint256)
        → Bit x
        → Bit y
        → eqeq_256 x nil ≡ false
        → eqeq_256 y nil ≡ false
        → eqeq_256 (toy.mul_256_mod_p x y) nil ≡ false
    mul_nonzero x y (inl hx) hy nx ny = let never : true ≡ false = rw hx at nx in cc
    mul_nonzero x y (inr hx) (inl hy) nx ny = let never : true ≡ false = rw hy at ny in cc
    mul_nonzero x y (inr hx) (inr hy) nx ny = rw (hx, hy) refl

in_range : (x : Uint256) → toy_laws.InRange x
unfolding toy_laws
in_range x = tt

-- A key of zeros, whose `x` no point of the table has.
abbrev zeros : List ℕ
zeros = replicate 65 0

zeros-Apart : All (Apart toy toy_laws (read_point zeros) (in_range _)) batch_g
unfolding batch_g eqeq_256 read_point batch_read
zeros-Apart = (
  (in_range _, refl),
  (
    (in_range _, refl),
    (
      (in_range _, refl),
      (
        (in_range _, refl),
        (
          (in_range _, refl),
          (
            (in_range _, refl),
            (
              (in_range _, refl),
              (
                (in_range _, refl),
                (
                  (in_range _, refl),
                  (
                    (in_range _, refl),
                    (
                      (in_range _, refl),
                      (
                        (in_range _, refl),
                        (
                          (in_range _, refl),
                          (
                            (in_range _, refl),
                            (
                              (in_range _, refl),
                              (
                                (in_range _, refl),
                                (
                                  (in_range _, refl),
                                  (
                                    (in_range _, refl),
                                    (
                                      (in_range _, refl),
                                      (
                                        (in_range _, refl),
                                        (
                                          (in_range _, refl),
                                          (
                                            (in_range _, refl),
                                            (
                                              (in_range _, refl),
                                              (
                                                (in_range _, refl),
                                                (
                                                  (in_range _, refl),
                                                  (
                                                    (in_range _, refl),
                                                    (
                                                      (in_range _, refl),
                                                      (
                                                        (in_range _, refl),
                                                        (
                                                          (in_range _, refl),
                                                          (
                                                            (in_range _, refl),
                                                            (
                                                            (in_range _, refl),
                                                            ((in_range _, refl), tt),
                                                            ),
                                                          ),
                                                        ),
                                                      ),
                                                    ),
                                                  ),
                                                ),
                                              ),
                                            ),
                                          ),
                                        ),
                                      ),
                                    ),
                                  ),
                                ),
                              ),
                            ),
                          ),
                        ),
                      ),
                    ),
                  ),
                ),
              ),
            ),
          ),
        ),
      ),
    ),
  ),
)

public_add_batch-point_add_example :
    secp256k1_public_add_batch toy zeros
    ≡ map (λ q. write_point (point_add toy (read_point zeros) q)) batch_g
public_add_batch-point_add_example =
    public_add_batch-point_add toy toy_laws zeros (in_range _) zeros-Apart

generator-IsWords : IsWords generator.x × IsWords generator.y
unfolding generator
generator-IsWords = (
  (
    omega arith,
    omega arith,
    omega arith,
    omega arith,
    omega arith,
    omega arith,
    omega arith,
    omega arith,
  ),
  (
    omega arith,
    omega arith,
    omega arith,
    omega arith,
    omega arith,
    omega arith,
    omega arith,
    omega arith,
  ),
)

read-write_point_example : read_point (write_point generator) ≡ generator
read-write_point_example = read-write_point generator generator-IsWords.0 generator-IsWords.1

-- Operations that give 1 everywhere: the group of one point.
abbrev flat : FieldOps
flat = record {
  add_256_with_c = λ x y. (false, one);
  sub_256_mod_p = λ x y. one;
  mul_256_mod_p = λ x y. one;
  eeuclid_256_mod_p = λ x. one;
}

abbrev group_order : ℕ
group_order = 0xFFFFFFFFFFFFFFFFFFFFFFFFFFFFFFFEBAAEDCE6AF48A03BBFD25E8CD0364141

flat_multiples : Multiples flat (point one one) group_order
unfolding point_add third_point
flat_multiples = record { multiple = λ n. point one one; first = refl; add = λ m n hm hn lt. refl }

abbrev three : Uint256
three = uint256 0 0 0 0 0 0 0 3

point_multiply-multiple_example :
    (value_256 three ≡ 0 → point_multiply flat (point one one) three ≡ none)
    × (value_256 three ≢ 0
        → point_multiply flat (point one one) three
          ≡ some (flat_multiples.multiple (value_256 three)))
point_multiply-multiple_example =
    point_multiply-multiple flat (point one one) group_order (omega arith) flat_multiples three
      (
        omega arith,
        omega arith,
        omega arith,
        omega arith,
        omega arith,
        omega arith,
        omega arith,
        omega arith,
      )
      (omega arith)
