-- ===== src/Production/Inverses.antt =====
-- The one inversion of `gpu_address_init` and of `gpu_address_work` in
-- kernels/eth_vanity_production.cu.
use vanity_generator_evm_svm.Common.{
  ℕ, zero, suc, ◌+◌, ◌≤◌, ◌<◌, ◌≡◌, refl, ap, ◌∙◌, sym, arith, List, ◌++◌, get_or, set, length,
  get_or-set, get_or-set_other, length-set,
}
use vanity_generator_evm_svm.Secp.{Uint256, CurvePoint}
use vanity_generator_evm_svm.Production.Grid.{
  EthMath, x_delta, sum_with, entry, product, init_down, both_signs, work_down, unset,
}
use native.Mathlib.Decide.{ℕ_discrete}

-- What the kernels rely on in kernels/eth_math.h: among the numbers that are not zero modulo the
-- prime, the multiplication is that of a field, and `eeuclid_256_mod_p` gives the inverse.
pub record InverseLaws (math : EthMath) : Type 1 where
  pub Invertible : Uint256 → Type 0
  pub one : Uint256
  pub one-Invertible : Invertible one
  pub mul-Invertible :
      (x y : Uint256) → Invertible x → Invertible y → Invertible (math.mul_256_mod_p x y)
  pub inverse-Invertible : (x : Uint256) → Invertible x → Invertible (math.eeuclid_256_mod_p x)
  pub mul_assoc :
      (x y z : Uint256)
      → Invertible x
      → Invertible y
      → Invertible z
      → math.mul_256_mod_p (math.mul_256_mod_p x y) z
        ≡ math.mul_256_mod_p x (math.mul_256_mod_p y z)
  pub mul_comm :
      (x y : Uint256)
      → Invertible x
      → Invertible y
      → math.mul_256_mod_p x y ≡ math.mul_256_mod_p y x
  pub one-mul : (x : Uint256) → Invertible x → math.mul_256_mod_p one x ≡ x
  pub mul_inverse :
      (x : Uint256) → Invertible x → math.mul_256_mod_p x (math.eeuclid_256_mod_p x) ≡ one

module _ (math : EthMath) (laws : InverseLaws math) where
  open math use {mul_256_mod_p, eeuclid_256_mod_p}
  open laws use {
    Invertible, one, one-Invertible, mul-Invertible, inverse-Invertible, mul_assoc, mul_comm,
    one-mul, mul_inverse,
  }

  inverse_unique :
      (u x : Uint256)
      → Invertible u
      → Invertible x
      → mul_256_mod_p u x ≡ one
      → u ≡ eeuclid_256_mod_p x
  inverse_unique u x hu hx e =
      let hi = inverse-Invertible x hx in
      sym (one-mul u hu)
      ∙ mul_comm one u one-Invertible hu
      ∙ ap (mul_256_mod_p u) (sym (mul_inverse x hx))
      ∙ sym (mul_assoc u x (eeuclid_256_mod_p x) hu hx hi)
      ∙ ap (λ t. mul_256_mod_p t (eeuclid_256_mod_p x)) e
      ∙ one-mul (eeuclid_256_mod_p x) hi

  -- The inverse of a product, times one factor, is the inverse of the other.
  module _ (z d : Uint256) (hz : Invertible z) (hd : Invertible d) where
    abbrev both : Uint256
    both = eeuclid_256_mod_p (mul_256_mod_p z d)

    both-Invertible : Invertible both
    both-Invertible = inverse-Invertible _ (mul-Invertible z d hz hd)

    cancels : mul_256_mod_p both (mul_256_mod_p z d) ≡ one
    cancels =
        mul_comm both (mul_256_mod_p z d) both-Invertible (mul-Invertible z d hz hd)
        ∙ mul_inverse (mul_256_mod_p z d) (mul-Invertible z d hz hd)

    pub inverse_last : mul_256_mod_p both z ≡ eeuclid_256_mod_p d
    inverse_last =
        inverse_unique (mul_256_mod_p both z) d (mul-Invertible both z both-Invertible hz) hd
          (mul_assoc both z d both-Invertible hz hd ∙ cancels)

    pub inverse_front : mul_256_mod_p both d ≡ eeuclid_256_mod_p z
    inverse_front =
        inverse_unique (mul_256_mod_p both d) z (mul-Invertible both d both-Invertible hd) hz (
          mul_assoc both d z both-Invertible hd hz
          ∙ ap (mul_256_mod_p both) (mul_comm d z hd hz)
          ∙ cancels)

  module _ (p : CurvePoint) (table : List CurvePoint) where
    -- The sum of `p` with an entry, with an inversion of its own.
    abbrev pub chord : ℕ → CurvePoint
    chord i = sum_with math p (entry table i) (eeuclid_256_mod_p (x_delta math p (entry table i)))

    -- No entry up to `n` has the abscissa of `p`.
    abbrev pub Apart : ℕ → Type 0
    Apart n = (i : ℕ) → i ≤ n → Invertible (x_delta math p (entry table i))

    product-Invertible : (n : ℕ) → Apart n → Invertible (product math p table n)
    unfolding product
    product-Invertible zero apart = apart 0 (omega arith)
    product-Invertible (suc n) apart =
        mul-Invertible _ _ (product-Invertible n (λ i le. apart i (omega (arith, le))))
          (apart (suc n) (omega arith))

    -- The points that a thread scores behind its own: both signs of every sum, the last entry first.
    unfoldable pub sums_down : ℕ → List CurvePoint
    sums_down zero = both_signs math (chord zero)
    sums_down (suc i) = both_signs math (chord (suc i)) ++ sums_down i

    pub work_down-sums_down :
        (n : ℕ)
        → Apart n
        → work_down math p table n (eeuclid_256_mod_p (product math p table n)) ≡ sums_down n
    unfolding work_down sums_down
    work_down-sums_down zero apart = unfold product in refl
    work_down-sums_down (suc n) apart =
        let below = λ (i : ℕ) (le : i ≤ n). apart i (omega (arith, le)) in
        let z = product math p table n in
        let d = x_delta math p (entry table (suc n)) in
        let hz = product-Invertible n below in
        let hd = apart (suc n) (omega arith) in
        let whole : product math p table (suc n) ≡ mul_256_mod_p z d = unfold product in refl in
        rw (whole, inverse_last z d hz hd, inverse_front z d hz hd, work_down-sums_down n below)
          refl

    -- The points that a block of threads starts from, entry by entry.
    module _ (base : ℕ) where
      unfoldable pub start : ℕ → List CurvePoint → List CurvePoint
      start n = init_down math p table base n (eeuclid_256_mod_p (product math p table n))

      start_step :
          (n : ℕ) (offsets : List CurvePoint)
          → Apart (suc n)
          → start (suc n) offsets ≡ start n (set offsets (base + suc n) (chord (suc n)))
      unfolding start init_down
      start_step n offsets apart =
          let z = product math p table n in
          let d = x_delta math p (entry table (suc n)) in
          let hz = product-Invertible n (λ i le. apart i (omega (arith, le))) in
          let hd = apart (suc n) (omega arith) in
          let whole : product math p table (suc n) ≡ mul_256_mod_p z d = unfold product in refl in
          rw (whole, inverse_last z d hz hd, inverse_front z d hz hd) refl

      start-zero :
          (offsets : List CurvePoint) → start zero offsets ≡ set offsets (base + zero) (chord zero)
      unfolding start init_down product
      start-zero offsets = let same : base + 0 ≡ base = omega arith in rw same refl

      pub length-start :
          (n : ℕ) (offsets : List CurvePoint) → Apart n → length (start n offsets) ≡ length offsets
      length-start zero offsets apart =
          ap length (start-zero offsets) ∙ length-set offsets (base + zero) (chord zero)
      length-start (suc n) offsets apart =
          ap length (start_step n offsets apart)
          ∙ length-start n _ (λ i le. apart i (omega (arith, le)))
          ∙ length-set offsets (base + suc n) (chord (suc n))

      -- What lies outside of the entries stays.
      pub start_outside :
          (n k : ℕ) (offsets : List CurvePoint)
          → Apart n
          → ((i : ℕ) → i ≤ n → ¬ (base + i ≡ k))
          → get_or (start n offsets) k unset ≡ get_or offsets k unset
      start_outside zero k offsets apart outside =
          ap (λ l. get_or l k unset) (start-zero offsets)
          ∙ get_or-set_other offsets (base + zero) k (chord zero) unset (outside 0 (omega arith))
      start_outside (suc n) k offsets apart outside =
          ap (λ l. get_or l k unset) (start_step n offsets apart)
          ∙ start_outside n k _ (λ i le. apart i (omega (arith, le)))
              (λ i le. outside i (omega (arith, le)))
          ∙ get_or-set_other offsets (base + suc n) k (chord (suc n)) unset
              (outside (suc n) (omega arith))

      -- Each entry is the sum with its own inversion.
      pub start_inside :
          (n j : ℕ) (offsets : List CurvePoint)
          → Apart n
          → j ≤ n
          → base + n < length offsets
          → get_or (start n offsets) (base + j) unset ≡ chord j
      start_inside zero zero offsets apart le room =
          ap (λ l. get_or l (base + zero) unset) (start-zero offsets)
          ∙ get_or-set offsets (base + zero) (chord zero) unset (omega (arith, room))
      start_inside zero (suc j) offsets apart le room = absurd (omega (arith, le))
      start_inside (suc n) j offsets apart le room = elim (ℕ_discrete j (suc n)) [
        | yes e ↦ rw e (
            ap (λ l. get_or l (base + suc n) unset) (start_step n offsets apart)
            ∙ start_outside n (base + suc n) _ below (λ i low e'. omega (arith, low, e'))
            ∙ get_or-set offsets (base + suc n) (chord (suc n)) unset room)
        | no other ↦
            ap (λ l. get_or l (base + j) unset) (start_step n offsets apart)
            ∙ start_inside n j _ below (omega (arith, le, other))
                (omega (arith, room, length-set offsets (base + suc n) (chord (suc n))))
      ]
        where
          below : Apart n
          below i low = apart i (omega (arith, low))
