-- ===== src/Secp/Multiply.antt =====
-- `point_multiply` of kernels/secp256k1_mrspike.cu beside multiples in a group.
use vanity_generator_evm_svm.Common.{
  ℕ, zero, suc, ◌+◌, ◌*◌, ◌/◌, ◌%◌, ◌^◌, ◌≤◌, ◌<◌, ◌≡◌, ◌≢◌, refl, ap, ◌∙◌, sym, arith, inl, inr,
  Bool, true, false, ◌==◌, if◌then◌else◌, bit_and, bit_and_power, ◌<<<◌, u32, Option, none, some,
  Bool-cases,
}
use vanity_generator_evm_svm.Secp.{
  Uint256, CurvePoint, FieldOps, point_add, Doubling, accumulate, process_word, point_multiply,
}
use vanity_generator_evm_svm.Secp.Bytes.{IsWords}
use native.Mathlib.Nat.{pow-suc, one-le-pow, pow-le-pow_right, div-div-eq-div-mul}
use mathlib.Core.Path.{subst}
use native.Mathlib.Decide.{ℕ_discrete}

-- The number of eight words.
abbrev pub value_256 : Uint256 → ℕ
value_256 v =
    v.h
    + v.g * 2 ^ 32
    + v.f * 2 ^ 64
    + v.e * 2 ^ 96
    + v.d * 2 ^ 128
    + v.c * 2 ^ 160
    + v.b * 2 ^ 192
    + v.a * 2 ^ 224

-- The multiples of a point below the order of its group: the addition of two of them is the addition of
-- their factors, as long as the sum stays below the order.
pub record Multiples (ops : FieldOps) (p : CurvePoint) (order : ℕ) : Type 0 where
  pub multiple : ℕ → CurvePoint
  pub first : multiple 1 ≡ p
  pub add :
      (m n : ℕ)
      → 0 < m
      → 0 < n
      → m + n < order
      → point_add ops (multiple m) (multiple n) ≡ multiple (m + n)

-- The bit that the loop tests.
bit_zero : (b k : ℕ) → b < 2 → 0 < k → (b * k == 0) ≡ (b == 0)
bit_zero zero k lt live = let nothing : 0 * k ≡ 0 = omega arith in rw nothing refl
bit_zero (suc zero) k lt live =
    let single : 1 * k ≡ k = omega arith in
    let some_bit : (k == 0) ≡ false = ground (arith, live) in
    let one_bit : (1 == 0) ≡ false = refl in rw (single, some_bit) refl
bit_zero (suc (suc b)) k lt live = absurd (omega (arith, lt))

bit_test : (i word : ℕ) → i < 32 → (bit_and word (u32 (1 <<< i)) == 0) ≡ (word / 2 ^ i % 2 == 0)
bit_test i word lt =
    let top : 2 ^ suc i ≤ 2 ^ 32 = pow-le-pow_right {n = 2} (omega arith) lt in
    let positive = one-le-pow i 2 in
    let single : u32 (1 <<< i) ≡ 2 ^ i = omega (arith, top, pow-suc 2 i, positive) in
    ap (λ t. bit_and word t == 0) single
    ∙ ap (λ t. t == 0) (bit_and_power i word)
    ∙ bit_zero (word / 2 ^ i % 2) (2 ^ i) (omega arith) (omega (arith, positive))

halved : (i word q : ℕ) → word / 2 ^ i ≡ q → word / 2 ^ (i + 1) ≡ q / 2
halved i word q e =
    let place : i + 1 ≡ suc i = omega arith in
    let double : 2 ^ suc i ≡ 2 ^ i * 2 = omega (arith, pow-suc 2 i) in
    let power : 2 ^ (i + 1) ≡ 2 ^ i * 2 = ap (λ k. 2 ^ k) place ∙ double in
    ap (λ k. word / k) power ∙ sym (div-div-eq-div-mul word (2 ^ i) 2) ∙ ap (λ k. k / 2) e

even_part : (q k : ℕ) → (q % 2 == 0) ≡ true → q * k ≡ q / 2 * k * 2
even_part q k clear =
    let whole : q ≡ q / 2 * 2 = ground (arith, clear) in ap (λ t. t * k) whole ∙ grind arith

odd_part : (q k : ℕ) → (q % 2 == 0) ≡ false → q * k ≡ q / 2 * k * 2 + k
odd_part q k one =
    let whole : q ≡ q / 2 * 2 + 1 = ground (arith, one) in ap (λ t. t * k) whole ∙ grind arith

doubled_part : (r j : ℕ) → r * 2 ^ suc j ≡ r * 2 ^ j * 2
doubled_part r j = rw (pow-suc 2 j) (grind arith)

module _ (ops : FieldOps) (p : CurvePoint) (order : ℕ) (large : 2 ^ 255 < order)
    (group : Multiples ops p order) where
  open group use {multiple, first, add}

  -- The multiple `v` of the point, which is the point at infinity for 0.
  abbrev pub Holds : ℕ → Option CurvePoint → Type 0
  Holds v r = (v ≡ 0 → r ≡ none) × (v ≢ 0 → r ≡ some (multiple v))

  -- Behind `j` bits of the scalar, `v` being what they make.
  record Behind (j v : ℕ) (s : Doubling ops) : Type 0 where
    small : v < 2 ^ j
    held : Holds v s.result
    doubled : j ≤ 255 → s.temp ≡ multiple (2 ^ j)

  accumulate-Holds :
      (v w : ℕ) (r : Option CurvePoint) (temp : CurvePoint)
      → Holds v r
      → temp ≡ multiple w
      → 0 < w
      → v + w < order
      → Holds (v + w) (some (accumulate ops r temp))
  unfolding accumulate
  accumulate-Holds v w r temp (h, h') e live lt = elim (ℕ_discrete v 0) [
    | yes z ↦
        let sum : v + w ≡ w = omega (arith, z) in
        (λ e'. absurd (omega (arith, e', live)), λ e'. rw (h z, sum, e) refl)
    | no some_bits ↦ (
      λ e'. absurd (omega (arith, e', live)),
      λ e'. rw (h' some_bits, e) (ap some (add v w (omega (arith, some_bits)) live lt)),
    )
  ]

  -- One round of the loop over bits, with the bit `b`.
  abbrev round : Bool → Doubling ops → Doubling ops
  round clear s = record {
    result = if clear then s.result else some (accumulate ops s.result s.temp);
    temp = point_add ops s.temp s.temp;
  }

  next_power :
      (j : ℕ) (temp : CurvePoint)
      → (j ≤ 255 → temp ≡ multiple (2 ^ j))
      → suc j ≤ 255
      → point_add ops temp temp ≡ multiple (2 ^ suc j)
  next_power j temp e le =
      let power = pow-suc 2 j in
      let top : 2 ^ suc j ≤ 2 ^ 255 = pow-le-pow_right {n = 2} (omega arith) le in
      let positive = one-le-pow j 2 in
      let double : 2 ^ j + 2 ^ j ≡ 2 ^ suc j = omega (arith, power) in
      rw (e (omega (arith, le))) (
        add (2 ^ j) (2 ^ j) (omega (arith, positive)) (omega (arith, positive))
          (omega (arith, double, top, large))
        ∙ ap multiple double)

  clear_bit : (j v : ℕ) (s : Doubling ops) → Behind j v s → Behind (suc j) v (round true s)
  clear_bit j v s b = record {
    small = omega (arith, b.small, pow-suc 2 j);
    held = b.held;
    doubled = next_power j s.temp b.doubled;
  }

  set_bit :
      (j v : ℕ) (s : Doubling ops)
      → Behind j v s
      → j ≤ 255
      → v + 2 ^ j < order
      → Behind (suc j) (v + 2 ^ j) (round false s)
  set_bit j v s b le lt = record {
    small = omega (arith, b.small, pow-suc 2 j);
    held =
        accumulate-Holds v (2 ^ j) s.result s.temp b.held (b.doubled le)
          (omega (arith, one-le-pow j 2)) lt;
    doubled = next_power j s.temp b.doubled;
  }

  moved : {j j' v v' : ℕ} {s : Doubling ops} → j ≡ j' → v ≡ v' → Behind j v s → Behind j' v' s
  moved {s = s} ej ev b = subst (λ (t : ℕ × ℕ). Behind t.0 t.1 s) (λ i. (ej i, ev i)) b

  -- What is left of a word, bit after bit.
  word_bits :
      (n i word q j v : ℕ) (s : Doubling ops)
      → word / 2 ^ i ≡ q
      → q < 2 ^ n
      → i + n ≤ 32
      → j + n ≤ 256
      → v + q * 2 ^ j < order
      → Behind j v s
      → Behind (j + n) (v + q * 2 ^ j) (process_word ops n i word s)
  unfolding process_word
  word_bits zero i word q j v s e lt room total below b =
      let none_left : q ≡ 0 = omega (arith, lt) in
      moved (omega arith) (rw none_left (omega arith)) b
  word_bits (suc n) i word q j v s e lt room total below b =
      let test = bit_test i word (omega (arith, room)) ∙ ap (λ t. t % 2 == 0) e in
      let next = halved i word q e in
      let shorter : q / 2 < 2 ^ n = omega (arith, lt, pow-suc 2 n) in
      let longer : suc j + n ≡ j + suc n = omega arith in
      elim (Bool-cases (q % 2 == 0)) [
        | inl clear ↦
            let parts = even_part q (2 ^ j) clear in
            let sum : v + q / 2 * 2 ^ suc j ≡ v + q * 2 ^ j =
              omega (arith, parts, doubled_part (q / 2) j) in
            rw (test, clear)
              (moved longer sum (
                word_bits n (i + 1) word (q / 2) (suc j) v (round true s) next shorter
                  (omega (arith, room)) (omega (arith, total)) (omega (arith, below, sum))
                  (clear_bit j v s b)))
        | inr one ↦
            let parts = odd_part q (2 ^ j) one in
            let sum : v + 2 ^ j + q / 2 * 2 ^ suc j ≡ v + q * 2 ^ j =
              omega (arith, parts, doubled_part (q / 2) j) in
            let fits : v + 2 ^ j < order = omega (arith, below, sum) in
            rw (test, one)
              (moved longer sum (
                word_bits n (i + 1) word (q / 2) (suc j) (v + 2 ^ j) (round false s) next shorter
                  (omega (arith, room)) (omega (arith, total)) (omega (arith, below, sum))
                  (set_bit j v s b (omega (arith, total)) fits)))
      ]

  -- One word of the scalar.
  word_step :
      (word j v : ℕ) (s : Doubling ops)
      → word < 2 ^ 32
      → j + 32 ≤ 256
      → v + word * 2 ^ j < order
      → Behind j v s
      → Behind (j + 32) (v + word * 2 ^ j) (process_word ops 32 0 word s)
  word_step word j v s lt total below b =
      let whole : word / 2 ^ 0 ≡ word = omega arith in
      word_bits 32 0 word word j v s whole lt (omega arith) total below b

  -- On additions that are those of multiples below the order, a scalar of eight words below the order
  -- gives its multiple of the point, and no point exactly where the scalar is 0.
  pub point_multiply-multiple :
      (scalar : Uint256)
      → IsWords scalar
      → value_256 scalar < order
      → (value_256 scalar ≡ 0 → point_multiply ops p scalar ≡ none)
        × (value_256 scalar ≢ 0 → point_multiply ops p scalar ≡ some (multiple (value_256 scalar)))
  unfolding point_multiply
  point_multiply-multiple scalar (ha, hb, hc, hd, he, hf, hg, hh) below =
      let start : Behind 0 0 (record { result = none; temp = p }) = record {
        small = omega arith;
        held = (λ e. refl, λ e. absurd (e refl));
        doubled = λ le. sym first;
      } in
      let h = word_step scalar.h 0 0 _ hh (omega arith) (omega (arith, below)) start in
      let g = word_step scalar.g 32 _ _ hg (omega arith) (omega (arith, below)) h in
      let f = word_step scalar.f 64 _ _ hf (omega arith) (omega (arith, below)) g in
      let e = word_step scalar.e 96 _ _ he (omega arith) (omega (arith, below)) f in
      let d = word_step scalar.d 128 _ _ hd (omega arith) (omega (arith, below)) e in
      let c = word_step scalar.c 160 _ _ hc (omega arith) (omega (arith, below)) d in
      let b = word_step scalar.b 192 _ _ hb (omega arith) (omega (arith, below)) c in
      let a = word_step scalar.a 224 _ _ ha (omega arith) (omega (arith, below)) b in
      (moved refl (omega arith) a).held
