-- ===== src/Eth/Increment.antt =====
-- The carry loop of kernels/eth_vanity_ultra.cu on the big-endian number of the key.
use vanity_generator_evm_svm.Common.{
  ℕ, suc, ◌+◌, ◌*◌, ◌%◌, ◌^◌, ◌≤◌, ◌<◌, ◌≡◌, refl, arith, ap, ◌∙◌, sym,
}
use vanity_generator_evm_svm.Common.{
  List, [], ◌∷◌, reverse, length, length-reverse, All, All-reverse, IsByte,
}
use vanity_generator_evm_svm.Common.{
  u32, ◌>>>◌, bit_and, bit_and_mask, ◌==◌, ==_iff, Bool-cases, inl, inr,
}
use vanity_generator_evm_svm.Base58.Digits.{value_from}
use vanity_generator_evm_svm.Eth.{increment, increment_from}
use vanity_generator_evm_svm.Base58.Decode.{value_from-append}
use native.Mathlib.Nat.{pow-suc, mod-eq_of_lt, add-mul-mod_self_left}
use mathlib.Core.List.{reverse-reverse, reverse-cons}

-- The number of a list of bytes, the last one up.
abbrev little : List ℕ → ℕ
little [] = 0
little (b ∷ bs) = b + 256 * little bs

little-lt : (bs : List ℕ) → All IsByte bs → little bs < 256 ^ length bs
little-lt [] h = omega arith
little-lt (b ∷ bs) (hb, h) = omega (arith, hb, little-lt bs h, pow-suc 256 (length bs))

value_from-reverse : (bs : List ℕ) → value_from 256 0 (reverse bs) ≡ little bs
value_from-reverse [] = refl
value_from-reverse (b ∷ bs) =
    rw (reverse-cons b bs, value_from-append 256 0 (reverse bs) (b ∷ []))
      (omega (arith, value_from-reverse bs))

-- The carry out of one byte.
abbrev carried : ℕ → ℕ → ℕ
carried carry b = bit_and (u32 (b + carry) >>> 8) 1

byte_low : (sum : ℕ) → bit_and sum 0xFF ≡ sum % 256
byte_low sum = bit_and_mask 8 sum

byte_carry : (n : ℕ) → bit_and n 1 ≡ n % 2
byte_carry n = bit_and_mask 1 n

length-increment_from : (carry : ℕ) (bs : List ℕ) → length (increment_from carry bs) ≡ length bs
unfolding increment_from
length-increment_from carry [] = refl
length-increment_from carry (b ∷ bs) = elim (Bool-cases (bit_and (u32 (b + carry) >>> 8) 1 == 0)) [
  | inl done ↦ rw done refl
  | inr more ↦ rw (more, length-increment_from (carried carry b) bs) refl
]

increment_from-IsByte :
    (carry : ℕ) (bs : List ℕ) → All IsByte bs → All IsByte (increment_from carry bs)
unfolding increment_from
increment_from-IsByte carry [] h = tt
increment_from-IsByte carry (b ∷ bs) (hb, h) =
    elim (Bool-cases (bit_and (u32 (b + carry) >>> 8) 1 == 0)) [
      | inl done ↦ rw done (omega (arith, byte_low (u32 (b + carry))), h)
      | inr more ↦
          rw more (
            omega (arith, byte_low (u32 (b + carry))),
            increment_from-IsByte (carried carry b) bs h,
          )
    ]

-- What the loop adds, with the carry out of the top byte.
increment_from_lem :
    (carry : ℕ) (bs : List ℕ)
    → All IsByte bs
    → carry ≤ 1
    → (top : ℕ) × (little (increment_from carry bs) + 256 ^ length bs * top ≡ little bs + carry)
unfolding increment_from
increment_from_lem carry [] h le = (carry, omega arith)
increment_from_lem carry (b ∷ bs) (hb, h) le =
    let low = byte_low (u32 (b + carry)) in
    let high = byte_carry (u32 (b + carry) >>> 8) in
    elim (Bool-cases (carried carry b == 0)) [
      | inl done ↦
          let none_left = (==_iff (carried carry b) 0).0 done in
          rw done (0, omega (arith, low, high, none_left, hb))
      | inr more ↦
          let (top, rest) = increment_from_lem (carried carry b) bs h (omega (arith, high)) in
          rw more (
            top,
            omega (arith, low, high, rest, hb, pow-suc 256 (length bs), spread (length bs) top),
          )
    ]
  where
    spread : (n top : ℕ) → 256 ^ suc n * top ≡ 256 * (256 ^ n * top)
    spread n top = rw (pow-suc 256 n) (grind arith)

pub increment-IsByte : (key : List ℕ) → All IsByte key → All IsByte (increment key)
unfolding increment
increment-IsByte key h =
    All-reverse IsByte _ (increment_from-IsByte 1 (reverse key) (All-reverse IsByte key h))

pub length-increment : (key : List ℕ) → length (increment key) ≡ length key
unfolding increment
length-increment key = length-reverse _ ∙ length-increment_from 1 (reverse key) ∙ length-reverse key

-- The increment adds one to the big-endian number of the key, modulo 256 to the number of bytes.
pub increment-value :
    (key : List ℕ)
    → All IsByte key
    → value_from 256 0 (increment key) ≡ (value_from 256 0 key + 1) % 256 ^ length key
unfolding increment
increment-value key h =
    let (top, sum) = increment_from_lem 1 (reverse key) (All-reverse IsByte key h) (omega arith) in
    let after : List ℕ = increment_from 1 (reverse key) in
    let small : little after < 256 ^ length after =
      little-lt after (increment_from-IsByte 1 (reverse key) (All-reverse IsByte key h)) in
    let size : length after ≡ length key =
      length-increment_from 1 (reverse key) ∙ length-reverse key in
    let bound : little after < 256 ^ length key = rw size at small in
    let number : little (reverse key) ≡ value_from 256 0 key =
      sym (value_from-reverse (reverse key)) ∙ ap (value_from 256 0) (reverse-reverse key) in
    value_from-reverse after
    ∙ sym (mod-eq_of_lt bound)
    ∙ sym (add-mul-mod_self_left (little after) (256 ^ length key) top)
    ∙ ap (λ t. t % 256 ^ length key) (rw (length-reverse key, number) at sum)
