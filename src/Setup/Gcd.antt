-- ===== src/Setup/Gcd.antt =====
-- `gcd` (kernels/utils.cu), and the division by it in `gpu_init`.
use vanity_generator_evm_svm.Common.{
  some, refl, ℕ, zero, suc, ◌+◌, ◌*◌, ◌^◌, ◌/◌, ◌%◌, ◌≤◌, ◌<◌, ◌≡◌, arith, ap, ◌∙◌, ◌↔◌, inl, inr,
}
use vanity_generator_evm_svm.Common.{◌==◌, ==_iff, Bool-cases}
use vanity_generator_evm_svm.Setup.{gcd, DeviceProp, GpuGlobals, block_size, gpu_init}
use Prim.Native.Nat.{◌∣◌}
use native.Mathlib.Decide.{ℕ_discrete}
use native.Mathlib.Nat.{dvd-zero, dvd-mod_iff, dvd_refl, mod-lt, div-mul_cancel}

-- With fuel from its first argument on, `gcd` returns a number whose divisors are the common divisors
-- of its arguments: their greatest common divisor.
pub gcd-divisors : (fuel a b : ℕ) → a ≤ fuel → (d : ℕ) → (d ∣ gcd fuel a b) ↔ ((d ∣ a) × (d ∣ b))
unfolding gcd
gcd-divisors zero a b le d =
    let empty : a ≡ 0 = omega arith in rw empty (λ h. (dvd-zero d, h), λ (h0, h). h)
gcd-divisors (suc fuel) a b le d = elim (Bool-cases (a == 0)) [
  | inl none ↦
      let empty : a ≡ 0 = (==_iff a 0).0 none in
      rw (none, empty) (λ h. (dvd-zero d, h), λ (h0, h). h)
  | inr live ↦
      let positive : 0 < a = ground arith in
      let smaller : b % a < a = mod-lt b positive in
      let (into, back) = gcd-divisors fuel (b % a) a (omega (arith, smaller, le)) d in
      rw live (
        λ h. let (rest, whole) = into h in (whole, (dvd-mod_iff d whole).0 rest),
        λ (ha, hb). back ((dvd-mod_iff d ha).1 hb, ha),
      )
]

-- `g` is the greatest common divisor of `a` and `b`: its divisors are those of both.
abbrev pub IsGcd : ℕ → ℕ → ℕ → Type 0
IsGcd a b g = (d : ℕ) → (d ∣ g) ↔ ((d ∣ a) × (d ∣ b))

-- On a device whose multiprocessors have threads, fewer than 2 ^ 31 of them in all, so that no `int`
-- overflows: `gpu_init` sets a number of blocks, less than 2 ^ 31, that is the threads of all
-- multiprocessors divided by a number without a rest, and this number is the greatest common divisor
-- of the threads of a multiprocessor and of a block. The other globals are told by the device, but for
-- 256 threads and 5000000000 cycles.
pub gpu_init-blocks :
    (prop : DeviceProp)
    → 0 < prop.max_threads_per_multi_processor
    → prop.max_threads_per_multi_processor * prop.multi_processor_count < 2 ^ 31
    → (globals : GpuGlobals) × (gpu_init (some prop) ≡ some globals)
      × ((g : ℕ) × (0 < g)
          × IsGcd prop.max_threads_per_multi_processor prop.max_threads_per_block g
          × (globals.num_blocks * g
              ≡ prop.max_threads_per_multi_processor * prop.multi_processor_count))
      × (globals.num_blocks < 2 ^ 31)
      × (globals.num_multi_processors ≡ prop.multi_processor_count)
      × (globals.max_threads_per_mp ≡ prop.max_threads_per_multi_processor)
      × (globals.num_threads ≡ 256)
      × (globals.target_cycles ≡ 5000000000)
unfolding gpu_init block_size
gpu_init-blocks prop live fits =
    (_, refl, (divisor, positive, common, product), small, refl, refl, refl, refl)
  where
    divisor : ℕ
    divisor =
        gcd (suc prop.max_threads_per_multi_processor) prop.max_threads_per_multi_processor
          prop.max_threads_per_block

    common : IsGcd prop.max_threads_per_multi_processor prop.max_threads_per_block divisor
    common =
        gcd-divisors (suc prop.max_threads_per_multi_processor) prop.max_threads_per_multi_processor
          prop.max_threads_per_block (omega arith)

    exact :
        prop.max_threads_per_multi_processor / divisor * divisor
        ≡ prop.max_threads_per_multi_processor
    exact = div-mul_cancel divisor ((common divisor).0 (dvd_refl divisor)).0

    positive : 0 < divisor
    positive = elim (ℕ_discrete divisor 0) [
      | yes none ↦ absurd (let e = rw none at exact in omega (arith, e, live))
      | no other ↦ omega (arith, other)
    ]

    swap : (x y z : ℕ) → x * y * z ≡ x * z * y
    swap x y z = grind arith

    blocks : ℕ
    blocks = prop.max_threads_per_multi_processor / divisor * prop.multi_processor_count

    product : blocks * divisor ≡ prop.max_threads_per_multi_processor * prop.multi_processor_count
    product =
        swap _ prop.multi_processor_count divisor ∙ ap (λ t. t * prop.multi_processor_count) exact

    at_most : (x y : ℕ) → 0 < y → x ≤ x * y
    at_most x zero lt = absurd (omega arith)
    at_most x (suc y) lt = let more : x * suc y ≡ x * y + x = grind arith in omega (arith, more)

    small : blocks < 2 ^ 31
    small = omega (arith, at_most blocks divisor positive, product, fits)
