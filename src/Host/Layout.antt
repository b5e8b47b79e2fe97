-- ===== src/Host/Layout.antt =====
-- "Deconstruct buffer", the first lines of `sol_vanity_search_optimized`
-- (kernels/sol_vanity_optimized.cu) and of `eth_vanity_search_ultra` (kernels/eth_vanity_ultra.cu).
use vanity_generator_evm_svm.Common.{ℕ, ◌+◌, ◌^◌, ◌<◌, ◌≡◌, refl, ap, ◌∙◌, sym, arith}
use vanity_generator_evm_svm.Common.{
  List, [], ◌++◌, length, take, drop, replicate, length-append, length-replicate,
}
use vanity_generator_evm_svm.Common.{take-append_length, drop-append_length, take-append-drop}
use vanity_generator_evm_svm.Host.{le_bytes}
use vanity_generator_evm_svm.Host.Rounds.{Request, out_offset}
use vanity_generator_evm_svm.Host.Memory.{le_value, length-le_bytes, le_value-le_bytes}
use mathlib.Core.List.{append_assoc}

-- What a kernel takes from its buffer.
pub record View : Type 0 where
  pub seed : List ℕ
  pub target : List ℕ
  pub suffix : List ℕ
  pub out_at : ℕ

unfoldable pub deconstruct : List ℕ → View
deconstruct buffer =
    let target_len = le_value (take 8 (drop 32 buffer)) in
    let suffix_len = le_value (take 8 (drop (40 + target_len) buffer)) in
    record {
      seed = take 32 buffer;
      target = take target_len (drop 40 buffer);
      suffix = take suffix_len (drop (40 + target_len + 8) buffer);
      out_at = 40 + target_len + suffix_len + 8;
    }

-- The bytes that a round copies to the buffer, `n` zeros at the place of the output included.
abbrev pub packed : Request → ℕ → List ℕ
packed q n =
    ((((q.seed ++ le_bytes 8 (length q.target)) ++ q.target) ++ le_bytes 8 (length q.suffix))
      ++ q.suffix)
    ++ replicate n 0

-- A part of a list at a known place.
pub part :
    (m front x rest : List ℕ) (k n : ℕ)
    → k ≡ length front
    → n ≡ length x
    → m ≡ front ++ (x ++ rest)
    → take n (drop k m) ≡ x
part m front x rest k n at_front as_long e =
    rw (at_front, as_long, e, drop-append_length front (x ++ rest)) (take-append_length x rest)

-- Five parts of a list, one after another, with what stands before each.
five_parts :
    (m a b c d e rest : List ℕ)
    → m ≡ a ++ (b ++ (c ++ (d ++ (e ++ rest))))
    → (m ≡ (a ++ b) ++ (c ++ (d ++ (e ++ rest))))
      × (m ≡ ((a ++ b) ++ c) ++ (d ++ (e ++ rest)))
      × (m ≡ (((a ++ b) ++ c) ++ d) ++ (e ++ rest))
      × (m ≡ ((((a ++ b) ++ c) ++ d) ++ e) ++ rest)
five_parts m a b c d e rest h =
    let one = h ∙ sym (append_assoc a b (c ++ (d ++ (e ++ rest)))) in
    let two = one ∙ sym (append_assoc (a ++ b) c (d ++ (e ++ rest))) in
    let three = two ∙ sym (append_assoc ((a ++ b) ++ c) d (e ++ rest)) in
    (one, two, three, three ∙ sym (append_assoc (((a ++ b) ++ c) ++ d) e rest))

module _ (q : Request) (n : ℕ) (m : List ℕ) where
  whole :
      take (length (packed q n)) m ≡ packed q n
      → m
        ≡ q.seed
          ++ (le_bytes 8 (length q.target)
              ++ (q.target
                  ++ (le_bytes 8 (length q.suffix)
                      ++ (q.suffix ++ (replicate n 0 ++ drop (length (packed q n)) m)))))
  whole known =
      sym (take-append-drop (length (packed q n)) m)
      ∙ ap (λ (l : List ℕ). l ++ drop (length (packed q n)) m) known
      ∙ simp append_assoc refl

  module _ (seed_fits : length q.seed ≡ 32)
      (known : take (length (packed q n)) m ≡ packed q n) where
    parts :
        let t = le_bytes 8 (length q.target) in
        let s = le_bytes 8 (length q.suffix) in
        let rest = replicate n 0 ++ drop (length (packed q n)) m in
        (take 32 m ≡ q.seed)
        × (take 8 (drop 32 m) ≡ t)
        × (take (length q.target) (drop 40 m) ≡ q.target)
        × (take 8 (drop (40 + length q.target) m) ≡ s)
        × (take (length q.suffix) (drop (40 + length q.target + 8) m) ≡ q.suffix)
        × (take n (drop (40 + length q.target + length q.suffix + 8) m) ≡ replicate n 0)
    parts =
        let t = le_bytes 8 (length q.target) in
        let s = le_bytes 8 (length q.suffix) in
        let tail = drop (length (packed q n)) m in
        let zeros = replicate n 0 ++ tail in
        let right = whole known in
        let (one, two, three, four) = five_parts m q.seed t q.target s q.suffix zeros right in
        let one_ends = length-append q.seed t in
        let two_ends = length-append (q.seed ++ t) q.target in
        let three_ends = length-append ((q.seed ++ t) ++ q.target) s in
        let four_ends = length-append (((q.seed ++ t) ++ q.target) ++ s) q.suffix in
        let t_fits = length-le_bytes 8 (length q.target) in
        let s_fits = length-le_bytes 8 (length q.suffix) in
        (
          part m [] q.seed (t ++ (q.target ++ (s ++ (q.suffix ++ zeros)))) 0 32 refl (sym seed_fits)
              right,
          part m q.seed t (q.target ++ (s ++ (q.suffix ++ zeros))) 32 8 (sym seed_fits) (sym t_fits)
              right,
          part m (q.seed ++ t) q.target (s ++ (q.suffix ++ zeros)) 40 (length q.target)
              (omega (arith, one_ends, t_fits, seed_fits)) refl one,
          part m ((q.seed ++ t) ++ q.target) s (q.suffix ++ zeros) (40 + length q.target) 8
              (omega (arith, one_ends, two_ends, t_fits, seed_fits)) (sym s_fits) two,
          part m (((q.seed ++ t) ++ q.target) ++ s) q.suffix zeros (40 + length q.target + 8)
              (length q.suffix)
              (omega (arith, one_ends, two_ends, three_ends, t_fits, s_fits, seed_fits)) refl three,
          part m ((((q.seed ++ t) ++ q.target) ++ s) ++ q.suffix) (replicate n 0) tail
              (40 + length q.target + length q.suffix + 8) n
              (omega (arith, one_ends, two_ends, three_ends, four_ends, t_fits, s_fits, seed_fits))
              (sym (length-replicate n 0)) four,
        )

    -- The kernel reads back what the round was asked for, and finds zeros at its output.
    pub deconstruct-packed :
        length q.target < 2 ^ 64
        → length q.suffix < 2 ^ 64
        → (deconstruct m
            ≡ record { seed = q.seed; target = q.target; suffix = q.suffix; out_at = out_offset q })
          × (take n (drop (out_offset q) m) ≡ replicate n 0)
    unfolding deconstruct
    deconstruct-packed target_fits suffix_fits =
        let (seed_at, target_len_at, target_at, suffix_len_at, suffix_at, out_at) = parts in
        let target_len = le_value-le_bytes 8 (length q.target) target_fits in
        let suffix_len = le_value-le_bytes 8 (length q.suffix) suffix_fits in
        (
          rw (target_len_at, target_len, suffix_len_at, suffix_len, seed_at, target_at, suffix_at)
              refl,
          out_at,
        )
