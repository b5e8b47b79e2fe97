-- ===== src/Host/Reading.antt =====
-- Reading back what stands in a buffer, or at `out`, after the copies of a round.
use vanity_generator_evm_svm.Common.{ℕ, ◌+◌, ◌≤◌, ◌≡◌, refl, sym, ◌∙◌, ap}
use vanity_generator_evm_svm.Common.{List, ◌++◌, length, take, drop, length-take, take-append-drop}
use vanity_generator_evm_svm.Host.{write_at}
use vanity_generator_evm_svm.Host.Layout.{part}
use mathlib.Core.List.{append_assoc}

-- A part of what an area is known to begin with.
pub known_part :
    (area known front x rest : List ℕ) (k n : ℕ)
    → take (length known) area ≡ known
    → known ≡ front ++ (x ++ rest)
    → k ≡ length front
    → n ≡ length x
    → take n (drop k area) ≡ x
known_part area known front x rest k n begins split at_front as_long =
    part area front x (rest ++ drop (length known) area) k n at_front as_long (
      sym (take-append-drop (length known) area)
      ∙ ap (λ (l : List ℕ). l ++ drop (length known) area) (begins ∙ split)
      ∙ append_assoc front (x ++ rest) (drop (length known) area)
      ∙ ap (λ (l : List ℕ). front ++ l) (append_assoc x rest (drop (length known) area)))

-- The end of what an area is known to begin with.
pub known_end :
    (area front x : List ℕ) (k n : ℕ)
    → take (length (front ++ x)) area ≡ front ++ x
    → k ≡ length front
    → n ≡ length x
    → take n (drop k area) ≡ x
known_end area front x k n begins at_front as_long =
    part area front x (drop (length (front ++ x)) area) k n at_front as_long (
      sym (take-append-drop (length (front ++ x)) area)
      ∙ ap (λ (l : List ℕ). l ++ drop (length (front ++ x)) area) begins
      ∙ append_assoc front x (drop (length (front ++ x)) area))

-- What was written at an offset stands there.
pub drop-write_at :
    (offset : ℕ) (bytes area : List ℕ)
    → offset ≤ length area
    → take (length bytes) (drop offset (write_at offset bytes area)) ≡ bytes
unfolding write_at
drop-write_at offset bytes area fits =
    part _ (take offset area) bytes (drop (offset + length bytes) area) offset (length bytes)
      (sym (length-take offset area fits)) refl refl
