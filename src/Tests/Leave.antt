-- ===== src/Tests/Leave.antt =====
-- What a winner leaves in the buffer of a toy GPU.
use vanity_generator_evm_svm.Common.{
  ℕ, ◌+◌, ◌-◌, ◌≤◌, ◌≡◌, refl, arith, true, Option, none, some, if◌then◌else◌, leb, leb→le,
}
use vanity_generator_evm_svm.Common.{
  List, ◌++◌, length, replicate, length-replicate, length-append, Bool-cases, inl, inr,
}
use vanity_generator_evm_svm.Host.{write_at}
use vanity_generator_evm_svm.Host.Memory.{length-write_at}
use vanity_generator_evm_svm.Host.Written.{Written}

module _ {H : Type 0} (bytes_of : H → List ℕ) (n : ℕ) where
  -- The bytes of a result, filled up with zeros, where there is room for them.
  abbrev padded : H → List ℕ
  padded h = bytes_of h ++ replicate (n - length (bytes_of h)) 0

  abbrev pub leave_result : Option H → ℕ → List ℕ → List ℕ
  leave_result none out_at memory = memory
  leave_result (some h) out_at memory =
      if leb (out_at + length (padded h)) (length memory)
      then write_at out_at (padded h) memory
      else memory

  pub leave_result-length :
      (o : Option H) (out_at : ℕ) (memory : List ℕ)
      → length (leave_result o out_at memory) ≡ length memory
  leave_result-length none out_at memory = refl
  leave_result-length (some h) out_at memory =
      elim (Bool-cases (leb (out_at + length (padded h)) (length memory))) [
        | inl fits ↦ rw fits (length-write_at out_at (padded h) memory (leb→le _ _ fits))
        | inr tight ↦ rw tight refl
      ]

  length-padded : (h : H) → length (bytes_of h) ≤ n → length (padded h) ≡ n
  length-padded h le = omega (
    arith,
    length-append (bytes_of h) (replicate (n - length (bytes_of h)) 0),
    le,
    length-replicate {A = ℕ} (n - length (bytes_of h)) 0,
  )

  pub leave_result-Written :
      (o : Option H) (out_at : ℕ) (memory : List ℕ)
      → ((h : H) → o ≡ some h → length (bytes_of h) ≤ n)
      → out_at + n ≤ length memory
      → Written bytes_of n o out_at memory (leave_result o out_at memory)
  leave_result-Written none out_at memory short room = refl
  leave_result-Written (some h) out_at memory short room =
      let as_long = length-padded h (short h refl) in
      let fits : leb (out_at + length (padded h)) (length memory) ≡ true =
        ground (arith, as_long, room) in
      (replicate (n - length (bytes_of h)) 0, as_long, rw fits refl)
