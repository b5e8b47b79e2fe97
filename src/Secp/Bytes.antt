-- ===== src/Secp/Bytes.antt =====
-- The byte form of points in kernels/secp256k1_mrspike.cu, written and read.
use vanity_generator_evm_svm.Common.{ℕ, ◌≡◌, refl, ◌∙◌, arith}
use vanity_generator_evm_svm.Common.{IsU32, u8, ◌>>>◌, be32, be32_lem}
use vanity_generator_evm_svm.Secp.{
  Uint256, uint256, CurvePoint, point, batch_read, batch_write, write_word,
}
use vanity_generator_evm_svm.Secp.{read_point, write_point}

read_word : (w : ℕ) → IsU32 w → be32 (u8 (w >>> 24)) (u8 (w >>> 16)) (u8 (w >>> 8)) (u8 w) ≡ w
read_word w h =
    be32_lem (u8 (w >>> 24)) (u8 (w >>> 16)) (u8 (w >>> 8)) (u8 w) (omega arith) (omega arith)
      (omega arith) (omega arith)
    ∙ omega (arith, h)

abbrev back : ℕ → ℕ
back w = be32 (u8 (w >>> 24)) (u8 (w >>> 16)) (u8 (w >>> 8)) (u8 w)

-- Eight words of 32 bits.
abbrev pub IsWords : Uint256 → Type 0
IsWords v =
    IsU32 v.a × IsU32 v.b × IsU32 v.c × IsU32 v.d × IsU32 v.e × IsU32 v.f × IsU32 v.g × IsU32 v.h

words_back :
    (v : Uint256)
    → IsWords v
    → uint256
        (back v.a)
        (back v.b)
        (back v.c)
        (back v.d)
        (back v.e)
        (back v.f)
        (back v.g)
        (back v.h)
      ≡ v
words_back v (ha, hb, hc, hd, he, hf, hg, hh) =
    rw
      (
        read_word v.a ha,
        read_word v.b hb,
        read_word v.c hc,
        read_word v.d hd,
        read_word v.e he,
        read_word v.f hf,
        read_word v.g hg,
        read_word v.h hh,
      )
      refl

-- Reading the public key that is written for a point with coordinates of eight words gives the point.
pub read-write_point : (q : CurvePoint) → IsWords q.x → IsWords q.y → read_point (write_point q) ≡ q
unfolding read_point write_point batch_read batch_write write_word
read-write_point q hx hy = λ i. point (words_back q.x hx i) (words_back q.y hy i)
