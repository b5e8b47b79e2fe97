-- ===== src/Production/Hex.antt =====
-- The text of an address in kernels/eth_vanity_production.cu beside that of kernels/eth_vanity_ultra.cu.
use vanity_generator_evm_svm.Common.{ℕ, ◌<◌, ◌≡◌, refl, arith, true, false, ◌==◌}
use vanity_generator_evm_svm.Common.{
  List, [], ◌∷◌, length, get_or, bit_and, ◌>>>◌, IsByte, All, every, every_below,
}
use vanity_generator_evm_svm.Common.{All-append, ==_iff, bit_and_mask}
use vanity_generator_evm_svm.Match.{hex_chars, address_to_hex_ultra}
use vanity_generator_evm_svm.Production.Score.{Address, nibble_to_hex, address_bytes, hex_of}
use vanity_generator_evm_svm.Secp.{write_word}

pub length-address_bytes : (addr : Address) → length (address_bytes addr) ≡ 20
unfolding address_bytes write_word
length-address_bytes addr = refl

-- The digits of `nibble_to_hex` are those of the text of the other kernel.
nibble_table : every (λ n. nibble_to_hex n false == get_or hex_chars n 0) 0 16 ≡ true
unfolding every nibble_to_hex hex_chars
nibble_table = refl

nibble_to_hex-get_or : (n : ℕ) → n < 16 → nibble_to_hex n false ≡ get_or hex_chars n 0
nibble_to_hex-get_or n lt =
    (==_iff _ _).0
      (every_below (λ n. nibble_to_hex n false == get_or hex_chars n 0) 16 n lt nibble_table)

pub hex_of-address_to_hex_ultra :
    (bs : List ℕ) → All IsByte bs → hex_of bs ≡ address_to_hex_ultra bs
unfolding hex_of address_to_hex_ultra
hex_of-address_to_hex_ultra [] h = refl
hex_of-address_to_hex_ultra (byte ∷ bs) (hb, h) =
    let low : bit_and byte 15 < 16 = omega (arith, bit_and_mask 4 byte) in
    rw
      (
        nibble_to_hex-get_or (byte >>> 4) (omega (arith, hb)),
        nibble_to_hex-get_or (bit_and byte 15) low,
        hex_of-address_to_hex_ultra bs h,
      )
      refl

write_word-IsByte : (w : ℕ) → All IsByte (write_word w)
unfolding write_word
write_word-IsByte w = (omega arith, (omega arith, (omega arith, (omega arith, tt))))

pub address_bytes-IsByte : (addr : Address) → All IsByte (address_bytes addr)
unfolding address_bytes
address_bytes-IsByte addr =
    let next = λ (w : ℕ) (rest : List ℕ) (h : All IsByte rest).
      All-append IsByte (write_word w) rest (write_word-IsByte w) h in
    next addr.a _ (next addr.b _ (next addr.c _ (next addr.d _ (write_word-IsByte addr.e))))
