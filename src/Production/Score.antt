-- ===== src/Production/Score.antt =====
-- `nibble_to_hex` and `score_address` of kernels/eth_vanity_production.cu.
use vanity_generator_evm_svm.Common.{
  ℕ, zero, suc, ◌+◌, ◌-◌, ◌*◌, Bool, false, ◌&&◌, ltb, leb, ◌==◌, if◌then◌else◌,
}
use vanity_generator_evm_svm.Common.{List, [], ◌∷◌, ◌++◌, get_or, bit_and, ◌>>>◌}
use vanity_generator_evm_svm.Secp.{write_word}

-- Five words, the first bytes in the first word.
pub record Address : Type 0 where
  pub a : ℕ
  pub b : ℕ
  pub c : ℕ
  pub d : ℕ
  pub e : ℕ

-- The pattern globals.
pub record Pattern : Type 0 where
  pub prefix : List ℕ
  pub suffix : List ℕ
  pub prefix_len : ℕ
  pub suffix_len : ℕ
  pub case_sensitive : Bool

unfoldable pub nibble_to_hex : ℕ → Bool → ℕ
nibble_to_hex nibble uppercase =
    if ltb nibble 10 then b'0' + nibble else (if uppercase then b'A' else b'a') + (nibble - 10)

unfoldable pub address_bytes : Address → List ℕ
address_bytes addr =
    write_word addr.a
    ++ (write_word addr.b ++ (write_word addr.c ++ (write_word addr.d ++ write_word addr.e)))

unfoldable pub hex_of : List ℕ → List ℕ
hex_of [] = []
hex_of (byte ∷ bytes) =
    nibble_to_hex (byte >>> 4) false ∷ nibble_to_hex (bit_and byte 15) false ∷ hex_of bytes

-- What the comparisons make of a character.
unfoldable pub fold_hex : Bool → ℕ → ℕ
fold_hex case_sensitive c =
    if case_sensitive then c else (if leb b'A' c && leb c b'F' then c - b'A' + b'a' else c)

-- `for (i = 0; i < len && i < 40; i++) if (f(i) == g(i)) matches++; else break;` from index `i` with
-- `n` rounds left.
unfoldable pub matches : ℕ → ℕ → (ℕ → ℕ) → (ℕ → ℕ) → ℕ
matches zero i f g = 0
matches (suc n) i f g = let rest = matches n (i + 1) f g in if f i == g i then suc rest else 0

abbrev pub rounds_of : ℕ → ℕ
rounds_of len = if ltb len 40 then len else 40

unfoldable pub prefix_score : Pattern → List ℕ → Bool → ℕ
prefix_score pattern hex case_sensitive =
    if ltb 0 pattern.prefix_len
    then matches (rounds_of pattern.prefix_len) 0 (λ i. fold_hex case_sensitive (get_or hex i 0))
        (λ i. fold_hex case_sensitive (get_or pattern.prefix i 0))
      * 1000
    else 0

unfoldable pub suffix_score : Pattern → List ℕ → Bool → ℕ
suffix_score pattern hex case_sensitive =
    if ltb 0 pattern.suffix_len
    then matches (rounds_of pattern.suffix_len) 0
        (λ i. fold_hex case_sensitive (get_or hex (40 - 1 - i) 0))
        (λ i. fold_hex case_sensitive (get_or pattern.suffix (pattern.suffix_len - 1 - i) 0))
      * 1000
    else 0

unfoldable pub score_address : Pattern → Address → Bool → ℕ
score_address pattern addr case_sensitive =
    let hex = hex_of (address_bytes addr) in
    prefix_score pattern hex case_sensitive + suffix_score pattern hex case_sensitive
