-- ===== src/Hunt/Digest.antt =====
-- A digest printed by sprintf("%02x"), and the count of its leading zeros: `n_treasure_count` of
-- MP3/server/boss.cpp.
use sp.Base.{
  ℕ, suc, ◌+◌, ◌-◌, ◌/◌, ◌%◌, max, ◌≡◌, refl, not, ◌&&◌, Option, none, some, [], ◌∷◌, arith, Bytes,
  ltb, ◌==◌, if◌then◌else◌, length,
}

unfoldable pub hex_digit : ℕ → ℕ
hex_digit d = if ltb d 10 then b'0' + d else b'a' + (d - 10)

-- The loop that prints each byte as two digits.
unfoldable pub hex : Bytes → Bytes
unfolding hex_digit
hex [] = []
hex (b ∷ bs) = hex_digit (b / 16) ∷ hex_digit (b % 16) ∷ hex bs

-- The character behind the text read so far; a string ends in '\0'.
abbrev pub peek : Bytes → ℕ
peek [] = 0
peek (c ∷ s) = c

-- `while(hash_string[hash_ptr++] == '0')` from `hash_ptr` on: the new count, or nothing.
count_zeros : ℕ → ℕ → Bytes → Option ℕ
count_zeros n hash_ptr [] = none
count_zeros n hash_ptr (c ∷ s) =
    let rest = count_zeros n (hash_ptr + 1) s in
    if c == b'0'
    then (if ltb n (hash_ptr + 1) && not (peek s == b'0') then some (hash_ptr + 1) else rest)
    else none

-- The count that is returned, and the new value of `config->hash`.
abbrev pub counted : Bytes → ℕ → Bytes → Option ℕ → ℕ × Bytes
counted hash n hash_string none = (n, hash)
counted hash n hash_string (some k) = (k, hash_string)

unfoldable pub n_treasure_count : Bytes → Bytes → ℕ → ℕ × Bytes
unfolding count_zeros hex
n_treasure_count hash digest n = counted hash n (hex digest) (count_zeros n 0 (hex digest))

-- The zeros at the front of a text.
unfoldable pub leading_zeros : Bytes → ℕ
leading_zeros [] = 0
leading_zeros (c ∷ s) = let n = leading_zeros s in if c == b'0' then suc n else 0

count_zeros_lem :
    (n hash_ptr : ℕ) (s : Bytes)
    → count_zeros n hash_ptr s ≡ (
        if ltb 0 (leading_zeros s) && ltb n (hash_ptr + leading_zeros s)
        then some (hash_ptr + leading_zeros s)
        else none)
unfolding count_zeros leading_zeros
count_zeros_lem n p [] = refl
count_zeros_lem n p (c ∷ []) = ground arith
count_zeros_lem n p (c ∷ d ∷ s) = ground (arith, count_zeros_lem n (p + 1) (d ∷ s))

pub length-hex : (bs : Bytes) → length (hex bs) ≡ length bs + length bs
unfolding hex
length-hex [] = omega arith
length-hex (b ∷ bs) = omega (arith, length-hex bs)

-- `n_treasure_count` raises the count to the number of zeros at the front of the digest in hex, and
-- takes the digest's text over exactly when the count rises.
pub n_treasure_count-leading_zeros :
    (hash digest : Bytes) (n : ℕ)
    → n_treasure_count hash digest n ≡ (
      max n (leading_zeros (hex digest)),
      (if ltb n (leading_zeros (hex digest)) then hex digest else hash),
    )
unfolding n_treasure_count
n_treasure_count-leading_zeros hash digest n = ground (arith, count_zeros_lem n 0 (hex digest))
