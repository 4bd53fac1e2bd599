-- ===== src/Loser/Commit/Decimal.antt =====
-- `std::to_string` and `std::stoi` on the number of a commit.
use sp.Base.{
  ℕ, zero, suc, ◌+◌, ◌-◌, ◌*◌, ◌/◌, ◌%◌, ◌<◌, ◌≡◌, ap, ◌∙◌, Bool, true, ◌&&◌, Option, none, some,
  [], ◌∷◌, arith, Bytes, ltb, leb, if◌then◌else◌, Bool-cases, inl, inr, Free,
}

to_digits : ℕ → ℕ → Bytes → Bytes
to_digits zero n acc = acc
to_digits (suc fuel) n acc =
    let digits = (b'0' + n % 10) ∷ acc in
    let rest = to_digits fuel (n / 10) digits in if ltb n 10 then digits else rest

unfoldable pub to_string : ℕ → Bytes
unfolding to_digits
to_string n = to_digits (suc n) n []

abbrev is_digit : ℕ → Bool
is_digit c = leb b'0' c && leb c b'9'

from_digits : ℕ → Bytes → ℕ
from_digits acc [] = acc
from_digits acc (c ∷ s) =
    let rest = from_digits (10 * acc + (c - b'0')) s in if is_digit c then rest else acc

-- A text without a digit at its front throws.
unfoldable pub stoi : Bytes → Option ℕ
unfolding from_digits
stoi [] = none
stoi (c ∷ s) = if is_digit c then some (from_digits 0 (c ∷ s)) else none

from_digits-digit :
    (acc k : ℕ) (s : Bytes)
    → k < 10
    → from_digits acc ((b'0' + k) ∷ s) ≡ from_digits (10 * acc + k) s
unfolding from_digits
from_digits-digit acc k s h =
    let digit : is_digit (b'0' + k) ≡ true = ground arith in
    let value : b'0' + k - b'0' ≡ k = omega arith in rw (digit, value)

from_digits-to_digits :
    (fuel n : ℕ) (acc : Bytes) → n < fuel → from_digits 0 (to_digits fuel n acc) ≡ from_digits n acc
unfolding to_digits
from_digits-to_digits zero n acc h = absurd (omega arith)
from_digits-to_digits (suc fuel) n acc h = elim (Bool-cases (ltb n 10)) [
  | inl e ↦
      rw e (
        from_digits-digit 0 (n % 10) acc (omega arith) ∙ ap (λ k. from_digits k acc) (ground arith))
  | inr e ↦ rw e (
      from_digits-to_digits fuel (n / 10) _ (ground arith)
      ∙ from_digits-digit (n / 10) (n % 10) acc (omega arith)
      ∙ ap (λ k. from_digits k acc) (omega arith))
]

-- The text begins with a digit.
abbrev StartsDigit : Bytes → Type 0
StartsDigit [] = ⊥
StartsDigit (c ∷ s) = is_digit c ≡ true

to_digits-StartsDigit : (fuel n : ℕ) (acc : Bytes) → n < fuel → StartsDigit (to_digits fuel n acc)
unfolding to_digits
to_digits-StartsDigit zero n acc h = absurd (omega arith)
to_digits-StartsDigit (suc fuel) n acc h = elim (Bool-cases (ltb n 10)) [
  | inl e ↦ rw e (ground arith)
  | inr e ↦ rw e (to_digits-StartsDigit fuel (n / 10) ((b'0' + n % 10) ∷ acc) (ground arith))
]

stoi_digits : (s : Bytes) → StartsDigit s → stoi s ≡ some (from_digits 0 s)
unfolding stoi
stoi_digits [] h = elim h [ ]
stoi_digits (c ∷ s) h = rw h

-- A number is read back as it was printed.
pub stoi-to_string : (n : ℕ) → stoi (to_string n) ≡ some n
unfolding to_string from_digits
stoi-to_string n =
    stoi_digits _ (to_digits-StartsDigit (suc n) n [] (omega arith))
    ∙ ap some (from_digits-to_digits (suc n) n [] (omega arith))

to_digits-Free :
    (c fuel n : ℕ) (acc : Bytes) → c < b'0' → Free c acc → Free c (to_digits fuel n acc)
unfolding to_digits
to_digits-Free c zero n acc l h = h
to_digits-Free c (suc fuel) n acc l h = elim (Bool-cases (ltb n 10)) [
  | inl e ↦ rw e (omega arith, h)
  | inr e ↦ rw e (to_digits-Free c fuel (n / 10) _ l (omega arith, h))
]

pub to_string-Free : (c n : ℕ) → c < b'0' → Free c (to_string n)
unfolding to_string
to_string-Free c n l = to_digits-Free c (suc n) n [] l tt
