-- ===== src/Text/Number.antt =====
-- Decimal numbers in text: `atoi`, the `%d` of scanf and the `%d` of printf.
-- `atoi` is `(int) strtol(s, NULL, 10)`, and `long` has 64 bits.
pub mod RoundTrip
use rale.Base.{
  ℕ, zero, suc, ◌+◌, ◌-◌, ◌*◌, ◌/◌, ◌%◌, ◌^◌, Bool, ◌&&◌, ◌||◌, List, [], ◌∷◌, ◌++◌, Option, none,
  some, ltb, leb, ◌==◌, if◌then◌else◌, ℤ, pos, negsuc, to_int,
}
use rale.Text.{Bytes}

-- `isspace` and `isdigit` in the C locale.
unfoldable pub is_space : ℕ → Bool
is_space c = c == 32 || (leb 9 c && leb c 13)

unfoldable pub is_digit : ℕ → Bool
is_digit c = leb 48 c && leb c 57

unfoldable pub skip_space : Bytes → Bytes
unfolding is_space
skip_space [] = []
skip_space (c ∷ s) = if is_space c then skip_space s else c ∷ s

-- The number so far, at the digits: the number and the rest of the text.
unfoldable pub scan_digits : ℕ → Bytes → ℕ × Bytes
unfolding is_digit
scan_digits n [] = (n, [])
scan_digits n (c ∷ s) = if is_digit c then scan_digits (n * 10 + (c - 48)) s else (n, c ∷ s)

abbrev pub negate : ℕ → ℤ
negate zero = pos 0
negate (suc n) = negsuc n

-- Digits, of which there must be one.
unfoldable pub scan_natural : Bytes → Option (ℕ × Bytes)
unfolding scan_digits
scan_natural [] = none
scan_natural (c ∷ s) = if is_digit c then some (scan_digits 0 (c ∷ s)) else none

unfoldable pub scan_signed : Bytes → Option (ℤ × Bytes)
unfolding scan_natural
scan_signed [] = none
scan_signed (c ∷ s) =
    if c == b'-'
    then (elim (scan_natural s) [ none ↦ none | some (n, r) ↦ some (negate n, r) ])
    else elim (scan_natural (if c == b'+' then s else c ∷ s)) [
      | none ↦ none
      | some (n, r) ↦ some (pos n, r)
    ]

-- The number at the start of the text, after white space.
unfoldable pub scan_number : Bytes → Option (ℤ × Bytes)
scan_number s = scan_signed (skip_space s)

-- The result of `strtol` stays within a `long`.
unfoldable pub to_long : ℤ → ℤ
to_long (pos n) = if ltb n (2 ^ 63) then pos n else pos (2 ^ 63 - 1)
to_long (negsuc n) = if ltb n (2 ^ 63) then negsuc n else negsuc (2 ^ 63 - 1)

abbrev pub number_of : Option (ℤ × Bytes) → ℤ
number_of none = pos 0
number_of (some (n, r)) = n

unfoldable pub atoi : Bytes → ℤ
atoi s = to_int (to_long (number_of (scan_number s)))

-- The digits of a number, with fuel above the number.
unfoldable pub digits : ℕ → ℕ → Bytes
digits zero n = []
digits (suc f) n =
    let more = digits f (n / 10) in if ltb n 10 then (48 + n) ∷ [] else more ++ (48 + n % 10) ∷ []

unfoldable pub decimal : ℕ → Bytes
unfolding digits
decimal n = digits (suc n) n

-- `%d`
unfoldable pub format_int : ℤ → Bytes
format_int (pos n) = decimal n
format_int (negsuc n) = b'-' ∷ decimal (suc n)
