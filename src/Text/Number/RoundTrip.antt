-- ===== src/Text/Number/RoundTrip.antt =====
-- Reading a number that was printed.
use rale.Base.{
  ℕ, zero, suc, ◌+◌, ◌*◌, ◌/◌, ◌%◌, ◌≤◌, ◌<◌, ◌≡◌, refl, true, false, [], ◌∷◌, ◌++◌, Option, some,
  ltb, ℤ, pos, negsuc, to_int, arith, append_assoc, Bool-cases, inl, inr, ap, ◌∙◌, IsInt,
  to_int_self,
}
use rale.Text.{Bytes, codes}
use rale.Text.Number.{
  is_space, is_digit, skip_space, scan_digits, scan_natural, scan_signed, scan_number, to_long,
  atoi, digits, decimal, format_int,
}

atoi_tests :
    (atoi (codes " 42 x") ≡ pos 42)
    × (atoi (codes "-17") ≡ negsuc 16)
    × (atoi (codes "4294967295") ≡ negsuc 0)
    × (format_int (negsuc 99) ≡ codes "-100")
unfolding atoi format_int scan_number skip_space scan_signed to_long to_int decimal
atoi_tests = (refl, refl, refl, refl)

pub to_long_self : (a : ℤ) → IsInt a → to_long a ≡ a
unfolding to_long
to_long_self (pos n) h = ground arith
to_long_self (negsuc n) h = ground arith

-- The text does not go on with a digit.
abbrev pub Stops : Bytes → Type 0
Stops [] = Unit
Stops (c ∷ s) = is_digit c ≡ false

scan_digits_stop : (n : ℕ) (r : Bytes) → Stops r → scan_digits n r ≡ (n, r)
unfolding scan_digits
scan_digits_stop n [] h = refl
scan_digits_stop n (c ∷ r) h = rw h

scan_digits_one :
    (m d : ℕ) (r : Bytes) → d < 10 → scan_digits m ((48 + d) ∷ r) ≡ scan_digits (m * 10 + d) r
unfolding scan_digits is_digit
scan_digits_one m d r h = ground arith

scan_digits-digits :
    (f n : ℕ) (r : Bytes) → n < f → scan_digits 0 (digits f n ++ r) ≡ scan_digits n r
unfolding digits
scan_digits-digits zero n r h = absurd (omega arith)
scan_digits-digits (suc f) n r h = elim (Bool-cases (ltb n 10)) [
  | inl small ↦
      rw small
        (scan_digits_one 0 n r (ground arith) ∙ ap (λ (k : ℕ). scan_digits k r) (omega arith))
  | inr big ↦
      rw (big, append_assoc)
        (scan_digits-digits f (n / 10) ((48 + n % 10) ∷ r) (ground arith)
          ∙ (scan_digits_one (n / 10) (n % 10) r (omega arith)
              ∙ ap (λ (k : ℕ). scan_digits k r) (omega arith)))
]

abbrev pub StartsWithDigit : Bytes → Type 0
StartsWithDigit s = (c : ℕ) × (t : Bytes) × (s ≡ c ∷ t) × (48 ≤ c) × (c ≤ 57)

append-StartsWithDigit : (s r : Bytes) → StartsWithDigit s → StartsWithDigit (s ++ r)
append-StartsWithDigit s r (c, t, e, lo, hi) = (c, t ++ r, rw e, lo, hi)

digits-StartsWithDigit : (f n : ℕ) → n < f → StartsWithDigit (digits f n)
unfolding digits
digits-StartsWithDigit zero n h = absurd (omega arith)
digits-StartsWithDigit (suc f) n h = elim (Bool-cases (ltb n 10)) [
  | inl small ↦ rw small (48 + n, [], refl, omega arith, ground arith)
  | inr big ↦ rw big (
      append-StartsWithDigit (digits f (n / 10)) _
        (digits-StartsWithDigit f (n / 10) (ground arith)))
]

scan_natural_at_digit : (s : Bytes) → StartsWithDigit s → scan_natural s ≡ some (scan_digits 0 s)
unfolding scan_natural is_digit
scan_natural_at_digit s (c, t, e, lo, hi) = rw e (ground arith)

scan_signed_at_digit :
    (s : Bytes) (n : ℕ) (r : Bytes)
    → StartsWithDigit s
    → scan_digits 0 s ≡ (n, r)
    → scan_signed s ≡ some (pos n, r)
unfolding scan_signed is_digit
scan_signed_at_digit s n r (c, t, e, lo, hi) h = rw e (ground (arith, rw e at h))

skip_space_at_digit : (s : Bytes) → StartsWithDigit s → skip_space s ≡ s
unfolding skip_space
skip_space_at_digit s (c, t, e, lo, hi) = rw e (ground arith)

pub decimal-StartsWithDigit : (n : ℕ) → StartsWithDigit (decimal n)
unfolding decimal
decimal-StartsWithDigit n = digits-StartsWithDigit (suc n) n (omega arith)

scan_digits-decimal : (n : ℕ) (r : Bytes) → Stops r → scan_digits 0 (decimal n ++ r) ≡ (n, r)
unfolding decimal
scan_digits-decimal n r h = scan_digits-digits (suc n) n r (omega arith) ∙ scan_digits_stop n r h

scan_natural-decimal : (n : ℕ) (r : Bytes) → Stops r → scan_natural (decimal n ++ r) ≡ some (n, r)
scan_natural-decimal n r h =
    scan_natural_at_digit (decimal n ++ r)
      (append-StartsWithDigit (decimal n) r (decimal-StartsWithDigit n))
    ∙ ap {B = Option (ℕ × Bytes)} some (scan_digits-decimal n r h)

-- Before a text that does not go on with a digit, a printed number is read back.
pub scan_number-format_int :
    (a : ℤ) (r : Bytes) → Stops r → scan_number (format_int a ++ r) ≡ some (a, r)
unfolding scan_number format_int
scan_number-format_int (pos n) r h =
    let starts = append-StartsWithDigit (decimal n) r (decimal-StartsWithDigit n) in
    rw (skip_space_at_digit (decimal n ++ r) starts)
      (scan_signed_at_digit (decimal n ++ r) n r starts (scan_digits-decimal n r h))
scan_number-format_int (negsuc n) r h =
    unfold skip_space scan_signed in rw (scan_natural-decimal (suc n) r h)

-- `atoi` gives back an `int` that `%d` printed.
pub atoi-format_int : (a : ℤ) (r : Bytes) → IsInt a → Stops r → atoi (format_int a ++ r) ≡ a
unfolding atoi
atoi-format_int a r int h =
    rw (scan_number-format_int a r h, to_long_self a int) (to_int_self a int)

-- White space before the number is skipped.
pub scan_number_space :
    (c : ℕ) (s : Bytes) → is_space c ≡ true → scan_number (c ∷ s) ≡ scan_number s
unfolding scan_number skip_space
scan_number_space c s h = rw h
