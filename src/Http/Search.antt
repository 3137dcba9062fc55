-- ===== src/Http/Search.antt =====
-- `strstr`, and the header lines of a message.
use rale.Base.{
  ℕ, zero, suc, ◌+◌, ◌/◌, ◌%◌, ◌<◌, ltb, ◌≡◌, refl, sym, Bool, true, false, [], ◌∷◌, ◌++◌, Option,
  none, some, ◌==◌, if◌then◌else◌, Bool-cases, inl, inr, arith, append_assoc,
}
use rale.Text.{Bytes, starts_with, c_string}
use rale.Text.Number.{digits, decimal}
use rale.StateFile.Words.{Lacks}
use rale.StateFile.Reading.{Lacks-append}

abbrev pub with_prefix : Bytes → Option (Bytes × Bytes) → Option (Bytes × Bytes)
with_prefix w none = none
with_prefix w (some (a, b)) = some (w ++ a, b)

-- What stands before the first `p`, and the text from it on.
unfoldable pub strstr : Bytes → Bytes → Option (Bytes × Bytes)
strstr p [] = if starts_with p [] then some ([], []) else none
strstr p (c ∷ s) =
    let rest = with_prefix (c ∷ []) (strstr p s) in
    if starts_with p (c ∷ s) then some ([], c ∷ s) else rest

abbrev pub crlf : Bytes
crlf = 13 ∷ 10 ∷ []

abbrev pub blank_line : Bytes
blank_line = 13 ∷ 10 ∷ 13 ∷ 10 ∷ []

abbrev pub is_cr : ℕ → Bool
is_cr c = c == 13

abbrev pub is_zero : ℕ → Bool
is_zero c = c == 0

pub with_prefix-cons :
    (c : ℕ) (w : Bytes) (o : Option (Bytes × Bytes))
    → with_prefix (c ∷ []) (with_prefix w o) ≡ with_prefix (c ∷ w) o
with_prefix-cons c w none = refl
with_prefix-cons c w (some (a, b)) = refl

pub with_prefix_nil : (o : Option (Bytes × Bytes)) → with_prefix [] o ≡ o
with_prefix_nil none = refl
with_prefix_nil (some (a, b)) = refl

with_prefix-append :
    (v w : Bytes) (o : Option (Bytes × Bytes))
    → with_prefix v (with_prefix w o) ≡ with_prefix (v ++ w) o
with_prefix-append v w none = refl
with_prefix-append v w (some (a, b)) = rw append_assoc

-- A text that does not have the first byte of what is looked for is passed over.
pub strstr-append :
    (c : ℕ) (p w t : Bytes)
    → Lacks (λ d. d == c) w
    → strstr (c ∷ p) (w ++ t) ≡ with_prefix w (strstr (c ∷ p) t)
unfolding strstr starts_with
strstr-append c p [] t h = sym (with_prefix_nil (strstr (c ∷ p) t))
strstr-append c p (d ∷ w) t h =
    let other : (c == d) ≡ false = ground (arith, h.0) in
    rw (other, strstr-append c p w t h.1) (with_prefix-cons d w (strstr (c ∷ p) t))

pub strstr-here : (p t : Bytes) → starts_with p t ≡ true → strstr p t ≡ some ([], t)
unfolding strstr
strstr-here p [] h = rw h refl
strstr-here p (c ∷ t) h = rw h refl

pub strstr_skip :
    (p : Bytes) (c : ℕ) (s : Bytes)
    → starts_with p (c ∷ s) ≡ false
    → strstr p (c ∷ s) ≡ with_prefix (c ∷ []) (strstr p s)
unfolding strstr
strstr_skip p c s h = rw h refl

strstr_line_end :
    (c : ℕ) (t : Bytes)
    → (c == 13) ≡ false
    → strstr blank_line (13 ∷ 10 ∷ c ∷ t) ≡ with_prefix crlf (strstr blank_line (c ∷ t))
unfolding starts_with
strstr_line_end c t e =
    let other : starts_with blank_line (13 ∷ 10 ∷ c ∷ t) ≡ false = ground (arith, e) in
    rw (strstr_skip blank_line 13 (10 ∷ c ∷ t) other, strstr_skip blank_line 10 (c ∷ t) refl)
      (with_prefix-append (13 ∷ []) (10 ∷ []) (strstr blank_line (c ∷ t)))

-- A header line that other lines follow is passed over by the search for the blank line.
pub strstr-line :
    (w t : Bytes) (c : ℕ)
    → Lacks is_cr w
    → (c == 13) ≡ false
    → strstr blank_line (w ++ 13 ∷ 10 ∷ c ∷ t) ≡ with_prefix (w ++ crlf) (strstr blank_line (c ∷ t))
strstr-line w t c h e =
    rw (strstr-append 13 (10 ∷ 13 ∷ 10 ∷ []) w (13 ∷ 10 ∷ c ∷ t) h, strstr_line_end c t e)
      (with_prefix-append w crlf (strstr blank_line (c ∷ t)))

pub c_string-append : (w t : Bytes) → Lacks is_zero w → c_string (w ++ t) ≡ w ++ c_string t
unfolding c_string
c_string-append [] t h = refl
c_string-append (c ∷ w) t h = rw (h.0, c_string-append w t h.1) refl

digits-Lacks :
    (sep : ℕ → Bool) (f n : ℕ)
    → ((d : ℕ) → d < 10 → sep (48 + d) ≡ false)
    → n < f
    → Lacks sep (digits f n)
unfolding digits
digits-Lacks sep zero n h k = absurd (omega arith)
digits-Lacks sep (suc f) n h k = elim (Bool-cases (ltb n 10)) [
  | inl small ↦ rw small (h n (ground (arith, small)), tt)
  | inr large ↦ rw large (
      Lacks-append sep (digits f (n / 10)) ((48 + n % 10) ∷ [])
        (digits-Lacks sep f (n / 10) h (ground (arith, large))) (h (n % 10) (omega arith), tt))
]

pub decimal-Lacks :
    (sep : ℕ → Bool) (n : ℕ) → ((d : ℕ) → d < 10 → sep (48 + d) ≡ false) → Lacks sep (decimal n)
unfolding decimal
decimal-Lacks sep n h = digits-Lacks sep (suc n) n h (omega arith)
