-- ===== src/StateFile/Reading.antt =====
-- The readers of rale.state on a printed line.
use rale.Base.{
  ℕ, zero, suc, ◌/◌, ◌^◌, ◌≤◌, ◌<◌, ◌≡◌, refl, ap, Bool, true, [], ◌∷◌, ◌++◌, append_assoc,
  append-nil, arith, if◌then◌else◌, ◌==◌, ltb, Bool-cases, inl, inr, ℤ, pos, negsuc, IsInt,
  to_int_self, none, some, length, length-append,
}
use native.Mathlib.Nat.{pow-suc}
use rale.Text.{Bytes}
use rale.Text.Number.{format_int, atoi, digits, decimal, is_digit, is_space}
use rale.Text.Number.RoundTrip.{
  scan_number-format_int, atoi-format_int, scan_number_space, to_long_self, Stops,
  decimal-StartsWithDigit,
}
use rale.StateFile.Words.{words, words-cons, Lacks}
use rale.StateFile.{
  Fields, print, scan_int, scan_fields, fgets, is_blank, token_fields, read_fields, all_nonneg,
  read_line, old_fields, old_line,
}

-- Every field is an `int`.
pub record IsFields (f : Fields) : Type 0 where
  pub term_int : IsInt f.current_term
  pub voted_int : IsInt f.voted_for
  pub leader_int : IsInt f.leader_id
  pub index_int : IsInt f.last_log_index
  pub log_term_int : IsInt f.last_log_term

scan_int-format_int :
    (a : ℤ) (r : Bytes)
    → IsInt a
    → Stops r
    → (scan_int (format_int a ++ r) ≡ some (a, r))
      × (scan_int (32 ∷ (format_int a ++ r)) ≡ some (a, r))
unfolding scan_int
scan_int-format_int a r int h =
    let plain = scan_number-format_int a r h in
    (
      rw (plain, scan_int, to_long_self a int, to_int_self a int),
      rw (
        scan_number_space 32 (format_int a ++ r) (unfold is_space in refl),
        plain,
        scan_int,
        to_long_self a int,
        to_int_self a int,
      ),
    )

Stops-blank : (s : Bytes) → Stops (32 ∷ s) × Stops (10 ∷ s)
unfolding is_digit
Stops-blank s = (refl, refl)

-- What `fprintf` wrote, `fscanf` reads back.
scan_fields-print : (f : Fields) → IsFields f → scan_fields (print f) ≡ some f
unfolding scan_fields print
scan_fields-print f h =
    let r5 : Bytes = 10 ∷ [] in
    let r4 : Bytes = 32 ∷ (format_int f.last_log_term ++ r5) in
    let r3 : Bytes = 32 ∷ (format_int f.last_log_index ++ r4) in
    let r2 : Bytes = 32 ∷ (format_int f.leader_id ++ r3) in
    let r1 : Bytes = 32 ∷ (format_int f.voted_for ++ r2) in
    rw
      (
        (scan_int-format_int f.current_term r1 h.term_int (Stops-blank []).0).0,
        (scan_int-format_int f.voted_for r2 h.voted_int (Stops-blank []).0).1,
        (scan_int-format_int f.leader_id r3 h.leader_int (Stops-blank []).0).1,
        (scan_int-format_int f.last_log_index r4 h.index_int (Stops-blank []).0).1,
        (scan_int-format_int f.last_log_term r5 h.log_term_int (Stops-blank []).1).1,
      )
      refl

pub Lacks-append : (sep : ℕ → Bool) (v w : Bytes) → Lacks sep v → Lacks sep w → Lacks sep (v ++ w)
Lacks-append sep [] w a b = b
Lacks-append sep (c ∷ v) w a b = (a.0, Lacks-append sep v w a.1 b)

digits-Lacks : (f n : ℕ) → Lacks is_blank (digits f n)
unfolding digits
digits-Lacks zero n = tt
digits-Lacks (suc f) n = elim (Bool-cases (ltb n 10)) [
  | inl e ↦ rw e (ground arith, tt)
  | inr e ↦
      rw e
        (Lacks-append is_blank (digits f (n / 10)) _ (digits-Lacks f (n / 10)) (ground arith, tt))
]

pub format_int-Lacks : (a : ℤ) → Lacks is_blank (format_int a)
unfolding format_int decimal
format_int-Lacks (pos n) = digits-Lacks (suc n) n
format_int-Lacks (negsuc n) = (refl, digits-Lacks (suc (suc n)) (suc n))

pow_tenth : (k n : ℕ) → n < 10 ^ suc (suc k) → n / 10 < 10 ^ suc k
pow_tenth k n h = omega (arith, pow-suc 10 (suc k))

length-digits-le : (k f n : ℕ) → n < 10 ^ k → 0 < k → length (digits f n) ≤ k
unfolding digits
length-digits-le k zero n small h = omega arith
length-digits-le zero (suc f) n small h = absurd (omega arith)
length-digits-le (suc zero) (suc f) n small h = ground arith
length-digits-le (suc (suc k)) (suc f) n small h = elim (Bool-cases (ltb n 10)) [
  | inl e ↦ rw e (omega arith)
  | inr e ↦
      rw (e, length-append (digits f (n / 10)))
        (omega (arith, length-digits-le (suc k) f (n / 10) (pow_tenth k n small) (omega arith)))
]

pub length-format_int-le : (a : ℤ) → IsInt a → length (format_int a) ≤ 11
unfolding format_int decimal
length-format_int-le (pos n) h = omega (arith, length-digits-le 10 (suc n) n (omega arith))
length-format_int-le (negsuc n) h =
    omega (arith, length-digits-le 10 (suc (suc n)) (suc n) (omega arith))

pub format_int-cons : (a : ℤ) → (c : ℕ) × (w : Bytes) × (format_int a ≡ c ∷ w)
unfolding format_int
format_int-cons (pos n) = let (c, t, e, lo, hi) = decimal-StartsWithDigit n in (c, t, e)
format_int-cons (negsuc n) = (b'-', decimal (suc n), refl)

-- A printed number before a separator is one token.
words-format_int :
    (a : ℤ) (d : ℕ) (s : Bytes)
    → is_blank d ≡ true
    → words is_blank [] (format_int a ++ d ∷ s) ≡ format_int a ∷ words is_blank [] s
words-format_int a d s h =
    let (c, w, e) = format_int-cons a in
    rw e (words-cons is_blank c w d s (rw e at (format_int-Lacks a)) h)

pub atoi_whole : (a : ℤ) → IsInt a → atoi (format_int a) ≡ a
atoi_whole a h = rw (append-nil (format_int a)) at (atoi-format_int a [] h tt)

-- What was printed, strtok and atoi read back.
token_fields-print : (f : Fields) → IsFields f → token_fields (print f) ≡ f
unfolding token_fields print
token_fields-print f h =
    let r5 : Bytes = 10 ∷ [] in
    let r4 : Bytes = format_int f.last_log_term ++ r5 in
    let r3 : Bytes = format_int f.last_log_index ++ 32 ∷ r4 in
    let r2 : Bytes = format_int f.leader_id ++ 32 ∷ r3 in
    let r1 : Bytes = format_int f.voted_for ++ 32 ∷ r2 in
    rw
      (
        words-format_int f.current_term 32 r1 refl,
        words-format_int f.voted_for 32 r2 refl,
        words-format_int f.leader_id 32 r3 refl,
        words-format_int f.last_log_index 32 r4 refl,
        words-format_int f.last_log_term 10 [] refl,
        atoi_whole f.current_term h.term_int,
        atoi_whole f.voted_for h.voted_int,
        atoi_whole f.leader_id h.leader_int,
        atoi_whole f.last_log_index h.index_int,
        atoi_whole f.last_log_term h.log_term_int,
      )
      refl

-- A line that fits the buffer is read whole.
fgets_line :
    (n : ℕ) (w : Bytes)
    → Lacks (λ c. c == 10) w
    → length w < n
    → fgets n (w ++ 10 ∷ []) ≡ w ++ 10 ∷ []
unfolding fgets
fgets_line zero w h fits = absurd (omega arith)
fgets_line (suc n) [] h fits = refl
fgets_line (suc n) (c ∷ w) h fits =
    rw h.0 (ap (λ (t : Bytes). c ∷ t) (fgets_line n w h.1 (omega arith)))

abbrev line_of : Fields → Bytes
line_of f =
    format_int f.current_term
    ++ 32
      ∷ (format_int f.voted_for
          ++ 32
            ∷ (format_int f.leader_id
                ++ 32 ∷ (format_int f.last_log_index ++ 32 ∷ format_int f.last_log_term)))

print_line : (f : Fields) → print f ≡ line_of f ++ 10 ∷ []
unfolding print
print_line f = simp append_assoc

no_newline : (w : Bytes) → Lacks is_blank w → Lacks (λ c. c == 10) w
no_newline [] h = tt
no_newline (c ∷ w) h = (ground arith, no_newline w h.1)

-- One more number on the line.
no_newline_number :
    (a : ℤ) (s : Bytes) → Lacks (λ c. c == 10) s → Lacks (λ c. c == 10) (format_int a ++ 32 ∷ s)
no_newline_number a s h =
    Lacks-append (λ c. c == 10) (format_int a) (32 ∷ s)
      (no_newline (format_int a) (format_int-Lacks a)) (refl, h)

line_of-Lacks : (f : Fields) → Lacks (λ c. c == 10) (line_of f)
line_of-Lacks f = no_newline_number f.current_term _ (
    no_newline_number f.voted_for _ (
      no_newline_number f.leader_id _ (
        no_newline_number f.last_log_index _
          (no_newline (format_int f.last_log_term) (format_int-Lacks f.last_log_term)))))

length-line_of : (f : Fields) → IsFields f → length (line_of f) < 255
length-line_of f h =
    rw
      (
        length-append (format_int f.current_term),
        length-append (format_int f.voted_for),
        length-append (format_int f.leader_id),
        length-append (format_int f.last_log_index),
      )
      (omega (
        arith,
        length-format_int-le f.current_term h.term_int,
        length-format_int-le f.voted_for h.voted_int,
        length-format_int-le f.leader_id h.leader_int,
        length-format_int-le f.last_log_index h.index_int,
        length-format_int-le f.last_log_term h.log_term_int,
      ))

fgets-print : (f : Fields) → IsFields f → fgets 255 (print f) ≡ print f
fgets-print f h = rw print_line (fgets_line 255 (line_of f) (line_of-Lacks f) (length-line_of f h))

append-cons :
    (s r : Bytes) → (c : ℕ) × (w : Bytes) × (s ≡ c ∷ w) → (c : ℕ) × (w : Bytes) × (s ++ r ≡ c ∷ w)
append-cons s r (c, w, e) = (c, w ++ r, rw e)

print-cons : (f : Fields) → (c : ℕ) × (w : Bytes) × (print f ≡ c ∷ w)
unfolding print
print-cons f = append-cons (format_int f.current_term) _ (format_int-cons f.current_term)

read_line_full :
    (s : Bytes) (f : Fields)
    → (c : ℕ) × (w : Bytes) × (s ≡ c ∷ w)
    → token_fields s ≡ f
    → (read_line s ≡ (if all_nonneg f then some f else none)) × (old_line s ≡ f)
unfolding read_line old_line
read_line_full s f (c, w, e) h = let t = rw e at h in (rw (e, t), rw (e, t))

read_print :
    (f : Fields)
    → IsFields f
    → (read_fields (some (print f)) ≡ (if all_nonneg f then some f else none))
      × (old_fields (some (print f)) ≡ f)
unfolding read_fields old_fields
read_print f h =
    let both = read_line_full (print f) f (print-cons f) (token_fields-print f h) in
    (rw (fgets-print f h) both.0, rw (fgets-print f h) both.1)

-- A line of five `int`s that `fprintf` or `snprintf` wrote: fscanf gives back every number, and so do
-- the token readers of dstore.c, whose checked form refuses the line if a number is negative.
pub print_readers :
    (f : Fields)
    → IsFields f
    → (scan_fields (print f) ≡ some f)
      × (old_fields (some (print f)) ≡ f)
      × (read_fields (some (print f)) ≡ (if all_nonneg f then some f else none))
print_readers f h = (scan_fields-print f h, (read_print f h).1, (read_print f h).0)
