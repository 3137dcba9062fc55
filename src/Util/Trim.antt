-- ===== src/Util/Trim.antt =====
-- What trimming and appending come to.
use rale.Base.{
  ℕ, ◌+◌, ◌-◌, ◌≡◌, ◌<◌, refl, ◌∙◌, ap, Bool, true, false, [], ◌∷◌, ◌++◌, some, ◌&&◌, length, take,
  take_all, arith, Bool-cases, inl, inr,
}
use native.Mathlib.Nat.{zero-add, suc-add}
use rale.Text.{Bytes}
use rale.Text.Number.{is_space, skip_space}
use rale.Util.{trim_end, trim_whitespace, safe_string_append}

abbrev pub are_spaces : Bytes → Bool
are_spaces [] = true
are_spaces (c ∷ s) = is_space c && are_spaces s

abbrev pub starts_space : Bytes → Bool
starts_space [] = false
starts_space (c ∷ s) = is_space c

abbrev pub ends_space : Bytes → Bool
ends_space [] = false
ends_space (c ∷ []) = is_space c
ends_space (c ∷ d ∷ s) = ends_space (d ∷ s)

-- A string, split into spaces, a middle that neither starts nor ends with one, and spaces.
pub record Trimmed (s middle : Bytes) : Type 0 where
  pub front : Bytes
  pub back : Bytes
  pub whole : s ≡ front ++ (middle ++ back)
  pub front_spaces : are_spaces front ≡ true
  pub back_spaces : are_spaces back ≡ true
  pub no_start : starts_space middle ≡ false
  pub no_end : ends_space middle ≡ false

skip_space-front :
    (s : Bytes)
    → (front : Bytes) × (s ≡ front ++ skip_space s)
      × (are_spaces front ≡ true)
      × (starts_space (skip_space s) ≡ false)
unfolding skip_space
skip_space-front [] = ([], refl, refl, refl)
skip_space-front (c ∷ s) = elim (Bool-cases (is_space c)) [
  | inl space ↦
      let (front, whole, spaces, none_left) = skip_space-front s in
      (c ∷ front, rw space (ap (λ (t : Bytes). c ∷ t) whole), rw space spaces, rw space none_left)
  | inr other ↦ ([], rw other refl, refl, rw other other)
]

trim_end_step :
    (c : ℕ) (s back t : Bytes)
    → trim_end s ≡ t
    → s ≡ t ++ back
    → are_spaces back ≡ true
    → ends_space t ≡ false
    → (back' : Bytes) × (c ∷ s ≡ trim_end (c ∷ s) ++ back')
      × (are_spaces back' ≡ true)
      × (ends_space (trim_end (c ∷ s)) ≡ false)
unfolding trim_end
trim_end_step c s back (d ∷ r) e whole spaces end =
    (back, rw e (ap (λ (x : Bytes). c ∷ x) whole), spaces, rw e end)
trim_end_step c s back [] e whole spaces end = elim (Bool-cases (is_space c)) [
  | inl space ↦ (
    c ∷ back,
    rw (e, space) (ap (λ (x : Bytes). c ∷ x) whole),
    rw space spaces,
    rw (e, space) refl,
  )
  | inr other ↦ (back, rw (e, other) (ap (λ (x : Bytes). c ∷ x) whole), spaces, rw (e, other) other)
]

trim_end-back :
    (s : Bytes)
    → (back : Bytes) × (s ≡ trim_end s ++ back)
      × (are_spaces back ≡ true)
      × (ends_space (trim_end s) ≡ false)
unfolding trim_end
trim_end-back [] = ([], refl, refl, refl)
trim_end-back (c ∷ s) =
    let (back, whole, spaces, end) = trim_end-back s in
    trim_end_step c s back (trim_end s) refl whole spaces end

trim_end_start :
    (c : ℕ) (s t : Bytes)
    → trim_end s ≡ t
    → is_space c ≡ false
    → starts_space (trim_end (c ∷ s)) ≡ false
unfolding trim_end
trim_end_start c s [] e h = rw (e, h) h
trim_end_start c s (d ∷ r) e h = rw e h

starts_space-trim_end : (s : Bytes) → starts_space s ≡ false → starts_space (trim_end s) ≡ false
unfolding trim_end
starts_space-trim_end [] h = refl
starts_space-trim_end (c ∷ s) h = trim_end_start c s (trim_end s) refl h

-- `trim_whitespace` gives the string without the spaces at its front and at its back: what it cuts
-- off is spaces only, and what is left neither starts nor ends with one.
trim_whitespace_lem :
    (s : Bytes) → (middle : Bytes) × (trim_whitespace (some s) ≡ some middle) × Trimmed s middle
unfolding trim_whitespace
trim_whitespace_lem s =
    let (front, whole, spaces, none_left) = skip_space-front s in
    let (back, whole2, spaces2, none_left2) = trim_end-back (skip_space s) in
    (
      trim_end (skip_space s),
      refl,
      record {
        front = front;
        back = back;
        whole = whole ∙ ap (λ (t : Bytes). front ++ t) whole2;
        front_spaces = spaces;
        back_spaces = spaces2;
        no_start = starts_space-trim_end (skip_space s) none_left;
        no_end = none_left2;
      },
    )

take-append_more : (n : ℕ) (s r : Bytes) → take (length s + n) (s ++ r) ≡ s ++ take n r
take-append_more n [] r = rw zero-add refl
take-append_more n (c ∷ s) r = rw suc-add (ap (λ (t : Bytes). c ∷ t) (take-append_more n s r))

append_cut :
    (dest src : Bytes) (size : ℕ)
    → length dest < size
    → take (size - 1) (dest ++ src) ≡ dest ++ take (size - length dest - 1) src
append_cut dest src size h =
    let room : size - 1 ≡ length dest + (size - length dest - 1) = omega arith in
    rw room (take-append_more (size - length dest - 1) dest src)

-- `safe_string_append` on a string that fits into its buffer returns 0 and leaves the two strings,
-- one after the other, cut to the buffer.
safe_string_append_lem :
    (dest src : Bytes) (size : ℕ)
    → length dest < size
    → safe_string_append (some dest) (some src) size ≡ (some (take (size - 1) (dest ++ src)), true)
unfolding safe_string_append
safe_string_append_lem dest src size h =
    ground (arith, append_cut dest src size h, take_all (size - length dest - 1) src)
