-- ===== src/Text.antt =====
-- C strings: lists of bytes without the closing zero, and the functions of <string.h> that the
-- code calls. A string that the C code holds has no zero byte inside.
pub mod Number
use Prim.Native.Char.{code}
use Prim.Native.String.{String}
use rale.Base.{
  ℕ, zero, suc, ◌+◌, ◌-◌, ◌≤◌, ◌<◌, ◌≡◌, refl, ◌≢◌, ◌↔◌, Bool, true, false, ◌&&◌, List, [], ◌∷◌,
  ◌++◌, Option, none, some, arith, ◌==◌, ltb, if◌then◌else◌, length, take, take_all, length-take,
  min, ap,
}

abbrev pub Bytes : Type 0
Bytes = List ℕ

-- The bytes of an ASCII literal.
abbrev pub codes : String → Bytes
codes String.[] = []
codes (String.◌∷◌ c s) = code c ∷ codes s

-- `strcmp(s, t) == 0`
unfoldable pub str_eq : Bytes → Bytes → Bool
str_eq [] [] = true
str_eq [] (d ∷ t) = false
str_eq (c ∷ s) [] = false
str_eq (c ∷ s) (d ∷ t) = c == d && str_eq s t

pub str_eq_refl : (s : Bytes) → str_eq s s ≡ true
unfolding str_eq
str_eq_refl [] = refl
str_eq_refl (c ∷ s) = ground (arith, str_eq_refl s)

pub eq_of_str_eq : (s t : Bytes) → str_eq s t ≡ true → s ≡ t
unfolding str_eq
eq_of_str_eq [] [] h = refl
eq_of_str_eq [] (d ∷ t) h = cc
eq_of_str_eq (c ∷ s) [] h = cc
eq_of_str_eq (c ∷ s) (d ∷ t) h = ground (arith, eq_of_str_eq s t)

pub str_eq_iff : (s t : Bytes) → (str_eq s t ≡ true) ↔ (s ≡ t)
str_eq_iff s t = (eq_of_str_eq s t, λ e. rw e (str_eq_refl t))

-- What `strlcpy(dst, s, size)` leaves in `dst`, for `size > 0`.
unfoldable pub strlcpy : Bytes → ℕ → Bytes
strlcpy s size = take (size - 1) s

pub strlcpy_whole : (s : Bytes) (size : ℕ) → length s < size → strlcpy s size ≡ s
unfolding strlcpy
strlcpy_whole s size h = take_all (size - 1) s (omega arith)

-- `strncmp(s, p, strlen(p)) == 0`
unfoldable pub starts_with : Bytes → Bytes → Bool
starts_with [] s = true
starts_with (c ∷ p) [] = false
starts_with (c ∷ p) (d ∷ s) = c == d && starts_with p s

-- The C string at the start of a buffer: up to the first zero byte.
unfoldable pub c_string : Bytes → Bytes
c_string [] = []
c_string (c ∷ s) = if c == 0 then [] else c ∷ c_string s

-- `strchr(s, c)`: what stands before the first `c` and what follows it.
unfoldable pub strchr : ℕ → Bytes → Option (Bytes × Bytes)
strchr c [] = none
strchr c (d ∷ s) = elim (d == c) [
  | true ↦ some ([], s)
  | false ↦ elim (strchr c s) [ none ↦ none | some (a, b) ↦ some (d ∷ a, b) ]
]
