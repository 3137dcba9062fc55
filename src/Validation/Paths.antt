-- ===== src/Validation/Paths.antt =====
-- What validate_file_path accepts.
use rale.Base.{
  ℕ, suc, ◌+◌, ◌≡◌, Bool, true, false, ◌||◌, ◌&&◌, not, List, [], ◌∷◌, some, leb, ◌==◌,
  if◌then◌else◌, length, arith, Bool-cases, inl, inr, ◌⊎◌,
}
use rale.Text.{Bytes, codes, starts_with, str_eq}
use rale.Validation.{is_cntrl, contains, path_loop, validate_file_path}

-- A path as its components between the slashes: the first one and the others.
unfoldable pub split : Bytes → Bytes × List Bytes
split [] = ([], [])
split (c ∷ s) = let r = split s in if c == 47 then ([], r.0 ∷ r.1) else (c ∷ r.0, r.1)

abbrev pub are_short : List Bytes → Bool
are_short [] = true
are_short (w ∷ ws) = leb (length w) 255 && are_short ws

abbrev pub has_no_cntrl : Bytes → Bool
has_no_cntrl [] = true
has_no_cntrl (c ∷ s) = not (is_cntrl c) && has_no_cntrl s

path_loop_lem :
    (n : ℕ) (s : Bytes)
    → path_loop n s
      ≡ (leb (n + length (split s).0) 255 && (are_short (split s).1 && has_no_cntrl s))
unfolding path_loop split
path_loop_lem n [] = ground arith
path_loop_lem n (c ∷ s) = ground (arith, path_loop_lem 0 s, path_loop_lem (suc n) s)

-- `validate_file_path` accepts exactly the paths of 1 to 4095 bytes without "../", "/.." and "//",
-- whose components have at most 255 bytes, without a control character.
pub validate_file_path_lem :
    (s : Bytes)
    → validate_file_path (some s) ≡ (
        leb 1 (length s)
        && (leb (length s) 4095
            && (not (contains (codes "../") s || contains (codes "/..") s)
                && (not (contains (codes "//") s)
                    && (leb (length (split s).0) 255
                        && (are_short (split s).1 && has_no_cntrl s))))))
unfolding validate_file_path
validate_file_path_lem s = ground (arith, path_loop_lem 0 s)

abbrev pub has_parent : List Bytes → Bool
has_parent [] = false
has_parent (w ∷ ws) = str_eq w (codes "..") || has_parent ws

split-first :
    (s : Bytes)
    → str_eq (split s).0 (codes "..") ≡ true
    → (s ≡ codes "..") ⊎ (starts_with (codes "../") s ≡ true)
unfolding split str_eq starts_with
split-first [] h = ground arith
split-first (a ∷ []) h = ground arith
split-first (a ∷ b ∷ []) h = inl (ground arith)
split-first (a ∷ b ∷ c ∷ r) h = inr (ground arith)

split-first_parent :
    (s : Bytes) → str_eq (split s).0 (codes "..") ≡ true → starts_with (codes "..") s ≡ true
unfolding split str_eq starts_with
split-first_parent [] h = ground arith
split-first_parent (a ∷ []) h = ground arith
split-first_parent (a ∷ b ∷ r) h = ground arith

split-parent : (s : Bytes) → has_parent (split s).1 ≡ true → contains (codes "/..") s ≡ true
unfolding split contains starts_with
split-parent [] h = ground arith
split-parent (c ∷ s) h = ground (arith, split-parent s, split-first_parent s)

contains-starts : (p s : Bytes) → starts_with p s ≡ true → contains p s ≡ true
unfolding contains
contains-starts p [] h = h
contains-starts p (c ∷ s) h = rw h

-- No component of a path that `validate_file_path` accepts is "..", but for the path ".." itself,
-- which it accepts.
validate_file_path-parent :
    (s : Bytes)
    → validate_file_path (some s) ≡ true
    → (s ≡ codes "..") ⊎ (has_parent ((split s).0 ∷ (split s).1) ≡ false)
unfolding validate_file_path
validate_file_path-parent s h = elim (Bool-cases (str_eq (split s).0 (codes ".."))) [
  | inl first ↦ elim (split-first s first) [
    | inl whole ↦ inl whole
    | inr starts ↦ absurd (ground (arith, contains-starts (codes "../") s starts))
  ]
  | inr other ↦ inr (ground (arith, split-parent s))
]
