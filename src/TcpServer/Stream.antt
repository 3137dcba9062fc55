-- ===== src/TcpServer/Stream.antt =====
-- The lines of a stream of bytes: what the server is compared with.
use rale.Base.{
  ℕ, suc, ◌≡◌, ◌<◌, ◌+◌, refl, subst, Bool, true, ◌&&◌, List, [], ◌∷◌, ◌++◌, ltb, ◌==◌,
  if◌then◌else◌, arith, Bool-cases, inl, inr, length, length-append, append_assoc, append-nil,
}
use rale.Text.{Bytes}
use rale.StateFile.Words.{Lacks}
use rale.StateFile.Reading.{Lacks-append}

abbrev pub is_zero : ℕ → Bool
is_zero c = c == 0

abbrev pub is_newline : ℕ → Bool
is_newline c = c == 10

-- A line that is not empty.
abbrev pub with_line : Bytes → List Bytes → List Bytes
with_line [] ls = ls
with_line (c ∷ l) ls = (c ∷ l) ∷ ls

-- The lines of a stream that are not empty, and the unfinished one; `line` is what stands before.
unfoldable pub stream_lines : Bytes → Bytes → List Bytes × Bytes
stream_lines line [] = ([], line)
stream_lines line (c ∷ s) =
    let next = stream_lines [] s in
    let longer = stream_lines (line ++ c ∷ []) s in
    if c == 10 then (with_line line next.0, next.1) else longer

-- No line is longer than 1023 bytes; the first one has `n` already.
unfoldable pub short_lines : ℕ → Bytes → Bool
short_lines n [] = ltb n 1024
short_lines n (c ∷ s) =
    let next = short_lines 0 s in
    let longer = short_lines (suc n) s in if c == 10 then ltb n 1024 && next else longer

pub stream_lines-Lacks :
    (line s : Bytes) → Lacks is_newline s → stream_lines line s ≡ ([], line ++ s)
unfolding stream_lines
stream_lines-Lacks line [] h = rw append-nil refl
stream_lines-Lacks line (c ∷ s) h =
    rw h.0 (rw (stream_lines-Lacks (line ++ c ∷ []) s h.1, append_assoc) refl)

pub stream_lines-line :
    (line a b : Bytes)
    → Lacks is_newline a
    → stream_lines line (a ++ 10 ∷ b)
      ≡ (with_line (line ++ a) (stream_lines [] b).0, (stream_lines [] b).1)
unfolding stream_lines
stream_lines-line line [] b h = rw append-nil refl
stream_lines-line line (c ∷ a) b h =
    rw h.0 (rw (stream_lines-line (line ++ c ∷ []) a b h.1, append_assoc) refl)

with_line-append : (l : Bytes) (ls ms : List Bytes) → with_line l (ls ++ ms) ≡ with_line l ls ++ ms
with_line-append [] ls ms = refl
with_line-append (c ∷ l) ls ms = refl

pub stream_lines-append :
    (line s t : Bytes)
    → stream_lines line (s ++ t) ≡ (
      (stream_lines line s).0 ++ (stream_lines (stream_lines line s).1 t).0,
      (stream_lines (stream_lines line s).1 t).1,
    )
unfolding stream_lines
stream_lines-append line [] t = refl
stream_lines-append line (c ∷ s) t = elim (Bool-cases (c == 10)) [
  | inl e ↦ rw (e, stream_lines-append [] s t, with_line-append) refl
  | inr e ↦ rw (e, stream_lines-append (line ++ c ∷ []) s t) refl
]

-- What is left of a stream after its last newline.
pub rest-Lacks :
    (sep : ℕ → Bool) (line s : Bytes)
    → Lacks sep line
    → Lacks sep s
    → Lacks sep (stream_lines line s).1
unfolding stream_lines
rest-Lacks sep line [] h k = h
rest-Lacks sep line (c ∷ s) h k = elim (Bool-cases (c == 10)) [
  | inl e ↦ rw e (rest-Lacks sep [] s tt k.1)
  | inr e ↦
      rw e (rest-Lacks sep (line ++ c ∷ []) s (Lacks-append sep line (c ∷ []) h (k.0, tt)) k.1)
]

pub rest-newline :
    (line s : Bytes) → Lacks is_newline line → Lacks is_newline (stream_lines line s).1
unfolding stream_lines
rest-newline line [] h = h
rest-newline line (c ∷ s) h = elim (Bool-cases (c == 10)) [
  | inl e ↦ rw e (rest-newline [] s tt)
  | inr e ↦ rw e (rest-newline (line ++ c ∷ []) s (Lacks-append is_newline line (c ∷ []) h (e, tt)))
]

pub short_lines-low : (n : ℕ) (s : Bytes) → short_lines n s ≡ true → n < 1024
unfolding short_lines
short_lines-low n [] h = ground arith
short_lines-low n (c ∷ s) h = ground (arith, short_lines-low (suc n) s)

length_snoc : (line : Bytes) (c : ℕ) → length (line ++ c ∷ []) ≡ suc (length line)
length_snoc line c = omega (arith, length-append line (c ∷ []))

pub short_lines-append :
    (line s t : Bytes)
    → short_lines (length line) (s ++ t) ≡ true
    → short_lines (length (stream_lines line s).1) t ≡ true
unfolding short_lines stream_lines
short_lines-append line [] t h = h
short_lines-append line (c ∷ s) t h = elim (Bool-cases (c == 10)) [
  | inl e ↦ rw e (short_lines-append [] s t (ground (arith, rw e at h)))
  | inr e ↦ rw e (short_lines-append (line ++ c ∷ []) s t (rw (length_snoc line c) (rw e at h)))
]

short_after :
    (n : ℕ) (a b : Bytes)
    → Lacks is_newline a
    → short_lines n (a ++ 10 ∷ b) ≡ true
    → (n + length a < 1024) × (short_lines 0 b ≡ true)
unfolding short_lines
short_after n [] b plain h = ground arith
short_after n (c ∷ a) b plain h =
    let (first, next) = short_after (suc n) a b plain.1 (rw plain.0 at h) in
    (omega (arith, first), next)

pub short_lines-after :
    (a b : Bytes)
    → Lacks is_newline a
    → short_lines 0 (a ++ 10 ∷ b) ≡ true
    → (length a < 1024) × (short_lines 0 b ≡ true)
short_lines-after a b plain h =
    let (first, next) = short_after 0 a b plain h in (omega (arith, first), next)

pub short_lines-plain :
    (n : ℕ) (a s : Bytes)
    → Lacks is_newline a
    → short_lines (n + length a) s ≡ true
    → short_lines n (a ++ s) ≡ true
unfolding short_lines
short_lines-plain n [] s plain h = subst (λ m. short_lines m s ≡ true) (omega arith) h
short_lines-plain n (c ∷ a) s plain h =
    rw plain.0
      (short_lines-plain (suc n) a s plain.1 (subst (λ m. short_lines m s ≡ true) (omega arith) h))

pub short_lines-prefix :
    (n : ℕ) (s t : Bytes) → short_lines n (s ++ t) ≡ true → short_lines n s ≡ true
unfolding short_lines
short_lines-prefix n [] t h = let low = short_lines-low n t h in ground arith
short_lines-prefix n (c ∷ s) t h =
    ground (arith, short_lines-prefix 0 s t, short_lines-prefix (suc n) s t)
