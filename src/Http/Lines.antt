-- ===== src/Http/Lines.antt =====
-- The lines of a message, and the blank line behind them.
use rale.Base.{
  ℕ, ◌+◌, ◌≡◌, refl, sym, ap, ◌∙◌, Bool, true, false, not, ◌&&◌, ◌||◌, List, [], ◌∷◌, ◌++◌, some,
  ◌==◌, drop, length, arith, append_assoc, append-nil, length-append, drop-append,
}
use rale.Text.{Bytes, starts_with, c_string}
use rale.StateFile.Words.{Lacks}
use rale.Http.Search.{
  strstr, crlf, blank_line, is_zero, is_cr, strstr-append, strstr-here, strstr-line,
  c_string-append,
}
use rale.Http.Server.{body_skip, body_start, request_body}

abbrev pub is_break : ℕ → Bool
is_break c = c == 13 || c == 0

-- Lines with their ends.
abbrev pub lines_text : List Bytes → Bytes
lines_text [] = []
lines_text (l ∷ ls) = l ++ (13 ∷ 10 ∷ lines_text ls)

-- No line is empty or has a carriage return or a zero byte.
abbrev pub AreLines : List Bytes → Type 0
AreLines [] = Unit
AreLines ([] ∷ ls) = ⊥
AreLines ((c ∷ l) ∷ ls) = Lacks is_break (c ∷ l) × AreLines ls

pub Lacks-cr : (s : Bytes) → Lacks is_break s → Lacks is_cr s
Lacks-cr [] h = tt
Lacks-cr (c ∷ s) h = (ground (arith, h.0), Lacks-cr s h.1)

pub Lacks-zero : (s : Bytes) → Lacks is_break s → Lacks is_zero s
Lacks-zero [] h = tt
Lacks-zero (c ∷ s) h = (ground (arith, h.0), Lacks-zero s h.1)

pub c_string-line :
    (w x t : Bytes)
    → Lacks is_zero w
    → c_string ((w ++ 13 ∷ 10 ∷ x) ++ t) ≡ w ++ 13 ∷ 10 ∷ c_string (x ++ t)
unfolding c_string
c_string-line w x t h =
    rw (append_assoc w (13 ∷ 10 ∷ x) t, c_string-append w (13 ∷ 10 ∷ (x ++ t)) h) refl

pub c_string-lines :
    (ls : List Bytes) (t : Bytes)
    → AreLines ls
    → c_string (lines_text ls ++ t) ≡ lines_text ls ++ c_string t
c_string-lines [] t h = refl
c_string-lines ([] ∷ ls) t h = absurd h
c_string-lines ((c ∷ l) ∷ ls) t h =
    c_string-line (c ∷ l) (lines_text ls) t (Lacks-zero (c ∷ l) h.0)
    ∙ ap (λ (x : Bytes). (c ∷ l) ++ 13 ∷ 10 ∷ x) (c_string-lines ls t h.1)
    ∙ sym (append_assoc (c ∷ l) (13 ∷ 10 ∷ lines_text ls) (c_string t))

last_line :
    (w u : Bytes)
    → Lacks is_cr w
    → strstr blank_line ((w ++ crlf) ++ 13 ∷ 10 ∷ u) ≡ some (w, 13 ∷ 10 ∷ 13 ∷ 10 ∷ u)
unfolding starts_with
last_line w u h =
    rw
      (
        append_assoc w crlf (13 ∷ 10 ∷ u),
        strstr-append 13 (10 ∷ 13 ∷ 10 ∷ []) w (blank_line ++ u) h,
        strstr-here blank_line (blank_line ++ u) refl,
        append-nil,
      )
      refl

inner_line :
    (w x : Bytes) (d : ℕ) (y u a b : Bytes)
    → Lacks is_cr w
    → x ≡ d ∷ y
    → (d == 13) ≡ false
    → strstr blank_line (x ++ 13 ∷ 10 ∷ u) ≡ some (a, b)
    → strstr blank_line ((w ++ 13 ∷ 10 ∷ x) ++ 13 ∷ 10 ∷ u) ≡ some (w ++ 13 ∷ 10 ∷ a, b)
inner_line w x d y u a b h e other found =
    rw (append_assoc w (13 ∷ 10 ∷ x) (13 ∷ 10 ∷ u), e, strstr-line w (y ++ 13 ∷ 10 ∷ u) d h other)
      (rw (rw e at found) (rw (append_assoc w crlf a) refl))

-- The first blank line stands behind the lines.
pub strstr-lines :
    (c : ℕ) (l : Bytes) (ls : List Bytes) (u : Bytes)
    → AreLines ((c ∷ l) ∷ ls)
    → (a : Bytes) × (strstr blank_line (lines_text ((c ∷ l) ∷ ls) ++ 13 ∷ 10 ∷ u)
        ≡ some (a, 13 ∷ 10 ∷ 13 ∷ 10 ∷ u))
      × (a ++ crlf ≡ lines_text ((c ∷ l) ∷ ls))
strstr-lines c l [] u h = (c ∷ l, last_line (c ∷ l) u (Lacks-cr (c ∷ l) h.0), refl)
strstr-lines c l ([] ∷ ls) u h = absurd h.1
strstr-lines c l ((d ∷ k) ∷ ls) u h =
    let (a, found, whole) = strstr-lines d k ls u h.1 in
    (
      (c ∷ l) ++ 13 ∷ 10 ∷ a,
      inner_line (c ∷ l) (lines_text ((d ∷ k) ∷ ls)) d (k ++ 13 ∷ 10 ∷ lines_text ls) u a
          (13 ∷ 10 ∷ 13 ∷ 10 ∷ u) (Lacks-cr (c ∷ l) h.0) refl (ground (arith, h.1.0.0)) found,
      append_assoc (c ∷ l) (13 ∷ 10 ∷ a) crlf ∙ ap (λ (x : Bytes). (c ∷ l) ++ 13 ∷ 10 ∷ x) whole,
    )

body_start-found :
    (text a u : Bytes)
    → strstr blank_line text ≡ some (a, 13 ∷ 10 ∷ u)
    → body_start text ≡ some (length a + 2)
unfolding body_start body_skip
body_start-found text a u found = rw (body_start, found)

request_body-found :
    (raw a u body : Bytes)
    → strstr blank_line (c_string raw) ≡ some (a, 13 ∷ 10 ∷ u)
    → raw ≡ (a ++ crlf) ++ 13 ∷ 10 ∷ body
    → request_body true raw ≡ some (13 ∷ 10 ∷ body)
unfolding request_body
request_body-found raw a u body found whole =
    let start : length a + 2 ≡ length (a ++ crlf) = omega (arith, length-append a crlf) in
    let rest : drop (length (a ++ crlf)) raw ≡ 13 ∷ 10 ∷ body =
      rw whole (drop-append (a ++ crlf) (13 ∷ 10 ∷ body)) in
    rw (request_body, body_start-found (c_string raw) a u found, start, rest)

-- What the server takes for the body has the end of the blank line in front.
request_body-lines :
    (c : ℕ) (l : Bytes) (ls : List Bytes) (body : Bytes)
    → AreLines ((c ∷ l) ∷ ls)
    → request_body true (lines_text ((c ∷ l) ∷ ls) ++ 13 ∷ 10 ∷ body) ≡ some (13 ∷ 10 ∷ body)
unfolding c_string
request_body-lines c l ls body h =
    let text = lines_text ((c ∷ l) ∷ ls) in
    let (a, found, whole) = strstr-lines c l ls (c_string body) h in
    request_body-found (text ++ 13 ∷ 10 ∷ body) a (13 ∷ 10 ∷ c_string body) body
      (ap (strstr blank_line) (c_string-lines ((c ∷ l) ∷ ls) (13 ∷ 10 ∷ body) h) ∙ found)
      (ap (λ (x : Bytes). x ++ 13 ∷ 10 ∷ body) (sym whole))

pub request_body-first :
    (w : Bytes) (c : ℕ) (l : Bytes) (ls : List Bytes) (body : Bytes)
    → w ≡ c ∷ l
    → Lacks is_break w
    → AreLines ls
    → request_body true (lines_text (w ∷ ls) ++ 13 ∷ 10 ∷ body) ≡ some (13 ∷ 10 ∷ body)
request_body-first w c l ls body e h k = rw e (request_body-lines c l ls body (rw e at h, k))

-- A concrete text is looked through.
abbrev pub are_lacking : (ℕ → Bool) → Bytes → Bool
are_lacking sep [] = true
are_lacking sep (c ∷ s) = not (sep c) && are_lacking sep s

pub Lacks-check : (sep : ℕ → Bool) (s : Bytes) → are_lacking sep s ≡ true → Lacks sep s
Lacks-check sep [] h = tt
Lacks-check sep (c ∷ s) h = (ground arith, Lacks-check sep s (ground arith))
