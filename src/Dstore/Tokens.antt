-- ===== src/Dstore/Tokens.antt =====
-- The tokens that `strtok(…, " ")` finds in a message, for `dstore_handle_propagated_add` of dstore.c.
use rale.Base.{ℕ, ◌≡◌, ◌<◌, refl, Bool, [], ◌∷◌, ◌++◌, length, ℤ, arith, append-nil, append_assoc}
use rale.Text.{Bytes}
use rale.Text.Number.{format_int}
use rale.StateFile.{is_blank}
use rale.StateFile.Words.{words, words-cons, flush, Lacks}
use rale.StateFile.Reading.{format_int-cons, format_int-Lacks}
use rale.Dstore.Commands.{is_space}

words_rest :
    (sep : ℕ → Bool) (word w : Bytes) → Lacks sep w → words sep word w ≡ flush (word ++ w) []
unfolding words
words_rest sep word [] h = rw append-nil
words_rest sep word (c ∷ w) h =
    rw (h.0, words) (rw (words_rest sep (word ++ c ∷ []) w h.1, append_assoc))

-- The last token.
pub words-end : (sep : ℕ → Bool) (w : Bytes) → 0 < length w → Lacks sep w → words sep [] w ≡ w ∷ []
words-end sep [] long h = absurd (omega arith)
words-end sep (c ∷ w) long h = words_rest sep [] (c ∷ w) h

-- A token and the space after it.
pub words-space :
    (w s : Bytes)
    → 0 < length w
    → Lacks is_space w
    → words is_space [] (w ++ 32 ∷ s) ≡ w ∷ words is_space [] s
words-space [] s long h = absurd (omega arith)
words-space (c ∷ w) s long h = words-cons is_space c w 32 s h refl

pub words_skip : (s : Bytes) → words is_space [] (32 ∷ s) ≡ words is_space [] s
unfolding words
words_skip s = refl

Lacks-is_space : (w : Bytes) → Lacks is_blank w → Lacks is_space w
Lacks-is_space [] h = tt
Lacks-is_space (c ∷ w) h = (ground (arith, h.0), Lacks-is_space w h.1)

pub format_int-some : (a : ℤ) → (0 < length (format_int a)) × Lacks is_space (format_int a)
format_int-some a =
    let (c, w, e) = format_int-cons a in
    (rw e (omega arith), Lacks-is_space (format_int a) (format_int-Lacks a))
