-- ===== src/StateFile/Words.antt =====
-- `strtok`: the longest runs of bytes that are no separators.
use rale.Base.{
  ℕ, ◌≡◌, Bool, true, false, List, [], ◌∷◌, ◌++◌, some, ◌==◌, arith, append_assoc, append-nil,
}
use rale.Text.{Bytes, strchr}

abbrev pub flush : Bytes → List Bytes → List Bytes
flush [] ws = ws
flush (c ∷ w) ws = (c ∷ w) ∷ ws

-- `word` is the token so far.
unfoldable pub words : (ℕ → Bool) → Bytes → Bytes → List Bytes
words sep word [] = flush word []
words sep word (c ∷ s) = elim (sep c) [
  | true ↦ flush word (words sep [] s)
  | false ↦ words sep (word ++ c ∷ []) s
]

-- No byte is a separator.
abbrev pub Lacks : (ℕ → Bool) → Bytes → Type 0
Lacks sep [] = Unit
Lacks sep (c ∷ w) = (sep c ≡ false) × Lacks sep w

words_word :
    (sep : ℕ → Bool) (word w : Bytes) (d : ℕ) (s : Bytes)
    → Lacks sep w
    → sep d ≡ true
    → words sep word (w ++ d ∷ s) ≡ flush (word ++ w) (words sep [] s)
unfolding words
words_word sep word [] d s h e = rw (e, append-nil)
words_word sep word (c ∷ w) d s h e =
    rw h.0 (rw (words_word sep (word ++ c ∷ []) w d s h.1 e, append_assoc))

-- A token that is closed by a separator.
pub words-cons :
    (sep : ℕ → Bool) (c : ℕ) (w : Bytes) (d : ℕ) (s : Bytes)
    → Lacks sep (c ∷ w)
    → sep d ≡ true
    → words sep [] ((c ∷ w) ++ d ∷ s) ≡ (c ∷ w) ∷ words sep [] s
words-cons sep c w d s h e = words_word sep [] (c ∷ w) d s h e

-- What `strchr` finds at the first separator.
pub strchr-append :
    (c : ℕ) (s t : Bytes) → Lacks (λ d. d == c) s → strchr c (s ++ c ∷ t) ≡ some (s, t)
unfolding strchr
strchr-append c [] t h = ground arith
strchr-append c (d ∷ s) t h = rw (h.0, strchr-append c s t h.1, strchr)
