-- ===== src/Guc/Lines.antt =====
-- What raled_configfile.c reads in a file with one setting in each line.
use rale.Base.{
  ℕ, zero, suc, ◌≤◌, ◌<◌, ◌≡◌, refl, ap, ◌∙◌, Bool, false, ◌||◌, List, [], ◌∷◌, ◌++◌, none, some,
  ◌==◌, length, arith, append_assoc, length-append, drop-append,
}
use rale.Text.{Bytes, strchr, c_string}
use rale.StateFile.{fgets}
use rale.StateFile.Words.{Lacks, strchr-append}
use rale.StateFile.Reading.{Lacks-append}
use rale.Guc.{Config, guc_set}
use rale.Guc.File.{
  file_lines, strip_comment, is_quote, is_trailing, skip_quotes, drop_trailing, trim_tail, clean,
  is_empty_line, config_line, config_lines, read_config,
}

-- What ends a value or is cut off it: a blank, a quote, the end of a line, '#', '=' or a zero byte.
abbrev pub is_mark : ℕ → Bool
is_mark c = is_trailing c || (c == 35 || (c == 61 || c == 0))

abbrev pub line_text : Bytes × Bytes → Bytes
line_text (key, value) = key ++ 61 ∷ value

abbrev pub settings_text : List (Bytes × Bytes) → Bytes
settings_text [] = []
settings_text (p ∷ ps) = (line_text p ++ 10 ∷ []) ++ settings_text ps

-- The reference: the pairs are set in their order, and what fails is left out.
abbrev pub set_all : Config → List (Bytes × Bytes) → Config
set_all c [] = c
set_all c ((key, value) ∷ ps) = set_all (guc_set c key value).0 ps

-- Keys and values without marks, not empty, on lines that fit the buffer.
abbrev pub AreSettings : List (Bytes × Bytes) → Type 0
AreSettings [] = Unit
AreSettings ((key, value) ∷ ps) =
    (0 < length key)
    × (0 < length value)
    × Lacks is_mark key
    × Lacks is_mark value
    × (length (line_text (key, value)) ≤ 509)
    × AreSettings ps

Lacks-mark :
    (sep : ℕ → Bool) (s : Bytes)
    → ((c : ℕ) → is_mark c ≡ false → sep c ≡ false)
    → Lacks is_mark s
    → Lacks sep s
Lacks-mark sep [] h k = tt
Lacks-mark sep (c ∷ s) h k = (h c k.0, Lacks-mark sep s h k.1)

clean-tail : (s : Bytes) → Lacks is_mark s → drop_trailing (s ++ 10 ∷ []) ≡ s
unfolding drop_trailing
clean-tail [] h = refl
clean-tail (c ∷ []) h = ground (arith, h.0)
clean-tail (c ∷ d ∷ s) h = rw (clean-tail (d ∷ s) h.1) refl

drop_trailing-plain : (s : Bytes) → Lacks is_mark s → drop_trailing s ≡ s
unfolding drop_trailing
drop_trailing-plain [] h = refl
drop_trailing-plain (c ∷ []) h = ground (arith, h.0)
drop_trailing-plain (c ∷ d ∷ s) h = rw (drop_trailing-plain (d ∷ s) h.1) refl

clean-key : (s : Bytes) → Lacks is_mark s → clean s ≡ s
unfolding clean skip_quotes trim_tail
clean-key [] h = refl
clean-key (c ∷ s) h =
    let plain : is_quote c ≡ false = ground (arith, h.0) in
    rw (plain, drop_trailing-plain s h.1) refl

clean-value : (s : Bytes) → 0 < length s → Lacks is_mark s → clean (s ++ 10 ∷ []) ≡ s
unfolding clean skip_quotes trim_tail
clean-value [] some_value h = absurd (omega arith)
clean-value (c ∷ s) some_value h =
    let plain : is_quote c ≡ false = ground (arith, h.0) in rw (plain, clean-tail s h.1) refl

strchr-Lacks : (c : ℕ) (s : Bytes) → Lacks (λ d. d == c) s → strchr c s ≡ none
unfolding strchr
strchr-Lacks c [] h = refl
strchr-Lacks c (d ∷ s) h = rw (h.0, strchr-Lacks c s h.1, strchr)

c_string_whole : (s : Bytes) → Lacks (λ c. c == 0) s → c_string s ≡ s
unfolding c_string
c_string_whole [] h = refl
c_string_whole (c ∷ s) h = rw (h.0, c_string_whole s h.1) refl

-- A line is read whole, and the next one starts behind it.
fgets_line :
    (n : ℕ) (w t : Bytes)
    → Lacks (λ c. c == 10) w
    → length w < n
    → fgets n (w ++ 10 ∷ t) ≡ w ++ 10 ∷ []
unfolding fgets
fgets_line zero w t h fits = absurd (omega arith)
fgets_line (suc n) [] t h fits = refl
fgets_line (suc n) (c ∷ w) t h fits =
    rw h.0 (ap (λ (s : Bytes). c ∷ s) (fgets_line n w t h.1 (omega arith)))

file_lines-next :
    (n : ℕ) (text line rest : Bytes)
    → fgets 511 text ≡ line
    → text ≡ line ++ rest
    → 0 < length text
    → file_lines (suc n) text ≡ line ∷ file_lines n rest
unfolding file_lines
file_lines-next n [] line rest read whole some_text = absurd (omega arith)
file_lines-next n (c ∷ s) line rest read whole some_text =
    rw (file_lines, read)
      (ap (λ (t : Bytes). line ∷ file_lines n t) (rw whole (drop-append line rest)))

strip_comment-none : (line : Bytes) → strchr 35 line ≡ none → strip_comment line ≡ line
unfolding strip_comment
strip_comment-none line h = rw (strip_comment, h)

config_line-found :
    (c : Config) (line key value : Bytes)
    → c_string line ≡ line
    → strchr 35 line ≡ none
    → is_empty_line line ≡ false
    → strchr 61 line ≡ some (key, value)
    → config_line c line ≡ (guc_set c (clean key) (clean value)).0
unfolding config_line
config_line-found c line key value zeros comments full split =
    let stripped : strip_comment (c_string line) ≡ line =
      ap strip_comment zeros ∙ strip_comment-none line comments in
    rw (stripped, full, split) refl

first_byte : (key t : Bytes) → 0 < length key → Lacks is_mark key → is_empty_line (key ++ t) ≡ false
first_byte [] t some_key h = absurd (omega arith)
first_byte (c ∷ s) t some_key h = ground (arith, h.0)

module _ (key value : Bytes) (some_key : 0 < length key) (some_value : 0 < length value)
    (plain_key : Lacks is_mark key) (plain_value : Lacks is_mark value) where
  line-Lacks :
      (sep : ℕ → Bool)
      → ((c : ℕ) → is_mark c ≡ false → sep c ≡ false)
      → sep 61 ≡ false
      → Lacks sep (line_text (key, value))
  line-Lacks sep h equals =
      Lacks-append sep key (61 ∷ value) (Lacks-mark sep key h plain_key)
        (equals, Lacks-mark sep value h plain_value)

  -- The line with its end is the key and the value.
  config_line-pair :
      (c : Config) → config_line c (line_text (key, value) ++ 10 ∷ []) ≡ (guc_set c key value).0
  unfolding config_line strip_comment
  config_line-pair c =
      let line = line_text (key, value) ++ 10 ∷ [] in
      let zeros : c_string line ≡ line = c_string_whole line (
        Lacks-append (λ c. c == 0) (line_text (key, value)) (10 ∷ [])
          (line-Lacks (λ c. c == 0) (λ c h. ground arith) refl) (refl, tt)) in
      let comments : strchr 35 line ≡ none = strchr-Lacks 35 line (
        Lacks-append (λ c. c == 35) (line_text (key, value)) (10 ∷ [])
          (line-Lacks (λ c. c == 35) (λ c h. ground arith) refl) (refl, tt)) in
      let split : strchr 61 line ≡ some (key, value ++ 10 ∷ []) =
        ap (strchr 61) (append_assoc key (61 ∷ value) (10 ∷ []))
        ∙ strchr-append 61 key (value ++ 10 ∷ [])
            (Lacks-mark (λ c. c == 61) key (λ c h. ground arith) plain_key) in
      config_line-found c line key (value ++ 10 ∷ []) zeros comments
        (rw (append_assoc key (61 ∷ value) (10 ∷ []))
          (first_byte key (61 ∷ (value ++ 10 ∷ [])) some_key plain_key))
        split
      ∙ ap (λ (k : Bytes). (guc_set c k (clean (value ++ 10 ∷ []))).0) (clean-key key plain_key)
      ∙ ap (λ (v : Bytes). (guc_set c key v).0) (clean-value value some_value plain_value)

  -- The lines of a text that starts with this one.
  file_lines-cons :
      (n : ℕ) (rest : Bytes)
      → length (line_text (key, value)) ≤ 509
      → file_lines (suc n) ((line_text (key, value) ++ 10 ∷ []) ++ rest)
        ≡ (line_text (key, value) ++ 10 ∷ []) ∷ file_lines n rest
  file_lines-cons n rest fits =
      let line = line_text (key, value) ++ 10 ∷ [] in
      let read : fgets 511 (line ++ rest) ≡ line =
        ap (fgets 511) (append_assoc (line_text (key, value)) (10 ∷ []) rest)
        ∙ fgets_line 511 (line_text (key, value)) rest
            (line-Lacks (λ c. c == 10) (λ c h. ground arith) refl) (omega (arith, fits)) in
      file_lines-next n (line ++ rest) line rest read refl (
        omega (
          arith,
          some_key,
          length-append line rest,
          length-append (line_text (key, value)) (10 ∷ []),
          length-append key (61 ∷ value),
        ))

line_length :
    (key value rest : Bytes) → length rest < length ((line_text (key, value) ++ 10 ∷ []) ++ rest)
line_length key value rest = omega (
  arith,
  length-append (line_text (key, value) ++ 10 ∷ []) rest,
  length-append (line_text (key, value)) (10 ∷ []),
)

lines-set_all :
    (n : ℕ) (ps : List (Bytes × Bytes)) (c : Config)
    → AreSettings ps
    → length (settings_text ps) ≤ n
    → config_lines c (file_lines n (settings_text ps)) ≡ set_all c ps
unfolding config_lines
lines-set_all zero [] c h fits = unfold file_lines in refl
lines-set_all (suc n) [] c h fits = unfold file_lines in refl
lines-set_all zero ((key, value) ∷ ps) c h fits =
    absurd (omega (arith, line_length key value (settings_text ps)))
lines-set_all (suc n) ((key, value) ∷ ps) c (k, v, plain_key, plain_value, short, more) fits =
    ap (config_lines c)
      (file_lines-cons key value k v plain_key plain_value n (settings_text ps) short)
    ∙ ap (λ (d : Config). config_lines d (file_lines n (settings_text ps)))
        (config_line-pair key value k v plain_key plain_value c)
    ∙ lines-set_all n ps (guc_set c key value).0 more
        (omega (arith, line_length key value (settings_text ps)))

-- A file with one setting in each line, whose keys and values are not empty, have no blanks, quotes,
-- "#", "=", line ends or zero bytes, and fit the buffer for a line, is read as the settings in their
-- order: each is set as guc_set sets it, and one that guc_set refuses is passed over.
pub read_config-set_all :
    (ps : List (Bytes × Bytes)) (c : Config)
    → AreSettings ps
    → read_config (some (settings_text ps)) c ≡ some (set_all c ps)
unfolding read_config
read_config-set_all ps c h =
    ap some (lines-set_all (length (settings_text ps)) ps c h (omega arith))
