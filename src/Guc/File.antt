-- ===== src/Guc/File.antt =====
-- raled/src/raled_configfile.c: the file of settings.
use rale.Base.{
  ℕ, zero, suc, Bool, true, ◌||◌, List, [], ◌∷◌, Option, none, some, ◌==◌, if◌then◌else◌, length,
  drop,
}
use rale.Text.{Bytes, strchr, c_string}
use rale.StateFile.{fgets}
use rale.Guc.{Config, guc_set}

-- The lines that `fgets` brings, with fuel for the length of the text.
unfoldable pub file_lines : ℕ → Bytes → List Bytes
file_lines zero s = []
file_lines (suc n) [] = []
file_lines (suc n) (c ∷ s) =
    let line = fgets 511 (c ∷ s) in line ∷ file_lines n (drop (length line) (c ∷ s))

-- What stands before a '#'.
unfoldable pub strip_comment : Bytes → Bytes
strip_comment line = elim (strchr 35 line) [ none ↦ line | some (a, b) ↦ a ]

-- A space, a tab or a quote; and these or the end of a line.
abbrev pub is_quote : ℕ → Bool
is_quote c = c == 32 || (c == 9 || (c == 39 || c == 34))

abbrev pub is_trailing : ℕ → Bool
is_trailing c = is_quote c || (c == 10 || c == 13)

unfoldable pub skip_quotes : Bytes → Bytes
skip_quotes [] = []
skip_quotes (c ∷ s) = let rest = skip_quotes s in if is_quote c then rest else c ∷ s

unfoldable pub drop_trailing : Bytes → Bytes
drop_trailing [] = []
drop_trailing (c ∷ s) = elim (drop_trailing s) [
  | [] ↦ if is_trailing c then [] else c ∷ []
  | d ∷ r ↦ c ∷ d ∷ r
]

-- `while (end > key && ...) *end-- = '\0'`: the first byte stays.
unfoldable pub trim_tail : Bytes → Bytes
trim_tail [] = []
trim_tail (c ∷ s) = c ∷ drop_trailing s

unfoldable pub clean : Bytes → Bytes
clean s = trim_tail (skip_quotes s)

abbrev pub set_pair : Config → Option (Bytes × Bytes) → Config
set_pair c none = c
set_pair c (some (key, value)) = (guc_set c (clean key) (clean value)).0

abbrev pub is_empty_line : Bytes → Bool
is_empty_line [] = true
is_empty_line (c ∷ s) = c == 10

-- One round of the loop of `read_config`.
unfoldable pub config_line : Config → Bytes → Config
config_line c line =
    let text = strip_comment (c_string line) in
    if is_empty_line text then c else set_pair c (strchr 61 text)

unfoldable pub config_lines : Config → List Bytes → Config
config_lines c [] = c
config_lines c (l ∷ ls) = config_lines (config_line c l) ls

-- `none` is a file that cannot be opened, or the result -1.
unfoldable pub read_config : Option Bytes → Config → Option Config
read_config none c = none
read_config (some file) c = some (config_lines c (file_lines (length file) file))
