-- ===== src/RaledCommand/Tokens.antt =====
-- How raled_process_command of raled/src/raled_command.c reads a line: strtok, toupper and the loop that
-- passes the blanks before a value.
use rale.Base.{
  ℕ, zero, suc, ◌-◌, Bool, true, false, ◌&&◌, ◌||◌, [], ◌∷◌, Option, none, some, leb, ◌==◌,
  if◌then◌else◌,
}
use rale.Text.{Bytes}

-- `strtok(s, " \t\n")`
abbrev pub is_blank : ℕ → Bool
is_blank c = c == 32 || (c == 9 || c == 10)

-- A token, and what `strtok(NULL, ...)` goes on with.
unfoldable pub token_end : Bytes → Bytes × Bytes
token_end [] = ([], [])
token_end (c ∷ s) = let rest = token_end s in if is_blank c then ([], s) else (c ∷ rest.0, rest.1)

unfoldable pub next_token : Bytes → Option (Bytes × Bytes)
next_token [] = none
next_token (c ∷ s) =
    let rest = next_token s in if is_blank c then rest else some (token_end (c ∷ s))

-- `toupper`, in the C locale.
abbrev pub to_upper : ℕ → ℕ
to_upper c = if leb 97 c && leb c 122 then c - 32 else c

unfoldable pub upper : Bytes → Bytes
upper [] = []
upper (c ∷ s) = to_upper c ∷ upper s

unfoldable pub skip_blanks : Bytes → Bytes
skip_blanks [] = []
skip_blanks (c ∷ s) = let rest = skip_blanks s in if c == 32 || c == 9 then rest else c ∷ s

-- Whether the line has `n` tokens more.
unfoldable pub has_tokens : ℕ → Bytes → Bool
has_tokens zero s = true
has_tokens (suc n) s = elim (next_token s) [ none ↦ false | some t ↦ has_tokens n t.1 ]
