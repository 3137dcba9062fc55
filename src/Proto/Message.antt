-- ===== src/Proto/Message.antt =====
-- The messages of the protocol, and how `rale_handle_message` takes them apart.
use rale.Base.{[], ◌∷◌, Option, none, some, ◌==◌, if◌then◌else◌, ℤ, minus_one, drop}
use rale.Text.{Bytes, codes, starts_with, strchr}
use rale.Text.Number.{atoi}

-- The arguments are an id and a term, or `none` if no space follows the word.
pub data Message : Type 0 where
  vote_request heartbeat vote_granted : Option (ℤ × ℤ) → Message
  election_timeout unknown : Message

-- The number behind the next space, if a byte follows that space, and -1 otherwise.
abbrev pub term_after : Option (Bytes × Bytes) → ℤ
term_after none = minus_one
term_after (some (a, [])) = minus_one
term_after (some (a, c ∷ s)) = atoi (c ∷ s)

unfoldable pub parse_args : Bytes → Option (ℤ × ℤ)
parse_args [] = none
parse_args (c ∷ s) = if c == 32 then some (atoi s, term_after (strchr 32 s)) else none

-- The order of the tests is that of the code; the last compares 15 of the 16 letters.
unfoldable pub parse_message : Bytes → Message
unfolding parse_args starts_with
parse_message msg =
    if starts_with (codes "VOTE_REQUEST") msg
    then vote_request (parse_args (drop 12 msg))
    else if starts_with (codes "HEARTBEAT") msg
    then heartbeat (parse_args (drop 9 msg))
    else if starts_with (codes "VOTE_GRANTED") msg
    then vote_granted (parse_args (drop 12 msg))
    else if starts_with (codes "ELECTION_TIMEOU") msg
    then election_timeout
    else unknown
