-- ===== src/Util.antt =====
-- librale/src/util.c: the functions on strings. A buffer is the string that it holds; a NULL pointer
-- is `none`.
pub mod Trim
use rale.Base.{
  ℕ, ◌+◌, ◌-◌, ◌*◌, ◌/◌, ◌%◌, ◌^◌, Bool, true, false, List, [], ◌∷◌, ◌++◌, Option, none, some, leb,
  ltb, ◌==◌, ◌&&◌, if◌then◌else◌, length, take,
}
use rale.Text.{Bytes}
use rale.Text.Number.{is_space, skip_space}

-- `while (end > str && isspace(*end)) end--; *(end + 1) = 0`, on a string that does not start with
-- a space: the part up to the last byte that is none.
unfoldable pub trim_end : Bytes → Bytes
trim_end [] = []
trim_end (c ∷ s) = elim (trim_end s) [ [] ↦ if is_space c then [] else c ∷ [] | d ∷ r ↦ c ∷ d ∷ r ]

-- The string at the returned pointer.
unfoldable pub trim_whitespace : Option Bytes → Option Bytes
unfolding trim_end
trim_whitespace none = none
trim_whitespace (some s) = some (trim_end (skip_space s))

-- The string in `dest` afterwards, and whether 0 is returned.
unfoldable pub safe_string_append : Option Bytes → Option Bytes → ℕ → Option Bytes × Bool
safe_string_append (some dest) (some src) size =
    if size == 0
    then (some dest, false)
    else if leb size (length dest)
    then (some dest, false)
    else let available = size - length dest - 1 in
      (some (if ltb available (length src) then dest ++ take available src else dest ++ src), true)
safe_string_append dest src size = (dest, false)
