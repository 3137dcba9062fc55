-- ===== src/StateFile.antt =====
-- The file rale.state: one line of five numbers. librale/src/rale_proto.c writes it with fprintf and
-- reads it with fscanf; librale/src/dstore.c writes it with snprintf and reads it with strtok and
-- atoi. A file that cannot be opened is `none`; writing it always succeeds here.
pub mod Words
pub mod Reading
pub mod Leader
use rale.Base.{
  ℕ, zero, suc, Bool, true, false, ◌&&◌, ◌||◌, List, [], ◌∷◌, ◌++◌, Option, none, some, ◌==◌, ◌==ℤ◌,
  if◌then◌else◌, ℤ, pos, negsuc, minus_one, to_int, is_nonneg,
}
use rale.Text.{Bytes}
use rale.Text.Number.{format_int, scan_number, atoi, to_long}
use rale.StateFile.Words.{words}

pub record Fields : Type 0 where
  pub current_term : ℤ
  pub voted_for : ℤ
  pub leader_id : ℤ
  pub last_log_index : ℤ
  pub last_log_term : ℤ

-- `"%d %d %d %d %d\n"`
unfoldable pub print : Fields → Bytes
print f =
    format_int f.current_term
    ++ 32
      ∷ (format_int f.voted_for
          ++ 32
            ∷ (format_int f.leader_id
                ++ 32
                  ∷ (format_int f.last_log_index ++ 32 ∷ (format_int f.last_log_term ++ 10 ∷ []))))

-- One `%d` of fscanf, which stores an `int`.
unfoldable pub scan_int : Bytes → Option (ℤ × Bytes)
scan_int s = elim (scan_number s) [ none ↦ none | some (n, r) ↦ some (to_int (to_long n), r) ]

infixl 5 ◌>>=◌
abbrev pub ◌>>=◌ : {A B : Type 0} → Option A → (A → Option B) → Option B
none >>= f = none
some a >>= f = f a

-- `fscanf(file, "%d %d %d %d %d", …) != 5` is `none`.
unfoldable pub scan_fields : Bytes → Option Fields
scan_fields s = do
  (term, s1) ← scan_int s
  (voted, s2) ← scan_int s1
  (leader, s3) ← scan_int s2
  (index, s4) ← scan_int s3
  (log_term, s5) ← scan_int s4
  some (record {
    current_term = term;
    voted_for = voted;
    leader_id = leader;
    last_log_index = index;
    last_log_term = log_term;
  })

-- `fgets` into a buffer with room for `n` bytes and the closing zero.
unfoldable pub fgets : ℕ → Bytes → Bytes
fgets zero s = []
fgets (suc n) [] = []
fgets (suc n) (c ∷ s) = if c == 10 then c ∷ [] else c ∷ fgets n s

-- The value of a token, or -1 if there is none.
abbrev pub first_int : List Bytes → ℤ
first_int [] = minus_one
first_int (w ∷ ws) = atoi w

abbrev pub rest_of : List Bytes → List Bytes
rest_of [] = []
rest_of (w ∷ ws) = ws

abbrev pub is_blank : ℕ → Bool
is_blank c = c == 32 || c == 10

-- The tokens of a line under `strtok(…, " \n")`, as numbers.
unfoldable pub token_fields : Bytes → Fields
token_fields line =
    let w = words is_blank [] line in
    record {
      current_term = first_int w;
      voted_for = first_int (rest_of w);
      leader_id = first_int (rest_of (rest_of w));
      last_log_index = first_int (rest_of (rest_of (rest_of w)));
      last_log_term = first_int (rest_of (rest_of (rest_of (rest_of w))));
    }

abbrev pub all_nonneg : Fields → Bool
all_nonneg f =
    is_nonneg f.current_term
    && (is_nonneg f.voted_for
        && (is_nonneg f.leader_id && (is_nonneg f.last_log_index && is_nonneg f.last_log_term)))

-- What the two readers of dstore.c find: `none` if the file is missing, empty, or has a field that
-- is missing or negative.
pub read_line : Bytes → Option Fields
read_line [] = none
read_line (c ∷ line) = let f = token_fields (c ∷ line) in if all_nonneg f then some f else none

unfoldable pub read_fields : Option Bytes → Option Fields
unfolding read_line
read_fields none = none
read_fields (some file) = read_line (fgets 255 file)

unfoldable pub dstore_is_current_leader : ℤ → Option Bytes → Bool
dstore_is_current_leader self_id file = elim (read_fields file) [
  | none ↦ false
  | some f ↦ f.leader_id ==ℤ self_id
]

unfoldable pub dstore_get_current_leader : Option Bytes → ℤ
dstore_get_current_leader file = elim (read_fields file) [ none ↦ minus_one | some f ↦ f.leader_id ]

abbrev pub or_else : ℤ → ℤ → ℤ
or_else a b = if is_nonneg a then a else b

abbrev pub no_fields : Fields
no_fields = record {
  current_term = minus_one;
  voted_for = minus_one;
  leader_id = minus_one;
  last_log_index = minus_one;
  last_log_term = minus_one;
}

-- The fields that `write_rale_state_leader` reads before it writes.
pub old_line : Bytes → Fields
old_line [] = no_fields
old_line (c ∷ line) = token_fields (c ∷ line)

unfoldable pub old_fields : Option Bytes → Fields
unfolding old_line
old_fields none = no_fields
old_fields (some file) = old_line (fgets 255 file)

-- The fields that it then writes.
unfoldable pub leader_fields : ℤ → ℤ → Fields → Fields
leader_fields term leader old = record {
  current_term = or_else term (or_else old.current_term (pos 0));
  voted_for = or_else old.voted_for minus_one;
  leader_id = leader;
  last_log_index = or_else old.last_log_index (pos 0);
  last_log_term = or_else old.last_log_term (pos 0);
}

unfoldable pub write_rale_state_leader : ℤ → ℤ → Option Bytes → Bytes
write_rale_state_leader term leader file = print (leader_fields term leader (old_fields file))
