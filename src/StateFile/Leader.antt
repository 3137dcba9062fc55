-- ===== src/StateFile/Leader.antt =====
-- What a node that has been told of a leader (write_rale_state_leader of dstore.c) reads back.
use rale.Base.{
  ◌≡◌, refl, true, ◌&&◌, arith, if◌then◌else◌, ◌==ℤ◌, ℤ, pos, negsuc, minus_one, is_nonneg, IsInt,
  Option, none, some,
}
use rale.Text.{Bytes}
use rale.StateFile.{
  Fields, print, scan_fields, read_fields, old_fields, leader_fields, write_rale_state_leader,
  dstore_get_current_leader, dstore_is_current_leader, or_else, no_fields, all_nonneg,
}
use rale.StateFile.Reading.{IsFields, print_readers}

or_else-IsInt : (a b : ℤ) → IsInt a → IsInt b → IsInt (or_else a b)
or_else-IsInt (pos n) b ha hb = ha
or_else-IsInt (negsuc n) b ha hb = hb

leader_fields-IsFields :
    (term leader : ℤ) (f : Fields)
    → IsInt term
    → IsInt leader
    → IsFields f
    → IsFields (leader_fields term leader f)
unfolding leader_fields
leader_fields-IsFields term leader f ht hl h = record {
  term_int =
      or_else-IsInt term _ ht (or_else-IsInt f.current_term (pos 0) h.term_int (omega arith));
  voted_int = or_else-IsInt f.voted_for minus_one h.voted_int (omega arith);
  leader_int = hl;
  index_int = or_else-IsInt f.last_log_index (pos 0) h.index_int (omega arith);
  log_term_int = or_else-IsInt f.last_log_term (pos 0) h.log_term_int (omega arith);
}

or_else_nonneg : (a b : ℤ) → is_nonneg b ≡ true → is_nonneg (or_else a b) ≡ true
or_else_nonneg (pos n) b h = refl
or_else_nonneg (negsuc n) b h = h

or_else-minus_one : (a : ℤ) → is_nonneg (or_else a minus_one) ≡ is_nonneg a
or_else-minus_one (pos n) = refl
or_else-minus_one (negsuc n) = refl

all_nonneg-leader_fields :
    (term leader : ℤ) (f : Fields)
    → all_nonneg (leader_fields term leader f) ≡ is_nonneg f.voted_for && is_nonneg leader
unfolding leader_fields
all_nonneg-leader_fields term leader f =
    rw
      (
        or_else_nonneg term (or_else f.current_term (pos 0))
            (or_else_nonneg f.current_term (pos 0) refl),
        or_else-minus_one f.voted_for,
        or_else_nonneg f.last_log_index (pos 0) refl,
        or_else_nonneg f.last_log_term (pos 0) refl,
      )
      (ground arith)

-- A file that the code has written, or none.
abbrev pub file_of : Option Fields → Option Bytes
file_of none = none
file_of (some f) = some (print f)

abbrev pub fields_of : Option Fields → Fields
fields_of none = no_fields
fields_of (some f) = f

abbrev pub IsFile : Option Fields → Type 0
IsFile none = Unit
IsFile (some f) = IsFields f

old_fields-file_of : (o : Option Fields) → IsFile o → old_fields (file_of o) ≡ fields_of o
old_fields-file_of none h = unfold old_fields in refl
old_fields-file_of (some f) h = (print_readers f h).1

fields_of-IsFields : (o : Option Fields) → IsFile o → IsFields (fields_of o)
fields_of-IsFields none h = record {
  term_int = omega arith;
  voted_int = omega arith;
  leader_int = omega arith;
  index_int = omega arith;
  log_term_int = omega arith;
}
fields_of-IsFields (some f) h = h

module _ (term leader : ℤ) (o : Option Fields) (ht : IsInt term) (hl : IsInt leader)
    (h : IsFile o) where
  written : Fields
  written = leader_fields term leader (fields_of o)

  written-IsFields : IsFields written
  unfolding written
  written-IsFields = leader_fields-IsFields term leader (fields_of o) ht hl (fields_of-IsFields o h)

  write-print : write_rale_state_leader term leader (file_of o) ≡ print written
  unfolding write_rale_state_leader written
  write-print = rw (old_fields-file_of o h)

  read_written :
      read_fields (some (write_rale_state_leader term leader (file_of o)))
      ≡ (if is_nonneg (fields_of o).voted_for && is_nonneg leader then some written else none)
  unfolding written
  read_written = rw write-print (
      rw (← all_nonneg-leader_fields term leader (fields_of o))
        (print_readers written written-IsFields).2)

  -- After `write_rale_state_leader`, on the file of any earlier state of `int`s or on none, the node knows the
  -- leader, by the two functions of dstore.c, exactly if it has voted for someone before: with no
  -- vote on record the line is refused, and the node knows no leader at all.
  leader_known :
      (self_id : ℤ)
      → let file = some (write_rale_state_leader term leader (file_of o)) in
        let known = is_nonneg (fields_of o).voted_for && is_nonneg leader in
        (dstore_get_current_leader file ≡ (if known then leader else minus_one))
        × (dstore_is_current_leader self_id file ≡ (known && leader ==ℤ self_id))
  unfolding dstore_get_current_leader dstore_is_current_leader
  leader_known self_id = (
    rw (read_written, dstore_get_current_leader) (unfold written leader_fields in ground arith),
    rw (read_written, dstore_is_current_leader) (unfold written leader_fields in ground arith),
  )

  -- What fscanf finds after `write_rale_state_leader`, on the file of any earlier state of `int`s or on
  -- none: the leader that was written, the vote and the log position that were there, or the defaults,
  -- and the term that was written, or the one that was there if that is negative.
  pub scan_fields-write :
      scan_fields (write_rale_state_leader term leader (file_of o))
      ≡ some (record {
        current_term = or_else term (or_else (fields_of o).current_term (pos 0));
        voted_for = or_else (fields_of o).voted_for minus_one;
        leader_id = leader;
        last_log_index = or_else (fields_of o).last_log_index (pos 0);
        last_log_term = or_else (fields_of o).last_log_term (pos 0);
      })
  unfolding leader_fields written
  scan_fields-write = rw write-print (print_readers written written-IsFields).0
