-- ===== src/Proto/Restart.antt =====
-- A node that starts again on the file that it wrote before.
use rale.Base.{
  ◌≡◌, refl, ◌∙◌, ◌⊎◌, true, Option, none, some, Option-cases, inl, inr, ℤ, pos, minus_one, arith,
  is_nonneg, IsInt, ap,
}
use rale.Text.{Bytes}
use rale.StateFile.{Fields, print, scan_fields, write_rale_state_leader, or_else}
use rale.StateFile.Reading.{IsFields, print_readers}
use rale.StateFile.Leader.{scan_fields-write}
use rale.Proto.{
  Config, Env, follower, fields, loaded, load_fields, load_file, rale_state_load, rale_proto_init,
}

-- What the start makes of the fields that it reads: a negative vote or leader means none.
abbrev pub restarted : Fields → Fields
restarted f = record {
  current_term = loaded f.current_term (pos 0);
  voted_for = loaded f.voted_for minus_one;
  leader_id = loaded f.leader_id minus_one;
  last_log_index = loaded f.last_log_index (pos 0);
  last_log_term = loaded f.last_log_term (pos 0);
}

start_on :
    (c : Config) (env : Env) (text : Bytes) (f : Fields)
    → c.path_set ≡ true
    → scan_fields text ≡ some f
    → fields (rale_proto_init c env (some text)) ≡ restarted f
unfolding rale_proto_init rale_state_load load_file load_fields
start_on c env text f path read = rw (path, read, load_fields)

-- A term, a vote or none, a leader or none, and a log position.
pub record IsPersistent (f : Fields) : Type 0 where
  pub ints : IsFields f
  pub term_nonneg : is_nonneg f.current_term ≡ true
  pub vote_none : (is_nonneg f.voted_for ≡ true) ⊎ (f.voted_for ≡ minus_one)
  pub leader_none : (is_nonneg f.leader_id ≡ true) ⊎ (f.leader_id ≡ minus_one)
  pub index_nonneg : is_nonneg f.last_log_index ≡ true
  pub log_term_nonneg : is_nonneg f.last_log_term ≡ true

loaded_or_none : (a : ℤ) → (is_nonneg a ≡ true) ⊎ (a ≡ minus_one) → loaded a minus_one ≡ a
loaded_or_none a h = ground arith

loaded-or_else :
    (a : ℤ) → (is_nonneg a ≡ true) ⊎ (a ≡ minus_one) → loaded (or_else a minus_one) minus_one ≡ a
loaded-or_else a h = ground arith

loaded_nonneg : (a : ℤ) → is_nonneg a ≡ true → loaded a (pos 0) ≡ a
loaded_nonneg a h = rw h

-- A node with a database path that starts on a file that it has saved has the term, the vote, the
-- leader and the log position that it had, if these are `int`s, the vote and the leader being -1 or,
-- as the others, not negative.
pub restart_keeps :
    (c : Config) (env : Env) (f : Fields)
    → c.path_set ≡ true
    → IsPersistent f
    → fields (rale_proto_init c env (some (print f))) ≡ f
restart_keeps c env f path h =
    start_on c env (print f) f path (print_readers f h.ints).0
    ∙ rw
        (
          loaded_nonneg f.current_term h.term_nonneg,
          loaded_or_none f.voted_for h.vote_none,
          loaded_or_none f.leader_id h.leader_none,
          loaded_nonneg f.last_log_index h.index_nonneg,
          loaded_nonneg f.last_log_term h.log_term_nonneg,
        )
        refl

-- A node with a database path that starts on such a file, over which `write_rale_state_leader` has
-- written a leader with term 0, is in term 0, whatever its term was, and has the vote that it had.
pub snapshot_resets_term :
    (c : Config) (env : Env) (leader_id : ℤ) (f : Fields)
    → c.path_set ≡ true
    → IsInt leader_id
    → IsPersistent f
    → let s =
        rale_proto_init c env (some (write_rale_state_leader (pos 0) leader_id (some (print f)))) in
      (s.current_term ≡ pos 0) × (s.voted_for ≡ f.voted_for)
snapshot_resets_term c env leader_id f path hl h =
    let started =
      start_on c env (write_rale_state_leader (pos 0) leader_id (some (print f))) _ path
        (scan_fields-write (pos 0) leader_id (some f) (omega arith) hl h.ints) in
    (
      ap (λ (g : Fields). g.current_term) started,
      ap (λ (g : Fields). g.voted_for) started ∙ loaded-or_else f.voted_for h.vote_none,
    )

-- A node starts as a follower, on any file, and leaves it as it is.
pub rale_proto_init-follower :
    (c : Config) (env : Env) (file : Option Bytes)
    → ((rale_proto_init c env file).role ≡ follower) × ((rale_proto_init c env file).file ≡ file)
unfolding rale_proto_init rale_state_load load_file load_fields
rale_proto_init-follower c env none = ground arith
rale_proto_init-follower c env (some text) = elim (Option-cases (scan_fields text)) [
  | inl e ↦ rw e (ground arith)
  | inr (f, e) ↦ rw e (ground arith)
]
