-- ===== src/Tests/Files.antt =====
-- States that are written and read.
use rale.Base.{◌≡◌, refl, [], true, inl, inr, none, some, arith, pos, minus_one}
use rale.StateFile.{Fields, print, scan_fields, old_fields, read_fields, write_rale_state_leader}
use rale.StateFile.Reading.{IsFields, print_readers}
use rale.Proto.{Config, Env, fields, rale_proto_init}
use rale.Proto.Restart.{IsPersistent, restart_keeps, snapshot_resets_term}

abbrev voted : Fields
voted = record {
  current_term = pos 3;
  voted_for = pos 2;
  leader_id = minus_one;
  last_log_index = pos 7;
  last_log_term = pos 1;
}

abbrev unvoted : Fields
unvoted = record voted { voted_for = minus_one }

voted-IsFields : IsFields voted
voted-IsFields = record {
  term_int = omega arith;
  voted_int = omega arith;
  leader_int = omega arith;
  index_int = omega arith;
  log_term_int = omega arith;
}

unvoted-IsFields : IsFields unvoted
unvoted-IsFields = record {
  term_int = omega arith;
  voted_int = omega arith;
  leader_int = omega arith;
  index_int = omega arith;
  log_term_int = omega arith;
}

voted-IsPersistent : IsPersistent voted
voted-IsPersistent = record {
  ints = voted-IsFields;
  term_nonneg = refl;
  vote_none = inl refl;
  leader_none = inr refl;
  index_nonneg = refl;
  log_term_nonneg = refl;
}

print_readers_example :
    (scan_fields (print voted) ≡ some voted)
    × (old_fields (some (print voted)) ≡ voted)
    × (read_fields (some (print voted)) ≡ none)
print_readers_example = print_readers voted voted-IsFields

abbrev node : Config
node = record {
  node_id = pos 1;
  keep_alive_timeout = 5;
  keep_alive_interval = 1;
  path_set = true;
  peers = [];
}

abbrev env : Env
env = record { now = 100; rand = 3; writable = true }

restart_keeps_example : fields (rale_proto_init node env (some (print voted))) ≡ voted
restart_keeps_example = restart_keeps node env voted refl voted-IsPersistent

snapshot_resets_term_example :
    let s =
      rale_proto_init node env
        (some (write_rale_state_leader (pos 0) (pos 2) (some (print voted)))) in
    (s.current_term ≡ pos 0) × (s.voted_for ≡ pos 2)
snapshot_resets_term_example =
    snapshot_resets_term node env (pos 2) voted refl (omega arith) voted-IsPersistent
