-- ===== src/Tests/Protocol.antt =====
-- Clusters of one, three and five nodes.
use rale.Base.{
  ℕ, ◌≡◌, ◌≢◌, ◌≤◌, refl, List, [], ◌∷◌, none, some, arith, ℤ, pos, minus_one, true, false,
  replicate, subst, sym, to_int, incr,
}
use rale.Text.{Bytes, codes, starts_with, strchr}
use rale.Text.Number.{atoi, scan_number, scan_signed, skip_space, to_long}
use rale.StateFile.{print}
use rale.Proto.{
  follower, candidate, leader, Peer, Config, Env, State, fields, rale_proto_init, rale_state_save,
  compute_election_deadline, get_keep_alive_timeout, rale_state_load,
}
use rale.Proto.Message.{vote_request, vote_granted, heartbeat, parse_message, parse_args}
use rale.Proto.Handle.{
  rale_handle_message, handle, handle_vote_request, grant_vote, adopt_term, begin_election,
  handle_vote_granted, rale_become_leader,
}
use rale.Proto.Tick.{
  rale_quram_process, role_duties, rale_handle_follower_duties, rale_start_election,
  rale_request_votes,
}
use rale.Proto.Run.{Event, message, tick, step, run}
use rale.Proto.Vote.{HasRoom, Keeps, step-Keeps}
use rale.Proto.Grant.{
  Granted, VotedFor, RepliesLast, Granted-VotedFor, RepliesLast, one_candidate_per_term,
}
use rale.Proto.Majority.{count_grants, leader_needs_grants}
use rale.Proto.Weakness.{Counting, Idle, ticks, one_voter_elects, alone_never_leads}

abbrev peer : ℤ → Peer
peer id = record { id = id; ip = codes "10.0.0.1"; rale_port = 7400 }

abbrev config : List Peer → Config
config ps = record {
  node_id = pos 1;
  keep_alive_timeout = 5;
  keep_alive_interval = 1;
  path_set = true;
  peers = ps;
}

abbrev three : Config
three = config (peer (pos 1) ∷ peer (pos 2) ∷ peer (pos 3) ∷ [])

abbrev five : Config
five = config (peer (pos 1) ∷ peer (pos 2) ∷ peer (pos 3) ∷ peer (pos 4) ∷ peer (pos 5) ∷ [])

abbrev single : Config
single = config (peer (pos 1) ∷ [])

abbrev at_time : ℕ → Env
at_time t = record { now = t; rand = 3; writable = true }

abbrev start : State
start = record {
  current_term = pos 1;
  voted_for = minus_one;
  leader_id = minus_one;
  role = follower;
  last_log_index = pos 0;
  last_log_term = pos 0;
  last_heartbeat = 100;
  election_deadline = 108;
  votes_received = pos 0;
  election_active = false;
  next_heartbeat_at = 101;
  next_vote_request_at = 0;
  file = none;
}

abbrev counting : State
counting = record start {
  voted_for = pos 1;
  role = candidate;
  votes_received = pos 1;
  election_active = true;
}

abbrev ip : Bytes
ip = codes "10.0.0.2"

abbrev request : Bytes
request = codes "VOTE_REQUEST 2 1"

abbrev grant : Bytes
grant = codes "VOTE_GRANTED 2 0"

abbrev grant_now : Bytes
grant_now = codes "VOTE_GRANTED 2 1"

abbrev beat : Bytes
beat = codes "HEARTBEAT 3 0"

request-parsed : parse_message request ≡ vote_request (some (pos 2, pos 1))
unfolding parse_message parse_args starts_with strchr atoi to_int to_long scan_number scan_signed
    skip_space
request-parsed = refl

grant-parsed : parse_message grant ≡ vote_granted (some (pos 2, pos 0))
unfolding parse_message parse_args starts_with strchr atoi to_int to_long scan_number scan_signed
    skip_space
grant-parsed = refl

grant_now-parsed : parse_message grant_now ≡ vote_granted (some (pos 2, pos 1))
unfolding parse_message parse_args starts_with strchr atoi to_int to_long scan_number scan_signed
    skip_space
grant_now-parsed = refl

beat-parsed : parse_message beat ≡ heartbeat (some (pos 3, pos 0))
unfolding parse_message parse_args starts_with strchr atoi to_int to_long scan_number scan_signed
    skip_space
beat-parsed = refl

step-Keeps_example : Keeps start (step three (at_time 101) (message request ip 7400) start).0
step-Keeps_example = step-Keeps three (at_time 101) (message request ip 7400) start (omega arith)

request-Granted : Granted three (at_time 101) request (pos 2) (pos 1) ip 7400 start
unfolding rale_handle_message handle handle_vote_request grant_vote adopt_term
request-Granted = record { request = request-parsed; reply = rw request-parsed refl }

Granted-VotedFor_example :
    VotedFor three
      (at_time 101)
      (pos 2)
      (rale_handle_message three (at_time 101) request ip 7400 start).0
    × RepliesLast three
        (at_time 101)
        (pos 2)
        ip
        7400
        (adopt_term three (at_time 101) (pos 1) start)
        (rale_handle_message three (at_time 101) request ip 7400 start)
Granted-VotedFor_example =
    Granted-VotedFor three (at_time 101) request (pos 2) (pos 1) ip 7400 start request-Granted

-- After the first vote and a turn of the loop.
abbrev later : State
later =
    run three ((at_time 102, tick) ∷ [])
      (rale_handle_message three (at_time 101) request ip 7400 start).0

abbrev voted : State
voted = record start {
  voted_for = pos 2;
  election_deadline = 109;
  file = some (print (fields (record start { voted_for = pos 2 })));
}

first_vote : (rale_handle_message three (at_time 101) request ip 7400 start).0 ≡ voted
unfolding rale_handle_message handle handle_vote_request grant_vote adopt_term rale_state_save
    compute_election_deadline get_keep_alive_timeout
first_vote = rw request-parsed refl

later-voted : later ≡ voted
unfolding run step rale_quram_process role_duties rale_handle_follower_duties get_keep_alive_timeout
later-voted = rw first_vote refl

again-Granted : Granted three (at_time 103) request (pos 2) (pos 1) ip 7400 voted
unfolding rale_handle_message handle handle_vote_request grant_vote adopt_term
again-Granted = record { request = request-parsed; reply = rw request-parsed refl }

same_term :
    (rale_handle_message three (at_time 103) request ip 7400 later).0.current_term
    ≡ (rale_handle_message three (at_time 101) request ip 7400 start).0.current_term
unfolding rale_handle_message handle handle_vote_request grant_vote adopt_term rale_state_save
same_term = rw (later-voted, first_vote, request-parsed) refl

later-HasRoom : HasRoom later
later-HasRoom = rw later-voted (omega arith)

first_vote-HasRoom : HasRoom (rale_handle_message three (at_time 101) request ip 7400 start).0
first_vote-HasRoom = rw first_vote (omega arith)

two-ne-none : pos 2 ≢ minus_one
two-ne-none h = cc

one_candidate_per_term_example : pos 2 ≡ pos 2
one_candidate_per_term_example =
    one_candidate_per_term three (at_time 101) (at_time 103) request request (pos 2) (pos 2) (pos 1)
      (pos 1) ip ip 7400 7400 ((at_time 102, tick) ∷ []) start request-Granted
      (subst (Granted three (at_time 103) request (pos 2) (pos 1) ip 7400) (sym later-voted)
        again-Granted)
      (first_vote-HasRoom, tt) later-HasRoom same_term two-ne-none

-- From its start to the leader: the loop turns after a silence, and one of the two others votes.
abbrev election : List (Env × Event)
election = (at_time 200, tick) ∷ (at_time 201, message grant ip 7400) ∷ []

election_won : (run three election (rale_proto_init three (at_time 100) none)).role ≡ leader
unfolding rale_proto_init run step rale_quram_process role_duties rale_handle_follower_duties
    rale_start_election rale_request_votes begin_election rale_handle_message handle
    handle_vote_granted rale_become_leader rale_state_save rale_state_load parse_message parse_args
    starts_with incr strchr atoi to_int to_long scan_number scan_signed skip_space
    get_keep_alive_timeout
election_won = refl

leader_needs_grants_example : 1 ≤ count_grants election
leader_needs_grants_example = leader_needs_grants three (at_time 100) none election election_won

counting-Counting : Counting (pos 1) 1 counting
counting-Counting = record { active = refl; current = refl; votes = refl }

one_voter_elects_example :
    (run five (replicate 2 (at_time 101, message grant_now ip 7400)) counting).role ≡ leader
one_voter_elects_example =
    one_voter_elects five (at_time 101) grant_now ip 7400 (pos 2) (pos 1) 1 counting (omega arith)
      grant_now-parsed counting-Counting refl

follower-ne-leader : follower ≢ leader
follower-ne-leader h = cc

alone_never_leads_example : Idle (
    rale_quram_process single
      (at_time 300)
      (run single (ticks (at_time 200 ∷ at_time 250 ∷ [])) start))
alone_never_leads_example =
    alone_never_leads single (at_time 200 ∷ at_time 250 ∷ []) (at_time 300) start (refl, tt)
      follower-ne-leader
