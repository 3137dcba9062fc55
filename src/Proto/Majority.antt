-- ===== src/Proto/Majority.antt =====
-- How a node becomes the leader, and the count of VOTE_GRANTED messages in a run.
use rale.Base.{
  ℕ, zero, suc, ◌+◌, ◌/◌, ◌≤◌, ◌≡◌, List, [], ◌∷◌, Option, none, some, ℤ, pos, negsuc, minus_one,
  arith, length, pos_part, incr,
}
use native.Mathlib.Nat.{zero-add}
use rale.Text.{Bytes}
use rale.Proto.{
  Role, follower, candidate, leader, transitioning, Config, Env, State, rale_state_save,
  rale_become_follower, rale_proto_init,
}
use rale.Proto.Message.{
  Message, vote_request, heartbeat, vote_granted, election_timeout, unknown, parse_message,
}
use rale.Proto.Handle.{
  rale_handle_message, handle, rale_become_leader, grant_vote, adopt_term, handle_vote_request,
  follow_heartbeat, handle_vote_granted, begin_election, handle_election_timeout,
}
use rale.Proto.Tick.{
  rale_quram_process, rale_process_command, rale_send_heartbeat, rale_request_votes,
  rale_start_election, rale_handle_leader_duties, rale_handle_candidate_duties,
  rale_handle_follower_duties, role_duties,
}
use rale.Proto.Run.{Event, message, tick, command, step, run}

abbrev pub grants_of : Message → ℕ
grants_of (vote_granted args) = 1
grants_of _ = 0

-- 1 for a VOTE_GRANTED message, 0 for all else that can happen.
abbrev pub grants : Event → ℕ
grants (message msg ip port) = grants_of (parse_message msg)
grants _ = 0

abbrev pub count_grants : List (Env × Event) → ℕ
count_grants [] = 0
count_grants ((env, e) ∷ es) = grants e + count_grants es

-- With `k` grants so far: the votes are at most these and the node's own, and a leader has got half
-- of the cluster.
pub record Counted (c : Config) (k : ℕ) (s : State) : Type 0 where
  pub votes : pos_part s.votes_received ≤ 1 + k
  pub elected : s.role ≡ leader → length c.peers / 2 ≤ k

incr-le : (a : ℤ) → pos_part (incr a) ≤ pos_part a + 1
unfolding incr
incr-le (pos n) = ground arith
incr-le (negsuc zero) = omega arith
incr-le (negsuc (suc n)) = omega arith

module _ (c : Config) (env : Env) (k : ℕ) (s : State) (h : Counted c k s) where
  begin_election-Counted : Counted c k (begin_election c env s)
  unfolding begin_election rale_state_save
  begin_election-Counted = ground arith

  become_follower-Counted : (id : ℤ) → Counted c k (rale_become_follower c env id s)
  unfolding rale_become_follower
  become_follower-Counted id = ground arith

  grant_vote-Counted :
      (id : ℤ) (ip : Bytes) (port : ℕ) → Counted c k (grant_vote c env id ip port s).0
  unfolding grant_vote
  grant_vote-Counted id ip port = ground arith

  handle_vote_granted-Counted : (term : ℤ) → Counted c (1 + k) (handle_vote_granted c env term s).0
  unfolding handle_vote_granted rale_become_leader rale_state_save
  handle_vote_granted-Counted term = ground (arith, incr-le s.votes_received)

  adopt_term-Counted : (term : ℤ) → Counted c k (adopt_term c env term s)
  unfolding adopt_term rale_become_follower
  adopt_term-Counted term = ground arith

  follow_heartbeat-Counted : (id term : ℤ) → Counted c k (follow_heartbeat c env id term s)
  unfolding follow_heartbeat rale_become_follower
  follow_heartbeat-Counted id term = ground arith

  handle_election_timeout-Counted : Counted c k (handle_election_timeout c env s).0
  unfolding handle_election_timeout
  handle_election_timeout-Counted = ground (arith, begin_election-Counted)

handle_vote_request-Counted :
    (c : Config) (env : Env) (k : ℕ) (id term : ℤ) (ip : Bytes) (port : ℕ) (s : State)
    → Counted c k s
    → Counted c k (handle_vote_request c env id term ip port s).0
unfolding handle_vote_request
handle_vote_request-Counted c env k id term ip port s h =
    let adopted = adopt_term-Counted c env k s h term in
    let voted = grant_vote-Counted c env k (adopt_term c env term s) adopted id ip port in
    ground arith

handle-Counted :
    (c : Config) (env : Env) (k : ℕ) (m : Message) (ip : Bytes) (port : ℕ) (s : State)
    → Counted c k s
    → Counted c (grants_of m + k) (handle c env m ip port s).0
unfolding handle
handle-Counted c env k (vote_request none) ip port s h =
    rw zero-add (handle_vote_request-Counted c env k (pos 0) minus_one ip port s h)
handle-Counted c env k (vote_request (some (id, term))) ip port s h =
    rw zero-add (handle_vote_request-Counted c env k id term ip port s h)
handle-Counted c env k (heartbeat none) ip port s h = ground arith
handle-Counted c env k (heartbeat (some (id, term))) ip port s h = rw zero-add (
    follow_heartbeat-Counted c env k (record s { last_heartbeat = env.now })
      (record { votes = h.votes; elected = h.elected }) id term)
handle-Counted c env k (vote_granted none) ip port s h =
    handle_vote_granted-Counted c env k s h minus_one
handle-Counted c env k (vote_granted (some (id, term))) ip port s h =
    handle_vote_granted-Counted c env k s h term
handle-Counted c env k election_timeout ip port s h =
    rw zero-add (handle_election_timeout-Counted c env k s h)
handle-Counted c env k unknown ip port s h = rw zero-add h

module _ (c : Config) (env : Env) (k : ℕ) (s : State) (h : Counted c k s) where
  start_election-Counted : Counted c k (rale_start_election c env s).0
  unfolding rale_start_election rale_request_votes
  start_election-Counted = ground (arith, begin_election-Counted c env k s h)

  leader_duties-Counted : Counted c k (rale_handle_leader_duties c env s).0
  unfolding rale_handle_leader_duties rale_send_heartbeat
  leader_duties-Counted = ground arith

follower_duties-Counted :
    (c : Config) (env : Env) (k : ℕ) (s : State)
    → Counted c k s
    → Counted c k (rale_handle_follower_duties c env s).0
unfolding rale_handle_follower_duties
follower_duties-Counted c env k s h =
    let started =
      start_election-Counted c env k (record s { role = candidate })
        (record { votes = h.votes; elected = λ e. cc }) in
    ground arith

candidate_duties-Counted :
    (c : Config) (env : Env) (k : ℕ) (s : State)
    → Counted c k s
    → Counted c k (rale_handle_candidate_duties c env s).0
unfolding rale_handle_candidate_duties rale_request_votes
candidate_duties-Counted c env k s h =
    let now = start_election-Counted c env k s h in
    let later =
      start_election-Counted c env k (record s { next_vote_request_at = env.now + 1 })
        (record { votes = h.votes; elected = h.elected }) in
    ground arith

role_duties-Counted :
    (r : Role) (c : Config) (env : Env) (k : ℕ) (s : State)
    → Counted c k s
    → Counted c k (role_duties r c env s).0
unfolding role_duties
role_duties-Counted leader c env k s h = leader_duties-Counted c env k s h
role_duties-Counted candidate c env k s h = candidate_duties-Counted c env k s h
role_duties-Counted follower c env k s h = follower_duties-Counted c env k s h
role_duties-Counted transitioning c env k s h = follower_duties-Counted c env k s h

command-Counted :
    (c : Config) (env : Env) (k : ℕ) (text : Bytes) (s : State)
    → Counted c k s
    → Counted c k (rale_process_command c env text s).0
unfolding rale_process_command
command-Counted c env k text s h = ground (arith, become_follower-Counted c env k s h minus_one)

step-Counted :
    (c : Config) (env : Env) (k : ℕ) (e : Event) (s : State)
    → Counted c k s
    → Counted c (grants e + k) (step c env e s).0
unfolding step
step-Counted c env k (message msg ip port) s h =
    unfold rale_handle_message in handle-Counted c env k (parse_message msg) ip port s h
step-Counted c env k tick s h =
    unfold rale_quram_process in rw zero-add (role_duties-Counted s.role c env k s h)
step-Counted c env k (command text) s h = rw zero-add (command-Counted c env k text s h)

run-Counted :
    (c : Config) (es : List (Env × Event)) (k : ℕ) (s : State)
    → Counted c k s
    → Counted c (count_grants es + k) (run c es s)
unfolding run
run-Counted c [] k s h = rw zero-add h
run-Counted c ((env, e) ∷ es) k s h =
    let rest = run-Counted c es (grants e + k) (step c env e s).0 (step-Counted c env k e s h) in
    let regroup : count_grants es + (grants e + k) ≡ grants e + count_grants es + k = omega arith in
    rw regroup at rest

init-Counted :
    (c : Config) (env : Env) (file : Option Bytes) → Counted c 0 (rale_proto_init c env file)
unfolding rale_proto_init
init-Counted c env file = ground arith

-- From its start on, whatever a node receives, it is the leader only if at least half of the cluster's
-- size, rounded down, in VOTE_GRANTED messages has come.
pub leader_needs_grants :
    (c : Config) (env : Env) (file : Option Bytes) (es : List (Env × Event))
    → (run c es (rale_proto_init c env file)).role ≡ leader
    → length c.peers / 2 ≤ count_grants es
leader_needs_grants c env file es e =
    let counted = run-Counted c es 0 (rale_proto_init c env file) (init-Counted c env file) in
    omega (arith, counted.elected e)
