-- ===== src/Proto/Vote.antt =====
-- The term and the vote of a node over its steps.
use rale.Base.{
  ℕ, zero, suc, ◌+◌, ◌^◌, ◌<◌, ◌≡◌, ◌⊎◌, List, [], ◌∷◌, none, some, ℤ, pos, negsuc, minus_one, ◌≤ℤ◌,
  ◌<ℤ◌, incr, pos_part, arith, ==ℤ_iff,
}
use rale.Text.{Bytes}
use rale.Proto.{
  Role, follower, candidate, leader, transitioning, Config, Env, State, rale_state_save,
  rale_note_leader, rale_become_follower,
}
use rale.Proto.Message.{
  Message, vote_request, heartbeat, vote_granted, election_timeout, unknown, parse_message,
}
use rale.Proto.Handle.{
  rale_handle_message, handle, rale_become_leader, grant_vote, adopt_term, handle_vote_request,
  follow_heartbeat, handle_vote_granted, begin_election, handle_election_timeout,
}
use rale.Proto.Tick.{
  rale_quram_process, rale_process_command, rale_send_heartbeat, rale_request_votes,
  rale_start_election, rale_handle_leader_duties, rale_handle_candidate_duties,
  rale_handle_follower_duties, role_duties,
}
use rale.Proto.Run.{Event, message, tick, command, step, run}

-- The term has room to grow.
abbrev pub HasRoom : State → Type 0
HasRoom s = suc (pos_part s.current_term) < 2 ^ 31

-- From `s` to `s'` the term does not fall, and a vote given in it stands.
pub record Keeps (s s' : State) : Type 0 where
  pub grows : s.current_term ≤ℤ s'.current_term
  pub stands :
      s'.current_term ≡ s.current_term → (s.voted_for ≡ minus_one) ⊎ (s'.voted_for ≡ s.voted_for)

-- The same term and vote.
abbrev SameVote : State → State → Type 0
SameVote s s' = (s'.current_term ≡ s.current_term) × (s'.voted_for ≡ s.voted_for)

save-SameVote : (c : Config) (env : Env) (s : State) → SameVote s (rale_state_save c env s)
unfolding rale_state_save
save-SameVote c env s = ground arith

note-SameVote :
    (c : Config) (env : Env) (id : ℤ) (s : State) → SameVote s (rale_note_leader c env id s)
unfolding rale_note_leader
note-SameVote c env id s = ground arith

become_follower-SameVote :
    (c : Config) (env : Env) (id : ℤ) (s : State) → SameVote s (rale_become_follower c env id s)
unfolding rale_become_follower
become_follower-SameVote c env id s = ground arith

become_leader-SameVote :
    (c : Config) (env : Env) (s : State) → SameVote s (rale_become_leader c env s).0
unfolding rale_become_leader
become_leader-SameVote c env s = ground arith

incr_grows : (a : ℤ) → suc (pos_part a) < 2 ^ 31 → a <ℤ incr a
unfolding incr
incr_grows (pos n) h = ground arith
incr_grows (negsuc zero) h = ground arith
incr_grows (negsuc (suc n)) h = ground arith

begin_election-Keeps :
    (c : Config) (env : Env) (s : State) → HasRoom s → Keeps s (begin_election c env s)
unfolding begin_election
begin_election-Keeps c env s h = ground (arith, incr_grows s.current_term)

grant_vote-Keeps :
    (c : Config) (env : Env) (id : ℤ) (ip : Bytes) (port : ℕ) (s : State)
    → Keeps s (grant_vote c env id ip port s).0
unfolding grant_vote
grant_vote-Keeps c env id ip port s =
    ground (arith, ==ℤ_iff s.voted_for minus_one, ==ℤ_iff s.voted_for id)

adopt_term-Keeps :
    (c : Config) (env : Env) (term : ℤ) (s : State) → Keeps s (adopt_term c env term s)
unfolding adopt_term
adopt_term-Keeps c env term s = ground (
  arith,
  become_follower-SameVote c env minus_one
      (record s { current_term = term; voted_for = minus_one }),
)

pub Keeps-trans : {s t u : State} → Keeps s t → Keeps t u → Keeps s u
Keeps-trans {s} {t} {u} a b = record {
  grows = omega arith;
  stands =
      λ e. ground (arith, squeeze s.current_term t.current_term u.current_term, a.stands, b.stands);
}
  where
    squeeze : (x y z : ℤ) → x ≤ℤ y → y ≤ℤ z → z ≡ x → (y ≡ x) × (z ≡ y)
    squeeze x y z h k e = ground arith

handle_vote_request-Keeps :
    (c : Config) (env : Env) (id term : ℤ) (ip : Bytes) (port : ℕ) (s : State)
    → Keeps s (handle_vote_request c env id term ip port s).0
unfolding handle_vote_request
handle_vote_request-Keeps c env id term ip port s =
    let adopted = adopt_term c env term s in
    let both =
      Keeps-trans (adopt_term-Keeps c env term s) (grant_vote-Keeps c env id ip port adopted) in
    ground arith

follow_heartbeat-Keeps :
    (c : Config) (env : Env) (id term : ℤ) (s : State) → Keeps s (follow_heartbeat c env id term s)
unfolding follow_heartbeat
follow_heartbeat-Keeps c env id term s = ground (
  arith,
  become_follower-SameVote c env id (record s { current_term = term; voted_for = minus_one }),
  become_follower-SameVote c env id s,
)

handle_vote_granted-Keeps :
    (c : Config) (env : Env) (term : ℤ) (s : State) → Keeps s (handle_vote_granted c env term s).0
unfolding handle_vote_granted
handle_vote_granted-Keeps c env term s =
    ground
      (arith, become_leader-SameVote c env (record s { votes_received = incr s.votes_received }))

handle_election_timeout-Keeps :
    (c : Config) (env : Env) (s : State) → HasRoom s → Keeps s (handle_election_timeout c env s).0
unfolding handle_election_timeout
handle_election_timeout-Keeps c env s h = ground (arith, begin_election-Keeps c env s h)

handle-Keeps :
    (c : Config) (env : Env) (m : Message) (ip : Bytes) (port : ℕ) (s : State)
    → HasRoom s
    → Keeps s (handle c env m ip port s).0
unfolding handle
handle-Keeps c env (vote_request none) ip port s h =
    handle_vote_request-Keeps c env (pos 0) minus_one ip port s
handle-Keeps c env (vote_request (some (id, term))) ip port s h =
    handle_vote_request-Keeps c env id term ip port s
handle-Keeps c env (heartbeat none) ip port s h = ground arith
handle-Keeps c env (heartbeat (some (id, term))) ip port s h =
    ground (arith, follow_heartbeat-Keeps c env id term (record s { last_heartbeat = env.now }))
handle-Keeps c env (vote_granted none) ip port s h = handle_vote_granted-Keeps c env minus_one s
handle-Keeps c env (vote_granted (some (id, term))) ip port s h =
    handle_vote_granted-Keeps c env term s
handle-Keeps c env election_timeout ip port s h = handle_election_timeout-Keeps c env s h
handle-Keeps c env unknown ip port s h = ground arith

start_election-Keeps :
    (c : Config) (env : Env) (s : State) → HasRoom s → Keeps s (rale_start_election c env s).0
unfolding rale_start_election rale_request_votes
start_election-Keeps c env s h = ground (arith, begin_election-Keeps c env s h)

leader_duties-Keeps :
    (c : Config) (env : Env) (s : State) → Keeps s (rale_handle_leader_duties c env s).0
unfolding rale_handle_leader_duties rale_send_heartbeat
leader_duties-Keeps c env s = ground arith

follower_duties-Keeps :
    (c : Config) (env : Env) (s : State)
    → HasRoom s
    → Keeps s (rale_handle_follower_duties c env s).0
unfolding rale_handle_follower_duties
follower_duties-Keeps c env s h =
    ground (arith, start_election-Keeps c env (record s { role = candidate }))

candidate_duties-Keeps :
    (c : Config) (env : Env) (s : State)
    → HasRoom s
    → Keeps s (rale_handle_candidate_duties c env s).0
unfolding rale_handle_candidate_duties rale_request_votes
candidate_duties-Keeps c env s h = ground (
  arith,
  start_election-Keeps c env s h,
  start_election-Keeps c env (record s { next_vote_request_at = env.now + 1 }),
)

role_duties-Keeps :
    (r : Role) (c : Config) (env : Env) (s : State) → HasRoom s → Keeps s (role_duties r c env s).0
unfolding role_duties
role_duties-Keeps leader c env s h = leader_duties-Keeps c env s
role_duties-Keeps candidate c env s h = candidate_duties-Keeps c env s h
role_duties-Keeps follower c env s h = follower_duties-Keeps c env s h
role_duties-Keeps transitioning c env s h = follower_duties-Keeps c env s h

command-Keeps :
    (c : Config) (env : Env) (text : Bytes) (s : State)
    → Keeps s (rale_process_command c env text s).0
unfolding rale_process_command
command-Keeps c env text s = ground (arith, become_follower-SameVote c env minus_one s)

-- Whatever a node receives, and whenever its loop turns, its term does not fall, and a vote that it
-- has given in a term is still its vote as long as the term is the same. (The term has to be below
-- the largest `int`.)
pub step-Keeps :
    (c : Config) (env : Env) (e : Event) (s : State) → HasRoom s → Keeps s (step c env e s).0
unfolding step
step-Keeps c env (message msg ip port) s h =
    unfold rale_handle_message in handle-Keeps c env (parse_message msg) ip port s h
step-Keeps c env tick s h = unfold rale_quram_process in role_duties-Keeps s.role c env s h
step-Keeps c env (command text) s h = command-Keeps c env text s

-- Every state before an event of the run has room.
abbrev pub RunHasRoom : Config → List (Env × Event) → State → Type 0
RunHasRoom c [] s = Unit
RunHasRoom c ((env, e) ∷ es) s = HasRoom s × RunHasRoom c es (step c env e s).0

pub run-Keeps :
    (c : Config) (es : List (Env × Event)) (s : State) → RunHasRoom c es s → Keeps s (run c es s)
unfolding run
run-Keeps c [] s h = ground arith
run-Keeps c ((env, e) ∷ es) s h =
    Keeps-trans (step-Keeps c env e s h.0) (run-Keeps c es (step c env e s).0 h.1)
