-- ===== src/Proto/Handle.antt =====
-- rale_handle_message, one function for each kind of message.
use rale.Base.{
  ℕ, ◌-◌, ◌/◌, Bool, true, false, ◌&&◌, ◌||◌, List, [], ◌∷◌, Option, none, some, ltb, if◌then◌else◌,
  length, ℤ, pos, minus_one, is_nonneg, ◌==ℤ◌, ltb_ℤ, incr, not, ◌==◌, drop,
}
use rale.Text.{Bytes, codes, strchr}
use rale.Text.Number.{atoi}
use rale.StateFile.{write_rale_state_leader}
use rale.Proto.Message.{
  Message, vote_request, heartbeat, vote_granted, election_timeout, unknown, parse_message,
}
use rale.Proto.{
  Role, candidate, leader, Config, Env, State, Output, send, notify, compute_election_deadline,
  rale_state_save, rale_become_follower, send_all, format_message,
}

abbrev pub is_leader : Role → Bool
is_leader leader = true
is_leader _ = false

-- The term and the leader of "LEADER_ELECTED <term> <leader>", as dstore_put_from_command reads them.
abbrev pub elected_args : Option (Bytes × Bytes) → Bytes → ℤ × ℤ
elected_args none params = (minus_one, minus_one)
elected_args (some (a, b)) params = (atoi params, atoi b)

-- What `dstore_put_from_command` does to the file rale.state on that command.
unfoldable pub dstore_leader_elected : Config → Env → Bytes → Option Bytes → Option Bytes
dstore_leader_elected c env command file =
    let params = drop 15 command in
    let args = elected_args (strchr 32 params) params in
    if length c.peers == 0
    then file
    else if is_nonneg args.0 && (is_nonneg args.1 && env.writable)
    then some (write_rale_state_leader args.0 args.1 file)
    else file

abbrev pub leader_command : Config → State → Bytes
leader_command c s = format_message (codes "LEADER_ELECTED") s.current_term c.node_id

unfoldable pub rale_become_leader : Config → Env → State → State × List Output
unfolding rale_state_save dstore_leader_elected format_message
rale_become_leader c env s =
    let saved = rale_state_save c env (record s {
      role = leader;
      leader_id = c.node_id;
      election_active = false;
      votes_received = pos 0;
    }) in
    (
      record saved {
        file = dstore_leader_elected c env (leader_command c s) saved.file;
        next_heartbeat_at = 0;
      },
      notify (leader_command c s) ∷ [],
    )

-- A step within a call: the state is written to the file and is then `t`, or something is sent.
pub data Effect : Type 0 where
  saves : State → Effect
  sends : Output → Effect

-- The steps in their order.
abbrev pub perform_effects : List Effect → State → State × List Output
perform_effects [] s = (s, [])
perform_effects (saves t ∷ es) s = perform_effects es t
perform_effects (sends o ∷ es) s = let rest = perform_effects es s in (rest.0, o ∷ rest.1)

-- `rale_state_save`, and then `rale_send_message`.
abbrev pub grant_effects : Config → Env → ℤ → Bytes → ℕ → State → List Effect
grant_effects c env id ip port s =
    saves (
      rale_state_save c env
        (record s { voted_for = id; election_deadline = compute_election_deadline c env }))
    ∷ sends (send (format_message (codes "VOTE_GRANTED") c.node_id s.current_term) ip port)
    ∷ []

-- The second half of the VOTE_REQUEST branch: the vote is given unless it is given already.
unfoldable pub grant_vote : Config → Env → ℤ → Bytes → ℕ → State → State × List Output
unfolding rale_state_save compute_election_deadline
grant_vote c env id ip port s =
    if not (is_leader s.role) && (s.voted_for ==ℤ minus_one || s.voted_for ==ℤ id)
    then perform_effects (grant_effects c env id ip port s) s
    else (s, [])

-- A higher term of a request is taken over, and the vote is free again.
unfoldable pub adopt_term : Config → Env → ℤ → State → State
unfolding rale_become_follower
adopt_term c env term s =
    if ltb_ℤ s.current_term term
    then rale_become_follower c env minus_one
        (record s { current_term = term; voted_for = minus_one })
    else s

unfoldable pub handle_vote_request : Config → Env → ℤ → ℤ → Bytes → ℕ → State → State × List Output
handle_vote_request c env id term ip port s =
    if not (term ==ℤ minus_one) && ltb_ℤ term s.current_term
    then (s, send (format_message (codes "VOTE_DENIED") c.node_id s.current_term) ip port ∷ [])
    else grant_vote c env id ip port (adopt_term c env term s)

-- A heartbeat with arguments: a higher term is taken over, and a known leader followed.
unfoldable pub follow_heartbeat : Config → Env → ℤ → ℤ → State → State
unfolding rale_become_follower
follow_heartbeat c env id term s =
    let newer =
      if ltb_ℤ s.current_term term
      then record s { current_term = term; voted_for = minus_one }
      else s in
    if is_nonneg id then rale_become_follower c env id newer else newer

unfoldable pub handle_vote_granted : Config → Env → ℤ → State → State × List Output
handle_vote_granted c env term s =
    if not s.election_active || ltb_ℤ s.current_term term
    then (s, [])
    else let counted = record s { votes_received = incr s.votes_received } in
      if ltb_ℤ (pos (length c.peers / 2)) counted.votes_received
      then rale_become_leader c env counted
      else (counted, [])

-- What a new election changes, before the requests for votes.
unfoldable pub begin_election : Config → Env → State → State
unfolding rale_state_save compute_election_deadline
begin_election c env s = rale_state_save c env (record s {
  current_term = incr s.current_term;
  voted_for = c.node_id;
  role = candidate;
  election_active = true;
  votes_received = pos 1;
  election_deadline = compute_election_deadline c env;
})

abbrev pub request_message : Config → State → Bytes
request_message c s = format_message (codes "VOTE_REQUEST") c.node_id s.current_term

unfoldable pub handle_election_timeout : Config → Env → State → State × List Output
handle_election_timeout c env s =
    if ltb c.keep_alive_timeout (env.now - s.last_heartbeat)
    then (let begun = begin_election c env s in
        (
          record begun { next_vote_request_at = 0 },
          send_all c.node_id (request_message c begun) c.peers,
        ))
    else (s, [])

abbrev pub ack : Bytes → ℕ → List Output
ack ip port = send (codes "HEARTBEAT_ACK") ip port ∷ []

unfoldable pub handle : Config → Env → Message → Bytes → ℕ → State → State × List Output
handle c env (vote_request none) ip port s = handle_vote_request c env (pos 0) minus_one ip port s
handle c env (vote_request (some (id, term))) ip port s =
    handle_vote_request c env id term ip port s
handle c env (heartbeat none) ip port s = (record s { last_heartbeat = env.now }, ack ip port)
handle c env (heartbeat (some (id, term))) ip port s =
    (follow_heartbeat c env id term (record s { last_heartbeat = env.now }), ack ip port)
handle c env (vote_granted none) ip port s = handle_vote_granted c env minus_one s
handle c env (vote_granted (some (id, term))) ip port s = handle_vote_granted c env term s
handle c env election_timeout ip port s = handle_election_timeout c env s
handle c env unknown ip port s = (s, [])

unfoldable pub rale_handle_message : Config → Env → Bytes → Bytes → ℕ → State → State × List Output
rale_handle_message c env msg ip port s = handle c env (parse_message msg) ip port s
