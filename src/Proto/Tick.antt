-- ===== src/Proto/Tick.antt =====
-- rale_quram_process without the polling of the socket, and rale_process_command.
use rale.Base.{◌+◌, Bool, true, false, List, [], ◌++◌, ltb, leb, if◌then◌else◌, minus_one}
use rale.Text.{Bytes, codes, starts_with}
use rale.Proto.{
  Role, follower, candidate, leader, transitioning, Config, Env, State, Output, send_all,
  format_message, get_heartbeat_interval, get_keep_alive_timeout, rale_become_follower,
}
use rale.Proto.Handle.{begin_election, request_message}

unfoldable pub rale_send_heartbeat : Config → Env → State → State × List Output
unfolding get_heartbeat_interval format_message
rale_send_heartbeat c env s = (
  record s { next_heartbeat_at = env.now + get_heartbeat_interval c },
  send_all c.node_id (format_message (codes "HEARTBEAT") c.node_id s.current_term) c.peers,
)

unfoldable pub rale_request_votes : Config → Env → State → State × List Output
unfolding format_message
rale_request_votes c env s = (
  record s { next_vote_request_at = env.now + 1 },
  send_all c.node_id (request_message c s) c.peers,
)

unfoldable pub rale_start_election : Config → Env → State → State × List Output
rale_start_election c env s = rale_request_votes c env (begin_election c env s)

unfoldable pub rale_handle_leader_duties : Config → Env → State → State × List Output
rale_handle_leader_duties c env s =
    if leb s.next_heartbeat_at env.now then rale_send_heartbeat c env s else (s, [])

unfoldable pub rale_handle_candidate_duties : Config → Env → State → State × List Output
rale_handle_candidate_duties c env s =
    let asked =
      if leb s.next_vote_request_at env.now then rale_request_votes c env s else (s, []) in
    if ltb asked.0.election_deadline env.now
    then (let begun = rale_start_election c env asked.0 in (begun.0, asked.1 ++ begun.1))
    else asked

unfoldable pub rale_handle_follower_duties : Config → Env → State → State × List Output
rale_handle_follower_duties c env s =
    if ltb (s.last_heartbeat + get_keep_alive_timeout c) env.now
    then rale_start_election c env (record s { role = candidate })
    else (s, [])

unfoldable pub role_duties : Role → Config → Env → State → State × List Output
role_duties leader c env s = rale_handle_leader_duties c env s
role_duties candidate c env s = rale_handle_candidate_duties c env s
role_duties follower c env s = rale_handle_follower_duties c env s
role_duties transitioning c env s = rale_handle_follower_duties c env s

unfoldable pub rale_quram_process : Config → Env → State → State × List Output
unfolding role_duties
rale_quram_process c env s = role_duties s.role c env s

-- The state after a command, and whether the command is known; the text of the reply is left out.
unfoldable pub rale_process_command : Config → Env → Bytes → State → State × Bool
rale_process_command c env command s =
    if starts_with (codes "STATUS") command
    then (s, true)
    else if starts_with (codes "TRIGGER_ELECTION") command
    then (record s { last_heartbeat = 0; election_deadline = env.now }, true)
    else if starts_with (codes "STEP_DOWN") command
    then (rale_become_follower c env minus_one s, true)
    else (s, false)
