-- ===== src/Proto.antt =====
-- librale/src/rale_proto.c: leader election. The static variables and `current_rale_state` are one
-- record; the calls of `time`, `rand` and `fopen` are answered by `Env`, one answer for a handler;
-- what a handler sends is a list of outputs in order.
pub mod Message
pub mod Handle
pub mod Tick
pub mod Run
pub mod Vote
pub mod Grant
pub mod Majority
pub mod Weakness
pub mod Restart
use rale.Base.{
  ℕ, zero, suc, ◌+◌, ◌%◌, Bool, true, false, ◌&&◌, List, [], ◌∷◌, ◌++◌, Option, none, some, ltb,
  if◌then◌else◌, length, ℤ, pos, negsuc, minus_one, is_nonneg, ◌==ℤ◌, not,
}
use rale.Text.{Bytes, codes}
use rale.Text.Number.{format_int}
use rale.StateFile.{Fields, print, scan_fields}

pub data Role : Type 0 where
  follower candidate leader transitioning : Role

-- What the protocol reads of a member of the cluster.
pub record Peer : Type 0 where
  pub id : ℤ
  pub ip : Bytes
  pub rale_port : ℕ

-- `rale_config` and the cluster. `path_set` says that a database path is configured, and the two
-- times, in seconds, are below 2 ^ 31. `peers` are the first `node_count` nodes, this one included.
pub record Config : Type 0 where
  pub node_id : ℤ
  pub keep_alive_timeout : ℕ
  pub keep_alive_interval : ℕ
  pub path_set : Bool
  pub peers : List Peer

pub record Env : Type 0 where
  pub now : ℕ
  pub rand : ℕ
  pub writable : Bool

-- `rale_state_t`, the transient variables, and the contents of the file rale.state.
pub record State : Type 0 where
  pub current_term : ℤ
  pub voted_for : ℤ
  pub leader_id : ℤ
  pub role : Role
  pub last_log_index : ℤ
  pub last_log_term : ℤ
  pub last_heartbeat : ℕ
  pub election_deadline : ℕ
  pub votes_received : ℤ
  pub election_active : Bool
  pub next_heartbeat_at : ℕ
  pub next_vote_request_at : ℕ
  pub file : Option Bytes

-- A datagram to an address and port, or a call of `dstore_put_from_command`.
pub data Output : Type 0 where
  send : Bytes → Bytes → ℕ → Output
  notify : Bytes → Output

unfoldable pub get_keep_alive_timeout : Config → ℕ
get_keep_alive_timeout c = if ltb 0 c.keep_alive_timeout then c.keep_alive_timeout else 5

unfoldable pub get_heartbeat_interval : Config → ℕ
get_heartbeat_interval c = if ltb 0 c.keep_alive_interval then c.keep_alive_interval else 1

unfoldable pub compute_election_deadline : Config → Env → ℕ
unfolding get_keep_alive_timeout
compute_election_deadline c env =
    let base = get_keep_alive_timeout c in env.now + (base + env.rand % base)

-- The fields that are written to the file.
abbrev pub fields : State → Fields
fields s = record {
  current_term = s.current_term;
  voted_for = s.voted_for;
  leader_id = s.leader_id;
  last_log_index = s.last_log_index;
  last_log_term = s.last_log_term;
}

unfoldable pub rale_state_save : Config → Env → State → State
rale_state_save c env s =
    if c.path_set && env.writable then record s { file = some (print (fields s)) } else s

abbrev pub loaded : ℤ → ℤ → ℤ
loaded new old = if is_nonneg new then new else old

pub load_fields : Option Fields → State → State
load_fields none s = s
load_fields (some f) s = record s {
  current_term = loaded f.current_term s.current_term;
  voted_for = loaded f.voted_for s.voted_for;
  leader_id = loaded f.leader_id s.leader_id;
  last_log_index = loaded f.last_log_index s.last_log_index;
  last_log_term = loaded f.last_log_term s.last_log_term;
}

pub load_file : Option Bytes → State → State
unfolding load_fields
load_file none s = s
load_file (some text) s = load_fields (scan_fields text) s

-- A file that is missing or not of this form leaves the state as it was.
unfoldable pub rale_state_load : Config → State → State
unfolding load_file
rale_state_load c s = if c.path_set then load_file s.file s else s

-- The state that `rale_proto_init` sets up, on the file that it finds.
unfoldable pub rale_proto_init : Config → Env → Option Bytes → State
unfolding rale_state_load compute_election_deadline get_heartbeat_interval
rale_proto_init c env file = rale_state_load c (record {
  current_term = pos 0;
  voted_for = minus_one;
  leader_id = minus_one;
  role = follower;
  last_log_index = pos 0;
  last_log_term = pos 0;
  last_heartbeat = env.now;
  election_deadline = compute_election_deadline c env;
  votes_received = pos 0;
  election_active = false;
  next_heartbeat_at = env.now + get_heartbeat_interval c;
  next_vote_request_at = 0;
  file = file;
})

unfoldable pub rale_note_leader : Config → Env → ℤ → State → State
unfolding rale_state_save
rale_note_leader c env id s =
    if is_nonneg id && not (id ==ℤ s.leader_id)
    then rale_state_save c env (record s { leader_id = id })
    else s

unfoldable pub rale_become_follower : Config → Env → ℤ → State → State
unfolding rale_note_leader rale_state_save compute_election_deadline
rale_become_follower c env known s =
    let noted = rale_note_leader c env known (record s { role = follower }) in
    rale_state_save c env (record noted {
      election_active = false;
      votes_received = pos 0;
      election_deadline = compute_election_deadline c env;
    })

-- The loops over the cluster that skip this node.
unfoldable pub send_all : ℤ → Bytes → List Peer → List Output
send_all self msg [] = []
send_all self msg (p ∷ ps) =
    if p.id ==ℤ self then send_all self msg ps else send msg p.ip p.rale_port ∷ send_all self msg ps

-- A message of a word, an id and a term.
unfoldable pub format_message : Bytes → ℤ → ℤ → Bytes
format_message word a b = word ++ 32 ∷ (format_int a ++ 32 ∷ format_int b)
