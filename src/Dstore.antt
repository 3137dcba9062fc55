-- ===== src/Dstore.antt =====
-- librale/src/dstore.c: the distributed store of a node. The static variables, the cluster, the local
-- database and the file rale.state are one record, and a function of the file takes it through the
-- calls that it makes. What the node sends is a list of outputs. Logging and `rale_set_error_fmt` have
-- no part in it.
pub mod Peers
pub mod Spread
pub mod Commands
pub mod Server
pub mod Ticks
pub mod Silence
pub mod Handlers
pub mod Events
pub mod Calls
pub mod Isolation
pub mod Idle
pub mod Writes
pub mod Tokens
pub mod Joining
pub mod Ignored
use rale.Base.{
  ℕ, zero, suc, ◌+◌, Bool, true, false, List, [], ◌∷◌, ◌++◌, Option, none, some, ◌==◌,
  if◌then◌else◌, ℤ, pos, minus_one, ltb_ℤ, to_int, map, take, get_or,
}
use rale.Text.{Bytes, codes}
use rale.Text.Number.{format_int}
use rale.Hash.{Outcome, done, undefined, ◌>>=◌}
use rale.Db.{Db}
use rale.StateFile.{dstore_is_current_leader, write_rale_state_leader}
use rale.Cluster.{Cluster, Node, zero_node, active, position, max_nodes}
use rale.Cluster.File.{Stored}
use rale.TcpClient.{TcpClient}
use rale.TcpServer.{TcpServer, listening, set_at, max_clients}

-- What is kept for the node at one index: `tcp_clients`, `connection_status`, `last_keep_alive_sent`,
-- `last_connection_attempt` and `connection_attempt_count`.
pub record Link : Type 0 where
  pub client : Option TcpClient
  pub connection_status : Bool
  pub last_keep_alive_sent : ℕ
  pub last_connection_attempt : ℕ
  pub connection_attempt_count : ℤ

-- `sockets` is `client_socket_to_node`, `state_file` the file rale.state, and `db.file` rale.db. The
-- last four are the statics of `dstore_client_loop`, `dstore_client_tick` (two) and
-- `dstore_server_tick`.
pub record Dstore : Type 0 where
  pub stored : Stored
  pub db : Db
  pub state_file : Option Bytes
  pub server : Option TcpServer
  pub links : ℕ → Link
  pub sockets : ℕ → ℤ
  pub loop_first_run : Bool
  pub tick_first_run : Bool
  pub last_connect_attempt : ℕ
  pub last_keep_alive_check : ℕ

-- What the calls outside answer: the time, whether the files can be written and memory is there, the
-- configured interval, which texts `inet_pton` takes, `socket`, `inet_pton` and `connect` for the node
-- at an index, what `recv` brings there, and whether a client's or a server's `send` takes a message.
pub record Env : Type 0 where
  pub now : ℕ
  pub writable : Bool
  pub memory : Bool
  pub keep_alive_interval : ℕ
  pub errno : ℕ
  pub inet_pton : Bytes → Bool
  pub connects : ℕ → ℤ × Bool × Bool
  pub received : ℕ → Option Bytes
  pub whole : ℕ → Bytes → Bool
  pub taken : ℕ → Bytes → Bool

-- Bytes to the node at an index, or to the client in a slot of the server.
pub data Output : Type 0 where
  to_node : ℕ → Bytes → Output
  to_socket : ℕ → Bytes → Output

abbrev pub Action : Type 0
Action = Dstore → Outcome (Dstore × List Output)

abbrev pub skip : Action
skip d = done (d, [])

abbrev pub update : (Dstore → Dstore) → Action
update f d = done (f d, [])

infixl 5 ◌>>◌
abbrev pub ◌>>◌ : Action → Action → Action
(a >> b) d = do r ← a d; s ← b r.0; done (s.0, r.1 ++ s.1)

-- `for (i = start; i < start + n; i++)`
unfoldable pub each : ℕ → ℕ → (ℕ → Action) → Action
each zero i f = skip
each (suc n) i f = f i >> each n (suc i) f

abbrev pub cluster_of : Dstore → Cluster
cluster_of d = d.stored.cluster

abbrev pub node_at : Dstore → ℕ → Node
node_at d i = get_or (cluster_of d).nodes i zero_node

abbrev pub set_link : ℕ → (Link → Link) → Dstore → Dstore
set_link i f d = record d { links = set_at d.links i (f (d.links i)) }

abbrev pub keep_alive_message : Bytes
keep_alive_message = codes "KEEP_ALIVE"

unfoldable pub get_keep_alive_interval : Env → ℤ
get_keep_alive_interval env =
    if ltb_ℤ (pos 0) (pos env.keep_alive_interval)
    then to_int (pos env.keep_alive_interval)
    else pos 5

-- The index of a node, and MAX_NODES if there is none.
unfoldable pub find_node_index_by_id : Dstore → ℤ → ℕ
find_node_index_by_id d id = elim (position id (active (cluster_of d))) [
  | none ↦ max_nodes
  | some i ↦ i
]

unfoldable pub is_leader : Dstore → Bool
is_leader d = dstore_is_current_leader (cluster_of d).self_id d.state_file

-- `write_rale_state_leader`, if the file can be opened.
unfoldable pub write_leader : Env → ℤ → ℤ → Action
write_leader env term leader = update λ d. record d {
  state_file =
      if env.writable
      then some (write_rale_state_leader term leader d.state_file)
      else d.state_file;
}

abbrev pub text_before : Option Bytes → Bytes
text_before none = []
text_before (some text) = text

-- The line that `dstore_save_to_rale_db` appends, cut to its buffer.
unfoldable pub dstore_save_to_rale_db : Env → Bytes → Bytes → Action
dstore_save_to_rale_db env key value = update λ d. record d {
  db = record d.db {
    file =
        if env.writable
        then some (text_before d.db.file ++ take 1023 (key ++ 61 ∷ (value ++ 10 ∷ [])))
        else d.db.file;
  };
}

abbrev pub no_link : Link → Link
no_link l = record l {
  connection_status = false;
  last_keep_alive_sent = 0;
  last_connection_attempt = 0;
  connection_attempt_count = pos 0;
}

-- `socket` says whether `tcp_server_init` gets its listening socket. The result is `false` for -1.
unfoldable pub dstore_init : Bool → Dstore → Dstore × Bool
dstore_init socket d =
    let cleared : Dstore = record d {
      links = λ i. no_link (d.links i);
      sockets = λ i. minus_one;
    } in
    if socket
    then (record cleared { server = some listening }, true)
    else (record cleared { server = none }, false)
