-- ===== src/Dstore/Server.antt =====
-- librale/src/dstore.c: the callbacks of the server and of the clients.
use rale.Base.{
  ℕ, Bool, true, false, ◌||◌, not, List, [], ◌∷◌, ◌++◌, Option, none, some, ◌==◌, if◌then◌else◌, ℤ,
  minus_one, ◌==ℤ◌, is_nonneg, take, drop,
}
use rale.Text.{Bytes, codes, str_eq, starts_with}
use rale.Hash.{done, undefined, ◌>>=◌, max_value_size}
use rale.Db.{db_get, db_delete}
use rale.StateFile.Words.{words}
use rale.Cluster.{max_nodes}
use rale.TcpServer.{TcpServer, set_at, accept_client, server_read, server_read_error, close_client}
use rale.Dstore.{
  Dstore, Env, Action, skip, update, ◌>>◌, each, cluster_of, node_at, set_link, keep_alive_message,
  find_node_index_by_id, is_leader,
}
use rale.Dstore.Peers.{count, client_up, send_to_socket, dstore_send_message}
use rale.Dstore.Spread.{dstore_send_cluster_snapshot_to_client, send_leader}
use rale.Dstore.Commands.{dstore_put_from_command, digits_of, forward_to_leader}

abbrev pub set_socket : ℕ → ℤ → Dstore → Dstore
set_socket i id d = record d { sockets = set_at d.sockets i id }

-- `dstore_server_on_connection`. The node that it looks for by the address is only logged.
unfoldable pub dstore_server_on_connection : Env → ℕ → Action
dstore_server_on_connection env socket =
    update (set_socket socket minus_one)
    >> send_to_socket env socket keep_alive_message
    >> dstore_send_cluster_snapshot_to_client env socket
    >> send_leader (send_to_socket env socket)

-- "HELLO"
unfoldable pub greet : Env → ℕ → Bytes → Action
greet env socket text d =
    let id = digits_of text in
    let index = find_node_index_by_id d id in
    if not (is_nonneg id) || index == max_nodes
    then skip d
    else update
        (λ d.
          set_link index
            (λ l. record l { connection_status = true; last_keep_alive_sent = env.now })
            (set_socket socket id d))
        d

abbrev pub value_answer : Bytes → Option Bytes → Bytes
value_answer key none = codes "NOT_FOUND " ++ key
value_answer key (some value) = codes "VALUE " ++ (key ++ 61 ∷ value)

-- "GET"
unfoldable pub answer_get : Env → ℕ → Bytes → Action
answer_get env socket key d = do
  r ← db_get d.db (some key) max_value_size
  send_to_socket env socket (take 511 (value_answer key r.1)) (record d { db = r.0 })

unfoldable pub delete_at : Env → Bytes → ℕ → Action
delete_at env message i d =
    if (node_at d i).id ==ℤ (cluster_of d).self_id
    then skip d
    else if client_up d i
    then dstore_send_message env i message d
    else skip d

-- "DELETE" at the leader, and "FORWARD_DELETE".
unfoldable pub delete_key : Env → Bytes → Action
delete_key env key d = do
  r ← db_delete d.db (some key)
  each (count d) 0 (delete_at env (take 511 (codes "DELETE " ++ key))) (record d { db = r.0 })

unfoldable pub handle_delete : Env → Bytes → Action
handle_delete env key d =
    if is_leader d
    then delete_key env key d
    else forward_to_leader env (codes "FORWARD_DELETE " ++ key) d

-- One line that a client of the server has sent.
unfoldable pub server_line : Env → ℕ → Bytes → Action
server_line env socket line =
    if str_eq line keep_alive_message
    then skip
    else if starts_with (codes "HELLO ") line
    then greet env socket (drop 6 line)
    else if starts_with (codes "GET ") line
    then answer_get env socket (drop 4 line)
    else if starts_with (codes "FORWARD_DELETE ") line
    then delete_key env (drop 15 line)
    else if starts_with (codes "DELETE ") line
    then handle_delete env (drop 7 line)
    else dstore_put_from_command env line

-- One line that a client of this node has received.
unfoldable pub client_line : Env → Bytes → Action
client_line env line =
    if str_eq line keep_alive_message then skip else dstore_put_from_command env line

abbrev pub is_newline : ℕ → Bool
is_newline c = c == 10

unfoldable pub run_all : (Bytes → Action) → List Bytes → Action
run_all act [] = skip
run_all act (w ∷ ws) = act w >> run_all act ws

-- The loops over `strtok_r(buf, "\n")`.
unfoldable pub dstore_server_on_receive : Env → ℕ → Bytes → Action
unfolding run_all
dstore_server_on_receive env socket message =
    run_all (server_line env socket) (words is_newline [] (take 1023 message))

unfoldable pub dstore_client_on_receive : Env → Bytes → Action
unfolding run_all
dstore_client_on_receive env message =
    run_all (client_line env) (words is_newline [] (take 1023 message))

-- `dstore_server_on_disconnection` before its last call.
unfoldable pub clear_socket : ℕ → Dstore → Dstore
clear_socket socket d =
    let index = find_node_index_by_id d (d.sockets socket) in
    if d.sockets socket ==ℤ minus_one
    then d
    else if index == max_nodes
    then set_socket socket minus_one d
    else set_socket socket minus_one
        (set_link index (λ l. record l { connection_status = false }) d)

-- What `tcp_server_run` finds: a new client, bytes of the client in a slot, a read that fails, or the
-- end of a connection. `depth` is the number of calls that the stack has room for.
pub data Event : Type 0 where
  connects_in : Event
  sends : ℕ → Bytes → Event
  fails : ℕ → Event
  closes : ℕ → ℕ → Event

unfoldable pub serve : Env → Event → TcpServer → Action
serve env connects_in s d = elim (accept_client s).1 [
  | none ↦ skip d
  | some i ↦ dstore_server_on_connection env i (record d { server = some (accept_client s).0 })
]
serve env (sends i bytes) s d =
    if not (s.used i)
    then skip d
    else let r = server_read s i bytes in
      run_all (dstore_server_on_receive env i) r.1 (record d { server = some r.0 })
serve env (fails i) s d =
    if not (s.used i)
    then skip d
    else update (λ d. record d { server = some (server_read_error s i) }) d
serve env (closes depth i) s d =
    if not (s.used i) then skip d else elim (close_client (clear_socket i) depth s i d) [
      | none ↦ undefined
      | some (s', d') ↦ done (record d' { server = some s' }, [])
    ]

-- `tcp_server_run`, with what `select` reports in its order.
unfoldable pub tcp_server_run : Env → List Event → Action
tcp_server_run env [] = skip
tcp_server_run env (e ∷ es) =
    (λ d. elim d.server [ none ↦ skip d | some s ↦ serve env e s d ]) >> tcp_server_run env es
