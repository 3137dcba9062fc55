-- ===== src/Dstore/Ticks.antt =====
-- librale/src/dstore.c: what the daemon calls again and again: `dstore_client_loop`,
-- `dstore_client_tick` and `dstore_server_tick`; and `dstore_finit`.
use rale.Base.{
  ℕ, zero, suc, ◌-◌, Bool, true, false, ◌&&◌, ◌||◌, not, List, ◌++◌, Option, none, some, leb, ltb,
  ◌==◌, if◌then◌else◌, ℤ, pos, minus_one, ◌==ℤ◌, ltb_ℤ, incr,
}
use rale.Text.{Bytes, codes}
use rale.Text.Number.{format_int}
use rale.Cluster.{max_nodes, state_candidate}
use rale.TcpClient.{TcpClient, idle, passed, lost, tcp_client_connect, tcp_client_receive}
use rale.Dstore.{
  Link, Dstore, Env, Action, skip, update, ◌>>◌, each, cluster_of, node_at, set_link,
  keep_alive_message,
}
use rale.Dstore.Peers.{
  count, set_node, dstore_init_client, dstore_client_on_disconnection, send_to_node,
  dstore_send_keep_alive, is_due,
}
use rale.Dstore.Spread.{dstore_send_cluster_snapshot_to_target_idx}
use rale.Dstore.Server.{Event, tcp_server_run, dstore_client_on_receive}

-- The nodes that are connected to.
unfoldable pub is_peer : Dstore → ℕ → Bool
is_peer d i = not (
    leb (count d) i
    || ((node_at d i).id ==ℤ minus_one || (node_at d i).id ==ℤ (cluster_of d).self_id))

-- `tcp_client_run`
unfoldable pub receive_from : Env → ℕ → TcpClient → Action
unfolding tcp_client_receive dstore_client_on_disconnection
receive_from env i c d =
    let r = tcp_client_receive (env.received i) c in
    elim r.1 [
      | idle ↦ skip d
      | passed bytes ↦ dstore_client_on_receive env bytes d
      | lost ↦
          dstore_client_on_disconnection c.sock c.ip_address env.errno
            (set_link i (λ l. record l { client = some r.0 }) d)
    ]

-- The seconds between two attempts, by the attempts that failed.
unfoldable pub retry_interval : ℤ → ℕ
retry_interval attempts =
    if ltb_ℤ (pos 10) attempts then 20 else if ltb_ℤ (pos 5) attempts then 10 else 5

unfoldable pub waits : Env → Link → Bool
unfolding retry_interval
waits env l = ltb (env.now - l.last_connection_attempt) (retry_interval l.connection_attempt_count)

abbrev pub hello_message : ℤ → Bytes
hello_message id = codes "HELLO " ++ format_int id

abbrev pub start_attempt : Env → TcpClient → Link → Link
start_attempt env c l = record l {
  client = some c;
  last_connection_attempt = env.now;
  connection_attempt_count = incr l.connection_attempt_count;
}

abbrev pub attempt_succeeds : Env → Link → Link
attempt_succeeds env l = record l {
  connection_status = true;
  last_keep_alive_sent = env.now;
  connection_attempt_count = pos 0;
}

-- An attempt; `failed` is what a failure changes.
unfoldable pub attempt : Env → (Link → Link) → ℕ → TcpClient → Action
unfolding tcp_client_connect
attempt env failed i c d =
    let (socket, address, connected) = env.connects i in
    let r = tcp_client_connect socket address connected (pos (node_at d i).dstore_port) c in
    let tried = set_link i (start_attempt env r.0) d in
    if r.1
    then (update (λ e.
            set_node i (λ n. record n { state = state_candidate })
              (set_link i (attempt_succeeds env) e))
          >> send_to_node env i (hello_message (cluster_of d).self_id)
          >> send_to_node env i keep_alive_message
          >> dstore_send_cluster_snapshot_to_target_idx env i)
        tried
    else update (set_link i failed) tried

abbrev pub mark_down : Link → Link
mark_down l = record l { connection_status = false }

abbrev pub loop_client : Env → ℕ → Option TcpClient → Action
loop_client env i none d = skip d
loop_client env i (some c) d =
    if c.is_connected
    then receive_from env i c d
    else if waits env (d.links i)
    then skip d
    else attempt env mark_down i c d

-- One round of the loop of `dstore_client_loop`.
unfoldable pub loop_round : Env → ℕ → Action
loop_round env i d =
    if is_peer d i
    then (dstore_init_client env i >> λ e. loop_client env i (e.links i).client e) d
    else skip d

unfoldable pub dstore_client_loop : Env → Action
dstore_client_loop env d =
    if leb (count d) 1
    then skip d
    else if d.loop_first_run
    then update (λ d. record d { loop_first_run = false }) d
    else (each max_nodes 0 (loop_round env) >> dstore_send_keep_alive env) d

abbrev pub receive_client : Env → ℕ → Option TcpClient → Action
receive_client env i none d = skip d
receive_client env i (some c) d = if c.is_connected then receive_from env i c d else skip d

unfoldable pub receive_round : Env → ℕ → Action
receive_round env i d = if is_peer d i then receive_client env i (d.links i).client d else skip d

abbrev pub is_tried : Env → Option TcpClient → Link → Bool
is_tried env none l = false
is_tried env (some c) l = not c.is_connected && not (waits env l)

abbrev pub try_client : Env → ℕ → Option TcpClient → Action
try_client env i none d = skip d
try_client env i (some c) d = attempt env (λ l. l) i c d

-- The loop of `dstore_client_tick`, which ends with the first attempt.
unfoldable pub tick_rounds : Env → ℕ → ℕ → Action
tick_rounds env zero i = skip
tick_rounds env (suc n) i =
    (λ d. if is_peer d i then dstore_init_client env i d else skip d) >> λ d.
    if is_peer d i && is_tried env (d.links i).client (d.links i)
    then try_client env i (d.links i).client d
    else (receive_round env i >> tick_rounds env n (suc i)) d

unfoldable pub dstore_client_tick : Env → Action
dstore_client_tick env d =
    if leb (count d) 1
    then skip d
    else if d.tick_first_run
    then update (λ d. record d { tick_first_run = false }) d
    else if ltb (env.now - d.last_connect_attempt) 1
    then each max_nodes 0 (receive_round env) d
    else (update (λ d. record d { last_connect_attempt = env.now }) >> tick_rounds env max_nodes 0)
        d

-- `stopping` is `librale_is_shutdown_requested("dstore")`.
unfoldable pub dstore_server_tick : Env → Bool → List Event → Action
dstore_server_tick env stopping events d = elim d.server [
  | none ↦ skip d
  | some s ↦
      if stopping
      then skip d
      else (tcp_server_run env events >> λ e.
            if e.last_keep_alive_check == 0 || is_due env e.last_keep_alive_check
            then (dstore_send_keep_alive env
                  >> update λ f. record f { last_keep_alive_check = env.now })
                e
            else skip e)
          d
]

-- `finished` is the static `cleanup_done`.
unfoldable pub dstore_finit : Bool → Dstore → Bool × Dstore
dstore_finit finished d =
    if finished
    then (true, d)
    else (true, record d { server = none; links = λ i. record (d.links i) { client = none } })
