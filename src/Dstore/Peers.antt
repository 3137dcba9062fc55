-- ===== src/Dstore/Peers.antt =====
-- librale/src/dstore.c: the clients that connect to the other nodes, and what is sent over them and to
-- the clients of the server.
use rale.Base.{
  ℕ, zero, suc, ◌+◌, ◌-◌, Bool, true, false, ◌&&◌, ◌||◌, not, List, [], ◌∷◌, ◌++◌, Option, none,
  some, leb, ◌==◌, if◌then◌else◌, ℤ, pos, negsuc, minus_one, ◌==ℤ◌, ltb_ℤ, length, set, get_or,
}
use rale.Text.{Bytes, codes, str_eq}
use rale.Hash.{done, undefined, max_key_size, max_value_size}
use rale.Cluster.{Node, state_offline, max_nodes, active, zero_node}
use rale.TcpClient.{TcpClient, idle, passed, lost, tcp_client_init, tcp_client_send}
use rale.TcpServer.{tcp_server_send, max_clients}
use rale.Dstore.{
  Link, Dstore, Env, to_node, to_socket, Action, skip, update, ◌>>◌, each, cluster_of, node_at,
  set_link, keep_alive_message, get_keep_alive_interval, find_node_index_by_id,
}

abbrev pub count : Dstore → ℕ
count d = (cluster_of d).node_count

-- A client is kept at the index.
abbrev pub is_there : {A : Type 0} → Option A → Bool
is_there none = false
is_there (some a) = true

abbrev pub is_up : Option TcpClient → Bool
is_up none = false
is_up (some c) = c.is_connected

abbrev pub client_up : Dstore → ℕ → Bool
client_up d i = is_up (d.links i).client

-- `dstore_init_client`, which passes NULL for the error buffer.
unfoldable pub dstore_init_client : Env → ℕ → Action
unfolding tcp_client_init
dstore_init_client env i d =
    if count d == 0 || (leb max_nodes i || (leb (count d) i || (node_at d i).id ==ℤ minus_one))
    then skip d
    else if is_there (d.links i).client
    then skip d
    else update
        (set_link i λ l. record l {
          client = tcp_client_init env.inet_pton env.memory (some (node_at d i).ip) true false;
        })
        d

-- The first of the clients with the socket, from index `i` on.
unfoldable pub has_socket : ℕ → ℕ → ℤ → (ℕ → Link) → Bool
has_socket zero i sock links = false
has_socket (suc n) i sock links =
    let rest = has_socket n (suc i) sock links in
    elim (links i).client [ none ↦ rest | some c ↦ c.sock ==ℤ sock || rest ]

-- The first node with the address and the port.
unfoldable pub find_peer : ℕ → Bytes → ℕ → List Node → Option ℕ
find_peer i ip port [] = none
find_peer i ip port (n ∷ ns) =
    let rest = find_peer (suc i) ip port ns in
    if str_eq n.ip ip && n.dstore_port == port then some i else rest

abbrev pub set_node : ℕ → (Node → Node) → Dstore → Dstore
set_node i f d = record d {
  stored = record d.stored {
    cluster = record d.stored.cluster {
      nodes = set d.stored.cluster.nodes i (f (get_or d.stored.cluster.nodes i zero_node));
    };
  };
}

abbrev pub mark_lost : Option ℕ → Dstore → Dstore
mark_lost none d = d
mark_lost (some i) d =
    set_node i (λ n. record n { state = state_offline })
      (set_link i (λ l. record l { connection_status = false }) d)

-- `dstore_client_on_disconnection`. The client is released by `tcp_client_cleanup` and then again by
-- `free`. `port` is what the caller passes, the value of `errno`.
unfoldable pub dstore_client_on_disconnection : ℤ → Bytes → ℕ → Action
unfolding find_peer
dstore_client_on_disconnection sock ip port d =
    if not (count d == 0) && has_socket max_nodes 0 sock d.links
    then undefined
    else update (mark_lost (find_peer 0 ip port (active (cluster_of d)))) d

-- `tcp_client_send` to the client at an index, if there is one.
unfoldable pub send_to_node : Env → ℕ → Bytes → Action
unfolding tcp_client_send dstore_client_on_disconnection
send_to_node env i message d = elim (d.links i).client [
  | none ↦ skip d
  | some c ↦
      let sent = tcp_client_send (env.whole i message) c message in
      let after : Dstore = set_link i (λ l. record l { client = some sent.0 }) d in
      elim sent.1 [
        | idle ↦ skip d
        | passed bytes ↦ done (d, to_node i bytes ∷ [])
        | lost ↦ dstore_client_on_disconnection c.sock c.ip_address env.errno after
      ]
]

-- `tcp_server_send`, with what goes out if there is a server and `send` takes it.
unfoldable pub send_to_socket : Env → ℕ → Bytes → Action
unfolding tcp_server_send
send_to_socket env i message d = elim d.server [
  | none ↦ skip d
  | some s ↦ elim (tcp_server_send s i (env.taken i message) message) [
    | none ↦ skip d
    | some bytes ↦ done (d, to_socket i bytes ∷ [])
  ]
]

-- `true` is the result 0.
unfoldable pub can_send : Dstore → ℕ → Bool
can_send d i = not (count d == 0 || leb (count d) i) && client_up d i

unfoldable pub dstore_send_message : Env → ℕ → Bytes → Action
unfolding can_send
dstore_send_message env i message d = if can_send d i then send_to_node env i message d else skip d

-- One round of the loop of `dstore_replicate_to_followers`. An index is compared with the id of this
-- node.
unfoldable pub replicate_to : Env → Bytes → ℕ → Action
replicate_to env message i d =
    if pos i ==ℤ (cluster_of d).self_id || (node_at d i).id ==ℤ minus_one
    then skip d
    else (dstore_init_client env i >> dstore_send_message env i message) d

unfoldable pub dstore_replicate_to_followers : Env → Bytes → Bytes → Action
dstore_replicate_to_followers env key value d =
    let message = codes "PUT " ++ (key ++ 61 ∷ value) in
    if count d == 0
    then skip d
    else if leb (max_key_size + max_value_size + 10) (length message)
    then skip d
    else each (count d) 0 (replicate_to env message) d

-- `now - last >= interval` on a `time_t`.
unfoldable pub is_due : Env → ℕ → Bool
unfolding get_keep_alive_interval
is_due env last =
    let past : ℤ = if leb last env.now then pos (env.now - last) else negsuc (last - env.now - 1) in
    not (ltb_ℤ past (get_keep_alive_interval env))

unfoldable pub keep_node_alive : Env → ℕ → Action
keep_node_alive env i d =
    if (node_at d i).id ==ℤ (cluster_of d).self_id || (node_at d i).id ==ℤ minus_one
    then skip d
    else if client_up d i
        && ((d.links i).connection_status && is_due env (d.links i).last_keep_alive_sent)
    then (send_to_node env i keep_alive_message
          >> update (set_link i λ l. record l { last_keep_alive_sent = env.now }))
        d
    else skip d

-- One slot of `dstore_server_send_keep_alive`.
unfoldable pub keep_socket_alive : Env → ℕ → Action
keep_socket_alive env i d =
    let index = find_node_index_by_id d (d.sockets i) in
    if d.sockets i ==ℤ minus_one || index == max_nodes
    then skip d
    else if (d.links index).connection_status && is_due env (d.links index).last_keep_alive_sent
    then (send_to_socket env i keep_alive_message
          >> update (set_link index λ l. record l { last_keep_alive_sent = env.now }))
        d
    else skip d

unfoldable pub dstore_server_send_keep_alive : Env → Action
dstore_server_send_keep_alive env = each max_clients 0 (keep_socket_alive env)

unfoldable pub dstore_send_keep_alive : Env → Action
dstore_send_keep_alive env d =
    (each (count d) 0 (keep_node_alive env) >> λ e.
    if is_there e.server then dstore_server_send_keep_alive env e else skip e)
      d
