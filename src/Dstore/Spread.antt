-- ===== src/Dstore/Spread.antt =====
-- librale/src/dstore.c: the snapshots of the leader and of the members, and what is spread when a member
-- is added or removed.
use rale.Base.{
  ℕ, zero, suc, Bool, false, ◌&&◌, ◌||◌, not, ◌∷◌, ◌++◌, none, some, leb, ◌==◌, if◌then◌else◌, ℤ,
  pos, minus_one, ◌==ℤ◌, is_nonneg, take,
}
use rale.Text.{Bytes, codes}
use rale.Text.Number.{format_int}
use rale.StateFile.{dstore_get_current_leader}
use rale.Cluster.{Node, max_nodes, position, active}
use rale.TcpServer.{max_clients}
use rale.Dstore.{Dstore, Env, Action, skip, ◌>>◌, each, cluster_of, node_at, find_node_index_by_id}
use rale.Dstore.Peers.{client_up, count, dstore_send_message, send_to_node, send_to_socket}

-- `"LEADER %d %d"`
abbrev pub leader_message : ℤ → ℤ → Bytes
leader_message term leader = codes "LEADER " ++ (format_int term ++ 32 ∷ format_int leader)

abbrev pub broadcast_to_socket : Env → Bytes → ℕ → Action
broadcast_to_socket env message i d =
    if d.sockets i ==ℤ minus_one then skip d else send_to_socket env i message d

abbrev pub broadcast_to_node : Env → Bytes → ℕ → Action
broadcast_to_node env message i d = if client_up d i then send_to_node env i message d else skip d

unfoldable pub dstore_broadcast_leader_snapshot : Env → ℤ → ℤ → Action
dstore_broadcast_leader_snapshot env term leader d =
    let message = leader_message (if is_nonneg term then term else pos 0) leader in
    (each max_clients 0 (broadcast_to_socket env message)
        >> each (count d) 0 (broadcast_to_node env message))
      d

-- `"PROPAGATE_ADD %d %s %s %d %d"`
abbrev pub add_message : ℤ → Bytes → Bytes → ℕ → ℕ → Bytes
add_message id name ip rale_port dstore_port =
    codes "PROPAGATE_ADD "
    ++ (format_int id
        ++ 32
          ∷ (name
              ++ 32
                ∷ (ip ++ 32 ∷ (format_int (pos rale_port) ++ 32 ∷ format_int (pos dstore_port)))))

abbrev pub node_message : Node → Bytes
node_message n = add_message n.id n.name n.ip n.rale_port n.dstore_port

-- An entry of the snapshots, cut to the buffer.
abbrev pub snapshot_message : Node → Bytes
snapshot_message n = take 255 (node_message n)

unfoldable pub snapshot_to_socket : Env → ℕ → ℕ → Action
snapshot_to_socket env socket i d =
    if (node_at d i).id ==ℤ minus_one
    then skip d
    else send_to_socket env socket (snapshot_message (node_at d i)) d

unfoldable pub dstore_send_cluster_snapshot_to_client : Env → ℕ → Action
dstore_send_cluster_snapshot_to_client env socket d =
    each (count d) 0 (snapshot_to_socket env socket) d

-- The leader snapshot, if rale.state names a leader; `send` is the way it goes.
abbrev pub send_leader : (Bytes → Action) → Action
send_leader send d =
    let leader = dstore_get_current_leader d.state_file in
    if is_nonneg leader then send (leader_message (pos 0) leader) d else skip d

unfoldable pub snapshot_to_node : Env → ℕ → ℕ → Action
snapshot_to_node env target i d =
    if (node_at d i).id ==ℤ minus_one
    then skip d
    else send_to_node env target (snapshot_message (node_at d i)) d

unfoldable pub dstore_send_cluster_snapshot_to_target_idx : Env → ℕ → Action
dstore_send_cluster_snapshot_to_target_idx env target d =
    if leb (count d) target || not (client_up d target)
    then skip d
    else (each (count d) 0 (snapshot_to_node env target) >> send_leader (send_to_node env target)) d

-- `dstore_propagate_node_addition`; the number of nodes that it returns is left out.
unfoldable pub propagate_to : Env → Bytes → ℕ → Action
propagate_to env message i d =
    if not ((node_at d i).id ==ℤ (cluster_of d).self_id) && (d.links i).connection_status
    then dstore_send_message env i message d
    else skip d

-- What the new node is told: this node, and the leader.
unfoldable pub introduce_to : Env → ℕ → Action
introduce_to env new d =
    let self = find_node_index_by_id d (cluster_of d).self_id in
    if new == max_nodes || not (d.links new).connection_status
    then skip d
    else if self == max_nodes
    then skip d
    else (dstore_send_message env new (take 511 (node_message (node_at d self)))
          >> send_leader (dstore_send_message env new))
        d

unfoldable pub dstore_propagate_node_addition : Env → ℤ → Bytes → Bytes → ℕ → ℕ → Action
dstore_propagate_node_addition env id name ip rale_port dstore_port d =
    (each (count d) 0 (propagate_to env (take 511 (add_message id name ip rale_port dstore_port)))
        >> introduce_to env (find_node_index_by_id d id))
      d

abbrev pub remove_message : ℤ → Bytes
remove_message id = codes "PROPAGATE_REMOVE " ++ format_int id

unfoldable pub dstore_propagate_node_removal : Env → ℤ → Action
dstore_propagate_node_removal env id d =
    each (count d) 0
      (λ i e. if (node_at e i).id ==ℤ id then skip e else propagate_to env (remove_message id) i e)
      d

-- The scan of the server's slots.
unfoldable pub socket_of : ℕ → ℕ → ℤ → (ℕ → ℤ) → Bool
socket_of zero i id sockets = false
socket_of (suc n) i id sockets = sockets i ==ℤ id || socket_of n (suc i) id sockets

unfoldable pub dstore_is_node_connected : Dstore → ℤ → Bool
unfolding socket_of
dstore_is_node_connected d id = elim (position id (active (cluster_of d))) [
  | none ↦ false
  | some i ↦
      (d.links i).connection_status || (client_up d i || socket_of max_clients 0 id d.sockets)
]
