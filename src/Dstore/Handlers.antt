-- ===== src/Dstore/Handlers.antt =====
-- The functions of dstore.c one by one, and what each sends.
use rale.Base.{ℕ, ℤ}
use rale.Text.{Bytes}
use rale.Dstore.{Dstore, Env, Action, update, set_link}
use rale.Dstore.Peers.{
  send_to_socket, dstore_send_message, dstore_replicate_to_followers, keep_node_alive,
  keep_socket_alive, dstore_server_send_keep_alive, dstore_send_keep_alive,
}
use rale.Dstore.Spread.{
  dstore_broadcast_leader_snapshot, send_leader, snapshot_to_socket,
  dstore_send_cluster_snapshot_to_client, propagate_to, introduce_to,
  dstore_propagate_node_addition, dstore_propagate_node_removal,
}
use rale.Dstore.Silence.{
  IsIsolated, IsSilent, Keeps, Keeps-done, Keeps-if, IsSilent-skip, IsSilent->>, IsSilent-each,
  update-IsIsolated, set_link-IsIsolated, IsSilent-update, IsSilent-init_client,
  IsSilent-send_to_node, IsSilent-send_to_socket, IsSilent-send_message, IsSilent-replicate_to,
}

pub ruleset silence = (
  Keeps-done, Keeps-if, IsSilent-skip, IsSilent->>, IsSilent-each, IsSilent-init_client,
  IsSilent-send_to_node, IsSilent-send_to_socket, IsSilent-send_message, IsSilent-replicate_to,
)

pub IsSilent-replicate :
    (env : Env) (k v : Bytes) → IsSilent (dstore_replicate_to_followers env k v)
unfolding dstore_replicate_to_followers
IsSilent-replicate env k v d h = search silence

touched-IsIsolated :
    (d : Dstore) (env : Env) (i : ℕ)
    → IsIsolated d
    → IsIsolated (set_link i (λ l. record l { last_keep_alive_sent = env.now }) d)
touched-IsIsolated d env i h =
    set_link-IsIsolated d i (λ l. record l { last_keep_alive_sent = env.now }) (h.no_clients i) h

IsSilent-touch :
    (env : Env) (i : ℕ)
    → IsSilent (update (set_link i λ l. record l { last_keep_alive_sent = env.now }))
IsSilent-touch env i d h = Keeps-done (touched-IsIsolated d env i h)

IsSilent-keep_node_alive : (env : Env) (i : ℕ) → IsSilent (keep_node_alive env i)
unfolding keep_node_alive
IsSilent-keep_node_alive env i d h = search (silence, IsSilent-touch)

IsSilent-keep_socket_alive : (env : Env) (i : ℕ) → IsSilent (keep_socket_alive env i)
unfolding keep_socket_alive
IsSilent-keep_socket_alive env i d h = search (silence, IsSilent-touch)

IsSilent-server_keep_alive : (env : Env) → IsSilent (dstore_server_send_keep_alive env)
unfolding dstore_server_send_keep_alive
IsSilent-server_keep_alive env d h = search (silence, IsSilent-keep_socket_alive)

pub IsSilent-keep_alive : (env : Env) → IsSilent (dstore_send_keep_alive env)
unfolding dstore_send_keep_alive
IsSilent-keep_alive env d h = search (silence, IsSilent-keep_node_alive, IsSilent-server_keep_alive)

pub IsSilent-broadcast :
    (env : Env) (term leader : ℤ) → IsSilent (dstore_broadcast_leader_snapshot env term leader)
unfolding dstore_broadcast_leader_snapshot
IsSilent-broadcast env term leader d h = search silence

IsSilent-send_leader :
    (send : Bytes → Action) → ((m : Bytes) → IsSilent (send m)) → IsSilent (send_leader send)
IsSilent-send_leader send k d h = search (silence, k)

IsSilent-snapshot_to_socket : (env : Env) (s i : ℕ) → IsSilent (snapshot_to_socket env s i)
unfolding snapshot_to_socket
IsSilent-snapshot_to_socket env s i d h = search silence

pub IsSilent-snapshot :
    (env : Env) (s : ℕ) → IsSilent (dstore_send_cluster_snapshot_to_client env s)
unfolding dstore_send_cluster_snapshot_to_client
IsSilent-snapshot env s d h = search (silence, IsSilent-snapshot_to_socket)

pub IsSilent-leader_to_socket : (env : Env) (s : ℕ) → IsSilent (send_leader (send_to_socket env s))
IsSilent-leader_to_socket env s =
    IsSilent-send_leader (send_to_socket env s) (IsSilent-send_to_socket env s)

IsSilent-propagate_to : (env : Env) (m : Bytes) (i : ℕ) → IsSilent (propagate_to env m i)
unfolding propagate_to
IsSilent-propagate_to env m i d h = search silence

IsSilent-introduce_to : (env : Env) (new : ℕ) → IsSilent (introduce_to env new)
unfolding introduce_to
IsSilent-introduce_to env new d h =
    search
      (silence, IsSilent-send_leader (dstore_send_message env new) (IsSilent-send_message env new))

pub IsSilent-propagate_addition :
    (env : Env) (id : ℤ) (name ip : Bytes) (rale_port dstore_port : ℕ)
    → IsSilent (dstore_propagate_node_addition env id name ip rale_port dstore_port)
unfolding dstore_propagate_node_addition
IsSilent-propagate_addition env id name ip rale_port dstore_port d h =
    search (silence, IsSilent-propagate_to, IsSilent-introduce_to)

pub IsSilent-propagate_removal :
    (env : Env) (id : ℤ) → IsSilent (dstore_propagate_node_removal env id)
unfolding dstore_propagate_node_removal
IsSilent-propagate_removal env id d h =
    IsSilent-each _ _ _ (λ i e k. search (silence, IsSilent-propagate_to)) d h
