-- ===== src/NodeSystem.antt =====
-- librale/src/node.c: a second interface to the variable `cluster` of cluster.c, without its checks,
-- its mutex and its state file. The flag `cluster_initialized` that node.c declares is not the one of
-- cluster.c, which is static, so it is a part of the state here.
pub mod Shared
use rale.Base.{
  ℕ, ◌+◌, ◌-◌, Bool, true, false, List, ◌∷◌, [], Option, none, some, leb, if◌then◌else◌, take, set,
  get_or, replicate, ℤ, pos, ltb_ℤ,
}
use rale.Text.{Bytes, strlcpy}
use rale.Cluster.{
  Node, Cluster, ClusterError, Status, success, failure, not_initialized, invalid_node_id,
  already_exists, maximum_reached, not_found, null_pointer, state_offline, zero_node, max_nodes,
  active, position, is_found, shift_down, find_node,
}

-- The variables of node.c.
pub record NodeSystem : Type 0 where
  pub cluster : Cluster
  pub started : Bool

unfoldable pub node_init : NodeSystem → NodeSystem
node_init s = if s.started then s else record {
  cluster = record s.cluster { nodes = replicate max_nodes zero_node; node_count = 0 };
  started = true;
}

-- The checks of `node_add`, in their order.
unfoldable pub node_add_status : NodeSystem → ℤ → Status
node_add_status s id =
    if s.started
    then (if leb max_nodes s.cluster.node_count
        then failure maximum_reached
        else if ltb_ℤ id (pos 1)
        then failure invalid_node_id
        else if is_found (position id (active s.cluster))
        then failure already_exists
        else success)
    else failure not_initialized

-- What `node_add` writes into a place; the status of the node stays as it was.
abbrev pub listed_node : Node → ℤ → Bytes → Bytes → ℕ → ℕ → ℕ → Node
listed_node old id name ip rale_port dstore_port now = record old {
  id = id;
  name = strlcpy name 255;
  ip = strlcpy ip 64;
  rale_port = rale_port;
  dstore_port = dstore_port;
  state = state_offline;
  is_voting_member = true;
  last_heartbeat = now;
}

unfoldable pub node_add : ℕ → NodeSystem → ℤ → Bytes → Bytes → ℕ → ℕ → NodeSystem × Status
node_add now s id name ip rale_port dstore_port =
    let c = s.cluster in
    elim (node_add_status s id) [
      | failure e ↦ (s, failure e)
      | success ↦ (
        record s {
          cluster = record c {
            nodes = set c.nodes c.node_count (
                listed_node (get_or c.nodes c.node_count zero_node) id name ip rale_port dstore_port
                  now);
            node_count = c.node_count + 1;
          };
        },
        success,
      )
    ]

unfoldable pub node_remove : NodeSystem → ℤ → NodeSystem × Status
node_remove s id =
    let c = s.cluster in
    if s.started
    then (elim (position id (active c)) [
      | none ↦ (s, failure not_found)
      | some i ↦ (
        record s {
          cluster = record c {
            nodes = shift_down (c.node_count - 1 - i) i c.nodes;
            node_count = c.node_count - 1;
          };
        },
        success,
      )
    ])
    else (s, failure not_initialized)

-- The caller's buffer is present or NULL; the answer is what is copied into it.
unfoldable pub node_get : NodeSystem → ℤ → Bool → Option Node
node_get s id present =
    if s.started then (if present then find_node id (active s.cluster) else none) else none

unfoldable pub node_list : NodeSystem → Bool → Option (List Node × ℕ)
node_list s present =
    if s.started
    then (if present then some (active s.cluster, s.cluster.node_count) else none)
    else none

unfoldable pub node_cleanup : NodeSystem → NodeSystem
node_cleanup s =
    if s.started
    then record {
      cluster = record s.cluster { nodes = replicate max_nodes zero_node; node_count = 0 };
      started = false;
    }
    else s
