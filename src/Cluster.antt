-- ===== src/Cluster.antt =====
-- librale/src/cluster.c: the members of the cluster. `cluster` and `cluster_initialized` are one
-- record; the state file is in Cluster/File.antt. The mutex is held for the whole of each operation,
-- so an operation is one function. The array `nodes` has ten places, of which the first `node_count`
-- are in use.
pub mod Active
pub mod Members
pub mod File
pub mod Lookup
pub mod Removal
use rale.Base.{
  ℕ, zero, suc, ◌+◌, ◌-◌, Bool, true, false, ◌||◌, List, [], ◌∷◌, Option, none, some, leb, ltb,
  ◌==◌, if◌then◌else◌, length, take, set, get_or, replicate, ℤ, pos, negsuc, minus_one, ◌==ℤ◌,
  ltb_ℤ,
}
use rale.Text.{Bytes, strlcpy}

pub data NodeState : Type 0 where
  state_leader state_candidate state_offline : NodeState

pub data NodeStatus : Type 0 where
  status_active status_inactive status_failed : NodeStatus

-- `node_t` without the fields that no function of the library reads.
pub record Node : Type 0 where
  pub id : ℤ
  pub name : Bytes
  pub ip : Bytes
  pub rale_port : ℕ
  pub dstore_port : ℕ
  pub state : NodeState
  pub status : NodeStatus
  pub last_heartbeat : ℕ
  pub is_voting_member : Bool

abbrev pub max_nodes : ℕ
max_nodes = 10

-- The zero bytes that `memset` leaves: the first constants of the enumerations.
abbrev pub zero_node : Node
zero_node = record {
  id = pos 0;
  name = [];
  ip = [];
  rale_port = 0;
  dstore_port = 0;
  state = state_leader;
  status = status_active;
  last_heartbeat = 0;
  is_voting_member = false;
}

pub record Cluster : Type 0 where
  pub nodes : List Node
  pub node_count : ℕ
  pub self_id : ℤ
  pub initialized : Bool

pub data ClusterError : Type 0 where
  not_initialized invalid_node_id invalid_name invalid_ip invalid_rale_port : ClusterError
  invalid_dstore_port already_exists maximum_reached not_found null_pointer : ClusterError

-- RALE_SUCCESS, or RALE_ERROR_GENERAL with the error that is recorded.
pub data Status : Type 0 where
  success : Status
  failure : ClusterError → Status

-- `memset(&cluster, 0, sizeof(cluster_t))`
abbrev pub zeroed : Cluster → Cluster
zeroed c = record c { nodes = replicate max_nodes zero_node; node_count = 0; self_id = pos 0 }

-- `cluster_init` before it loads the state file.
unfoldable pub cluster_init : Cluster → Cluster
cluster_init c =
    if c.initialized then c else record (zeroed c) { self_id = minus_one; initialized = true }

unfoldable pub cluster_finit : Cluster → Cluster
cluster_finit c = if c.initialized then record (zeroed c) { initialized = false } else c

-- The members.
abbrev pub active : Cluster → List Node
active c = take c.node_count c.nodes

-- The search loops: the index of the first node with the id.
unfoldable pub position : ℤ → List Node → Option ℕ
position id [] = none
position id (n ∷ ns) =
    if n.id ==ℤ id then some 0 else elim (position id ns) [ none ↦ none | some i ↦ some (suc i) ]

abbrev pub is_found {ℓ} : {A : Type ℓ} → Option A → Bool
is_found none = false
is_found (some a) = true

-- `s == NULL || strlen(s) == 0 || strlen(s) > bound`
abbrev pub is_bad_text : Option Bytes → ℕ → Bool
is_bad_text none bound = true
is_bad_text (some s) bound = length s == 0 || ltb bound (length s)

-- `port <= 0 || port > MAX_REASONABLE_PORT`
abbrev pub is_bad_port : ℕ → Bool
is_bad_port port = port == 0 || ltb 65535 port

abbrev pub text_of : Option Bytes → Bytes
text_of none = []
text_of (some s) = s

-- The checks of `cluster_add_node`, in their order.
unfoldable pub add_status : Cluster → ℤ → Option Bytes → Option Bytes → ℕ → ℕ → Status
unfolding position
add_status c id name ip rale_port dstore_port =
    if c.initialized
    then (if ltb_ℤ id (pos 1) || ltb_ℤ (pos 1000) id
        then failure invalid_node_id
        else if is_bad_text name 256
        then failure invalid_name
        else if is_bad_text ip 46
        then failure invalid_ip
        else if is_bad_port rale_port
        then failure invalid_rale_port
        else if is_bad_port dstore_port
        then failure invalid_dstore_port
        else if is_found (position id (active c))
        then failure already_exists
        else if leb max_nodes c.node_count
        then failure maximum_reached
        else success)
    else failure not_initialized

-- What `cluster_add_node` writes into a place; the fields that it does not set stay as they were.
unfoldable pub new_node : Node → ℤ → Bytes → Bytes → ℕ → ℕ → ℕ → Node
new_node old id name ip rale_port dstore_port now = record old {
  id = id;
  name = strlcpy name 255;
  ip = strlcpy ip 64;
  rale_port = rale_port;
  dstore_port = dstore_port;
  status = status_active;
  last_heartbeat = now;
}

-- `now` is the time. The state file is saved afterwards (`Cluster/File.antt`).
unfoldable pub cluster_add_node :
    ℕ → Cluster → ℤ → Option Bytes → Option Bytes → ℕ → ℕ → Cluster × Status
cluster_add_node now c id name ip rale_port dstore_port =
    elim (add_status c id name ip rale_port dstore_port) [
      | failure e ↦ (c, failure e)
      | success ↦ (
        record c {
          nodes = set c.nodes c.node_count (
              new_node (get_or c.nodes c.node_count zero_node) id (text_of name) (text_of ip)
                rale_port dstore_port now);
          node_count = c.node_count + 1;
        },
        success,
      )
    ]

-- `for (; i < node_count - 1; i++) nodes[i] = nodes[i + 1];` with the rounds counted first.
unfoldable pub shift_down : ℕ → ℕ → List Node → List Node
shift_down zero i ns = ns
shift_down (suc n) i ns = shift_down n (suc i) (set ns i (get_or ns (suc i) zero_node))

unfoldable pub cluster_remove_node : Cluster → ℤ → Cluster × Status
cluster_remove_node c id =
    if c.initialized
    then (elim (position id (active c)) [
      | none ↦ (c, failure not_found)
      | some i ↦ (
        record c {
          nodes = shift_down (c.node_count - 1 - i) i c.nodes;
          node_count = c.node_count - 1;
        },
        success,
      )
    ])
    else (c, failure not_initialized)

unfoldable pub cluster_get_node_count : Cluster → ℕ
cluster_get_node_count c = c.node_count

-- The loop of `cluster_get_node`.
unfoldable pub find_node : ℤ → List Node → Option Node
find_node id [] = none
find_node id (n ∷ ns) = if n.id ==ℤ id then some n else find_node id ns

-- The node that is copied to the caller; `none` is RALE_ERROR_GENERAL.
unfoldable pub cluster_get_node : Cluster → ℤ → Option Node
unfolding find_node
cluster_get_node c id = find_node id (active c)

unfoldable pub cluster_get_node_by_index : Cluster → ℕ → Option Node
cluster_get_node_by_index c index =
    if leb c.node_count index then none else some (get_or c.nodes index zero_node)

unfoldable pub cluster_get_self_id : Cluster → ℤ
cluster_get_self_id c = c.self_id

unfoldable pub cluster_set_self_id : Cluster → ℤ → Cluster × Status
cluster_set_self_id c id =
    if ltb_ℤ id (pos 1) || ltb_ℤ (pos 1000) id
    then (c, failure invalid_node_id)
    else (record c { self_id = id }, success)
