-- ===== src/Tests/Clusters.antt =====
-- A cluster of two nodes.
use rale.Base.{to_int, to_uint, ◌≡◌, refl, List, [], ◌∷◌, some, arith, pos, true}
use rale.Text.{codes, strchr, c_string, str_eq, starts_with, strlcpy}
use rale.Text.Number.{format_int, decimal, atoi, to_long, scan_number, scan_signed, skip_space}
use rale.StateFile.{fgets}
use rale.Validation.{contains}
use rale.Cluster.{
  Node, Cluster, success, failure, zero_node, position, add_status, cluster_add_node,
  cluster_remove_node, already_exists,
}
use rale.Cluster.Members.{IsGood, IsValid, Adds, added, cluster_add_node-Adds}
use rale.Cluster.Removal.{Removes, cluster_remove_node-Removes}
use rale.Cluster.File.{
  Stored, cluster_text, cluster_load_state, load_lines, load_line, load_split, load_pair,
  complete_node, cluster_add_node_stored, cluster_remove_node_stored, cluster_set_self_id_stored,
}
use rale.Cluster.File.Synced.{IsSynced, operations-IsSynced}
use rale.NodeSystem.{NodeSystem, node_remove}
use rale.NodeSystem.Shared.{ShowsWithout, node_list-node_remove}

abbrev first : Node
first = record zero_node {
  id = pos 1;
  name = codes "n1";
  ip = codes "10.0.0.1";
  rale_port = 7400;
  dstore_port = 7401;
  last_heartbeat = 50;
}

abbrev nine : List Node
nine =
    zero_node ∷ zero_node ∷ zero_node ∷ zero_node ∷ zero_node ∷ zero_node ∷ zero_node ∷ zero_node
    ∷ zero_node ∷ []

abbrev one : Cluster
one = record { nodes = first ∷ nine; node_count = 1; self_id = pos 1; initialized = true }

first-IsGood : IsGood first
first-IsGood = record {
  id_low = omega arith;
  id_high = omega arith;
  name_low = omega arith;
  name_high = omega arith;
  ip_low = omega arith;
  ip_high = omega arith;
  rale_low = omega arith;
  rale_high = omega arith;
  dstore_low = omega arith;
  dstore_high = omega arith;
}

one-IsValid : IsValid one
unfolding position
one-IsValid = record { width = refl; bound = omega arith; members = (first-IsGood, refl, tt) }

accepted : add_status one (pos 2) (some (codes "n2")) (some (codes "10.0.0.2")) 7400 7401 ≡ success
unfolding add_status position
accepted = refl

refused :
    add_status one (pos 1) (some (codes "n2")) (some (codes "10.0.0.2")) 7400 7401
    ≡ failure already_exists
unfolding add_status position
refused = refl

cluster_add_node-Adds_example :
    Adds one
      (added 60 one (pos 2) (some (codes "n2")) (some (codes "10.0.0.2")) 7400 7401)
      success
      (cluster_add_node 60 one (pos 2) (some (codes "n2")) (some (codes "10.0.0.2")) 7400 7401)
unfolding add_status position
cluster_add_node-Adds_example =
    cluster_add_node-Adds 60 one (pos 2) (some (codes "n2")) (some (codes "10.0.0.2")) 7400 7401
      one-IsValid

cluster_remove_node-Removes_example : Removes one (pos 1) success (cluster_remove_node one (pos 1))
unfolding position
cluster_remove_node-Removes_example = cluster_remove_node-Removes one (pos 1) one-IsValid

abbrev system : NodeSystem
system = record { cluster = one; started = true }

node_list-node_remove_example : ShowsWithout system (pos 1) (node_remove system (pos 1))
node_list-node_remove_example = node_list-node_remove system (pos 1) refl one-IsValid

abbrev stored : Stored
stored = record { cluster = one; path_set = true; file = some (cluster_text one) }

-- What is saved is loaded again, but for the status and the time of the last heartbeat.
reloaded :
    (cluster_load_state stored).cluster
    ≡ record one { nodes = record first { last_heartbeat = 0 } ∷ nine }
unfolding cluster_load_state load_lines load_line load_split load_pair complete_node cluster_text
    fgets format_int decimal strchr c_string str_eq starts_with contains atoi strlcpy to_uint to_int
    to_long scan_number scan_signed skip_space
reloaded = refl

-- The count is taken from the file as it is, also when it is larger than the array.
count_read :
    (cluster_load_state
      (record stored { file = some (codes "node_count=4000\n") })).cluster.node_count
    ≡ 4000
unfolding cluster_load_state load_lines load_line load_split load_pair complete_node fgets strchr
    c_string str_eq to_uint atoi to_int to_long scan_number scan_signed skip_space
count_read = refl

operations-IsSynced_example :
    IsSynced
      (cluster_add_node_stored true 60 stored
        (pos 2)
        (some (codes "n2"))
        (some (codes "10.0.0.2"))
        7400
        7401).0
    × IsSynced (cluster_remove_node_stored true stored (pos 2)).0
    × IsSynced (cluster_set_self_id_stored true stored (pos 2)).0
operations-IsSynced_example =
    operations-IsSynced 60 stored (pos 2) (some (codes "n2")) (some (codes "10.0.0.2")) 7400 7401
      one-IsValid (record { configured = refl; holds = refl })
