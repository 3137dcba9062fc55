-- ===== src/Cluster/File/Bounds.antt =====
-- What loading a file of any contents leaves of the invariant of the cluster.
use rale.Base.{
  ℕ, zero, suc, ◌≤◌, ◌≡◌, refl, Bool, [], ◌∷◌, Option, none, some, length, length-set, get_or, drop,
  arith, Bool-cases, inl, inr, to_uint,
}
use rale.Text.{Bytes, strchr, c_string, strlcpy}
use rale.Text.Number.{atoi}
use rale.StateFile.{fgets}
use rale.Cluster.{Cluster, zero_node}
use rale.Cluster.File.{
  Stored, Loading, complete_node, load_pair, load_split, load_line, load_lines, load_start,
  cluster_load_state, without_newline, loaded_cluster,
}

-- Ten places, a next place among them or behind them, and the flag as it was.
pub record InBounds (on : Bool) (l : Loading) : Type 0 where
  pub width : length l.cluster.nodes ≡ 10
  pub index : l.node_index ≤ 10
  pub flag : l.cluster.initialized ≡ on

complete_node-InBounds :
    (on : Bool) (port : ℕ) (l : Loading) → InBounds on l → InBounds on (complete_node port l)
unfolding complete_node
complete_node-InBounds on port l h = ground (
  arith,
  length-set l.cluster.nodes l.node_index (record (get_or l.cluster.nodes l.node_index zero_node) {
    id = l.node_id;
    name = strlcpy l.node_name 255;
    ip = strlcpy l.node_ip 64;
    rale_port = l.rale_port;
    dstore_port = port;
  }),
)

load_pair-InBounds :
    (on : Bool) (key value : Bytes) (l : Loading)
    → InBounds on l
    → InBounds on (load_pair key value l)
unfolding load_pair
load_pair-InBounds on key value l h =
    ground (arith, complete_node-InBounds on (to_uint 16 (atoi value)) l h)

load_split-InBounds :
    (on : Bool) (r : Option (Bytes × Bytes)) (l : Loading)
    → InBounds on l
    → InBounds on (load_split r l)
unfolding load_split
load_split-InBounds on none l h = h
load_split-InBounds on (some (key, value)) l h = ground (arith, load_pair-InBounds on key value l h)

load_line-InBounds :
    (on : Bool) (text : Bytes) (l : Loading) → InBounds on l → InBounds on (load_line text l)
unfolding load_line
load_line-InBounds on text l h =
    load_split-InBounds on (strchr 61 (without_newline (c_string text))) l h

load_lines-InBounds :
    (on : Bool) (n : ℕ) (s : Bytes) (l : Loading) → InBounds on l → InBounds on (load_lines n s l)
unfolding load_lines
load_lines-InBounds on zero s l h = h
load_lines-InBounds on (suc n) [] l h = h
load_lines-InBounds on (suc n) (c ∷ s) l h =
    let text = fgets 511 (c ∷ s) in
    load_lines-InBounds on n (drop (length text) (c ∷ s)) (load_line text l)
      (load_line-InBounds on text l h)

loaded_cluster-width :
    (file : Option Bytes) (c : Cluster)
    → length c.nodes ≡ 10
    → (length (loaded_cluster file c).nodes ≡ 10)
      × ((loaded_cluster file c).initialized ≡ c.initialized)
loaded_cluster-width none c width = (width, refl)
loaded_cluster-width (some text) c width =
    let after =
      load_lines-InBounds c.initialized (length text) text (load_start c)
        (record { width = refl; index = omega arith; flag = refl }) in
    (after.width, after.flag)

-- Whatever the state file holds, the array has its ten places after `cluster_load_state`, as it had
-- before, and the flag is as it was.
cluster_load_state-width :
    (s : Stored)
    → length s.cluster.nodes ≡ 10
    → let c = (cluster_load_state s).cluster in
      (length c.nodes ≡ 10) × (c.initialized ≡ s.cluster.initialized)
unfolding cluster_load_state
cluster_load_state-width s width = elim (Bool-cases s.path_set) [
  | inl set_path ↦ simp set_path (loaded_cluster-width s.file s.cluster width)
  | inr unset ↦ simp unset (width, refl)
]
