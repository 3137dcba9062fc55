-- ===== src/Cluster/File.antt =====
-- cluster_save_state and cluster_load_state, and the operations with the file that they keep. A file
-- that cannot be opened is `none`, and `writable` says whether it can be written.
pub mod Bounds
pub mod Synced
use rale.Base.{
  ℕ, zero, suc, ◌+◌, Bool, true, false, ◌&&◌, List, [], ◌∷◌, ◌++◌, Option, none, some, ltb, leb,
  ◌==◌, if◌then◌else◌, length, take, drop, set, get_or, ℤ, pos, minus_one, to_uint,
}
use rale.Text.{Bytes, codes, str_eq, starts_with, strchr, strlcpy, c_string}
use rale.Text.Number.{format_int, atoi}
use rale.StateFile.{fgets}
use rale.Validation.{contains}
use rale.Cluster.{
  Node, Cluster, Status, success, failure, zero_node, max_nodes, zeroed, active, cluster_init,
  cluster_add_node, cluster_remove_node, cluster_set_self_id,
}

-- The cluster, whether a path is set, and the contents of the file.
pub record Stored : Type 0 where
  pub cluster : Cluster
  pub path_set : Bool
  pub file : Option Bytes

-- `snprintf` into 256 bytes, then `fputs`.
abbrev pub line : Bytes → Bytes → Bytes
line key value = take 255 (key ++ 61 ∷ (value ++ 10 ∷ []))

abbrev pub node_key : ℕ → Bytes → Bytes
node_key i field = codes "node[" ++ (format_int (pos i) ++ (codes "]." ++ field))

unfoldable pub node_lines : ℕ → Node → Bytes
node_lines i n =
    line (node_key i (codes "id")) (format_int n.id)
    ++ (line (node_key i (codes "name")) n.name
        ++ (line (node_key i (codes "ip")) n.ip
            ++ (line (node_key i (codes "rale_port")) (format_int (pos n.rale_port))
                ++ line (node_key i (codes "dstore_port")) (format_int (pos n.dstore_port)))))

unfoldable pub all_lines : ℕ → List Node → Bytes
unfolding node_lines
all_lines i [] = []
all_lines i (n ∷ ns) = node_lines i n ++ all_lines (suc i) ns

unfoldable pub cluster_text : Cluster → Bytes
unfolding all_lines
cluster_text c =
    line (codes "self_id") (format_int c.self_id)
    ++ (line (codes "node_count") (format_int (pos c.node_count)) ++ all_lines 0 (active c))

unfoldable pub cluster_save_state : Bool → Stored → Stored
unfolding cluster_text
cluster_save_state writable s =
    if s.path_set && writable then record s { file = some (cluster_text s.cluster) } else s

-- The local variables of `cluster_load_state`, with the cluster.
pub record Loading : Type 0 where
  pub cluster : Cluster
  pub node_index : ℕ
  pub node_id : ℤ
  pub node_name : Bytes
  pub node_ip : Bytes
  pub rale_port : ℕ

-- The key of a node's field; the field's name may stand anywhere in the key.
abbrev pub is_field : Bytes → Bytes → Bool
is_field field key = starts_with (codes "node[") key && contains (codes "]." ++ field) key

-- The last field of a node completes it.
unfoldable pub complete_node : ℕ → Loading → Loading
complete_node dstore_port l =
    let c = l.cluster in
    if ltb l.node_index max_nodes
    then record l {
      cluster = record c {
        nodes = set c.nodes l.node_index (record (get_or c.nodes l.node_index zero_node) {
          id = l.node_id;
          name = strlcpy l.node_name 255;
          ip = strlcpy l.node_ip 64;
          rale_port = l.rale_port;
          dstore_port = dstore_port;
        });
      };
      node_index = l.node_index + 1;
    }
    else l

unfoldable pub load_pair : Bytes → Bytes → Loading → Loading
load_pair key value l =
    if str_eq key (codes "self_id")
    then record l { cluster = record l.cluster { self_id = atoi value } }
    else if str_eq key (codes "node_count")
    then record l { cluster = record l.cluster { node_count = to_uint 32 (atoi value) } }
    else if is_field (codes "id") key
    then record l { node_id = atoi value }
    else if is_field (codes "name") key
    then record l { node_name = strlcpy value 256 }
    else if is_field (codes "ip") key
    then record l { node_ip = strlcpy value 256 }
    else if is_field (codes "rale_port") key
    then record l { rale_port = to_uint 16 (atoi value) }
    else if is_field (codes "dstore_port") key
    then complete_node (to_uint 16 (atoi value)) l
    else l

-- `line[strcspn(line, "\n")] = 0`
abbrev pub without_newline : Bytes → Bytes
without_newline s = elim (strchr 10 s) [ none ↦ s | some (a, b) ↦ a ]

-- Lines without "=", and those with a long key or value, are skipped.
unfoldable pub load_split : Option (Bytes × Bytes) → Loading → Loading
load_split none l = l
load_split (some (key, value)) l =
    if leb 64 (length key) then l else if leb 256 (length value) then l else load_pair key value l

unfoldable pub load_line : Bytes → Loading → Loading
load_line text l = load_split (strchr 61 (without_newline (c_string text))) l

-- `while (fgets(line, 512, file))`. The fuel is the length of the file, and every line has a byte.
unfoldable pub load_lines : ℕ → Bytes → Loading → Loading
load_lines zero s l = l
load_lines (suc n) [] l = l
load_lines (suc n) (c ∷ s) l =
    let text = fgets 511 (c ∷ s) in load_lines n (drop (length text) (c ∷ s)) (load_line text l)

abbrev pub load_start : Cluster → Loading
load_start c = record {
  cluster = record (zeroed c) { self_id = minus_one };
  node_index = 0;
  node_id = pos 0;
  node_name = [];
  node_ip = [];
  rale_port = 0;
}

abbrev pub loaded_cluster : Option Bytes → Cluster → Cluster
loaded_cluster none c = c
loaded_cluster (some text) c = (load_lines (length text) text (load_start c)).cluster

unfoldable pub cluster_load_state : Stored → Stored
cluster_load_state s =
    if s.path_set then record s { cluster = loaded_cluster s.file s.cluster } else s

-- The whole of `cluster_init`.
unfoldable pub cluster_init_stored : Stored → Stored
cluster_init_stored s =
    if s.cluster.initialized
    then s
    else cluster_load_state (record s { cluster = cluster_init s.cluster })

-- An operation that saves the state when it succeeds.
abbrev pub saved_after : Bool → Stored → Cluster × Status → Stored × Status
saved_after writable s (c, success) =
    (cluster_save_state writable (record s { cluster = c }), success)
saved_after writable s (c, failure e) = (record s { cluster = c }, failure e)

unfoldable pub cluster_add_node_stored :
    Bool → ℕ → Stored → ℤ → Option Bytes → Option Bytes → ℕ → ℕ → Stored × Status
cluster_add_node_stored writable now s id name ip rale_port dstore_port =
    saved_after writable s (cluster_add_node now s.cluster id name ip rale_port dstore_port)

unfoldable pub cluster_remove_node_stored : Bool → Stored → ℤ → Stored × Status
cluster_remove_node_stored writable s id = saved_after writable s (cluster_remove_node s.cluster id)

unfoldable pub cluster_set_self_id_stored : Bool → Stored → ℤ → Stored × Status
cluster_set_self_id_stored writable s id = saved_after writable s (cluster_set_self_id s.cluster id)

-- `present` is what the file at the new path holds; `false` is RALE_ERROR_GENERAL.
unfoldable pub cluster_set_state_file : Option Bytes → Option Bytes → Stored → Stored × Bool
cluster_set_state_file none present s = (s, false)
cluster_set_state_file (some path) present s =
    if length path == 0
    then (s, false)
    else if leb 512 (length path)
    then (s, false)
    else (record s { path_set = true; file = present }, true)
