-- ===== src/Daemon/Start.antt =====
-- librale/src/librale.c: the configuration of the library; `rale_init` of librale/src/rale_proto.c; and
-- `initialize_librale` of raled/src/raled_main.c. A pointer to a configuration that may be NULL is an
-- Option, and `none` as a result of a setter is RALE_ERROR_GENERAL.
use rale.Base.{
  ℕ, Bool, true, false, [], ◌∷◌, ◌++◌, Option, none, some, if◌then◌else◌, ltb_ℤ, ℤ, pos, map,
}
use rale.Text.{Bytes, codes, strlcpy}
use rale.Cluster.{Node, Status, success, failure, active}
use rale.Cluster.File.{
  Stored, cluster_init_stored, cluster_set_self_id_stored, cluster_add_node_stored,
}
use rale.Proto.{Peer, State, Env, rale_proto_init, Config as ProtoConfig}
use rale.Dstore.{Dstore, dstore_init}
use rale.Guc.{Config}

-- The fields of the library's own `config_t` that a function of the library sets or reads.
pub record LibConfig : Type 0 where
  pub node_id : ℤ
  pub node_name : Bytes
  pub node_ip : Bytes
  pub rale_port : ℕ
  pub dstore_port : ℕ
  pub node_db_path : Bytes
  pub node_log_directory : Bytes
  pub db_path : Bytes
  pub keep_alive_interval : ℕ
  pub keep_alive_timeout : ℕ

unfoldable pub librale_config_create : Bool → Option LibConfig
librale_config_create memory =
    if memory
    then some (record {
      node_id = pos 0;
      node_name = [];
      node_ip = [];
      rale_port = 0;
      dstore_port = 0;
      node_db_path = [];
      node_log_directory = [];
      db_path = [];
      keep_alive_interval = 0;
      keep_alive_timeout = 0;
    })
    else none

-- The setters. No text is NULL.
unfoldable pub librale_config_set_node_id : ℤ → Option LibConfig → Option LibConfig
librale_config_set_node_id id none = none
librale_config_set_node_id id (some c) =
    if ltb_ℤ id (pos 0) then none else some (record c { node_id = id })

unfoldable pub librale_config_set_node_name : Bytes → Option LibConfig → Option LibConfig
librale_config_set_node_name name none = none
librale_config_set_node_name name (some c) = some (record c { node_name = strlcpy name 255 })

unfoldable pub librale_config_set_node_ip : Bytes → Option LibConfig → Option LibConfig
librale_config_set_node_ip ip none = none
librale_config_set_node_ip ip (some c) = some (record c { node_ip = strlcpy ip 255 })

unfoldable pub librale_config_set_rale_port : ℕ → Option LibConfig → Option LibConfig
librale_config_set_rale_port port none = none
librale_config_set_rale_port port (some c) = some (record c { rale_port = port })

unfoldable pub librale_config_set_dstore_port : ℕ → Option LibConfig → Option LibConfig
librale_config_set_dstore_port port none = none
librale_config_set_dstore_port port (some c) = some (record c { dstore_port = port })

unfoldable pub librale_config_set_db_path : Bytes → Option LibConfig → Option LibConfig
librale_config_set_db_path path none = none
librale_config_set_db_path path (some c) = some (record c { node_db_path = strlcpy path 255 })

unfoldable pub librale_config_set_log_directory : Bytes → Option LibConfig → Option LibConfig
librale_config_set_log_directory path none = none
librale_config_set_log_directory path (some c) =
    some (record c { node_log_directory = strlcpy path 255 })

-- The chain of setters in `initialize_librale`; a setter that fails ends it.
unfoldable pub configured : Bool → Config → Option LibConfig
configured memory s = librale_config_set_log_directory (s.text 25) (
    librale_config_set_db_path (s.text 6) (
      librale_config_set_dstore_port s.dstore_port (
        librale_config_set_rale_port s.rale_port (
          librale_config_set_node_ip (s.text 2) (
            librale_config_set_node_name (s.text 0)
              (librale_config_set_node_id (s.number 1) (librale_config_create memory)))))))

-- `base_path` of `rale_state_load` and `rale_state_save`, and the file behind it.
unfoldable pub state_path : LibConfig → Option Bytes
state_path c = elim c.db_path [
  | d ∷ path ↦ some ((d ∷ path) ++ codes "/rale.state")
  | [] ↦ elim c.node_db_path [ [] ↦ none | d ∷ path ↦ some ((d ∷ path) ++ codes "/rale.state") ]
]

-- The files of dstore.c.
unfoldable pub dstore_state_path : LibConfig → Bytes
dstore_state_path c = c.db_path ++ codes "/rale.state"

unfoldable pub dstore_db_path : LibConfig → Bytes
dstore_db_path c = c.db_path ++ codes "/rale.db"

-- The answers of the system: malloc, what a path holds, whether the cluster's file can be written,
-- `udp_server_init` and `tcp_server_init`, and `env` for the protocol.
pub record Answers : Type 0 where
  pub memory : Bool
  pub files : Bytes → Option Bytes
  pub writable : Bool
  pub udp : Bool
  pub tcp : Bool
  pub env : Env

-- What runs in the process: the store with the cluster, and the protocol with its configuration, once
-- it is set up.
pub record Library : Type 0 where
  pub dstore : Dstore
  pub protocol : Option (LibConfig × State)

abbrev pub peer : Node → Peer
peer n = record { id = n.id; ip = n.ip; rale_port = n.rale_port }

abbrev pub is_path : Option Bytes → Bool
is_path none = false
is_path (some path) = true

-- What the protocol reads of the configuration and of the cluster.
unfoldable pub proto_config : LibConfig → Stored → ProtoConfig
proto_config c s = record {
  node_id = c.node_id;
  keep_alive_timeout = c.keep_alive_timeout;
  keep_alive_interval = c.keep_alive_interval;
  path_set = is_path (state_path c);
  peers = map peer (active s.cluster);
}

abbrev pub file_at : Answers → Option Bytes → Option Bytes
file_at k none = none
file_at k (some path) = k.files path

abbrev pub with_stored : Library → Stored → Library
with_stored l s = record l { dstore = record l.dstore { stored = s } }

abbrev pub with_protocol : Answers → LibConfig → Stored → Library → Library
with_protocol k c s l = record l {
  protocol = some (c, rale_proto_init (proto_config c s) k.env (file_at k (state_path c)));
}

-- The store with the files that the configuration names.
abbrev pub with_files : Answers → LibConfig → Dstore → Dstore
with_files k c d = record d {
  state_file = k.files (dstore_state_path c);
  db = record d.db { file = k.files (dstore_db_path c) };
}

abbrev pub with_dstore : Library → Dstore × Bool → Library × Bool
with_dstore l (d, result) = (record l { dstore = d }, result)

-- What `rale_init` does once the id is accepted.
unfoldable pub init_parts : Answers → LibConfig → Stored → Library → Library × Bool
init_parts k c s l =
    let started = with_protocol k c s (with_stored l s) in
    if k.udp
    then with_dstore started (dstore_init k.tcp (with_files k c started.dstore))
    else (started, false)

abbrev pub after_self_id : Answers → LibConfig → Library → Stored × Status → Library × Bool
after_self_id k c l (s, success) = init_parts k c s l
after_self_id k c l (s, failure e) = (with_stored l s, false)

unfoldable pub rale_init : Answers → LibConfig → Library → Library × Bool
rale_init k c l =
    after_self_id k c l
      (cluster_set_self_id_stored k.writable (cluster_init_stored l.dstore.stored) c.node_id)

-- One of the calls of `cluster_add_node`; an error is logged.
abbrev pub add_node : Answers → ℤ → Bytes → ℕ → ℕ → Stored → Stored
add_node k id name rale_port dstore_port s =
    (cluster_add_node_stored k.writable k.env.now s id (some name) (some (codes "127.0.0.1"))
      rale_port dstore_port).0

unfoldable pub add_nodes : Answers → Stored → Stored
add_nodes k s = add_node k (pos 3) (codes "test_node_3") 5003 6003 (
    add_node k (pos 2) (codes "test_node_2") 5002 6002
      (add_node k (pos 1) (codes "test_node_1") 5001 6001 s))

abbrev pub after_init : Answers → Library × Bool → Library × Bool
after_init k (l, false) = (l, false)
after_init k (l, true) = (with_stored l (add_nodes k l.dstore.stored), true)

abbrev pub init_configured : Answers → Library → Option LibConfig → Library × Bool
init_configured k l none = (l, false)
init_configured k l (some c) = after_init k (rale_init k c l)

-- The library, and whether RALE_SUCCESS is returned.
unfoldable pub initialize_librale : Answers → Config → Library → Library × Bool
initialize_librale k s l = init_configured k l (configured k.memory s)
