-- ===== src/Daemon/Started.antt =====
-- The library after the start of the daemon.
use rale.Base.{
  ℕ, ◌≡◌, refl, subst, sym, ap, ◌∙◌, Bool, true, false, ◌&&◌, ◌||◌, not, List, [], ◌∷◌, ◌++◌,
  Option, none, some, if◌then◌else◌, ltb_ℤ, ℤ, pos, minus_one, replicate, Bool-cases, ◌⊎◌, arith,
  inl, inr,
}
use rale.Text.{Bytes, codes, strlcpy}
use rale.Cluster.{
  Node, Cluster, success, failure, invalid_node_id, zero_node, max_nodes, new_node, cluster_init,
  cluster_add_node, add_status, cluster_set_self_id, position,
}
use rale.Cluster.File.{
  Stored, cluster_init_stored, cluster_set_self_id_stored, cluster_add_node_stored,
  cluster_load_state, cluster_save_state,
}
use rale.Proto.{State, follower}
use rale.Proto.Restart.{rale_proto_init-follower}
use rale.TcpServer.{listening}
use rale.Dstore.{dstore_init}
use rale.Guc.{Config}
use rale.Daemon.Start.{
  LibConfig, Answers, Library, librale_config_create, librale_config_set_node_id,
  librale_config_set_node_name, librale_config_set_node_ip, librale_config_set_rale_port,
  librale_config_set_dstore_port, librale_config_set_db_path, librale_config_set_log_directory,
  configured, init_parts, after_self_id, rale_init, add_nodes, after_init, initialize_librale,
}

-- The configuration that the setters make.
abbrev pub lib_config : Config → LibConfig
lib_config s = record {
  node_id = s.number 1;
  node_name = strlcpy (s.text 0) 255;
  node_ip = strlcpy (s.text 2) 255;
  rale_port = s.rale_port;
  dstore_port = s.dstore_port;
  node_db_path = strlcpy (s.text 6) 255;
  node_log_directory = strlcpy (s.text 25) 255;
  db_path = [];
  keep_alive_interval = 0;
  keep_alive_timeout = 0;
}

configured_lem :
    (memory : Bool) (s : Config)
    → configured memory s
      ≡ (if memory && not (ltb_ℤ (s.number 1) (pos 0)) then some (lib_config s) else none)
unfolding configured librale_config_create librale_config_set_node_id librale_config_set_node_name
    librale_config_set_node_ip librale_config_set_rale_port librale_config_set_dstore_port
    librale_config_set_db_path librale_config_set_log_directory
configured_lem false s = refl
configured_lem true s = elim (Bool-cases (ltb_ℤ (s.number 1) (pos 0))) [
  | inl h ↦ rw h refl
  | inr h ↦ rw h refl
]

-- The cluster of a process that has just begun, with an id.
abbrev pub empty_cluster : ℤ → Cluster
empty_cluster id = record {
  nodes = replicate max_nodes zero_node;
  node_count = 0;
  self_id = id;
  initialized = true;
}

abbrev pub unsaved : Cluster → Option Bytes → Stored
unsaved c file = record { cluster = c; path_set = false; file = file }

init_fresh :
    (s : Stored)
    → s.cluster.initialized ≡ false
    → s.path_set ≡ false
    → cluster_init_stored s ≡ unsaved (empty_cluster minus_one) s.file
unfolding cluster_init_stored cluster_init cluster_load_state
init_fresh s off unset = rw (off, unset) refl

abbrev pub in_range : ℤ → Bool
in_range id = not (ltb_ℤ id (pos 1) || ltb_ℤ (pos 1000) id)

self_id-fresh :
    (writable : Bool) (id : ℤ) (file : Option Bytes)
    → cluster_set_self_id_stored writable (unsaved (empty_cluster minus_one) file) id ≡ (
        if in_range id
        then (unsaved (empty_cluster id) file, success)
        else (unsaved (empty_cluster minus_one) file, failure invalid_node_id))
unfolding cluster_set_self_id_stored cluster_set_self_id cluster_save_state
self_id-fresh writable id file = elim (Bool-cases (ltb_ℤ id (pos 1) || ltb_ℤ (pos 1000) id)) [
  | inl h ↦ rw h refl
  | inr h ↦ rw h refl
]

-- The nodes that are added, whatever the settings are.
abbrev pub test_node : ℕ → ℤ → Bytes → ℕ → ℕ → Node
test_node now id name rale_port dstore_port = record zero_node {
  id = id;
  name = name;
  ip = codes "127.0.0.1";
  rale_port = rale_port;
  dstore_port = dstore_port;
  last_heartbeat = now;
}

abbrev pub test_nodes : ℕ → List Node
test_nodes now =
    test_node now (pos 1) (codes "test_node_1") 5001 6001
    ∷ test_node now (pos 2) (codes "test_node_2") 5002 6002
    ∷ test_node now (pos 3) (codes "test_node_3") 5003 6003
    ∷ []

abbrev pub test_cluster : ℕ → ℤ → Cluster
test_cluster now id = record {
  nodes = test_nodes now ++ replicate 7 zero_node;
  node_count = 3;
  self_id = id;
  initialized = true;
}

add_nodes-fresh :
    (k : Answers) (id : ℤ) (file : Option Bytes)
    → add_nodes k (unsaved (empty_cluster id) file) ≡ unsaved (test_cluster k.env.now id) file
unfolding add_nodes cluster_add_node_stored cluster_add_node add_status position new_node
    cluster_save_state strlcpy
add_nodes-fresh k id file = refl

-- The library after a start that succeeds: the cluster is that of the tests, with the id of the
-- settings, the store listens, and the protocol follows.
pub record IsStarted (k : Answers) (s : Config) (l : Library) : Type 0 where
  pub members : l.dstore.stored.cluster ≡ test_cluster k.env.now (s.number 1)
  pub listens : l.dstore.server ≡ some listening
  pub follows : (p : State) × (l.protocol ≡ some (lib_config s, p)) × (p.role ≡ follower)

-- What is asked of the system and of the node's id.
abbrev pub can_start : Answers → Config → Bool
can_start k s = k.memory && (in_range (s.number 1) && (k.udp && k.tcp))

range-nonneg : (id : ℤ) → in_range id ≡ true → ltb_ℤ id (pos 0) ≡ false
range-nonneg id h = ground arith

rale_init-fresh :
    (k : Answers) (c : LibConfig) (l : Library)
    → l.dstore.stored.cluster.initialized ≡ false
    → l.dstore.stored.path_set ≡ false
    → rale_init k c l
      ≡ after_self_id k c l (
          if in_range c.node_id
          then (unsaved (empty_cluster c.node_id) l.dstore.stored.file, success)
          else (unsaved (empty_cluster minus_one) l.dstore.stored.file, failure invalid_node_id))
unfolding rale_init
rale_init-fresh k c l off unset =
    rw
      (
        init_fresh l.dstore.stored off unset,
        self_id-fresh k.writable c.node_id l.dstore.stored.file,
      )
      refl

init_parts-IsStarted :
    (k : Answers) (s : Config) (l : Library) (file : Option Bytes)
    → let r =
        after_init k (init_parts k (lib_config s) (unsaved (empty_cluster (s.number 1)) file) l) in
      (r.1 ≡ (k.udp && k.tcp)) × (r.1 ≡ true → IsStarted k s r.0)
unfolding init_parts dstore_init
init_parts-IsStarted k s l file = elim (Bool-cases k.udp) [
  | inr shut ↦ simp shut (refl, λ h. cc)
  | inl open_udp ↦ elim (Bool-cases k.tcp) [
    | inr shut ↦ simp (open_udp, shut) (refl, λ h. cc)
    | inl bound ↦
        simp (open_udp, bound)
          (
            refl,
            λ h. record {
              members = ap (λ (x : Stored). x.cluster) (add_nodes-fresh k (s.number 1) file);
              listens = refl;
              follows = (_, refl, (rale_proto_init-follower _ _ _).0);
            },
          )
  ]
]

pub absurd : {A : Type 0} → false ≡ true → A
absurd h = cc

initialize-memory :
    (k : Answers) (s : Config) (l : Library)
    → k.memory ≡ false
    → initialize_librale k s l ≡ (l, false)
unfolding initialize_librale
initialize-memory k s l h = rw (configured_lem k.memory s, h) refl

configured-nonneg :
    (k : Answers) (s : Config)
    → k.memory ≡ true
    → ltb_ℤ (s.number 1) (pos 0) ≡ false
    → configured k.memory s ≡ some (lib_config s)
configured-nonneg k s made h = rw (configured_lem k.memory s, made, h) refl

module _ (k : Answers) (s : Config) (l : Library) (made : k.memory ≡ true)
    (off : l.dstore.stored.cluster.initialized ≡ false)
    (unset : l.dstore.stored.path_set ≡ false) where
  initialize-refused : in_range (s.number 1) ≡ false → (initialize_librale k s l).1 ≡ false
  unfolding initialize_librale
  initialize-refused h = elim (Bool-cases (ltb_ℤ (s.number 1) (pos 0))) [
    | inl negative ↦ rw (configured_lem k.memory s, made, negative) refl
    | inr nonneg ↦
        rw (configured-nonneg k s made nonneg, rale_init-fresh k (lib_config s) l off unset, h) refl
  ]

  pub initialize-taken :
      in_range (s.number 1) ≡ true
      → initialize_librale k s l
        ≡ after_init k (
            init_parts k
              (lib_config s)
              (unsaved (empty_cluster (s.number 1)) l.dstore.stored.file)
              l)
  unfolding initialize_librale
  initialize-taken h =
      rw
        (
          configured-nonneg k s made (range-nonneg (s.number 1) h),
          rale_init-fresh k (lib_config s) l off unset,
          h,
        )
        refl

pub initialize_librale-can_start :
    (k : Answers) (s : Config) (l : Library)
    → l.dstore.stored.cluster.initialized ≡ false
    → l.dstore.stored.path_set ≡ false
    → ((initialize_librale k s l).1 ≡ can_start k s)
      × ((initialize_librale k s l).1 ≡ true → IsStarted k s (initialize_librale k s l).0)
initialize_librale-can_start k s l off unset = elim (Bool-cases k.memory) [
  | inr full ↦
      let e = ap (λ (r : Library × Bool). r.1) (initialize-memory k s l full) in
      (e ∙ rw full refl, λ h. absurd (sym e ∙ h))
  | inl made ↦ elim (Bool-cases (in_range (s.number 1))) [
    | inr h ↦
        let e = initialize-refused k s l made off unset h in
        (e ∙ rw (made, h) refl, λ g. absurd (sym e ∙ g))
    | inl h ↦
        let e = initialize-taken k s l made off unset h in
        let done = init_parts-IsStarted k s l l.dstore.stored.file in
        let same = ap (λ (r : Library × Bool). r.1) e in
        (
          same ∙ done.0 ∙ rw (made, h) refl,
          λ g. subst (λ (r : Library × Bool). IsStarted k s r.0) (sym e) (done.1 (sym same ∙ g)),
        )
  ]
]

-- The start of the library in a process that has not initialized its cluster and has no file for it,
-- whatever the settings are: it succeeds exactly if malloc succeeds, the node's id is from 1 to 1000,
-- and the two sockets are made. Then the cluster has three nodes of 127.0.0.1 with the ids 1, 2 and 3
-- and their own ports, none of which the settings name, the store listens, and the protocol has the
-- settings of the node and follows.
pub initialize_librale-IsStarted :
    (k : Answers) (s : Config) (l : Library)
    → l.dstore.stored.cluster.initialized ≡ false
    → l.dstore.stored.path_set ≡ false
    → let r = initialize_librale k s l in
      ((r.1 ≡ false) × (can_start k s ≡ false))
      ⊎ ((r.1 ≡ true) × (can_start k s ≡ true) × IsStarted k s r.0)
initialize_librale-IsStarted k s l off unset =
    let h = initialize_librale-can_start k s l off unset in
    elim (Bool-cases (can_start k s)) [
      | inl can ↦ inr (h.0 ∙ can, can, h.1 (h.0 ∙ can))
      | inr cannot ↦ inl (h.0 ∙ cannot, cannot)
    ]
