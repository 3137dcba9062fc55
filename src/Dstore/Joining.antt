-- ===== src/Dstore/Joining.antt =====
-- "PROPAGATE_ADD": what one node prints and another one parses.
use rale.Base.{
  ℕ, ◌≡◌, ◌≤◌, refl, Bool, true, false, [], ◌∷◌, ◌++◌, Option, some, ◌==◌, length, drop, take_all,
  length-append, ℤ, pos, negsuc, ◌≤ℤ◌, IsInt, arith, to_uint, is_nonneg,
}
use rale.Text.{Bytes, starts_with}
use rale.Text.Number.{format_int, atoi}
use rale.Hash.{done}
use rale.StateFile.Words.{words, Lacks}
use rale.StateFile.Reading.{atoi_whole, length-format_int-le}
use rale.Cluster.{Node, Cluster, Status, success, failure, cluster_add_node, add_status}
use rale.Cluster.Members.{IsGood, IsValid, Adds, added, cluster_add_node-Adds}
use rale.Cluster.File.{Stored, saved_after, cluster_add_node_stored, cluster_save_state}
use rale.Dstore.{Dstore, Env, cluster_of}
use rale.Dstore.Peers.{count}
use rale.Dstore.Spread.{node_message, snapshot_message}
use rale.Dstore.Commands.{
  joining_of, is_space, is_complete, dstore_handle_propagated_add, plain_command,
  dstore_put_from_command,
}
use rale.Dstore.Tokens.{words-end, words-space, words_skip, format_int-some}

-- A member whose name and address arrive whole in `char name[64]` and `char ip[16]`.
pub record Travels (n : Node) : Type 0 where
  pub good : IsGood n
  pub name_short : length n.name ≤ 63
  pub ip_short : length n.ip ≤ 15
  pub name_plain : Lacks is_space n.name
  pub ip_plain : Lacks is_space n.ip

id_range : (a : ℤ) → pos 1 ≤ℤ a → a ≤ℤ pos 1000 → IsInt a × (is_nonneg a ≡ true)
id_range (pos n) low high = (omega arith, refl)
id_range (negsuc n) low high = absurd (omega arith)

port_whole : (p : ℕ) → p ≤ 65535 → to_uint 16 (atoi (format_int (pos p))) ≡ p
unfolding to_uint
port_whole p h = rw (atoi_whole (pos p) (omega arith)) (omega arith)

-- The tokens of the message.
words-node_message :
    (n : Node)
    → Travels n
    → words is_space [] (drop 13 (node_message n))
      ≡ format_int n.id
        ∷ n.name
        ∷ n.ip
        ∷ format_int (pos n.rale_port)
        ∷ format_int (pos n.dstore_port)
        ∷ []
words-node_message n h =
    let r3 : Bytes = format_int (pos n.dstore_port) in
    let r2 : Bytes = format_int (pos n.rale_port) ++ 32 ∷ r3 in
    let r1 : Bytes = n.ip ++ 32 ∷ r2 in
    let r0 : Bytes = n.name ++ 32 ∷ r1 in
    let id = format_int-some n.id in
    let rale = format_int-some (pos n.rale_port) in
    let dstore = format_int-some (pos n.dstore_port) in
    rw
      (
        words_skip (format_int n.id ++ 32 ∷ r0),
        words-space (format_int n.id) r0 id.0 id.1,
        words-space n.name r1 h.good.name_low h.name_plain,
        words-space n.ip r2 h.good.ip_low h.ip_plain,
        words-space (format_int (pos n.rale_port)) r3 rale.0 rale.1,
        words-end is_space r3 dstore.0 dstore.1,
      )
      refl

joining-node_message :
    (n : Node)
    → Travels n
    → joining_of (words is_space [] (drop 13 (node_message n))) ≡ record {
      node_id = n.id;
      name = n.name;
      ip = n.ip;
      rale_port = n.rale_port;
      dstore_port = n.dstore_port;
    }
unfolding joining_of
joining-node_message n h =
    rw
      (
        words-node_message n h,
        atoi_whole n.id (id_range n.id h.good.id_low h.good.id_high).0,
        take_all 63 n.name h.name_short,
        take_all 15 n.ip h.ip_short,
        port_whole n.rale_port h.good.rale_high,
        port_whole n.dstore_port h.good.dstore_high,
      )
      refl

is_complete-node :
    (n : Node)
    → Travels n
    → is_complete (record {
      node_id = n.id;
      name = n.name;
      ip = n.ip;
      rale_port = n.rale_port;
      dstore_port = n.dstore_port;
    })
      ≡ true
is_complete-node n h = ground (
  arith,
  (id_range n.id h.good.id_low h.good.id_high).1,
  h.good.name_low,
  h.good.ip_low,
  h.good.rale_low,
  h.good.dstore_low,
)

length-node_message : (n : Node) → Travels n → length (node_message n) ≤ 255
length-node_message n h =
    let id = length-format_int-le n.id (id_range n.id h.good.id_low h.good.id_high).0 in
    let rale = length-format_int-le (pos n.rale_port) (omega (arith, h.good.rale_high)) in
    let dstore = length-format_int-le (pos n.dstore_port) (omega (arith, h.good.dstore_high)) in
    let r3 : Bytes = format_int (pos n.dstore_port) in
    let r2 : Bytes = format_int (pos n.rale_port) ++ 32 ∷ r3 in
    let r1 : Bytes = n.ip ++ 32 ∷ r2 in
    let r0 : Bytes = n.name ++ 32 ∷ r1 in
    rw
      (
        length-append (format_int n.id) (32 ∷ r0),
        length-append n.name (32 ∷ r1),
        length-append n.ip (32 ∷ r2),
        length-append (format_int (pos n.rale_port)) (32 ∷ r3),
      )
      (omega (arith, id, rale, dstore, h.name_short, h.ip_short))

-- What `dstore_handle_propagated_add` leaves.
abbrev pub joined : Env → Node → Dstore → Dstore
joined env n d = record d {
  stored =
      (cluster_add_node_stored env.writable env.now d.stored n.id (some n.name) (some n.ip)
        n.rale_port n.dstore_port).0;
}

propagated_add-node_message :
    (env : Env) (n : Node) (d : Dstore)
    → Travels n
    → dstore_handle_propagated_add env (node_message n) d ≡ done (joined env n d, [])
unfolding dstore_handle_propagated_add
propagated_add-node_message env n d h = rw (joining-node_message n h, is_complete-node n h) refl

add_stored-cluster :
    (writable : Bool) (now : ℕ) (s : Stored) (id : ℤ) (name ip : Option Bytes)
    (rale_port dstore_port : ℕ)
    → (cluster_add_node_stored writable now s id name ip rale_port dstore_port).0.cluster
      ≡ (cluster_add_node now s.cluster id name ip rale_port dstore_port).0
unfolding cluster_add_node_stored cluster_save_state
add_stored-cluster writable now s id name ip rale_port dstore_port =
    by_status (cluster_add_node now s.cluster id name ip rale_port dstore_port)
  where
    by_status : (r : Cluster × Status) → (saved_after writable s r).0.cluster ≡ r.0
    by_status (c, success) = ground (arith)
    by_status (c, failure e) = refl

-- The entry that a node sends for one of its members, with a name of at most 63 bytes and an address of
-- at most 15 without spaces, is handled by another node with a valid cluster that is not empty: the
-- member is added with the same id, name, address and ports, behind the members that are there, if the
-- checks of `cluster_add_node` pass, and the cluster is unchanged if not. Nothing is sent.
pub snapshot-Adds :
    (env : Env) (n : Node) (d : Dstore)
    → Travels n
    → IsValid (cluster_of d)
    → (count d == 0) ≡ false
    → (e : Dstore) × (dstore_put_from_command env (snapshot_message n) d ≡ done (e, []))
      × Adds
          (cluster_of d)
          (added env.now (cluster_of d) n.id (some n.name) (some n.ip) n.rale_port n.dstore_port)
          (add_status (cluster_of d) n.id (some n.name) (some n.ip) n.rale_port n.dstore_port)
          (
            cluster_of e,
            add_status (cluster_of d) n.id (some n.name) (some n.ip) n.rale_port n.dstore_port,
          )
unfolding dstore_put_from_command plain_command starts_with
snapshot-Adds env n d h valid members =
    let c = cluster_of d in
    let adds =
      cluster_add_node-Adds env.now c n.id (some n.name) (some n.ip) n.rale_port n.dstore_port
        valid in
    (
      joined env n d,
      rw (take_all 255 (node_message n) (length-node_message n h), members)
          (propagated_add-node_message env n d h),
      rw
          (add_stored-cluster env.writable env.now d.stored n.id (some n.name) (some n.ip)
            n.rale_port n.dstore_port)
          (record {
            valid = adds.valid;
            answers = refl;
            same_on = adds.same_on;
            appended = adds.appended;
            unchanged = adds.unchanged;
          }),
    )
