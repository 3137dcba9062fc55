-- ===== src/Cluster/Lookup.antt =====
-- Adding, removing and looking up, one after the other.
use rale.Base.{
  ℕ, ◌≡◌, ap, ◌∙◌, List, [], ◌∷◌, ◌++◌, Option, none, some, arith, ℤ, ◌==ℤ◌, if◌then◌else◌, true,
}
use rale.Text.{Bytes}
use rale.Cluster.{
  Node, Cluster, is_found, Status, success, active, position, find_node, add_status,
  cluster_add_node, cluster_remove_node, cluster_get_node,
}
use rale.Cluster.Active.{without}
use rale.Cluster.Members.{IsValid, added, add_status-Accepted, cluster_add_node-Adds}
use rale.Cluster.Removal.{
  remove_status, cluster_remove_node-Removes, find_node-append, find_node-without,
}

without-append :
    (v : Node) (ns : List Node) → position v.id ns ≡ none → without v.id (ns ++ v ∷ []) ≡ ns
unfolding without position
without-append v [] h = ground arith
without-append v (n ∷ ns) h = ground (arith, without-append v ns)

position-append_last : (v : Node) (ns : List Node) → is_found (position v.id (ns ++ v ∷ [])) ≡ true
unfolding position
position-append_last v [] = ground arith
position-append_last v (n ∷ ns) = ground (arith, position-append_last v ns)

module _ (now : ℕ) (c : Cluster) (id : ℤ) (name ip : Option Bytes) (rale_port dstore_port : ℕ)
    (valid : IsValid c) (accepted : add_status c id name ip rale_port dstore_port ≡ success) where
  -- After a successful `cluster_add_node` on a valid cluster, `cluster_get_node` finds the new node
  -- under its id, and under every other id what it found before.
  cluster_get_node-cluster_add_node :
      (q : ℤ)
      → cluster_get_node (cluster_add_node now c id name ip rale_port dstore_port).0 q ≡ (
          if id ==ℤ q
          then some (added now c id name ip rale_port dstore_port)
          else cluster_get_node c q)
  unfolding cluster_get_node rale.Cluster.new_node
  cluster_get_node-cluster_add_node q =
      let adds = cluster_add_node-Adds now c id name ip rale_port dstore_port valid in
      let a = add_status-Accepted c id name ip rale_port dstore_port accepted in
      ap (find_node q) (adds.appended accepted)
      ∙ find_node-append q (active c) (added now c id name ip rale_port dstore_port) a.new

  -- On a valid cluster, a node that was just added can be removed again, and then the members are
  -- what they were before.
  cluster_remove_node-cluster_add_node :
      let after =
        cluster_remove_node (cluster_add_node now c id name ip rale_port dstore_port).0 id in
      (after.1 ≡ success) × (active after.0 ≡ active c)
  unfolding rale.Cluster.new_node
  cluster_remove_node-cluster_add_node =
      let adds = cluster_add_node-Adds now c id name ip rale_port dstore_port valid in
      let a = add_status-Accepted c id name ip rale_port dstore_port accepted in
      let v = added now c id name ip rale_port dstore_port in
      let mid = (cluster_add_node now c id name ip rale_port dstore_port).0 in
      let removes = cluster_remove_node-Removes mid id adds.valid in
      let answer : remove_status mid id ≡ success =
        simp (adds.same_on, a.on, adds.appended accepted, position-append_last v (active c)) in
      (
        removes.answers ∙ answer,
        removes.erased answer
            ∙ ap (without id) (adds.appended accepted)
            ∙ without-append v (active c) a.new,
      )

-- After a successful `cluster_remove_node` on a valid cluster, `cluster_get_node` finds nothing
-- under that id, and under every other id what it found before.
cluster_get_node-cluster_remove_node :
    (c : Cluster) (id q : ℤ)
    → IsValid c
    → remove_status c id ≡ success
    → cluster_get_node (cluster_remove_node c id).0 q
      ≡ (if q ==ℤ id then none else cluster_get_node c q)
unfolding cluster_get_node
cluster_get_node-cluster_remove_node c id q valid removed =
    ap (find_node q) ((cluster_remove_node-Removes c id valid).erased removed)
    ∙ find_node-without q id (active c) valid.members
