-- ===== src/NodeSystem/Shared.antt =====
-- What node.c makes of the array that it shares with cluster.c.
use rale.Base.{
  ℕ, ◌-◌, refl, ap, ◌∙◌, List, none, if◌then◌else◌, ◌==ℤ◌, ==ℤ_iff, Bool-cases, Option-cases, inl,
  inr, ◌+◌, ◌≡◌, [], ◌∷◌, ◌++◌, Option, some, arith, ℤ, ◌<◌, true, get_or,
}
use rale.Text.{Bytes}
use rale.Cluster.{
  Cluster, Node, Status, success, failure, not_found, zero_node, active, position, is_found,
  find_node, add_status,
}
use rale.Cluster.Removal.{without_place, without_place-Removes, find_node-absent, find_node-without}
use rale.Cluster.Active.{without, take-set_next}
use rale.Cluster.Members.{IsValid}
use rale.NodeSystem.{
  NodeSystem, node_add_status, node_add, node_remove, node_list, node_get, listed_node,
}

without-absent : (id : ℤ) (ns : List Node) → position id ns ≡ none → without id ns ≡ ns
unfolding without position
without-absent id [] h = refl
without-absent id (n ∷ ns) h = ground (arith, without-absent id ns)

-- The branches of `node_remove`.
node_remove_absent :
    (s : NodeSystem) (id : ℤ)
    → s.started ≡ true
    → position id (active s.cluster) ≡ none
    → node_remove s id ≡ (s, failure not_found)
unfolding node_remove
node_remove_absent s id on e = simp (on, e)

node_remove_found :
    (s : NodeSystem) (id : ℤ) (i : ℕ)
    → s.started ≡ true
    → position id (active s.cluster) ≡ some i
    → node_remove s id ≡ (record s { cluster = without_place s.cluster id i }, success)
unfolding node_remove without_place
node_remove_found s id i on e = simp (on, e)

-- What the other functions of node.c show of the members, and the answer.
abbrev pub ShowsWithout : NodeSystem → ℤ → NodeSystem × Status → Type 0
ShowsWithout s id r =
    let found = is_found (position id (active s.cluster)) in
    (r.1 ≡ (if found then success else failure not_found))
    × (node_list r.0 true
        ≡ some (
          without id (active s.cluster),
          if found then s.cluster.node_count - 1 else s.cluster.node_count,
        ))
    × ((q : ℤ) → node_get r.0 q true ≡ (if q ==ℤ id then none else node_get s q true))
    × IsValid r.0.cluster

absent_found :
    (q id : ℤ) (ns : List Node)
    → position id ns ≡ none
    → find_node q ns ≡ (if q ==ℤ id then none else find_node q ns)
absent_found q id ns e = elim (Bool-cases (q ==ℤ id)) [
  | inr other ↦ rw other refl
  | inl same ↦
      rw (same, find_node-absent q ns (ap (λ k. position k ns) ((==ℤ_iff q id).0 same) ∙ e)) refl
]

shows_absent :
    (s : NodeSystem) (id : ℤ)
    → s.started ≡ true
    → IsValid s.cluster
    → position id (active s.cluster) ≡ none
    → ShowsWithout s id (s, failure not_found)
unfolding node_list node_get
shows_absent s id on valid e = (
  simp e,
  simp (on, e, without-absent id (active s.cluster) e),
  λ q. simp on (absent_found q id (active s.cluster) e),
  valid,
)

shows_found :
    (s : NodeSystem) (id : ℤ) (i : ℕ)
    → s.started ≡ true
    → IsValid s.cluster
    → position id (active s.cluster) ≡ some i
    → ShowsWithout s id (record s { cluster = without_place s.cluster id i }, success)
unfolding node_list node_get without_place
shows_found s id i on valid e =
    let removed = without_place-Removes s.cluster id i valid e in
    let rest = removed.erased refl in
    (
      simp e,
      simp (on, e) (ap (λ l. some (l, s.cluster.node_count - 1)) rest),
      λ q.
          simp on (ap (find_node q) rest ∙ find_node-without q id (active s.cluster) valid.members),
      removed.valid,
    )

-- On a valid cluster, with the flag of node.c set: `node_remove` succeeds exactly if a member has the id;
-- `node_list` then gives the members that it gave before without that one, in their order, and the count,
-- which is one lower if it succeeded; `node_get` finds no node with the id, and every other as before;
-- and the cluster stays valid.
pub node_list-node_remove :
    (s : NodeSystem) (id : ℤ)
    → s.started ≡ true
    → IsValid s.cluster
    → ShowsWithout s id (node_remove s id)
node_list-node_remove s id on valid = elim (Option-cases (position id (active s.cluster))) [
  | inl e ↦ rw (node_remove_absent s id on e) (shows_absent s id on valid e)
  | inr (i, e) ↦ rw (node_remove_found s id i on e) (shows_found s id i on valid e)
]

-- Where `cluster_add_node` passes its checks, so does `node_add` if its own flag is set.
node_add_status-add_status :
    (c : Cluster) (id : ℤ) (name ip : Option Bytes) (rale_port dstore_port : ℕ)
    → add_status c id name ip rale_port dstore_port ≡ success
    → node_add_status (record { cluster = c; started = true }) id ≡ success
unfolding node_add_status add_status
node_add_status-add_status c id name ip rale_port dstore_port h = ground arith

node_add_room :
    (s : NodeSystem) (id : ℤ)
    → node_add_status s id ≡ success
    → (s.started ≡ true) × (s.cluster.node_count < 10)
unfolding node_add_status
node_add_room s id h = ground arith

-- After a successful `node_add` on a valid cluster, `node_list` gives the nodes that it gave before
-- with the new one behind them, and the count one higher.
node_list-node_add :
    (now : ℕ) (s : NodeSystem) (id : ℤ) (name ip : Bytes) (rale_port dstore_port : ℕ)
    → IsValid s.cluster
    → node_add_status s id ≡ success
    → node_list (node_add now s id name ip rale_port dstore_port).0 true
      ≡ some (
        active s.cluster
            ++ listed_node
                (get_or s.cluster.nodes s.cluster.node_count zero_node)
                id
                name
                ip
                rale_port
                dstore_port
                now
              ∷ [],
        s.cluster.node_count + 1,
      )
unfolding node_add node_list
node_list-node_add now s id name ip rale_port dstore_port valid ok =
    let c = s.cluster in
    let (on, room) = node_add_room s id ok in
    let n =
      listed_node (get_or c.nodes c.node_count zero_node) id name ip rale_port dstore_port now in
    simp (
      ok,
      on,
      node_add,
      node_list,
      take-set_next c.nodes c.node_count n (omega (arith, valid.width, room)),
    )
