-- ===== src/Cluster/Removal.antt =====
-- What removing a node does to the members, and what looking a node up finds afterwards.
use rale.Base.{
  ℕ, suc, ◌+◌, ◌-◌, ◌≡◌, ◌≢◌, refl, ap, ◌∙◌, sym, List, [], ◌∷◌, ◌++◌, none, some, arith,
  length-take, take, ℤ, ◌==ℤ◌, if◌then◌else◌, Bool-cases, Option-cases, inl, inr, ◌⊎◌, subst,
}
use rale.Cluster.{
  Node, Cluster, ClusterError, Status, success, failure, not_initialized, not_found, active,
  position, find_node, shift_down, is_found, cluster_remove_node,
}
use rale.Cluster.Active.{
  without, erase_at, erase_at-position, position-lt, take-shift_down, length-shift_down,
}
use rale.Cluster.Members.{AreMembers, IsValid, AreMembers-without}

-- `cluster_remove_node` succeeds on a cluster that is initialized and has the node.
abbrev pub remove_status : Cluster → ℤ → Status
remove_status c id =
    if c.initialized
    then (if is_found (position id (active c)) then success else failure not_found)
    else failure not_initialized

pub record Removes (c : Cluster) (id : ℤ) (status : Status) (r : Cluster × Status) : Type 0 where
  pub valid : IsValid r.0
  pub answers : r.1 ≡ status
  pub erased : status ≡ success → active r.0 ≡ without id (active c)
  pub unchanged : status ≢ success → r.0 ≡ c

active_shifted :
    (c : Cluster) (id : ℤ) (i : ℕ)
    → IsValid c
    → position id (active c) ≡ some i
    → take (c.node_count - 1) (shift_down (c.node_count - 1 - i) i c.nodes) ≡ without id (active c)
active_shifted c id i valid e =
    let below = position-lt id (active c) i e in
    let size = length-take c.node_count c.nodes in
    let n = c.node_count - 1 - i in
    let whole : c.node_count ≡ suc (i + n) = omega (arith, valid.width, valid.bound) in
    let shifted = take-shift_down i n c.nodes (omega (arith, valid.width, valid.bound)) in
    let last : c.node_count - 1 ≡ i + n = omega arith in
    ap (λ (k : ℕ). take k (shift_down n i c.nodes)) last
    ∙ shifted
    ∙ ap (λ (k : ℕ). erase_at i (take k c.nodes)) (sym whole)
    ∙ erase_at-position id (active c) i e

module _ (c : Cluster) (id : ℤ) where
  unfoldable pub without_place : ℕ → Cluster
  without_place i = record c {
    nodes = shift_down (c.node_count - 1 - i) i c.nodes;
    node_count = c.node_count - 1;
  }

  -- The branches of `cluster_remove_node`, with the status.
  remove_cases :
      ((x : ClusterError) × (cluster_remove_node c id ≡ (c, failure x))
        × (remove_status c id ≡ failure x))
      ⊎ ((i : ℕ) × (position id (active c) ≡ some i)
          × (cluster_remove_node c id ≡ (without_place i, success))
          × (remove_status c id ≡ success))
  unfolding cluster_remove_node without_place
  remove_cases = elim (Bool-cases c.initialized) [
    | inr off ↦ inl (not_initialized, simp off, simp off)
    | inl on ↦ elim (Option-cases (position id (active c))) [
      | inl e ↦ inl (not_found, simp (on, e), simp (on, e))
      | inr (i, e) ↦ inr (i, e, simp (on, e), simp (on, e))
    ]
  ]

  pub without_place-Removes :
      (i : ℕ)
      → IsValid c
      → position id (active c) ≡ some i
      → Removes c id success (without_place i, success)
  unfolding without_place
  without_place-Removes i valid e =
      let rest = active_shifted c id i valid e in
      record {
        valid = record {
          width = length-shift_down (c.node_count - 1 - i) i c.nodes ∙ valid.width;
          bound = omega (arith, valid.bound);
          members = subst AreMembers (sym rest) (AreMembers-without id (active c) valid.members);
        };
        answers = refl;
        erased = λ _. rest;
        unchanged = λ h. absurd (h refl);
      }

  -- On a valid cluster `cluster_remove_node` succeeds if the cluster is initialized and one of its
  -- members has the id. The members then are the old ones, in their order, without that one; on a
  -- failure nothing changes. The cluster stays valid.
  pub cluster_remove_node-Removes :
      IsValid c → Removes c id (remove_status c id) (cluster_remove_node c id)
  cluster_remove_node-Removes valid = elim remove_cases [
    | inl (x, e, s) ↦
        rw (e, s)
          (record { valid = valid; answers = refl; erased = λ h. cc; unchanged = λ _. refl })
    | inr (i, p, e, s) ↦ rw (e, s) (without_place-Removes i valid p)
  ]

pub find_node-absent : (q : ℤ) (ns : List Node) → position q ns ≡ none → find_node q ns ≡ none
unfolding position find_node
find_node-absent q [] h = refl
find_node-absent q (n ∷ ns) h = ground (arith, find_node-absent q ns)

pub find_node-append :
    (q : ℤ) (ns : List Node) (v : Node)
    → position v.id ns ≡ none
    → find_node q (ns ++ v ∷ []) ≡ (if v.id ==ℤ q then some v else find_node q ns)
unfolding position find_node
find_node-append q [] v h = refl
find_node-append q (n ∷ ns) v h = ground (arith, find_node-append q ns v)

pub find_node-without :
    (q id : ℤ) (ns : List Node)
    → AreMembers ns
    → find_node q (without id ns) ≡ (if q ==ℤ id then none else find_node q ns)
unfolding without find_node
find_node-without q id [] h = ground arith
find_node-without q id (n ∷ ns) (good, alone, rest) =
    ground (arith, find_node-without q id ns rest, find_node-absent q ns)
