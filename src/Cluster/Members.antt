-- ===== src/Cluster/Members.antt =====
-- The invariant of the cluster, and what adding a node does to its members.
use rale.Base.{
  ℕ, suc, ◌+◌, ◌-◌, ◌≤◌, ◌<◌, ◌≡◌, ◌≢◌, refl, ◌∙◌, sym, List, [], ◌∷◌, ◌++◌, Option, none, some,
  arith, length, length-set, length-take, set, get_or, ℤ, pos, negsuc, ◌==ℤ◌, Bool-cases, inl, inr,
  true, false, ◌⊎◌, ◌≤ℤ◌, min, subst,
}
use rale.Text.{Bytes, strlcpy}
use rale.Cluster.{
  Node, Cluster, ClusterError, Status, success, failure, zero_node, active, position, add_status,
  new_node, text_of, cluster_add_node,
}
use rale.Cluster.Active.{without, take-set_next}

-- A node as `cluster_add_node` makes it.
pub record IsGood (n : Node) : Type 0 where
  pub id_low : pos 1 ≤ℤ n.id
  pub id_high : n.id ≤ℤ pos 1000
  pub name_low : 0 < length n.name
  pub name_high : length n.name ≤ 254
  pub ip_low : 0 < length n.ip
  pub ip_high : length n.ip ≤ 46
  pub rale_low : 0 < n.rale_port
  pub rale_high : n.rale_port ≤ 65535
  pub dstore_low : 0 < n.dstore_port
  pub dstore_high : n.dstore_port ≤ 65535

-- Good nodes with different ids.
abbrev pub AreMembers : List Node → Type 0
AreMembers [] = Unit
AreMembers (n ∷ ns) = IsGood n × (position n.id ns ≡ none) × AreMembers ns

pub record IsValid (c : Cluster) : Type 0 where
  pub width : length c.nodes ≡ 10
  pub bound : c.node_count ≤ 10
  pub members : AreMembers (active c)

position_append :
    (id : ℤ) (ns : List Node) (v : Node)
    → position id ns ≡ none
    → (v.id ==ℤ id) ≡ false
    → position id (ns ++ v ∷ []) ≡ none
unfolding position
position_append id [] v h e = rw e
position_append id (n ∷ ns) v h e = ground (arith, position_append id ns v)

==ℤ_flip : (a b : ℤ) → (a ==ℤ b) ≡ false → (b ==ℤ a) ≡ false
==ℤ_flip (pos a) (pos b) h = ground arith
==ℤ_flip (pos a) (negsuc b) h = ground arith
==ℤ_flip (negsuc a) (pos b) h = ground arith
==ℤ_flip (negsuc a) (negsuc b) h = ground arith

AreMembers-append :
    (ns : List Node) (v : Node)
    → AreMembers ns
    → IsGood v
    → position v.id ns ≡ none
    → AreMembers (ns ++ v ∷ [])
AreMembers-append [] v h good new = (good, unfold position in refl, tt)
AreMembers-append (n ∷ ns) v h good new =
    let (other, rest) = absent_cons v.id n ns new in
    (
      h.0,
      position_append n.id ns v h.1 (==ℤ_flip n.id v.id other),
      AreMembers-append ns v h.2 good rest,
    )
  where
    absent_cons :
        (id : ℤ) (n : Node) (ns : List Node)
        → position id (n ∷ ns) ≡ none
        → ((n.id ==ℤ id) ≡ false) × (position id ns ≡ none)
    absent_cons id n ns h = unfold position in ground arith

position-without :
    (q id : ℤ) (ns : List Node) → position q ns ≡ none → position q (without id ns) ≡ none
unfolding position without
position-without q id [] h = h
position-without q id (n ∷ ns) h = ground (arith, position-without q id ns)

pub AreMembers-without : (id : ℤ) (ns : List Node) → AreMembers ns → AreMembers (without id ns)
unfolding without
AreMembers-without id [] h = tt
AreMembers-without id (n ∷ ns) h = elim (Bool-cases (n.id ==ℤ id)) [
  | inl e ↦ rw e h.2
  | inr e ↦ rw e (h.0, position-without n.id id ns h.1, AreMembers-without id ns h.2)
]

length-strlcpy : (s : Bytes) (n : ℕ) → length (strlcpy s (suc n)) ≡ min n (length s)
unfolding strlcpy
length-strlcpy s n = rw sub-one_suc (length-take n s)
  where
    sub-one_suc : suc n - 1 ≡ n
    sub-one_suc = omega arith

-- What a success of the checks says.
pub record Accepted (c : Cluster) (id : ℤ) (name ip : Bytes) (rale_port dstore_port : ℕ)
    : Type 0 where
  pub id_low : pos 1 ≤ℤ id
  pub id_high : id ≤ℤ pos 1000
  pub name_low : 0 < length name
  pub name_high : length name ≤ 256
  pub ip_low : 0 < length ip
  pub ip_high : length ip ≤ 46
  pub rale_low : 0 < rale_port
  pub rale_high : rale_port ≤ 65535
  pub dstore_low : 0 < dstore_port
  pub dstore_high : dstore_port ≤ 65535
  pub new : position id (active c) ≡ none
  pub room : c.node_count < 10
  pub on : c.initialized ≡ true

pub add_status-Accepted :
    (c : Cluster) (id : ℤ) (name ip : Option Bytes) (rale_port dstore_port : ℕ)
    → add_status c id name ip rale_port dstore_port ≡ success
    → Accepted c id (text_of name) (text_of ip) rale_port dstore_port
unfolding add_status
add_status-Accepted c id none ip rale_port dstore_port h = ground arith
add_status-Accepted c id (some name) none rale_port dstore_port h = ground arith
add_status-Accepted c id (some name) (some ip) rale_port dstore_port h = ground arith

Accepted-IsGood :
    (c : Cluster) (old : Node) (id : ℤ) (name ip : Bytes) (rale_port dstore_port now : ℕ)
    → Accepted c id name ip rale_port dstore_port
    → IsGood (new_node old id name ip rale_port dstore_port now)
unfolding new_node
Accepted-IsGood c old id name ip rale_port dstore_port now a =
    let name_cut = length-strlcpy name 254 in
    let ip_cut = length-strlcpy ip 63 in
    record {
      id_low = a.id_low;
      id_high = a.id_high;
      name_low = omega (arith, a.name_low);
      name_high = omega arith;
      ip_low = omega (arith, a.ip_low);
      ip_high = omega (arith, a.ip_high);
      rale_low = a.rale_low;
      rale_high = a.rale_high;
      dstore_low = a.dstore_low;
      dstore_high = a.dstore_high;
    }

-- The node that an accepted call writes.
abbrev pub added : ℕ → Cluster → ℤ → Option Bytes → Option Bytes → ℕ → ℕ → Node
added now c id name ip rale_port dstore_port =
    new_node (get_or c.nodes c.node_count zero_node) id (text_of name) (text_of ip) rale_port
      dstore_port now

-- After adding `n` with the status of `r`: the new node stands behind the old members, or nothing has
-- changed.
pub record Adds (c : Cluster) (n : Node) (status : Status) (r : Cluster × Status) : Type 0 where
  pub valid : IsValid r.0
  pub answers : r.1 ≡ status
  pub same_on : r.0.initialized ≡ c.initialized
  pub appended : status ≡ success → active r.0 ≡ active c ++ n ∷ []
  pub unchanged : status ≢ success → r.0 ≡ c

Status-cases : (s : Status) → (s ≡ success) ⊎ ((e : ClusterError) × (s ≡ failure e))
Status-cases success = inl refl
Status-cases (failure e) = inr (e, refl)

module _ (now : ℕ) (c : Cluster) (id : ℤ) (name ip : Option Bytes) (rale_port dstore_port : ℕ) where
  with_added : Cluster
  with_added = record c {
    nodes = set c.nodes c.node_count (added now c id name ip rale_port dstore_port);
    node_count = c.node_count + 1;
  }

  add_accepted :
      add_status c id name ip rale_port dstore_port ≡ success
      → cluster_add_node now c id name ip rale_port dstore_port ≡ (with_added, success)
  unfolding cluster_add_node with_added
  add_accepted e = rw (e, cluster_add_node)

  add_refused :
      (x : ClusterError)
      → add_status c id name ip rale_port dstore_port ≡ failure x
      → cluster_add_node now c id name ip rale_port dstore_port ≡ (c, failure x)
  unfolding cluster_add_node
  add_refused x e = simp (e, cluster_add_node)

  with_added-Adds :
      IsValid c
      → Accepted c id (text_of name) (text_of ip) rale_port dstore_port
      → Adds c (added now c id name ip rale_port dstore_port) success (with_added, success)
  unfolding with_added
  with_added-Adds valid a =
      let n = added now c id name ip rale_port dstore_port in
      let longer = take-set_next c.nodes c.node_count n (omega (arith, valid.width, a.room)) in
      let good =
        Accepted-IsGood c (get_or c.nodes c.node_count zero_node) id (text_of name) (text_of ip)
          rale_port dstore_port now a in
      record {
        valid = record {
          width = length-set c.nodes c.node_count n ∙ valid.width;
          bound = omega (arith, a.room);
          members =
              subst AreMembers (sym longer)
                (AreMembers-append (active c) n valid.members good (unfold new_node in a.new));
        };
        answers = refl;
        same_on = refl;
        appended = λ _. longer;
        unchanged = λ h. absurd (h refl);
      }

  -- On a valid cluster `cluster_add_node` answers by its checks. If they pass, the new node, with its
  -- name and address cut to their fields, stands behind the members that were there; if not, nothing
  -- changes. The ids stay different and in range, and there are at most ten members.
  pub cluster_add_node-Adds :
      IsValid c
      → Adds c
          (added now c id name ip rale_port dstore_port)
          (add_status c id name ip rale_port dstore_port)
          (cluster_add_node now c id name ip rale_port dstore_port)
  cluster_add_node-Adds valid =
      elim (Status-cases (add_status c id name ip rale_port dstore_port)) [
        | inl e ↦
            rw (e, add_accepted e)
              (with_added-Adds valid (add_status-Accepted c id name ip rale_port dstore_port e))
        | inr (x, e) ↦
            rw (e, add_refused x e)
              (record {
                valid = valid;
                answers = refl;
                same_on = refl;
                appended = λ h. cc;
                unchanged = λ _. refl;
              })
      ]
