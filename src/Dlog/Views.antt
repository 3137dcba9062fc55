-- ===== src/Dlog/Views.antt =====
-- The log that a node id stands for, and how `get_node_index` of dlog.c finds it.
use rale.Base.{
  ℕ, suc, ◌+◌, ◌≡◌, ◌≤◌, ◌<◌, refl, sym, ap, ◌∙◌, Bool, true, false, ◌&&◌, List, [], ◌∷◌, ◌++◌,
  Option, none, some, ltb, if◌then◌else◌, length, length-append, ℤ, ◌==ℤ◌, ==ℤ_iff, Bool-cases, inl,
  inr, arith,
}
use rale.Dlog.{LogEntry, Dlog, max_nodes, max_log_entries, index_from, get_node_index}

abbrev pub log_at : Dlog → Option ℕ → List LogEntry
log_at d none = []
log_at d (some i) = (d.node_logs i).entries

-- The log of a node; one that is not in the map has an empty log.
abbrev pub log_of : Dlog → ℤ → List LogEntry
log_of d id = log_at d (index_from 0 id d.node_id_map)

-- The logs stay inside their arrays, and a place that no node has is empty.
pub record IsValid (d : Dlog) : Type 0 where
  pub few : length d.node_id_map ≤ max_nodes
  pub short : (i : ℕ) → length (d.node_logs i).entries ≤ max_log_entries
  pub fresh : (i : ℕ) → length d.node_id_map ≤ i → (d.node_logs i).entries ≡ []

pub index_from-bounds :
    (i : ℕ) (id : ℤ) (ns : List ℤ) (j : ℕ)
    → index_from i id ns ≡ some j
    → (i ≤ j) × (j < i + length ns)
unfolding index_from
index_from-bounds i id [] j h = cc
index_from-bounds i id (n ∷ ns) j h = ground (arith, index_from-bounds (suc i) id ns j)

-- Two ids at one index are the same.
pub index_from-same :
    (i : ℕ) (id q : ℤ) (ns : List ℤ) (j : ℕ)
    → index_from i id ns ≡ some j
    → index_from i q ns ≡ some j
    → id ≡ q
unfolding index_from
index_from-same i id q [] j h k = cc
index_from-same i id q (n ∷ ns) j h k = elim (Bool-cases (n ==ℤ id)) [
  | inl e ↦ elim (Bool-cases (n ==ℤ q)) [
    | inl f ↦ sym ((==ℤ_iff n id).0 e) ∙ (==ℤ_iff n q).0 f
    | inr f ↦ absurd (ground (arith, rw e at h, rw f at k, index_from-bounds (suc i) q ns j))
  ]
  | inr e ↦ elim (Bool-cases (n ==ℤ q)) [
    | inl f ↦ absurd (ground (arith, rw e at h, rw f at k, index_from-bounds (suc i) id ns j))
    | inr f ↦ index_from-same (suc i) id q ns j (rw e at h) (rw f at k)
  ]
]

-- A new id gets the index behind the map.
pub index_from-new :
    (i : ℕ) (id : ℤ) (ns : List ℤ)
    → index_from i id ns ≡ none
    → index_from i id (ns ++ id ∷ []) ≡ some (i + length ns)
unfolding index_from
index_from-new i id [] h = ground arith
index_from-new i id (n ∷ ns) h = elim (Bool-cases (n ==ℤ id)) [
  | inl e ↦ absurd (ground (arith, rw e at h))
  | inr e ↦ rw (e, index_from-new (suc i) id ns (rw e at h)) (ap (λ m. some m) (omega arith))
]

index_from-other :
    (i : ℕ) (id q : ℤ) (ns : List ℤ)
    → (id ==ℤ q) ≡ false
    → index_from i q (ns ++ id ∷ []) ≡ index_from i q ns
unfolding index_from
index_from-other i id q [] h = rw h refl
index_from-other i id q (n ∷ ns) h = rw (index_from-other (suc i) id q ns h) refl

-- What an append does to the logs of all nodes.
pub record Appends (d : Dlog) (id : ℤ) (new : LogEntry) (accepted : Bool) (r : Dlog × Bool)
    : Type 0 where
  pub valid : IsValid r.0
  pub answers : r.1 ≡ accepted
  pub own : log_of r.0 id ≡ (if accepted then log_of d id ++ new ∷ [] else log_of d id)
  pub others : (q : ℤ) → (id ==ℤ q) ≡ false → log_of r.0 q ≡ log_of d q

-- Memory, a place in the map, and space in the log.
abbrev pub has_place : Dlog → Option ℕ → Bool
has_place d none = ltb (length d.node_id_map) max_nodes
has_place d (some i) = true

abbrev pub is_accepted : Bool → Dlog → ℤ → Bool
is_accepted memory d id =
    has_place d (index_from 0 id d.node_id_map)
    && (memory && ltb (length (log_of d id)) max_log_entries)

-- A new id in the map.
abbrev pub with_id : Dlog → ℤ → Dlog
with_id d id = record d { node_id_map = d.node_id_map ++ id ∷ [] }

pub with_id-log :
    (d : Dlog) (id q : ℤ)
    → IsValid d
    → index_from 0 id d.node_id_map ≡ none
    → log_of (with_id d id) q ≡ log_of d q
with_id-log d id q valid new = elim (Bool-cases (id ==ℤ q)) [
  | inl e ↦ rw (← (==ℤ_iff id q).0 e) (
      rw (index_from-new 0 id d.node_id_map new, new)
        (valid.fresh (0 + length d.node_id_map) (omega arith)))
  | inr e ↦ rw (index_from-other 0 id q d.node_id_map e) refl
]

pub with_id-IsValid :
    (d : Dlog) (id : ℤ) → IsValid d → length d.node_id_map < max_nodes → IsValid (with_id d id)
with_id-IsValid d id valid room =
    let longer = length-append d.node_id_map (id ∷ []) in
    record {
      few = omega (arith, longer);
      short = valid.short;
      fresh = λ i far. valid.fresh i (omega (arith, longer, far));
    }

pub Appends-with_id :
    (d : Dlog) (id : ℤ) (new : LogEntry) (b : Bool) (r : Dlog × Bool)
    → IsValid d
    → index_from 0 id d.node_id_map ≡ none
    → Appends (with_id d id) id new b r
    → Appends d id new b r
Appends-with_id d id new b r valid e h = record {
  valid = h.valid;
  answers = h.answers;
  own = rw (← with_id-log d id id valid e) h.own;
  others = λ q differs. h.others q differs ∙ with_id-log d id q valid e;
}

-- The three results of `get_node_index`.
pub get_node_index-known :
    (d : Dlog) (id : ℤ) (i : ℕ)
    → index_from 0 id d.node_id_map ≡ some i
    → get_node_index d id ≡ (d, some i)
unfolding get_node_index
get_node_index-known d id i e = simp (e, get_node_index)

pub get_node_index-new :
    (d : Dlog) (id : ℤ)
    → index_from 0 id d.node_id_map ≡ none
    → ltb (length d.node_id_map) max_nodes ≡ true
    → get_node_index d id ≡ (with_id d id, some (length d.node_id_map))
unfolding get_node_index
get_node_index-new d id e room = simp (e, room, get_node_index)

pub get_node_index-full :
    (d : Dlog) (id : ℤ)
    → index_from 0 id d.node_id_map ≡ none
    → ltb (length d.node_id_map) max_nodes ≡ false
    → get_node_index d id ≡ (d, none)
unfolding get_node_index
get_node_index-full d id e full = simp (e, full, get_node_index)
