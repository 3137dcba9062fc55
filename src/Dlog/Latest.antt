-- ===== src/Dlog/Latest.antt =====
-- dlog_put and dlog_get, which go by different numbers.
use rale.Base.{
  ℕ, suc, ◌≡◌, ◌<◌, refl, ◌∙◌, Bool, true, false, ◌||◌, not, List, [], ◌∷◌, ◌++◌, none, some, leb,
  ltb, ◌==◌, if◌then◌else◌, length, ℤ, pos, ◌==ℤ◌, Bool-cases, Option-cases, inl, inr, arith,
}
use rale.Text.{Bytes, strlcpy}
use rale.Dlog.{
  LogEntry, Dlog, max_nodes, max_log_entries, index_from, get_node_index, append_at,
  dlog_append_entry, dlog_put, dlog_get, last_entry,
}
use rale.Dlog.Views.{
  index_from-bounds, with_id, get_node_index-known, get_node_index-new, get_node_index-full,
}

last_entry-append : (es : List LogEntry) (e : LogEntry) → last_entry (es ++ e ∷ []) ≡ some e.entry
last_entry-append [] e = refl
last_entry-append (f ∷ []) e = refl
last_entry-append (f ∷ g ∷ es) e = last_entry-append (g ∷ es) e

append_at-get :
    (memory : Bool) (d : Dlog) (i : ℕ) (term : ℤ) (entry : Bytes) (room : ℕ)
    → (append_at memory d i term entry).1 ≡ true
    → dlog_get (append_at memory d i term entry).0 (suc room)
      ≡ (if i == 0 then some (strlcpy entry (suc room)) else dlog_get d (suc room))
unfolding append_at dlog_get
append_at-get memory d i term entry room h =
    elim (Bool-cases (leb max_log_entries (length (d.node_logs i).entries) || not memory)) [
      | inl e ↦ let refused : false ≡ true = rw (e, append_at) at h in cc
      | inr e ↦
          rw (e, append_at)
            (elim (Bool-cases (i == 0)) [
              | inl first ↦
                  rw
                    (
                      first,
                      last_entry-append (d.node_logs i).entries
                          (record { term = term; entry = entry }),
                    )
                    (ground arith)
              | inr later ↦ rw later refl
            ])
    ]

-- The result of `dlog_put`, by the index that node 0 gets.
put_at :
    (memory : Bool) (d d' : Dlog) (i : ℕ) (value : Bytes)
    → get_node_index d (pos 0) ≡ (d', some i)
    → dlog_put memory d (some value) ≡ append_at memory d' i (pos 0) value
unfolding dlog_put dlog_append_entry
put_at memory d d' i value e = rw e refl

put_full :
    (memory : Bool) (d : Dlog) (value : Bytes)
    → get_node_index d (pos 0) ≡ (d, none)
    → dlog_put memory d (some value) ≡ (d, false)
unfolding dlog_put dlog_append_entry
put_full memory d value e = rw e refl

-- The index of node 0 is 0 exactly if it is the first node of the map.
put_later :
    (memory : Bool) (d : Dlog) (value : Bytes) (room : ℕ)
    → ((i : ℕ) → index_from 0 (pos 0) d.node_id_map ≡ some i → 0 < i)
    → 0 < length d.node_id_map
    → (dlog_put memory d (some value)).1 ≡ true
    → dlog_get (dlog_put memory d (some value)).0 (suc room) ≡ dlog_get d (suc room)
put_later memory d value room late some_id h =
    elim (Option-cases (index_from 0 (pos 0) d.node_id_map)) [
      | inr (i, e) ↦
          let run = put_at memory d d i value (get_node_index-known d (pos 0) i e) in
          let later : (i == 0) ≡ false = ground (arith, late i e) in
          rw run (append_at-get memory d i (pos 0) value room (rw run at h) ∙ rw later refl)
      | inl e ↦ elim (Bool-cases (ltb (length d.node_id_map) max_nodes)) [
        | inl space ↦
            let run =
              put_at memory d (with_id d (pos 0)) (length d.node_id_map) value
                (get_node_index-new d (pos 0) e space) in
            let later : (length d.node_id_map == 0) ≡ false = ground arith in
            rw run (
              append_at-get memory (with_id d (pos 0)) (length d.node_id_map) (pos 0) value room
                (rw run at h)
              ∙ rw later (unfold dlog_get in refl))
        | inr full ↦
            let run = put_full memory d value (get_node_index-full d (pos 0) e full) in
            let refused : false ≡ true = rw run at h in cc
      ]
    ]

-- What `dlog_get` finds, with room for the answer, after a `dlog_put` that has succeeded, if some node
-- stands in the map: the value, cut to the room, if the first node of the map is node 0, and what was
-- found before the call if it is another one.
dlog_get-dlog_put :
    (memory : Bool) (d : Dlog) (n : ℤ) (ns : List ℤ) (value : Bytes) (room : ℕ)
    → d.node_id_map ≡ n ∷ ns
    → (dlog_put memory d (some value)).1 ≡ true
    → dlog_get (dlog_put memory d (some value)).0 (suc room)
      ≡ (if n ==ℤ pos 0 then some (strlcpy value (suc room)) else dlog_get d (suc room))
unfolding index_from
dlog_get-dlog_put memory d n ns value room e h = elim (Bool-cases (n ==ℤ pos 0)) [
  | inl first ↦
      let found : index_from 0 (pos 0) d.node_id_map ≡ some 0 = rw (e, first) refl in
      let run = put_at memory d d 0 value (get_node_index-known d (pos 0) 0 found) in
      rw (run, first) (append_at-get memory d 0 (pos 0) value room (rw run at h))
  | inr other ↦ rw other (
      put_later memory d value room
        (λ i k.
          let beyond : index_from 1 (pos 0) ns ≡ some i = rw (e, other) at k in
          omega (arith, index_from-bounds 1 (pos 0) ns i beyond))
        (rw e (omega arith)) h)
]
