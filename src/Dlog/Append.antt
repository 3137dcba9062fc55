-- ===== src/Dlog/Append.antt =====
-- dlog_append_entry on the logs of all nodes.
use rale.Base.{
  ℕ, ◌≡◌, ◌≢◌, ◌≤◌, ◌<◌, refl, ap, ◌∙◌, Bool, true, false, ◌&&◌, ◌||◌, not, [], ◌∷◌, ◌++◌, some,
  leb, ltb, ◌==◌, length, length-append, ℤ, ◌==ℤ◌, ==ℤ_iff, Bool-cases, Option-cases, inl, inr,
  arith,
}
use rale.Text.{Bytes}
use rale.TcpServer.{set_at}
use rale.Dlog.{
  LogEntry, NodeLog, Dlog, max_nodes, max_log_entries, index_from, append_at, dlog_append_entry,
}
use rale.Dlog.Views.{
  log_of, IsValid, index_from-bounds, index_from-same, index_from-new, Appends, is_accepted,
  with_id, with_id-log, with_id-IsValid, Appends-with_id, get_node_index-known, get_node_index-new,
  get_node_index-full,
}

set_at_same : {A : Type 0} (f : ℕ → A) (i : ℕ) (a : A) → set_at f i a i ≡ a
set_at_same f i a = ground arith

set_at_other : {A : Type 0} (f : ℕ → A) (i j : ℕ) (a : A) → i ≢ j → set_at f i a j ≡ f j
set_at_other f i j a h = ground arith

module _ (d : Dlog) (i : ℕ) (id : ℤ) (new : LogEntry) (valid : IsValid d)
    (found : index_from 0 id d.node_id_map ≡ some i) where
  abbrev longer : NodeLog
  longer = record (d.node_logs i) { entries = (d.node_logs i).entries ++ new ∷ [] }

  abbrev appended : Dlog
  appended = record d { node_logs = set_at d.node_logs i longer }

  appended-IsValid : length (d.node_logs i).entries < max_log_entries → IsValid appended
  appended-IsValid room = record { few = valid.few; short = short; fresh = fresh }
    where
      short : (j : ℕ) → length (appended.node_logs j).entries ≤ max_log_entries
      short j = elim (Bool-cases (i == j)) [
        | inl e ↦ rw (e, length-append (d.node_logs i).entries (new ∷ [])) (omega arith)
        | inr e ↦ rw e (valid.short j)
      ]

      fresh : (j : ℕ) → length d.node_id_map ≤ j → (appended.node_logs j).entries ≡ []
      fresh j far =
          let near = index_from-bounds 0 id d.node_id_map i found in
          rw (set_at_other d.node_logs i j longer (λ e. omega (arith, e, near))) (valid.fresh j far)

  appended-others : (q : ℤ) → (id ==ℤ q) ≡ false → log_of appended q ≡ log_of d q
  appended-others q differs = elim (Option-cases (index_from 0 q d.node_id_map)) [
    | inl e ↦ rw e refl
    | inr (j, e) ↦
        rw e (ap (λ l. l.entries) (set_at_other d.node_logs i j longer (λ same. other j e same)))
  ]
    where
      other : (j : ℕ) → index_from 0 q d.node_id_map ≡ some j → i ≡ j → ⊥
      other j e same =
          let equal =
            (==ℤ_iff id q).1
              (index_from-same 0 id q d.node_id_map j (found ∙ ap (λ k. some k) same) e) in
          cc

  append_at-Appends :
      (memory : Bool)
      → Appends d id new
          (memory && ltb (length (log_of d id)) max_log_entries)
          (append_at memory d i new.term new.entry)
  unfolding append_at
  append_at-Appends memory =
      let held = (d.node_logs i).entries in
      rw found (elim (Bool-cases (memory && ltb (length held) max_log_entries)) [
        | inl e ↦
            let full : leb max_log_entries (length held) || not memory ≡ false = ground arith in
            rw (e, full, append_at)
              (record {
                valid = appended-IsValid (ground arith);
                answers = refl;
                own = rw found (ap (λ l. l.entries) (set_at_same d.node_logs i longer));
                others = appended-others;
              })
        | inr e ↦
            let full : leb max_log_entries (length held) || not memory ≡ true = ground arith in
            rw (e, full, append_at)
              (record { valid = valid; answers = refl; own = refl; others = λ q h. refl })
      ])

-- On logs that stay inside their arrays, `dlog_append_entry` of an entry puts it at the end of the log
-- of the node, and answers 0, exactly if the node has a place among the ten of the map or gets one, the
-- log has fewer than 4096 entries, and there is memory; otherwise it answers -1 and no log changes. The
-- logs of all other nodes stay as they are.
pub dlog_append_entry-Appends :
    (memory : Bool) (d : Dlog) (id term : ℤ) (entry : Bytes)
    → IsValid d
    → Appends d id
        (record { term = term; entry = entry })
        (is_accepted memory d id)
        (dlog_append_entry memory d id term (some entry))
unfolding dlog_append_entry
dlog_append_entry-Appends memory d id term entry valid =
    elim (Option-cases (index_from 0 id d.node_id_map)) [
      | inr (i, e) ↦
          let accepted : is_accepted memory d id
              ≡ memory && ltb (length (log_of d id)) max_log_entries =
            rw e refl in
          rw (get_node_index-known d id i e, accepted)
            (append_at-Appends d i id (record { term = term; entry = entry }) valid e memory)
      | inl e ↦ elim (Bool-cases (ltb (length d.node_id_map) max_nodes)) [
        | inl room ↦
            let place : index_from 0 id (d.node_id_map ++ id ∷ []) ≡ some (length d.node_id_map) =
              index_from-new 0 id d.node_id_map e ∙ ap (λ m. some m) (omega arith) in
            let accepted : is_accepted memory d id
                ≡ memory && ltb (length (log_of (with_id d id) id)) max_log_entries =
              rw (with_id-log d id id valid e, e, room) refl in
            rw (get_node_index-new d id e room, accepted)
              (Appends-with_id d id (record { term = term; entry = entry }) _ _ valid e
                (append_at-Appends (with_id d id) (length d.node_id_map) id
                  (record { term = term; entry = entry })
                  (with_id-IsValid d id valid (ground arith)) place memory))
        | inr full ↦
            rw (get_node_index-full d id e full, e, full)
              (record {
                valid = valid;
                answers = refl;
                own = rw e refl;
                others = λ q differs. refl;
              })
      ]
    ]
