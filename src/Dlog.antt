-- ===== src/Dlog.antt =====
-- librale/src/dlog.c: a log of entries for each of at most ten nodes. The mutex is held for the whole of
-- each step and has no state of its own. Of the array of a log the entries in use are a list.
pub mod Views
pub mod Append
pub mod Latest
use rale.Base.{
  ℕ, zero, suc, ◌+◌, ◌-◌, Bool, true, false, ◌||◌, not, List, [], ◌∷◌, ◌++◌, Option, none, some,
  leb, ltb, ◌==◌, if◌then◌else◌, length, drop, ℤ, pos, negsuc, ◌==ℤ◌,
}
use rale.Text.{Bytes, strlcpy}
use rale.Hash.{Outcome, done, undefined}
use rale.TcpServer.{set_at}

pub record LogEntry : Type 0 where
  pub term : ℤ
  pub entry : Bytes

pub record NodeLog : Type 0 where
  pub entries : List LogEntry
  pub commit_index : ℕ

-- `node_logs`, and `node_id_map` up to `node_map_count`.
pub record Dlog : Type 0 where
  pub node_logs : ℕ → NodeLog
  pub node_id_map : List ℤ

abbrev pub max_nodes : ℕ
max_nodes = 10

abbrev pub max_log_entries : ℕ
max_log_entries = 4096

abbrev pub no_entries : NodeLog
no_entries = record { entries = []; commit_index = 0 }

-- The loop of `get_node_index`, from index `i` on.
unfoldable pub index_from : ℕ → ℤ → List ℤ → Option ℕ
index_from i id [] = none
index_from i id (n ∷ ns) = let rest = index_from (suc i) id ns in if n ==ℤ id then some i else rest

-- `none` is -1.
unfoldable pub get_node_index : Dlog → ℤ → Dlog × Option ℕ
unfolding index_from
get_node_index d id = elim (index_from 0 id d.node_id_map) [
  | some i ↦ (d, some i)
  | none ↦
      if ltb (length d.node_id_map) max_nodes
      then (record d { node_id_map = d.node_id_map ++ id ∷ [] }, some (length d.node_id_map))
      else (d, none)
]

-- The map of the ids stays.
unfoldable pub dlog_init : Dlog → Dlog
dlog_init d = record d { node_logs = λ i. no_entries }

unfoldable pub dlog_finit : Dlog → Dlog
dlog_finit d = record d { node_logs = λ i. no_entries }

-- The entry at the end of the log at an index. `memory` says whether `rstrdup` succeeds.
unfoldable pub append_at : Bool → Dlog → ℕ → ℤ → Bytes → Dlog × Bool
append_at memory d i term entry =
    let log = d.node_logs i in
    if leb max_log_entries (length log.entries) || not memory then (d, false) else (
      record d {
        node_logs =
            set_at d.node_logs i
              (record log { entries = log.entries ++ record { term = term; entry = entry } ∷ [] });
      },
      true,
    )

-- `true` is the result 0. The index is taken first, whether or not there is an entry.
abbrev pub append_found : Bool → ℤ → Option Bytes → Dlog × Option ℕ → Dlog × Bool
append_found memory term entry (d, none) = (d, false)
append_found memory term none (d, some i) = (d, false)
append_found memory term (some entry) (d, some i) = append_at memory d i term entry

unfoldable pub dlog_append_entry : Bool → Dlog → ℤ → ℤ → Option Bytes → Dlog × Bool
unfolding get_node_index append_at
dlog_append_entry memory d id term entry = append_found memory term entry (get_node_index d id)

unfoldable pub dlog_put : Bool → Dlog → Option Bytes → Dlog × Bool
dlog_put memory d value = dlog_append_entry memory d (pos 0) (pos 0) value

abbrev pub last_entry : List LogEntry → Option Bytes
last_entry [] = none
last_entry (e ∷ []) = some e.entry
last_entry (e ∷ f ∷ es) = last_entry (f ∷ es)

-- The last entry of the log at index 0, cut to `room` bytes.
unfoldable pub dlog_get : Dlog → ℕ → Option Bytes
dlog_get d room =
    if room == 0
    then none
    else elim (last_entry (d.node_logs 0).entries) [ none ↦ none | some v ↦ some (strlcpy v room) ]

abbrev pub compact_log : NodeLog → ℕ → NodeLog
compact_log log n = record { entries = drop n log.entries; commit_index = 0 }

-- A negative index copies entries from before the array.
abbrev pub compact_found : ℤ → Dlog × Option ℕ → Outcome (Dlog × Bool)
compact_found up_to (d, none) = done (d, false)
compact_found (pos n) (d, some i) =
    done (record d { node_logs = set_at d.node_logs i (compact_log (d.node_logs i) n) }, true)
compact_found (negsuc n) (d, some i) = undefined

unfoldable pub dlog_compact : Dlog → ℤ → ℤ → Outcome (Dlog × Bool)
unfolding get_node_index
dlog_compact d id up_to = compact_found up_to (get_node_index d id)
