-- ===== src/Dstore/Commands.antt =====
-- librale/src/dstore.c: `dstore_put_from_command` and what it calls, one function for each command.
use rale.Base.{
  ℕ, Bool, true, false, ◌&&◌, ◌||◌, not, List, [], ◌∷◌, ◌++◌, Option, none, some, leb, ltb, ◌==◌,
  if◌then◌else◌, ℤ, minus_one, ◌==ℤ◌, is_nonneg, take, drop, length, to_uint,
}
use rale.Text.{Bytes, codes, strchr, starts_with}
use rale.Text.Number.{format_int, atoi, is_digit}
use rale.Hash.{◌>>=◌, max_key_size, max_value_size}
use rale.Db.{DbResult, db_success, db_insert}
use rale.StateFile.{dstore_get_current_leader, first_int, rest_of}
use rale.StateFile.Words.{words}
use rale.Cluster.{max_nodes}
use rale.Cluster.File.{cluster_add_node_stored, cluster_remove_node_stored}
use rale.Proto.Handle.{elected_args}
use rale.Dstore.{
  Env, Action, skip, update, ◌>>◌, cluster_of, find_node_index_by_id, is_leader, write_leader,
  dstore_save_to_rale_db,
}
use rale.Dstore.Peers.{count, dstore_send_message, dstore_replicate_to_followers}
use rale.Dstore.Spread.{dstore_broadcast_leader_snapshot}

-- `db_insert`, then `next` unless it fails.
abbrev pub insert_then : Env → Bytes → Bytes → (DbResult → Action) → Action
insert_then env key value next d = do
  r ← db_insert env.memory d.db (some key) (some value)
  next r.1 (record d { db = r.0 })

abbrev pub is_success : DbResult → Bool
is_success db_success = true
is_success _ = false

-- The database write of `dstore_put_from_command`, and what follows it.
unfoldable pub store_pair : Env → Bytes → Bytes → Action
store_pair env key value = insert_then env key value λ r.
    if is_success r
    then dstore_save_to_rale_db env key value >> dstore_replicate_to_followers env key value
    else skip

-- `key` and `value` may be NULL; `false` is the result -1.
abbrev pub handle_put_result : Option Bytes → Option Bytes → Bool
handle_put_result (some key) (some value) = true
handle_put_result _ _ = false

unfoldable pub dstore_handle_put : Env → Option Bytes → Option Bytes → Action
unfolding store_pair
dstore_handle_put env (some key) (some value) = store_pair env key value
dstore_handle_put env (some key) none = skip
dstore_handle_put env none value = skip

-- A write that comes to another node than the leader.
unfoldable pub forward_to_leader : Env → Bytes → Action
forward_to_leader env message d =
    let leader = dstore_get_current_leader d.state_file in
    let index = find_node_index_by_id d leader in
    if leader ==ℤ minus_one || leader ==ℤ (cluster_of d).self_id
    then skip d
    else if not (index == max_nodes) && (d.links index).connection_status
    then dstore_send_message env index (take 511 message) d
    else skip d

-- A "PUT" once the key and the value are copied.
unfoldable pub put_pair : Env → Bytes → Bytes → Action
put_pair env key value d =
    if is_leader d
    then store_pair env key value d
    else forward_to_leader env (codes "FORWARD_PUT " ++ (key ++ 61 ∷ value)) d

abbrev pub is_long_pair : Bytes → Bytes → Bool
is_long_pair key value =
    length key == 0 || (leb max_key_size (length key) || leb max_value_size (length value))

unfoldable pub put_split : Env → Option (Bytes × Bytes) → Action
put_split env none = skip
put_split env (some (key, value)) = if is_long_pair key value then skip else put_pair env key value

-- The early returns of the "FORWARD_PUT" branch.
abbrev pub is_bad_forward : Option (Bytes × Bytes) → Bool
is_bad_forward none = true
is_bad_forward (some (key, value)) = is_long_pair key value

-- "LEADER_ELECTED"
unfoldable pub store_leader : Env → ℤ → ℤ → Action
store_leader env term leader =
    insert_then env (codes "rale_leader_term_" ++ format_int term) (format_int leader) (λ r. skip)
    >> write_leader env term leader
    >> dstore_broadcast_leader_snapshot env term leader

unfoldable pub leader_elected : Env → Bytes → Action
leader_elected env params =
    let args = elected_args (strchr 32 params) params in
    if is_nonneg args.0 && is_nonneg args.1 then store_leader env args.0 args.1 else skip

-- "LEADER"
unfoldable pub leader_snapshot : Env → Bytes → Action
leader_snapshot env params =
    let args = elected_args (strchr 32 params) params in
    if is_nonneg args.0 && is_nonneg args.1 then write_leader env args.0 args.1 else skip

-- The tokens of "PROPAGATE_ADD": `char name[64]`, `char ip[16]`, and the ports.
pub record Joining : Type 0 where
  pub node_id : ℤ
  pub name : Bytes
  pub ip : Bytes
  pub rale_port : ℕ
  pub dstore_port : ℕ

abbrev pub first_text : ℕ → List Bytes → Bytes
first_text size [] = []
first_text size (w ∷ ws) = take size w

abbrev pub first_port : List Bytes → ℕ
first_port [] = 0
first_port (w ∷ ws) = to_uint 16 (atoi w)

abbrev pub is_space : ℕ → Bool
is_space c = c == 32

unfoldable pub joining_of : List Bytes → Joining
joining_of ws = record {
  node_id = first_int ws;
  name = first_text 63 (rest_of ws);
  ip = first_text 15 (rest_of (rest_of ws));
  rale_port = first_port (rest_of (rest_of (rest_of ws)));
  dstore_port = first_port (rest_of (rest_of (rest_of (rest_of ws))));
}

abbrev pub is_complete : Joining → Bool
is_complete j =
    is_nonneg j.node_id
    && (ltb 0 (length j.name)
        && (ltb 0 (length j.ip) && (ltb 0 j.rale_port && ltb 0 j.dstore_port)))

unfoldable pub dstore_handle_propagated_add : Env → Bytes → Action
dstore_handle_propagated_add env command d =
    let j = joining_of (words is_space [] (drop 13 command)) in
    if is_complete j
    then update
        (λ d. record d {
          stored =
              (cluster_add_node_stored env.writable env.now d.stored j.node_id (some j.name)
                (some j.ip) j.rale_port j.dstore_port).0;
        })
        d
    else skip d

-- `isdigit(*s) ? atoi(s) : -1`
abbrev pub digits_of : Bytes → ℤ
digits_of [] = minus_one
digits_of (c ∷ s) = if is_digit c then atoi (c ∷ s) else minus_one

-- The number is read one byte too early, at the space.
unfoldable pub dstore_handle_propagated_remove : Env → Bytes → Action
dstore_handle_propagated_remove env command d =
    let id = digits_of (drop 16 command) in
    if is_nonneg id
    then update (λ d. record d { stored = (cluster_remove_node_stored env.writable d.stored id).0 })
        d
    else skip d

-- What is left when the "FORWARD_PUT" branch has not returned.
unfoldable pub plain_command : Env → Bytes → Action
plain_command env command =
    if starts_with (codes "PROPAGATE_ADD ") command
    then dstore_handle_propagated_add env command
    else if starts_with (codes "PROPAGATE_REMOVE ") command
    then dstore_handle_propagated_remove env command
    else if starts_with (codes "PUT ") command
    then put_split env (strchr 61 (drop 4 command))
    else skip

unfoldable pub dstore_put_from_command : Env → Bytes → Action
dstore_put_from_command env command d =
    if count d == 0
    then skip d
    else if starts_with (codes "LEADER_ELECTED ") command
    then leader_elected env (drop 15 command) d
    else if starts_with (codes "LEADER ") command
    then leader_snapshot env (drop 7 command) d
    else if starts_with (codes "FORWARD_PUT ") command
        && is_bad_forward (strchr 61 (drop 12 command))
    then skip d
    else plain_command env command d
