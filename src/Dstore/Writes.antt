-- ===== src/Dstore/Writes.antt =====
-- "PUT" and "GET" as a node without connections to its peers handles them.
use rale.Base.{
  ℕ, ◌≡◌, ◌<◌, refl, true, false, [], ◌∷◌, ◌++◌, Option, none, some, if◌then◌else◌, Bool-cases, ◌⊎◌,
  inl, inr, ◌==◌, length, ◌∙◌, arith, take,
}
use rale.Text.{Bytes, codes, strchr, starts_with, str_eq, strlcpy_whole, str_eq_refl}
use rale.Hash.{HashTable, ok, done, ◌>>=◌, hash, hash_func}
use rale.Hash.Laws.{IsValid, Puts, put_result, hash_put-Puts, is_too_long}
use rale.Hash.Buckets.{view}
use rale.Hash.Lookup.{hash_get_lem}
use rale.Db.{db_insert, db_get}
use rale.StateFile.Words.{Lacks, strchr-append}
use rale.Dstore.{Dstore, Env, is_leader, dstore_save_to_rale_db, text_before}
use rale.Dstore.Peers.{count, send_to_socket}
use rale.Dstore.Commands.{
  store_pair, put_pair, put_split, is_long_pair, plain_command, dstore_put_from_command,
}
use rale.Dstore.Server.{server_line, answer_get, value_answer}
use rale.Dstore.Silence.{IsIsolated}
use rale.Dstore.Idle.{Rests, Rests-if, IsIdle-skip, IsIdle-replicate, IsIdle-forward}

-- What a write leaves.
abbrev pub written : Env → Bytes → Bytes → HashTable → Dstore → Dstore
written env key value t d = record d {
  db = record {
    table = some t;
    file =
        if env.writable
        then some (text_before d.db.file ++ take 1023 (key ++ 61 ∷ (value ++ 10 ∷ [])))
        else d.db.file;
  };
}

store_pair_lem :
    (env : Env) (key value : Bytes) (t : HashTable) (d : Dstore)
    → IsIsolated d
    → d.db.table ≡ some t
    → IsValid t
    → (t' : HashTable) × (store_pair env key value d ≡ done (written env key value t' d, []))
      × Puts key value (view t) t' (put_result env.memory key value (view t key))
unfolding store_pair dstore_save_to_rale_db db_insert
store_pair_lem env key value t d h e valid =
    let (t', run, puts) = hash_put-Puts env.memory key value t valid in
    let rests =
      IsIdle-replicate env key value (written env key value t' d)
        (record { no_clients = h.no_clients; table = puts.valid }) in
    (t', simp (e, run, ◌>>=◌, rests.returns), puts)

abbrev pub put_message : Bytes → Bytes → Bytes
put_message key value = codes "PUT " ++ (key ++ 61 ∷ value)

put_command :
    (env : Env) (key value : Bytes) (d : Dstore)
    → (count d == 0) ≡ false
    → Lacks (λ c. c == 61) key
    → is_long_pair key value ≡ false
    → dstore_put_from_command env (put_message key value) d ≡ put_pair env key value d
unfolding dstore_put_from_command plain_command put_split starts_with
put_command env key value d members plain fits =
    rw members (rw (strchr-append 61 key value plain) (rw fits refl))

db_get_held :
    (t : HashTable) (file : Option Bytes) (key value : Bytes)
    → IsValid t
    → view t key ≡ some value
    → length value < 1024
    → db_get (record { table = some t; file = file }) (some key) 1024
      ≡ done (
        record { table = some t; file = file },
        if hash_func key == hash key then some value else none,
      )
unfolding db_get
db_get_held t file key value valid held short = elim (Bool-cases (hash_func key == hash key)) [
  | inl same ↦ rw (hash_get_lem t key 1023 valid, same, held, strlcpy_whole value 1024 short)
  | inr other ↦ rw (hash_get_lem t key 1023 valid, other)
]

not_long : (key value : Bytes) → is_long_pair key value ≡ false → is_too_long key value ≡ false
not_long key value fits = ground arith

-- On a store without clients and with a valid hash table, of a node that rale.state names as the leader
-- of a cluster that is not empty, with memory, "PUT key=value" for a key of 1 to 254 bytes without "="
-- and a value of at most 1023 stores the pair in the table, adds the first 1023 bytes of its line to
-- rale.db if that can be written, changes nothing else and sends nothing. A client that then asks for the
-- key with "GET" is sent the first 511 bytes of the answer, which is "VALUE key=value" if the two hash
-- functions agree on the key, and "NOT_FOUND key" if not.
pub put-get :
    (env : Env) (socket : ℕ) (key value : Bytes) (t : HashTable) (d : Dstore)
    → IsIsolated d
    → d.db.table ≡ some t
    → IsValid t
    → (count d == 0) ≡ false
    → is_leader d ≡ true
    → env.memory ≡ true
    → Lacks (λ c. c == 61) key
    → is_long_pair key value ≡ false
    → (t' : HashTable) × (dstore_put_from_command env (put_message key value) d
        ≡ done (written env key value t' d, []))
      × ((q : Bytes) → view t' q ≡ (if str_eq key q then some value else view t q))
      × (server_line env socket (codes "GET " ++ key) (written env key value t' d)
          ≡ send_to_socket env socket
              (take 511 (value_answer key (if hash_func key == hash key then some value else none)))
              (written env key value t' d))
unfolding server_line starts_with answer_get put_pair str_eq
put-get env socket key value t d h e valid members leads room plain fits =
    let (t', run, puts) = store_pair_lem env key value t d h e valid in
    let short : is_too_long key value ≡ false = not_long key value fits in
    let stored : put_result env.memory key value (view t key) ≡ ok tt = rw (room, short) refl in
    (
      t',
      put_command env key value d members plain fits ∙ rw leads run,
      λ q. puts.reads q ∙ rw stored refl,
      rw
          (db_get_held t' (written env key value t' d).db.file key value puts.valid
            (puts.reads key ∙ rw (stored, str_eq_refl) refl)
            (ground (arith, not_long key value fits)))
          refl,
    )

-- On a store without clients, of a node that rale.state does not name as the leader, "PUT" changes
-- nothing and sends nothing, whatever follows it.
put-elsewhere :
    (env : Env) (text : Bytes) (d : Dstore)
    → IsIsolated d
    → is_leader d ≡ false
    → dstore_put_from_command env (codes "PUT " ++ text) d ≡ done (d, [])
unfolding dstore_put_from_command plain_command starts_with put_split put_pair
put-elsewhere env text d h elsewhere =
    (Rests-if d _ _ _ (IsIdle-skip d h) (split (strchr 61 text))).returns
  where
    write_of :
        (k v : Bytes)
        → (is_long_pair k v ≡ true) ⊎ (is_long_pair k v ≡ false)
        → Rests d (put_split env (some (k, v)) d)
    write_of k v (inl long) = rw long (IsIdle-skip d h)
    write_of k v (inr fits) = rw (fits, elsewhere) (IsIdle-forward env _ d h)

    split : (o : Option (Bytes × Bytes)) → Rests d (put_split env o d)
    split none = IsIdle-skip d h
    split (some (k, v)) = write_of k v (Bool-cases (is_long_pair k v))
