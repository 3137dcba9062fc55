-- ===== src/Db/Sessions.antt =====
-- Calls of the database, one after the other.
use rale.Base.{
  ℕ, suc, ◌≡◌, ◌<◌, refl, Bool, true, false, List, [], ◌∷◌, ◌^◌, Option, none, some, if◌then◌else◌,
  length, ◌==◌, arith,
}
use rale.Text.{Bytes, strlcpy}
use rale.Hash.{
  Entry, HashTable, done, deadlock, hash, hash_func, hash_size, max_key_size, max_value_size,
  hash_init, hash_put, hash_get,
}
use rale.Hash.Laws.{IsValid, is_too_long}
use rale.Hash.Buckets.{count}
use rale.Hash.Lookup.{hash_get-hash_put}
use rale.Hash.File.{all_entries}
use rale.Hash.File.Saved.{hash_load-hash_save}
use rale.Db.{Db, db_success, db_load, db_init, db_save, db_get, db_insert}

-- Before `db_init` has allocated the table, `db_insert` reports success and stores nothing: the next
-- `db_get` finds no value.
db_insert_unopened :
    (memory : Bool) (key value : Bytes) (room : ℕ) (file : Option Bytes)
    → let d : Db = record { table = none; file = file } in
      (db_insert memory d (some key) (some value) ≡ done (d, db_success))
      × (db_get d (some key) room ≡ done (d, none))
unfolding db_insert db_get hash_put hash_get
db_insert_unopened memory key value room file = (refl, refl)

-- After `db_insert` of a key and value that are not too long into a valid table, with memory, `db_get`
-- finds the value, cut to the buffer, exactly if the two hash functions agree on the key.
db_get-db_insert :
    (t : HashTable) (file : Option Bytes) (key value : Bytes) (room : ℕ)
    → IsValid t
    → is_too_long key value ≡ false
    → (d : Db) × (db_insert true (record { table = some t; file = file }) (some key) (some value)
        ≡ done (d, db_success))
      × (db_get d (some key) (suc room)
          ≡ done (d, if hash_func key == hash key then some (strlcpy value (suc room)) else none))
unfolding db_insert db_get
db_get-db_insert t file key value room valid fits =
    let (t', put, got) = hash_get-hash_put t key value room valid fits in
    (record { table = some t'; file = file }, rw put refl, rw got (ground arith))

-- The table that `db_init` hands to the load.
abbrev fresh : HashTable
fresh = record { entries = λ _. []; locked = false }

fresh-IsValid : IsValid fresh
unfolding count
fresh-IsValid = record {
  free = refl;
  placed = record { once = λ k i. omega arith; home = λ k i h. refl };
}

fresh_table : (mutex_made : Bool) → (hash_init mutex_made fresh).0 ≡ fresh
unfolding hash_init
fresh_table true = refl
fresh_table false = refl

-- Once a table with entries, fewer than 2 ^ 31, was saved, `db_init` with a path, a directory and
-- memory for the table waits for ever, if the first entry is one that fits into the buffers.
db_init-db_save :
    (path key value : Bytes) (mutex_made memory : Bool) (old : Option Bytes) (t : HashTable)
    (e : Entry) (es : List Entry)
    → (length path == 0) ≡ false
    → IsValid t
    → length key ≡ max_key_size
    → length value ≡ max_value_size
    → all_entries hash_size 0 t.entries ≡ e ∷ es
    → length (e ∷ es) < 2 ^ 31
    → length e.key < max_key_size
    → length e.value < max_value_size
    → (d : Db) × (db_save true true (record { table = some t; file = old }) ≡ done (d, db_success))
      × (db_init (some path) true true mutex_made memory key value d ≡ deadlock)
unfolding db_save db_init db_load
db_init-db_save path key value mutex_made memory old t e es named valid ka va content few ks vs =
    let (file, saves, waits) =
      hash_load-hash_save memory key value t fresh e es valid fresh-IsValid ka va content few ks
        vs in
    (
      record { table = some t; file = some file },
      rw saves refl,
      rw (named, fresh_table mutex_made, waits) refl,
    )
