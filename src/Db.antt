-- ===== src/Db.antt =====
-- librale/src/db.c: the local database, a hash table with a file. A table that is not allocated is
-- `none`. `db_mutex` is held over single calls of one thread and has no state of its own here.
pub mod Sessions
pub mod Sound
use rale.Base.{ℕ, [], Bool, true, false, Option, none, some, if◌then◌else◌, length, ◌==◌, ◌||◌}
use rale.Text.{Bytes}
use rale.Hash.{
  HashTable, Result, ok, err, HashError, Outcome, done, undefined, ◌>>=◌, hash_init, hash_put,
  hash_get, hash_delete, hash_destroy,
}
use rale.Hash.File.{hash_save, hash_load}

-- `global_cluster_db`, and the contents of the file.
pub record Db : Type 0 where
  pub table : Option HashTable
  pub file : Option Bytes

pub data DbResult : Type 0 where
  db_success db_loaded db_general db_no_mem db_file_io : DbResult

abbrev pub result_of : {A : Type 0} → Result A → DbResult
result_of (ok a) = db_success
result_of (err e) = db_file_io

-- A missing table is used without a check, once the file is open.
unfoldable pub db_load : Bool → Bytes → Bytes → Db → Outcome (Db × DbResult)
db_load memory key value d = elim d.table [
  | none ↦ elim d.file [ none ↦ done (d, db_file_io) | some file ↦ undefined ]
  | some t ↦ do
    r ← hash_load memory key value d.file t
    done (record d { table = some r.0 }, result_of r.1)
]

abbrev pub init_result : DbResult → DbResult
init_result db_success = db_loaded
init_result r = r

-- The file is loaded if there is one.
abbrev pub load_existing : Bool → Bytes → Bytes → Option Bytes → HashTable → Outcome (Db × DbResult)
load_existing memory key value none t = done (record { table = some t; file = none }, db_success)
load_existing memory key value (some file) t = do
  r ← db_load memory key value (record { table = some t; file = some file })
  done (r.0, init_result r.1)

-- `path` is `config->db.path`, and `none` if `config` is NULL; `directory` says whether the directory
-- is there afterwards, `room` whether the table can be allocated, as zero bytes. `key` and `value` are
-- what the stack holds in the buffers of `hash_load`.
unfoldable pub db_init :
    Option Bytes → Bool → Bool → Bool → Bool → Bytes → Bytes → Db → Outcome (Db × DbResult)
db_init none directory room mutex_made memory key value d = done (d, db_general)
db_init (some path) directory room mutex_made memory key value d =
    if length path == 0
    then done (d, db_general)
    else if directory
    then (if room
        then load_existing memory key value d.file
            (hash_init mutex_made (record { entries = λ _. []; locked = false })).0
        else done (record d { table = none }, db_no_mem))
    else done (d, db_file_io)

unfoldable pub db_save : Bool → Bool → Db → Outcome (Db × DbResult)
db_save opened counted d = elim d.table [
  | none ↦ if opened then undefined else done (d, db_file_io)
  | some t ↦ do
    r ← hash_save opened counted t
    done (
      record { table = some r.1; file = elim r.0 [ none ↦ d.file | some text ↦ some text ] },
      result_of r.2,
    )
]

unfoldable pub db_get : Db → Option Bytes → ℕ → Outcome (Db × Option Bytes)
db_get d key room = do
  r ← hash_get d.table key room
  done (record d { table = r.0 }, elim r.1 [ ok value ↦ some value | err e ↦ none ])

-- What `hash_put` and `hash_delete` return is not read.
unfoldable pub db_insert : Bool → Db → Option Bytes → Option Bytes → Outcome (Db × DbResult)
db_insert memory d key value = do
  r ← hash_put memory d.table key value
  done (record d { table = r.0 }, db_success)

unfoldable pub db_delete : Db → Option Bytes → Outcome (Db × DbResult)
db_delete d key = do r ← hash_delete d.table key; done (record d { table = r.0 }, db_success)

unfoldable pub db_finit : Bool → Db → Outcome (Db × DbResult)
db_finit mutex_gone d = elim d.table [
  | none ↦ done (d, db_success)
  | some t ↦ do r ← hash_destroy mutex_gone (some t); done (record d { table = none }, db_success)
]

-- `removed` says whether `unlink` succeeds; `false` is DB_ERR_REMOVE_FAILED.
unfoldable pub db_remove : Bool → Db → Db × Bool
db_remove removed d = if removed then (record d { file = none }, true) else (d, false)

unfoldable pub db_initialized : Db → Bool
db_initialized d = elim d.file [ none ↦ false | some text ↦ true ]
