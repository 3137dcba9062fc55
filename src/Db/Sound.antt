-- ===== src/Db/Sound.antt =====
-- The calls of the database on a table that is valid, or that is not allocated.
use rale.Base.{ℕ, suc, ◌≡◌, refl, Bool, Option, none, some}
use rale.Text.{Bytes}
use rale.Hash.{
  HashTable, ok, err, invalid_parameters, Outcome, done, ◌>>=◌, hash_put, hash_get, hash_delete,
}
use rale.Hash.Laws.{IsValid, hash_put-Puts}
use rale.Hash.Lookup.{hash_get_lem}
use rale.Hash.Delete.{hash_delete-view}
use rale.Db.{Db, db_success, db_insert, db_get, db_delete}

abbrev pub IsSound : Option HashTable → Type 0
IsSound none = Unit
IsSound (some t) = IsValid t

-- A call of the table that returns, and leaves it sound.
abbrev Returns : {A : Type 0} → Outcome (Option HashTable × A) → Type 0
Returns {A} r = (o : Option HashTable) × (a : A) × (r ≡ done (o, a)) × IsSound o

hash_put-Returns :
    (memory : Bool) (o : Option HashTable) (k v : Bytes)
    → IsSound o
    → Returns (hash_put memory o (some k) (some v))
hash_put-Returns memory none k v h = (none, err invalid_parameters, unfold hash_put in refl, tt)
hash_put-Returns memory (some t) k v h =
    let (t', run, puts) = hash_put-Puts memory k v t h in (some t', _, run, puts.valid)

hash_get-Returns :
    (o : Option HashTable) (k : Bytes) (room : ℕ)
    → IsSound o
    → Returns (hash_get o (some k) (suc room))
hash_get-Returns none k room h = (none, err invalid_parameters, unfold hash_get in refl, tt)
hash_get-Returns (some t) k room h = (some t, _, hash_get_lem t k room h, h)

hash_delete-Returns :
    (o : Option HashTable) (k : Bytes) → IsSound o → Returns (hash_delete o (some k))
hash_delete-Returns none k h = (none, err invalid_parameters, unfold hash_delete in refl, tt)
hash_delete-Returns (some t) k h =
    let (t', run, valid, view) = hash_delete-view k t h in (some t', _, run, valid)

pub db_insert-IsSound :
    (memory : Bool) (d : Db) (k v : Bytes)
    → IsSound d.table
    → (d' : Db) × (db_insert memory d (some k) (some v) ≡ done (d', db_success)) × IsSound d'.table
unfolding db_insert
db_insert-IsSound memory d k v h =
    let (o, r, run, sound) = hash_put-Returns memory d.table k v h in
    (record d { table = o }, simp (run, ◌>>=◌), sound)

pub db_get-IsSound :
    (d : Db) (k : Bytes) (room : ℕ)
    → IsSound d.table
    → (d' : Db) × (value : Option Bytes) × (db_get d (some k) (suc room) ≡ done (d', value))
      × IsSound d'.table
unfolding db_get
db_get-IsSound d k room h =
    let (o, r, run, sound) = hash_get-Returns d.table k room h in
    (
      record d { table = o },
      elim r [ ok value ↦ some value | err e ↦ none ],
      simp (run, ◌>>=◌),
      sound,
    )

pub db_delete-IsSound :
    (d : Db) (k : Bytes)
    → IsSound d.table
    → (d' : Db) × (db_delete d (some k) ≡ done (d', db_success)) × IsSound d'.table
unfolding db_delete
db_delete-IsSound d k h =
    let (o, r, run, sound) = hash_delete-Returns d.table k h in
    (record d { table = o }, simp (run, ◌>>=◌), sound)
