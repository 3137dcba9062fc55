-- ===== src/Tests/Tables.antt =====
-- A table of one entry.
use rale.Base.{
  ◌≡◌, ◌==◌, refl, true, false, [], ◌∷◌, none, some, arith, to_int, replicate, if◌then◌else◌,
}
use rale.Text.{Bytes, codes, str_eq}
use rale.Db.{Db}
use rale.Hash.{
  Entry, HashTable, ok, err, not_found, done, deadlock, hash, hash_func, hash_size, max_key_size,
  max_value_size, hash_put, hash_get, hash_delete, find, set_chain, uint_of_char, lock, unlock,
}
use rale.Hash.Buckets.{count, view, IsPlaced, set_chain-IsPlaced}
use rale.Hash.Laws.{IsValid, Puts, hash_put-Puts}
use rale.Hash.Lookup.{hash_get-hash_put}
use rale.Hash.Delete.{hash_delete-view}
use rale.Hash.File.{
  load_counted, load_entries, bytes_int, all_entries, hash_save, hash_load, int_bytes,
}
use rale.Hash.File.Saved.{hash_load-hash_save}

abbrev key_a : Bytes
key_a = codes "a"

abbrev value_1 : Bytes
value_1 = codes "1"

abbrev entry : Entry
entry = record { key = key_a; value = value_1 }

abbrev empty : HashTable
empty = record { entries = λ i. []; locked = false }

abbrev one : HashTable
one = record { entries = set_chain (λ i. []) (hash key_a) (entry ∷ []); locked = false }

empty-IsPlaced : IsPlaced (λ i. [])
unfolding count
empty-IsPlaced = record { once = λ k i. omega arith; home = λ k i h. refl }

empty-IsValid : IsValid empty
empty-IsValid = record { free = refl; placed = empty-IsPlaced }

one-IsValid : IsValid one
unfolding count str_eq
one-IsValid = record {
  free = refl;
  placed =
      set_chain-IsPlaced (λ i. []) key_a (entry ∷ []) empty-IsPlaced (λ q h. ground arith)
        (omega arith);
}

-- The two hash functions put "a" into different buckets, and "az1" into the same.
buckets : (hash key_a ≡ 97) × (hash_func key_a ≡ 518)
unfolding hash hash_func uint_of_char
buckets = (refl, refl)

same_bucket : (hash (codes "az1") == hash_func (codes "az1")) ≡ true
unfolding hash hash_func uint_of_char
same_bucket = refl

hash_put-Puts_example :
    (t' : HashTable) × (hash_put true (some empty) (some key_a) (some value_1)
      ≡ done (some t', ok tt))
    × Puts key_a value_1 (view empty) t' (ok tt)
hash_put-Puts_example = hash_put-Puts true key_a value_1 empty empty-IsValid

hash_get-hash_put_example :
    (t' : HashTable) × (hash_put true (some empty) (some key_a) (some value_1)
      ≡ done (some t', ok tt))
    × (hash_get (some t') (some key_a) 16 ≡ done (some t', err not_found))
unfolding hash hash_func uint_of_char
hash_get-hash_put_example = hash_get-hash_put empty key_a value_1 15 empty-IsValid refl

hash_delete-view_example :
    (t' : HashTable) × (hash_delete (some one) (some key_a) ≡ done (some t', ok tt))
    × IsValid t'
    × ((q : Bytes) → view t' q ≡ (if str_eq key_a q then none else view one q))
unfolding find set_chain str_eq hash uint_of_char
hash_delete-view_example = hash_delete-view key_a one one-IsValid

-- A file that announces no entry.
empty_loaded :
    hash_load true (replicate max_key_size 0) (replicate max_value_size 0) (some (int_bytes 0)) one
    ≡ done (one, ok tt)
unfolding hash_load load_counted load_entries bytes_int int_bytes lock unlock to_int
empty_loaded = refl

one_content : all_entries hash_size 0 one.entries ≡ entry ∷ []
unfolding all_entries set_chain hash uint_of_char
one_content = refl

hash_load-hash_save_example :
    (file : Bytes) × (hash_save true true one ≡ done (some file, one, ok tt))
    × (hash_load true (replicate max_key_size 0) (replicate max_value_size 0) (some file) empty
        ≡ deadlock)
hash_load-hash_save_example =
    hash_load-hash_save true (replicate max_key_size 0) (replicate max_value_size 0) one empty entry
      [] one-IsValid empty-IsValid refl refl one_content (omega arith) (omega arith) (omega arith)

abbrev unopened : Db
unopened = record { table = none; file = none }
