-- ===== src/Hash/File/Saved.antt =====
-- A file that hash_save wrote, given to hash_load.
use rale.Base.{
  ℕ, suc, ◌^◌, ◌<◌, ◌≡◌, refl, Bool, true, false, List, ◌∷◌, ◌++◌, some, arith, leb, length, ◌∙◌,
  take, drop, drop-append, to_int,
}
use rale.Text.{Bytes}
use rale.Hash.{Entry, HashTable, hash_size, max_value_size, max_key_size, ok, done, deadlock}
use rale.Hash.Laws.{IsValid}
use rale.Hash.File.{
  int_bytes, bytes_int, all_entries, save_entries, hash_save, fread, Buffers, load_entry,
  load_entries, load_counted, hash_load,
}
use rale.Hash.File.Deadlock.{load_put-deadlock, hash_load_whole, unlock_again, file_count}

bytes_int-int_bytes :
    (n : ℕ) (rest : Bytes) → n < 2 ^ 32 → bytes_int (take 4 (int_bytes n ++ rest)) ≡ n
unfolding bytes_int int_bytes
bytes_int-int_bytes n rest h = omega arith

fread_int :
    (old n : ℕ) (rest : Bytes)
    → n < 2 ^ 32
    → (bytes_int (fread 4 (int_bytes old) (int_bytes n ++ rest)).0 ≡ n)
      × ((fread 4 (int_bytes old) (int_bytes n ++ rest)).1 ≡ rest)
unfolding fread int_bytes bytes_int
fread_int old n rest h = (omega arith, refl)

fread_rest : (s rest buffer : Bytes) → (fread (length s) buffer (s ++ rest)).1 ≡ rest
unfolding fread
fread_rest s rest buffer = drop-append s rest

-- A round that reads back an entry that `hash_save` wrote.
load_entry-saved :
    (memory : Bool) (b : Buffers) (t : HashTable) (e : Entry) (es : List Entry)
    → t.locked ≡ true
    → length b.key ≡ max_key_size
    → length b.value ≡ max_value_size
    → length e.key < max_key_size
    → length e.value < max_value_size
    → load_entry memory b t (save_entries (e ∷ es)) ≡ deadlock
unfolding load_entry save_entries
load_entry-saved memory b t e es held ka va ks vs =
    let kl = length e.key in
    let vl = length e.value in
    let tail = e.value ++ save_entries es in
    let k_read = fread_int b.key_len kl (e.key ++ (int_bytes vl ++ tail)) (omega arith) in
    let v_read = fread_int b.value_len vl tail (omega arith) in
    let short_key : leb max_key_size kl ≡ false = ground arith in
    let short_value : leb max_value_size vl ≡ false = ground arith in
    let put =
      load_put-deadlock memory t kl vl b.key b.value (e.key ++ (int_bytes vl ++ tail)) tail held ka
        va ks vs in
    rw
      (
        k_read.0,
        k_read.1,
        fread_rest e.key (int_bytes vl ++ tail) b.key,
        v_read.0,
        v_read.1,
        short_key,
        short_value,
        put,
      )
      refl

-- The file that `hash_save` writes for a table.
abbrev pub saved : HashTable → Bytes
saved t = let es = all_entries hash_size 0 t.entries in int_bytes (length es) ++ save_entries es

hash_save-saved :
    (t : HashTable) → t.locked ≡ false → hash_save true true t ≡ done (some (saved t), t, ok tt)
unfolding hash_save
hash_save-saved t free = rw (free, unlock_again t free)

file_count-saved : (n : ℕ) (rest : Bytes) → n < 2 ^ 31 → file_count (int_bytes n ++ rest) ≡ n
unfolding to_int
file_count-saved n rest h = rw (bytes_int-int_bytes n rest (omega arith)) (ground arith)

load_entries-saved :
    (n : ℕ) (memory : Bool) (b : Buffers) (t : HashTable) (e : Entry) (es : List Entry)
    → t.locked ≡ true
    → length b.key ≡ max_key_size
    → length b.value ≡ max_value_size
    → length e.key < max_key_size
    → length e.value < max_value_size
    → load_entries (suc n) memory b t (save_entries (e ∷ es)) ≡ deadlock
load_entries-saved n memory b t e es held ka va ks vs =
    unfold load_entries in rw (load_entry-saved memory b t e es held ka va ks vs)

int_bytes-whole : (n : ℕ) (rest : Bytes) → leb 4 (length (int_bytes n ++ rest)) ≡ true
unfolding int_bytes
int_bytes-whole n rest = ground arith

drop-int_bytes : (n : ℕ) (rest : Bytes) → drop 4 (int_bytes n ++ rest) ≡ rest
unfolding int_bytes
drop-int_bytes n rest = refl

load_counted-saved :
    (memory : Bool) (key value : Bytes) (t : HashTable) (e : Entry) (es : List Entry)
    → t.locked ≡ true
    → length key ≡ max_key_size
    → length value ≡ max_value_size
    → length (e ∷ es) < 2 ^ 31
    → length e.key < max_key_size
    → length e.value < max_value_size
    → load_counted memory key value (int_bytes (length (e ∷ es)) ++ save_entries (e ∷ es)) t
      ≡ deadlock
unfolding load_counted
load_counted-saved memory key value t e es held ka va few ks vs =
    let start : Buffers = record { key_len = 0; value_len = 0; key = key; value = value } in
    rw
      (
        file_count-saved (length (e ∷ es)) (save_entries (e ∷ es)) few,
        drop-int_bytes (length (e ∷ es)) (save_entries (e ∷ es)),
        load_entries-saved (length es) memory start t e es held ka va ks vs,
      )
      refl

-- A table with entries, fewer than 2 ^ 31, saved without an error, is never loaded again: `hash_load`
-- of the file that `hash_save` wrote waits for ever, for every valid table that it is to fill, if the
-- first entry is one that fits into the buffers.
pub hash_load-hash_save :
    (memory : Bool) (key value : Bytes) (t t2 : HashTable) (e : Entry) (es : List Entry)
    → IsValid t
    → IsValid t2
    → length key ≡ max_key_size
    → length value ≡ max_value_size
    → all_entries hash_size 0 t.entries ≡ e ∷ es
    → length (e ∷ es) < 2 ^ 31
    → length e.key < max_key_size
    → length e.value < max_value_size
    → (file : Bytes) × (hash_save true true t ≡ done (some file, t, ok tt))
      × (hash_load memory key value (some file) t2 ≡ deadlock)
hash_load-hash_save memory key value t t2 e es valid valid2 ka va content few ks vs = (
  saved t,
  hash_save-saved t valid.free,
  rw content (
      hash_load_whole memory key value _ t2 valid2.free
        (int_bytes-whole (length (e ∷ es)) (save_entries (e ∷ es)))
      ∙ load_counted-saved memory key value (record t2 { locked = true }) e es refl ka va few ks
          vs),
)
