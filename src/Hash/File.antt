-- ===== src/Hash/File.antt =====
-- hash_save and hash_load: the table as a binary file. An `int` is four bytes, lowest first. The
-- writes whose result the code does not read are modelled as writing everything.
pub mod Deadlock
pub mod Saved
use rale.Base.{
  ℕ, zero, suc, ◌+◌, ◌-◌, ◌*◌, ◌/◌, ◌%◌, ◌^◌, Bool, true, false, List, [], ◌∷◌, ◌++◌, Option, none,
  some, leb, if◌then◌else◌, length, take, drop, set, get_or, ℤ, pos, to_int, pos_part,
}
use rale.Text.{Bytes, c_string}
use rale.Hash.{
  Entry, Chain, HashTable, hash_size, max_key_size, max_value_size, Result, ok, err, open_failed,
  count_failed, Outcome, done, deadlock, undefined, ◌>>=◌, Reply, lock, unlock, hash_put,
}

unfoldable pub int_bytes : ℕ → Bytes
int_bytes n = n % 256 ∷ n / 256 % 256 ∷ n / 65536 % 256 ∷ n / 16777216 % 256 ∷ []

-- The first four bytes as an unsigned number.
unfoldable pub bytes_int : Bytes → ℕ
bytes_int b = get_or b 0 0 + 256 * get_or b 1 0 + 65536 * get_or b 2 0 + 16777216 * get_or b 3 0

-- The entries in the order of the two nested loops, from bucket `i` on for `n` buckets.
unfoldable pub all_entries : ℕ → ℕ → (ℕ → Chain) → List Entry
all_entries zero i entries = []
all_entries (suc n) i entries = entries i ++ all_entries n (suc i) entries

unfoldable pub save_entries : List Entry → Bytes
save_entries [] = []
save_entries (e ∷ es) =
    int_bytes (length e.key)
    ++ (e.key ++ (int_bytes (length e.value) ++ (e.value ++ save_entries es)))

-- `opened` says whether `fopen` succeeds, `counted` whether the first `fwrite` does. The first part
-- of the result is what the file then holds.
unfoldable pub hash_save :
    Bool → Bool → HashTable → Outcome (Option Bytes × HashTable × Result (Unit {0}))
unfolding lock unlock all_entries save_entries int_bytes
hash_save opened counted t =
    if opened
    then (do
      held ← lock t
      let es = all_entries hash_size 0 held.entries
      done (
          if counted
          then (some (int_bytes (length es) ++ save_entries es), (unlock held), ok tt)
          else (some [], (unlock held), err count_failed)))
    else done (none, t, err open_failed)

-- `fread(buffer, n, 1, file)`: the buffer afterwards, and what is left to read. A short file
-- overwrites only the front of the buffer.
unfoldable pub fread : ℕ → Bytes → Bytes → Bytes × Bytes
fread n buffer file = (take n file ++ drop (length (take n file)) buffer, drop n file)

-- The local variables of `hash_load`.
pub record Buffers : Type 0 where
  pub key_len : ℕ
  pub value_len : ℕ
  pub key : Bytes
  pub value : Bytes

-- One round of the loop. The lengths come from the file and are not checked: the zero byte, and the
-- bytes before it, are written past the buffer when the length reaches its size.
pub load_entry : Bool → Buffers → HashTable → Bytes → Outcome (Buffers × HashTable × Bytes)
load_entry memory b t file =
    let (k4, file1) = fread 4 (int_bytes b.key_len) file in
    let key_len = bytes_int k4 in
    let (key, file2) = fread key_len b.key file1 in
    let (v4, file3) = fread 4 (int_bytes b.value_len) file2 in
    let value_len = bytes_int v4 in
    let (value, file4) = fread value_len b.value file3 in
    if leb max_key_size key_len
    then undefined
    else if leb max_value_size value_len
    then undefined
    else do
      let key0 = set key key_len 0
      let value0 = set value value_len 0
      after ← hash_put memory (some t) (some (c_string key0)) (some (c_string value0))
      elim after.0 [
        | none ↦ undefined
        | some t' ↦ done (
          record { key_len = key_len; value_len = value_len; key = key0; value = value0 },
          t',
          file4,
        )
      ]

unfoldable pub load_entries : ℕ → Bool → Buffers → HashTable → Bytes → Outcome HashTable
unfolding load_entry int_bytes bytes_int fread
load_entries zero memory b t file = done t
load_entries (suc n) memory b t file = do
  next ← load_entry memory b t file
  load_entries n memory next.0 next.1 next.2

-- The rest of `hash_load` once the mutex is held and the file holds a whole count.
unfoldable pub load_counted :
    Bool → Bytes → Bytes → Bytes → HashTable → Outcome (HashTable × Result (Unit {0}))
load_counted memory key value file held = do
  loaded ←
      load_entries (pos_part (to_int (pos (bytes_int (take 4 file))))) memory
        (record { key_len = 0; value_len = 0; key = key; value = value }) held (drop 4 file)
  done (unlock loaded, ok tt)

-- `key` and `value` are what the stack happens to hold in the two buffers.
unfoldable pub hash_load :
    Bool → Bytes → Bytes → Option Bytes → HashTable → Outcome (HashTable × Result (Unit {0}))
unfolding lock unlock load_counted load_entries bytes_int
hash_load memory key value none t = done (t, err open_failed)
hash_load memory key value (some file) t = do
  held ← lock t
  if leb 4 (length file)
      then load_counted memory key value file held
      else done (unlock held, err count_failed)
