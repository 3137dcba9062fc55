-- ===== src/Hash/File/Deadlock.antt =====
-- hash_load holds the mutex of the table while it calls hash_put, which locks it again.
use rale.Base.{
  ℕ, zero, suc, ◌-◌, ◌≤◌, ◌<◌, ◌≡◌, refl, sym, Bool, true, false, List, [], ◌∷◌, some, arith, leb,
  Bool-cases, inl, inr, length, ◌∙◌, take, drop, length-append, pos, pos_part, to_int, set,
}
use rale.Text.{Bytes, c_string}
use rale.Hash.{
  HashTable, max_value_size, max_key_size, hash_put, unlock, Result, ok, err, done, deadlock,
  undefined, ◌>>=◌, Outcome, count_failed,
}
use rale.Hash.Laws.{IsValid}
use rale.Hash.File.{
  int_bytes, bytes_int, fread, Buffers, load_entry, load_entries, load_counted, hash_load,
}

length-drop {ℓ} : {A : Type ℓ} (n : ℕ) (xs : List A) → length (drop n xs) ≡ length xs - n
length-drop zero xs = omega arith
length-drop (suc n) [] = omega arith
length-drop (suc n) (x ∷ xs) = omega (arith, length-drop n xs)

length-take-le {ℓ} : {A : Type ℓ} (n : ℕ) (xs : List A) → length (take n xs) ≤ n
length-take-le zero xs = omega arith
length-take-le (suc n) [] = omega arith
length-take-le (suc n) (x ∷ xs) = omega (arith, length-take-le n xs)

-- A string that is closed at `n` is no longer than `n`.
length-c_string-le : (b : Bytes) (n : ℕ) → n < length b → length (c_string (set b n 0)) ≤ n
unfolding c_string
length-c_string-le [] n h = absurd (omega arith)
length-c_string-le (c ∷ b) zero h = omega arith
length-c_string-le (c ∷ b) (suc n) h = ground (arith, length-c_string-le b n)

length-fread :
    (n : ℕ) (buffer file : Bytes)
    → n < length buffer
    → length (fread n buffer file).0 ≡ length buffer
unfolding fread
length-fread n buffer file h =
    rw (length-append (take n file), length-drop (length (take n file)))
      (omega (arith, length-take-le n file))

hash_put-deadlock :
    (memory : Bool) (t : HashTable) (k v : Bytes)
    → t.locked ≡ true
    → length k < max_key_size
    → length v < max_value_size
    → hash_put memory (some t) (some k) (some v) ≡ deadlock
unfolding hash_put
hash_put-deadlock memory t k v held a b = ground arith

-- What a round of the loop comes to while the mutex is held.
data IsStuck {A : Type 0} : Outcome A → Type 0 where
  waits : IsStuck deadlock
  breaks : IsStuck undefined

pub load_put-deadlock :
    (memory : Bool) (t : HashTable) (kl vl : ℕ) (kb vb f1 f2 : Bytes)
    → t.locked ≡ true
    → length kb ≡ max_key_size
    → length vb ≡ max_value_size
    → kl < max_key_size
    → vl < max_value_size
    → hash_put memory
        (some t)
        (some (c_string (set (fread kl kb f1).0 kl 0)))
        (some (c_string (set (fread vl vb f2).0 vl 0)))
      ≡ deadlock
load_put-deadlock memory t kl vl kb vb f1 f2 held ka va ks vs =
    let k_size = length-fread kl kb f1 (omega arith) in
    let v_size = length-fread vl vb f2 (omega arith) in
    hash_put-deadlock memory t (c_string (set (fread kl kb f1).0 kl 0))
      (c_string (set (fread vl vb f2).0 vl 0)) held
      (omega (arith, length-c_string-le (fread kl kb f1).0 kl (omega arith)))
      (omega (arith, length-c_string-le (fread vl vb f2).0 vl (omega arith)))

load_entry-IsStuck :
    (memory : Bool) (b : Buffers) (t : HashTable) (file : Bytes)
    → t.locked ≡ true
    → length b.key ≡ max_key_size
    → length b.value ≡ max_value_size
    → IsStuck (load_entry memory b t file)
unfolding load_entry
load_entry-IsStuck memory b t file held ka va =
    let key_read = fread 4 (int_bytes b.key_len) file in
    let kl = bytes_int key_read.0 in
    let value_read = fread 4 (int_bytes b.value_len) (fread kl b.key key_read.1).1 in
    let vl = bytes_int value_read.0 in
    elim (Bool-cases (leb max_key_size kl)) [
      | inl e ↦ rw e breaks
      | inr e ↦ elim (Bool-cases (leb max_value_size vl)) [
        | inl f ↦ rw (e, f) breaks
        | inr f ↦
            rw
              (
                e,
                f,
                load_put-deadlock memory t kl vl b.key b.value key_read.1 value_read.1 held ka va
                    (ground arith) (ground arith),
              )
              waits
      ]
    ]

IsStuck-bind : {A B : Type 0} (m : Outcome A) (f : A → Outcome B) → IsStuck m → IsStuck (m >>= f)
IsStuck-bind m f waits = waits
IsStuck-bind m f breaks = breaks

-- The number of rounds that `hash_load` makes.
abbrev pub file_count : Bytes → ℕ
file_count file = pos_part (to_int (pos (bytes_int (take 4 file))))

load_entries-IsStuck :
    (n : ℕ) (memory : Bool) (b : Buffers) (t : HashTable) (file : Bytes)
    → t.locked ≡ true
    → length b.key ≡ max_key_size
    → length b.value ≡ max_value_size
    → IsStuck (load_entries (suc n) memory b t file)
load_entries-IsStuck n memory b t file held ka va =
    unfold load_entries in
    IsStuck-bind (load_entry memory b t file) (λ next. load_entries n memory next.0 next.1 next.2)
      (load_entry-IsStuck memory b t file held ka va)

load_counted-IsStuck :
    (memory : Bool) (key value file : Bytes) (held : HashTable) (n : ℕ)
    → held.locked ≡ true
    → length key ≡ max_key_size
    → length value ≡ max_value_size
    → file_count file ≡ suc n
    → IsStuck (load_counted memory key value file held)
unfolding load_counted
load_counted-IsStuck memory key value file held n locked ka va more = rw more (
    IsStuck-bind _ (λ loaded. done (unlock loaded, ok tt))
      (load_entries-IsStuck n memory
        (record { key_len = 0; value_len = 0; key = key; value = value }) held (drop 4 file) locked
        ka va))

-- A table that a load has returned, for a file that announces no entry.
load_counted_empty :
    (memory : Bool) (key value file : Bytes) (held : HashTable)
    → file_count file ≡ 0
    → load_counted memory key value file held ≡ done (unlock held, ok tt)
unfolding load_counted load_entries unlock
load_counted_empty memory key value file held none_left = rw none_left

not_done : {A : Type 0} {m : Outcome A} {a : A} → IsStuck m → m ≡ done a → ⊥
not_done waits e = cc
not_done breaks e = cc

pub hash_load_whole :
    (memory : Bool) (key value file : Bytes) (t : HashTable)
    → t.locked ≡ false
    → leb 4 (length file) ≡ true
    → hash_load memory key value (some file) t
      ≡ load_counted memory key value file (record t { locked = true })
unfolding hash_load
hash_load_whole memory key value file t free whole = rw (free, whole)

hash_load_short :
    (memory : Bool) (key value file : Bytes) (t : HashTable)
    → t.locked ≡ false
    → leb 4 (length file) ≡ false
    → hash_load memory key value (some file) t
      ≡ done (unlock (record t { locked = true }), err count_failed)
unfolding hash_load
hash_load_short memory key value file t free short = rw (free, short)

pub unlock_again : (t : HashTable) → t.locked ≡ false → unlock (record t { locked = true }) ≡ t
unfolding unlock
unlock_again t free = ground arith

module _ (memory : Bool) (key value file : Bytes) (t : HashTable)
    (r : HashTable × Result (Unit {0})) (valid : IsValid t) (ka : length key ≡ max_key_size)
    (va : length value ≡ max_value_size) where
  load_counted-unchanged :
      (n : ℕ)
      → file_count file ≡ n
      → load_counted memory key value file (record t { locked = true }) ≡ done r
      → r.0 ≡ t
  load_counted-unchanged zero e returned =
      let same =
        sym (load_counted_empty memory key value file (record t { locked = true }) e) ∙ returned in
      let first : unlock (record t { locked = true }) ≡ r.0 = cc in
      sym first ∙ unlock_again t valid.free
  load_counted-unchanged (suc n) e returned = absurd (
      not_done
        (load_counted-IsStuck memory key value file (record t { locked = true }) n refl ka va e)
        returned)

  -- Whenever `hash_load` returns on a valid table, whatever the file holds, the table is as it was
  -- before.
  hash_load-unchanged : hash_load memory key value (some file) t ≡ done r → r.0 ≡ t
  hash_load-unchanged returned = elim (Bool-cases (leb 4 (length file))) [
    | inl whole ↦
        load_counted-unchanged (file_count file) refl
          (sym (hash_load_whole memory key value file t valid.free whole) ∙ returned)
    | inr short ↦
        let first : unlock (record t { locked = true }) ≡ r.0 =
          cc (hash_load_short memory key value file t valid.free short) in
        sym first ∙ unlock_again t valid.free
  ]
