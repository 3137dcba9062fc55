-- ===== src/Hash.antt =====
-- librale/src/hash.c: the chained hash table behind the local database.
-- A bucket is the list of its chain, `entries` the array of 1024 bucket heads, and `locked` the
-- state of the mutex, which is not recursive: to lock it twice in one thread never returns.
pub mod Buckets
pub mod Laws
pub mod Lookup
pub mod Delete
pub mod File
use rale.Base.{
  ℕ, zero, suc, ◌+◌, ◌-◌, ◌*◌, ◌%◌, ◌^◌, Bool, true, false, ◌||◌, List, [], ◌∷◌, Option, none, some,
  ltb, leb, ◌==◌, if◌then◌else◌, length,
}
use rale.Text.{Bytes, str_eq, strlcpy}

abbrev pub hash_size : ℕ
hash_size = 1024

abbrev pub max_key_size : ℕ
max_key_size = 255

abbrev pub max_value_size : ℕ
max_value_size = 1024

pub record Entry : Type 0 where
  pub key : Bytes
  pub value : Bytes

abbrev pub Chain : Type 0
Chain = List Entry

pub record HashTable : Type 0 where
  pub entries : ℕ → Chain
  pub locked : Bool

-- What the functions write into `errbuf` when they return -1.
pub data HashError : Type 0 where
  invalid_parameters too_long no_memory not_found mutex_failed open_failed count_failed : HashError

pub data Result (A : Type 0) : Type 0 where
  ok : A → Result A
  err : HashError → Result A

-- A call returns, waits for ever on its own mutex, or has undefined behaviour.
pub data Outcome (A : Type 0) : Type 0 where
  done : A → Outcome A
  deadlock : Outcome A
  undefined : Outcome A

infixl 5 ◌>>=◌
abbrev pub ◌>>=◌ : {A B : Type 0} → Outcome A → (A → Outcome B) → Outcome B
done a >>= f = f a
deadlock >>= f = deadlock
undefined >>= f = undefined

-- `(unsigned int) c`, where `char` is signed.
unfoldable pub uint_of_char : ℕ → ℕ
uint_of_char c = if ltb c 128 then c else c + (2 ^ 32 - 256)

hash_func_loop : ℕ → Bytes → ℕ
unfolding uint_of_char
hash_func_loop h [] = h
hash_func_loop h (c ∷ s) = hash_func_loop (((h * 32) % 2 ^ 32 + h + uint_of_char c) % 2 ^ 32) s

-- The hash that `hash_get` uses.
unfoldable pub hash_func : Bytes → ℕ
unfolding hash_func_loop
hash_func key = hash_func_loop 5381 key % hash_size

hash_loop : ℕ → Bytes → ℕ
unfolding uint_of_char
hash_loop h [] = h
hash_loop h (c ∷ s) = hash_loop (((h * 32) % 2 ^ 32 + uint_of_char c) % 2 ^ 32) s

-- The hash that `hash_put` and `hash_delete` use.
unfoldable pub hash : Bytes → ℕ
unfolding hash_loop
hash key = hash_loop 0 key % hash_size

unfoldable pub lock : HashTable → Outcome HashTable
lock t = if t.locked then deadlock else done (record t { locked = true })

unfoldable pub unlock : HashTable → HashTable
unlock t = record t { locked = false }

-- `table->entries[index] = chain`
unfoldable pub set_chain : (ℕ → Chain) → ℕ → Chain → ℕ → Chain
set_chain entries index chain i = if index == i then chain else entries i

-- The search loops: the value of the first entry with the key.
unfoldable pub find : Bytes → Chain → Option Bytes
find k [] = none
find k (e ∷ c) = if str_eq e.key k then some e.value else find k c

-- The loop of `hash_put`: the value of the first entry with the key is overwritten.
unfoldable pub assign : Bytes → Bytes → Chain → Chain
assign k v [] = []
assign k v (e ∷ c) =
    if str_eq e.key k then record e { value = strlcpy v max_value_size } ∷ c else e ∷ assign k v c

-- The loop of `hash_delete`: the first entry with the key is unlinked.
unfoldable pub unlink : Bytes → Chain → Chain
unlink k [] = []
unlink k (e ∷ c) = if str_eq e.key k then c else e ∷ unlink k c

-- `mutex_made` says whether `pthread_mutex_init` succeeds.
unfoldable pub hash_init : Bool → HashTable → HashTable × Result (Unit {0})
hash_init mutex_made t =
    if mutex_made
    then (record { entries = λ _. []; locked = false }, ok tt)
    else (record t { entries = λ _. [] }, err mutex_failed)

-- `hash_put` between lock and unlock; `memory` says whether `rmalloc` succeeds.
unfoldable pub put_locked : Bool → Bytes → Bytes → HashTable → HashTable × Result (Unit {0})
put_locked memory k v t = elim (find k (t.entries (hash k))) [
  | some old ↦
      (record t { entries = set_chain t.entries (hash k) (assign k v (t.entries (hash k))) }, ok tt)
  | none ↦
      if memory
      then (
        record t {
          entries = set_chain t.entries (hash k) (
              record { key = strlcpy k max_key_size; value = strlcpy v max_value_size }
              ∷ t.entries (hash k));
        },
        ok tt,
      )
      else (t, err no_memory)
]

-- The table that a call leaves, and its result. A table, key or value `none` is a NULL pointer.
abbrev pub Reply : Type 0 → Type 0
Reply A = Outcome (Option HashTable × Result A)

unfoldable pub hash_put : Bool → Option HashTable → Option Bytes → Option Bytes → Reply (Unit {0})
unfolding put_locked lock unlock
hash_put memory (some t) (some k) (some v) =
    if leb max_key_size (length k) || leb max_value_size (length v)
    then done (some t, err too_long)
    else do
      held ← lock t
      let after = put_locked memory k v held
      done (some (unlock after.0), after.1)
hash_put memory t _ _ = done (t, err invalid_parameters)

-- `room` is `value_size`.
unfoldable pub hash_get : Option HashTable → Option Bytes → ℕ → Reply Bytes
unfolding lock unlock
hash_get (some t) (some k) (suc room) = do
  held ← lock t
  done (
    some (unlock held),
    elim (find k (held.entries (hash_func k))) [
      | some v ↦ ok (strlcpy v (suc room))
      | none ↦ err not_found
    ],
  )
hash_get t _ _ = done (t, err invalid_parameters)

unfoldable pub hash_delete : Option HashTable → Option Bytes → Reply (Unit {0})
unfolding lock unlock
hash_delete (some t) (some k) = do
  held ← lock t
  elim (find k (held.entries (hash k))) [
    | some old ↦ done (
      some (
          unlock (record held {
            entries = set_chain held.entries (hash k) (unlink k (held.entries (hash k)));
          })),
      ok tt,
    )
    | none ↦ done (some (unlock held), err not_found)
  ]
hash_delete t _ = done (t, err invalid_parameters)

-- `for (i = 0; i < n; i++)`: each chain is freed.
unfoldable pub clear_buckets : ℕ → (ℕ → Chain) → ℕ → Chain
clear_buckets zero entries = entries
clear_buckets (suc n) entries = set_chain (clear_buckets n entries) n []

-- `mutex_gone` says whether `pthread_mutex_destroy` succeeds.
unfoldable pub hash_destroy : Bool → Option HashTable → Reply (Unit {0})
unfolding lock unlock
hash_destroy mutex_gone none = done (none, err invalid_parameters)
hash_destroy mutex_gone (some t) = do
  held ← lock t
  done (
    some (unlock (record held { entries = clear_buckets hash_size held.entries })),
    (if mutex_gone then ok tt else err mutex_failed),
  )
