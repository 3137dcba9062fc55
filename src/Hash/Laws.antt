-- ===== src/Hash/Laws.antt =====
-- What the functions of hash.c do to the map that the table holds.
use rale.Base.{
  ◌<◌, ◌≡◌, refl, Bool, true, false, ◌∷◌, Option, none, some, arith, leb, if◌then◌else◌, Bool-cases,
  Option-cases, inl, inr, ◌||◌, ◌&&◌, length, ap, ◌∙◌, subst,
}
use rale.Text.{Bytes, str_eq, strlcpy, strlcpy_whole}
use rale.Hash.{
  Chain, HashTable, hash, max_value_size, max_key_size, find, assign, set_chain, put_locked,
  hash_put, unlock, Result, ok, err, too_long, no_memory, done,
}
use rale.Hash.Buckets.{
  count, view, IsPlaced, count_absent, find-assign, count-assign, set_chain-IsPlaced,
  view-set_chain,
}

-- A table between two calls.
pub record IsValid (t : HashTable) : Type 0 where
  pub free : t.locked ≡ false
  pub placed : IsPlaced t.entries

abbrev pub is_ok : {A : Type 0} → Result A → Bool
is_ok (ok a) = true
is_ok (err e) = false

abbrev pub is_some {ℓ} : {A : Type ℓ} → Option A → Bool
is_some none = false
is_some (some a) = true

abbrev pub is_too_long : Bytes → Bytes → Bool
is_too_long k v = leb max_key_size (length k) || leb max_value_size (length v)

-- What a put returns: too long a text, a full memory, or success.
abbrev pub put_result : Bool → Bytes → Bytes → Option Bytes → Result (Unit {0})
put_result memory k v old =
    if is_too_long k v then err too_long else if memory || is_some old then ok tt else err no_memory

-- `t'` is valid and holds the map `m` with `v` put under `k`, if the result `r` is a success.
pub record Puts (k v : Bytes) (m : Bytes → Option Bytes) (t' : HashTable) (r : Result (Unit {0}))
    : Type 0 where
  pub valid : IsValid t'
  pub reads : (q : Bytes) → view t' q ≡ (if is_ok r && str_eq k q then some v else m q)

module _ (k v : Bytes) (t : HashTable) (placed : IsPlaced t.entries) where
  -- The branch that finds the key.
  assign_branch :
      (old : Bytes)
      → find k (t.entries (hash k)) ≡ some old
      → length v < max_value_size
      → Puts k v
          (view t)
          (unlock
            (record t { entries = set_chain t.entries (hash k) (assign k v (t.entries (hash k))) }))
          (ok tt)
  unfolding unlock
  assign_branch old found short = record {
    valid = record {
      free = refl;
      placed =
          set_chain-IsPlaced t.entries k (assign k v (t.entries (hash k))) placed
            (λ q ne. rw count-assign (omega arith)) (rw count-assign (placed.once k (hash k)));
    };
    reads = λ q. view-set_chain t.entries k q (assign k v (t.entries (hash k))) false (some v) (
        rw
          (find-assign k q v (t.entries (hash k)) old found, strlcpy_whole v max_value_size short));
  }

  -- The branch that adds an entry.
  insert_branch :
      find k (t.entries (hash k)) ≡ none
      → length k < max_key_size
      → length v < max_value_size
      → Puts k v
          (view t)
          (unlock (record t {
            entries = set_chain t.entries (hash k) (
                record { key = strlcpy k max_key_size; value = strlcpy v max_value_size }
                ∷ t.entries (hash k));
          }))
          (ok tt)
  unfolding unlock
  insert_branch absent short_key short =
      let old = t.entries (hash k) in
      let new : Chain = record { key = k; value = v } ∷ old in
      rw (strlcpy_whole k max_key_size short_key, strlcpy_whole v max_value_size short)
        (record {
          valid = record {
            free = refl;
            placed =
                set_chain-IsPlaced t.entries k new placed (λ q ne. unfold count in ground arith)
                  (unfold count in ground (arith, count_absent k old));
          };
          reads =
              λ q. view-set_chain t.entries k q new false (some v) (unfold find in ground arith);
        })

  unchanged_branch : (r : Result (Unit {0})) → is_ok r ≡ false → Puts k v (view t) (unlock t) r
  unfolding unlock
  unchanged_branch r e = record {
    valid = record { free = refl; placed = record { once = placed.once; home = placed.home } };
    reads = λ q. rw e;
  }

put_locked-Puts :
    (memory : Bool) (k v : Bytes) (t : HashTable)
    → IsPlaced t.entries
    → is_too_long k v ≡ false
    → let after = put_locked memory k v t in
      Puts k v (view t) (unlock after.0) after.1 × (after.1 ≡ put_result memory k v (view t k))
unfolding put_locked
put_locked-Puts memory k v t placed fits = elim (Option-cases (find k (t.entries (hash k)))) [
  | inr (old, e) ↦
      rw (e, put_locked) (assign_branch k v t placed old e (ground arith), ground arith)
  | inl e ↦ elim (Bool-cases memory) [
    | inl m ↦
        rw (e, m, put_locked)
          (insert_branch k v t placed e (ground arith) (ground arith), ground arith)
    | inr m ↦
        rw (e, m, put_locked) (unchanged_branch k v t placed (err no_memory) refl, ground arith)
  ]
]

hash_put-locked :
    (memory : Bool) (k v : Bytes) (t : HashTable)
    → t.locked ≡ false
    → is_too_long k v ≡ false
    → let after = put_locked memory k v (record t { locked = true }) in
      hash_put memory (some t) (some k) (some v) ≡ done (some (unlock after.0), after.1)
unfolding hash_put
hash_put-locked memory k v t free fits = rw (fits, free)

-- On a valid table, `hash_put` returns with the mutex free: it refuses a key of 255 or a value of
-- 1024 bytes, fails when a new entry gets no memory, and otherwise makes the table hold the value
-- under the key; every other key keeps its value, and on a failure every key does.
pub hash_put-Puts :
    (memory : Bool) (k v : Bytes) (t : HashTable)
    → IsValid t
    → (t' : HashTable) × (hash_put memory (some t) (some k) (some v)
        ≡ done (some t', put_result memory k v (view t k)))
      × Puts k v (view t) t' (put_result memory k v (view t k))
hash_put-Puts memory k v t valid = elim (Bool-cases (is_too_long k v)) [
  | inl long ↦
      (t, unfold hash_put in rw long, rw long (record { valid = valid; reads = λ q. refl }))
  | inr fits ↦
      let held : HashTable = record t { locked = true } in
      let after = put_locked memory k v held in
      let (puts, result) =
        put_locked-Puts memory k v held
          (record { once = valid.placed.once; home = valid.placed.home }) fits in
      (
        unlock after.0,
        hash_put-locked memory k v t valid.free fits
            ∙ ap (λ (r : Result (Unit {0})). done (some (unlock after.0), r)) result,
        subst (Puts k v (view t) (unlock after.0)) result puts,
      )
]
