-- ===== src/Hash/Lookup.antt =====
-- hash_get and the two hash functions of hash.c, and hash_destroy.
use rale.Base.{
  ℕ, zero, suc, ◌+◌, ◌*◌, ◌%◌, ◌^◌, ◌<◌, ◌≡◌, refl, Bool, true, false, [], ◌∷◌, ◌++◌, Option, none,
  some, arith, ◌==◌, ==_iff, if◌then◌else◌, Bool-cases, inl, inr,
}
use rale.Text.{Bytes, str_eq_refl, strlcpy}
use rale.Hash.{
  Chain, HashTable, hash, hash_func, hash_size, find, set_chain, hash_put, hash_get, hash_destroy,
  uint_of_char, hash_loop, Result, ok, err, not_found, done, clear_buckets, mutex_failed,
}
use rale.Hash.Buckets.{view, IsPlaced, hash-lt, find_absent}
use rale.Hash.Laws.{IsValid, put_result, hash_put-Puts, is_too_long}

-- What `hash_get` copies out for a value that the table holds.
abbrev pub copied : ℕ → Option Bytes → Result Bytes
copied room none = err not_found
copied room (some v) = ok (strlcpy v room)

find_elsewhere :
    (k : Bytes) (t : HashTable)
    → IsPlaced t.entries
    → (hash_func k == hash k) ≡ false
    → find k (t.entries (hash_func k)) ≡ none
find_elsewhere k t placed h =
    find_absent k (t.entries (hash_func k)) (ground (arith, placed.home k (hash_func k)))

find_here :
    (k : Bytes) (t : HashTable)
    → (hash_func k == hash k) ≡ true
    → find k (t.entries (hash_func k)) ≡ view t k
find_here k t h = rw ((==_iff (hash_func k) (hash k)).0 h)

hash_get-find :
    (t : HashTable) (k : Bytes) (room : ℕ)
    → t.locked ≡ false
    → hash_get (some t) (some k) (suc room)
      ≡ done (some t, copied (suc room) (find k (t.entries (hash_func k))))
unfolding hash_get
hash_get-find t k room free = ground arith

-- On a valid table `hash_get` leaves the table as it was and answers what the table holds under the
-- key, cut to the buffer, if the two hash functions agree on the key, and "not found" if not.
pub hash_get_lem :
    (t : HashTable) (k : Bytes) (room : ℕ)
    → IsValid t
    → hash_get (some t) (some k) (suc room)
      ≡ done (some t, if hash_func k == hash k then copied (suc room) (view t k) else err not_found)
hash_get_lem t k room valid = elim (Bool-cases (hash_func k == hash k)) [
  | inl same ↦ rw (hash_get-find t k room valid.free, same, find_here k t same)
  | inr other ↦ rw (hash_get-find t k room valid.free, other, find_elsewhere k t valid.placed other)
]

-- After a put of a key and value that are not too long into a valid table, with memory, `hash_get`
-- finds the value exactly if the two hash functions agree on the key. Where they differ, the value
-- that was just stored is reported as not found.
pub hash_get-hash_put :
    (t : HashTable) (k v : Bytes) (room : ℕ)
    → IsValid t
    → is_too_long k v ≡ false
    → (t' : HashTable) × (hash_put true (some t) (some k) (some v) ≡ done (some t', ok tt))
      × (hash_get (some t') (some k) (suc room)
          ≡ done
              (some t', if hash_func k == hash k then ok (strlcpy v (suc room)) else err not_found))
hash_get-hash_put t k v room valid fits =
    let (t', run, puts) = hash_put-Puts true k v t valid in
    let result : put_result true k v (view t k) ≡ ok tt = rw fits in
    (
      t',
      rw (← result) run,
      rw (hash_get_lem t' k room puts.valid, puts.reads k, result, str_eq_refl k),
    )

hash_loop-append : (h : ℕ) (s r : Bytes) → hash_loop h (s ++ r) ≡ hash_loop (hash_loop h s) r
unfolding hash_loop
hash_loop-append h [] r = refl
hash_loop-append h (c ∷ s) r = hash_loop-append (((h * 32) % 2 ^ 32 + uint_of_char c) % 2 ^ 32) s r

mixed_two :
    (h x y : ℕ)
    → (((((h * 32) % 2 ^ 32 + x) % 2 ^ 32) * 32) % 2 ^ 32 + y) % 2 ^ 32 % 1024 ≡ (x * 32 + y) % 1024
mixed_two h x y = omega arith

-- The bucket of a key that ends in `a`, `b` is fixed by these two bytes, whatever stands before.
hash-append :
    (s : Bytes) (a b : ℕ)
    → hash (s ++ a ∷ b ∷ []) ≡ (uint_of_char a * 32 + uint_of_char b) % hash_size
unfolding hash hash_loop
hash-append s a b =
    rw hash_loop-append (mixed_two (hash_loop 0 s) (uint_of_char a) (uint_of_char b))

clear_buckets_below : (n : ℕ) (entries : ℕ → Chain) (i : ℕ) → i < n → clear_buckets n entries i ≡ []
unfolding clear_buckets set_chain
clear_buckets_below zero entries i h = absurd (omega arith)
clear_buckets_below (suc n) entries i h = ground (arith, clear_buckets_below n entries i)

-- `hash_destroy` on a valid table returns with every key gone and the mutex free, also when the
-- mutex cannot be destroyed.
hash_destroy-view :
    (mutex_gone : Bool) (t : HashTable) (k : Bytes)
    → IsValid t
    → (t' : HashTable) × (hash_destroy mutex_gone (some t)
        ≡ done (some t', if mutex_gone then ok tt else err mutex_failed))
      × (view t' k ≡ none)
      × (t'.locked ≡ false)
unfolding hash_destroy
hash_destroy-view mutex_gone t k valid = (
  record { entries = clear_buckets hash_size t.entries; locked = false },
  rw valid.free,
  unfold find in rw (clear_buckets_below hash_size t.entries (hash k) (hash-lt k)),
  refl,
)
