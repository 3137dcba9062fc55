-- ===== src/Hash/Buckets.antt =====
-- What the chains of a hash.c table mean: the map that they hold, and the invariant that gives
-- every key one entry, in the bucket of `hash`.
use rale.Base.{
  ℕ, suc, ◌≤◌, ◌<◌, ◌≡◌, refl, ◌≢◌, Bool, true, false, [], ◌∷◌, Option, none, some, arith,
  if◌then◌else◌,
}
use rale.Text.{Bytes, str_eq, str_eq_iff, strlcpy}
use rale.Hash.{Chain, HashTable, hash, hash_size, max_value_size, find, assign, unlink, set_chain}

-- How many entries of a chain have the key.
unfoldable pub count : Bytes → Chain → ℕ
count k [] = 0
count k (e ∷ c) = if str_eq e.key k then suc (count k c) else count k c

-- The map that the table holds: the value under a key, in the bucket where `hash_put` keeps it.
abbrev pub view : HashTable → Bytes → Option Bytes
view t k = find k (t.entries (hash k))

-- Every key has at most one entry, and only in its bucket.
pub record IsPlaced (entries : ℕ → Chain) : Type 0 where
  pub once : (k : Bytes) (i : ℕ) → count k (entries i) ≤ 1
  pub home : (k : Bytes) (i : ℕ) → hash k ≢ i → count k (entries i) ≡ 0

pub hash-lt : (k : Bytes) → hash k < hash_size
unfolding hash
hash-lt k = omega arith

pub find_absent : (k : Bytes) (c : Chain) → count k c ≡ 0 → find k c ≡ none
unfolding count find
find_absent k [] h = refl
find_absent k (e ∷ c) h = ground (arith, find_absent k c)

pub count_absent : (k : Bytes) (c : Chain) → find k c ≡ none → count k c ≡ 0
unfolding count find
count_absent k [] h = refl
count_absent k (e ∷ c) h = ground (arith, count_absent k c)

-- Two keys that both match an entry are the same.
str_eq_join : (a k q : Bytes) → str_eq a k ≡ true → str_eq a q ≡ str_eq k q
str_eq_join a k q h = rw ((str_eq_iff a k).0 h)

str_eq_join_right : (a k q : Bytes) → str_eq k q ≡ true → str_eq a k ≡ str_eq a q
str_eq_join_right a k q h = rw ((str_eq_iff k q).0 h)

count_join : (k q : Bytes) (c : Chain) → str_eq k q ≡ true → count k c ≡ count q c
count_join k q c h = rw ((str_eq_iff k q).0 h)

hash_join : (k q : Bytes) → str_eq k q ≡ true → hash k ≡ hash q
hash_join k q h = rw ((str_eq_iff k q).0 h)

pub find-assign :
    (k q v : Bytes) (c : Chain) (old : Bytes)
    → find k c ≡ some old
    → find q (assign k v c) ≡ (if str_eq k q then some (strlcpy v max_value_size) else find q c)
unfolding find assign
find-assign k q v [] old h = cc
find-assign k q v (e ∷ c) old h =
    ground (arith, find-assign k q v c old, str_eq_join e.key k q, str_eq_join_right e.key k q)

pub count-assign : (k q v : Bytes) (c : Chain) → count q (assign k v c) ≡ count q c
unfolding count assign
count-assign k q v [] = refl
count-assign k q v (e ∷ c) = ground (arith, count-assign k q v c)

pub find-unlink :
    (k q : Bytes) (c : Chain)
    → count k c ≤ 1
    → find q (unlink k c) ≡ (if str_eq k q then none else find q c)
unfolding find unlink count
find-unlink k q [] h = ground arith
find-unlink k q (e ∷ c) h = ground (
  arith,
  find-unlink k q c,
  str_eq_join e.key k q,
  find_absent k c,
  str_eq_join_right e.key k q,
  find_absent q c,
  count_join k q c,
)

pub count-unlink-le : (k q : Bytes) (c : Chain) → count q (unlink k c) ≤ count q c
unfolding count unlink
count-unlink-le k q [] = omega arith
count-unlink-le k q (e ∷ c) = ground (arith, count-unlink-le k q c)

-- A write to the bucket of `k` that adds no entry but one of `k`.
pub set_chain-IsPlaced :
    (entries : ℕ → Chain) (k : Bytes) (c : Chain)
    → IsPlaced entries
    → ((q : Bytes) → str_eq k q ≡ false → count q c ≤ count q (entries (hash k)))
    → count k c ≤ 1
    → IsPlaced (set_chain entries (hash k) c)
unfolding set_chain
set_chain-IsPlaced entries k c placed others one = record {
  once = λ q i. ground (arith, placed.once q i, placed.once q (hash k), others q, count_join k q c);
  home = λ q i. ground (arith, placed.home q i, placed.home q (hash k), others q, hash_join k q);
}

-- The map after such a write.
pub view-set_chain :
    (entries : ℕ → Chain) (k q : Bytes) (c : Chain) (held : Bool) (r : Option Bytes)
    → find q c ≡ (if str_eq k q then r else find q (entries (hash k)))
    → view (record { entries = set_chain entries (hash k) c; locked = held }) q
      ≡ (if str_eq k q then r else find q (entries (hash q)))
unfolding set_chain
view-set_chain entries k q c held r h = ground (arith, hash_join k q)
