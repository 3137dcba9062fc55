-- ===== src/Hash/Delete.antt =====
-- hash_delete.
use rale.Base.{
  ◌≡◌, refl, true, false, Option, none, some, arith, if◌then◌else◌, Option-cases, inl, inr,
}
use rale.Text.{Bytes, str_eq, str_eq_iff}
use rale.Hash.{
  HashTable, hash, find, unlink, set_chain, hash_delete, Result, ok, err, not_found, done, ◌>>=◌,
}
use rale.Hash.Buckets.{view, find-unlink, count-unlink-le, set_chain-IsPlaced, view-set_chain}
use rale.Hash.Laws.{IsValid}

abbrev pub delete_result : Option Bytes → Result (Unit {0})
delete_result none = err not_found
delete_result (some old) = ok tt

-- On a valid table `hash_delete` returns with the mutex free, succeeds exactly if the table holds
-- the key, and leaves every other key its value and this key none; the table stays valid.
pub hash_delete-view :
    (k : Bytes) (t : HashTable)
    → IsValid t
    → (t' : HashTable) × (hash_delete (some t) (some k) ≡ done (some t', delete_result (view t k)))
      × IsValid t'
      × ((q : Bytes) → view t' q ≡ (if str_eq k q then none else view t q))
hash_delete-view k t valid =
    let old = t.entries (hash k) in
    elim (Option-cases (find k old)) [
      | inr (v, e) ↦ (
        record { entries = set_chain t.entries (hash k) (unlink k old); locked = false },
        unfold hash_delete in rw (valid.free, e, ◌>>=◌),
        record {
          free = refl;
          placed =
              set_chain-IsPlaced t.entries k (unlink k old) valid.placed
                (λ q ne. count-unlink-le k q old)
                (omega (arith, count-unlink-le k k old, valid.placed.once k (hash k)));
        },
        λ q.
            view-set_chain t.entries k q (unlink k old) false none
              (find-unlink k q old (valid.placed.once k (hash k))),
      )
      | inl e ↦ (
        t,
        unfold hash_delete in ground arith,
        valid,
        λ q. ground (arith, e, str_eq_iff k q, view_join k q),
      )
    ]
  where
    view_join : (k q : Bytes) → str_eq k q ≡ true → view t k ≡ view t q
    view_join k q h = rw ((str_eq_iff k q).0 h)
