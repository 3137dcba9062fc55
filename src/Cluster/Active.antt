-- ===== src/Cluster/Active.antt =====
-- What the array operations do to the members in use.
use rale.Base.{
  ℕ, zero, suc, ◌+◌, ◌≤◌, ◌<◌, ◌≡◌, refl, ap, ◌∙◌, List, [], ◌∷◌, ◌++◌, some, arith, length,
  length-set, take, set, get_or, ℤ, ◌==ℤ◌, if◌then◌else◌,
}
use native.Mathlib.Nat.{zero-add, suc-add}
use rale.Cluster.{Node, zero_node, position, shift_down}

-- The list without the first node of the id.
unfoldable pub without : ℤ → List Node → List Node
without id [] = []
without id (n ∷ ns) = if n.id ==ℤ id then ns else n ∷ without id ns

unfoldable pub erase_at : ℕ → List Node → List Node
erase_at i [] = []
erase_at zero (n ∷ ns) = ns
erase_at (suc i) (n ∷ ns) = n ∷ erase_at i ns

pub erase_at-position :
    (id : ℤ) (ns : List Node) (i : ℕ) → position id ns ≡ some i → erase_at i ns ≡ without id ns
unfolding position erase_at without
erase_at-position id [] i h = cc
erase_at-position id (n ∷ ns) zero h = ground arith
erase_at-position id (n ∷ ns) (suc i) h = ground (arith, erase_at-position id ns i)

pub position-lt : (id : ℤ) (ns : List Node) (i : ℕ) → position id ns ≡ some i → i < length ns
unfolding position
position-lt id [] i h = cc
position-lt id (n ∷ ns) zero h = omega arith
position-lt id (n ∷ ns) (suc i) h = ground (arith, position-lt id ns i)

shift_down-cons :
    (n i : ℕ) (x : Node) (ns : List Node) → shift_down n (suc i) (x ∷ ns) ≡ x ∷ shift_down n i ns
unfolding shift_down
shift_down-cons zero i x ns = refl
shift_down-cons (suc n) i x ns =
    shift_down-cons n (suc i) x (set ns i (get_or ns (suc i) zero_node))

shift_down_step :
    (n : ℕ) (x y : Node) (ns : List Node)
    → shift_down (suc n) 0 (x ∷ y ∷ ns) ≡ y ∷ shift_down n 0 (y ∷ ns)
shift_down_step n x y ns = unfold shift_down in shift_down-cons n 0 y (y ∷ ns)

shift_down_front :
    (n : ℕ) (x : Node) (ns : List Node)
    → n ≤ length ns
    → take n (shift_down n 0 (x ∷ ns)) ≡ take n ns
shift_down_front zero x ns h = refl
shift_down_front (suc n) x [] h = absurd (omega arith)
shift_down_front (suc n) x (y ∷ ns) h =
    rw (shift_down_step n x y ns)
      (ap (λ (t : List Node). y ∷ t) (shift_down_front n y ns (omega arith)))

-- The shift erases one place of the part in use.
pub take-shift_down :
    (i n : ℕ) (ns : List Node)
    → i + n < length ns
    → take (i + n) (shift_down n i ns) ≡ erase_at i (take (suc (i + n)) ns)
unfolding erase_at
take-shift_down i n [] h = absurd (omega arith)
take-shift_down zero n (x ∷ ns) h = rw (zero-add, shift_down_front n x ns (omega arith))
take-shift_down (suc i) n (x ∷ ns) h =
    rw (suc-add, shift_down-cons n i x ns)
      (ap (λ (t : List Node). x ∷ t) (take-shift_down i n ns (omega arith)))

pub length-shift_down : (n i : ℕ) (ns : List Node) → length (shift_down n i ns) ≡ length ns
unfolding shift_down
length-shift_down zero i ns = refl
length-shift_down (suc n) i ns =
    length-shift_down n (suc i) (set ns i (get_or ns (suc i) zero_node))
    ∙ length-set ns i (get_or ns (suc i) zero_node)

-- A write behind the part in use makes it longer by one.
pub take-set_next :
    (ns : List Node) (k : ℕ) (v : Node)
    → k < length ns
    → take (k + 1) (set ns k v) ≡ take k ns ++ v ∷ []
take-set_next [] k v h = absurd (omega arith)
take-set_next (x ∷ ns) zero v h = refl
take-set_next (x ∷ ns) (suc k) v h =
    rw suc-add (ap (λ (t : List Node). x ∷ t) (take-set_next ns k v (omega arith)))

length-without :
    (id : ℤ) (ns : List Node) (i : ℕ)
    → position id ns ≡ some i
    → length (without id ns) + 1 ≡ length ns
unfolding without position
length-without id [] i h = cc
length-without id (n ∷ ns) zero h = ground arith
length-without id (n ∷ ns) (suc i) h = ground (arith, length-without id ns i)
