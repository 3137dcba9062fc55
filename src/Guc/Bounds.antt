-- ===== src/Guc/Bounds.antt =====
-- What raled_configfile.c can make of the settings of raled_guc.c.
use rale.Base.{
  ℕ, zero, suc, ◌+◌, ◌≡◌, refl, sym, ap, ◌∙◌, subst, Bool, true, false, ◌&&◌, ◌||◌, List, [], ◌∷◌,
  Option, none, some, ◌==◌, ==_iff, Bool-cases, Option-cases, ◌⊎◌, inl, inr, ℤ, pos, ◌≤ℤ◌, ltb_ℤ,
  arith, length,
}
use rale.Text.{Bytes, str_eq, strchr, c_string}
use rale.Text.Number.{atoi}
use rale.Guc.{
  IntVar, rale_port, dstore_port, plain, GucType, guc_int, guc_string, guc_enum, GucEntry,
  guc_table, Config, write_int, write_text, find_entry, alias, set_entry, guc_set,
}
use rale.Guc.File.{
  file_lines, config_line, config_lines, read_config, set_pair, is_empty_line, strip_comment, clean,
}

-- The type of the entry at a position.
abbrev pub type_at : List GucEntry → ℕ → Option GucType
type_at [] i = none
type_at (e ∷ es) zero = some e.type
type_at (e ∷ es) (suc i) = type_at es i

-- The numbers that an entry admits: those within its bounds, or the results of its parser.
abbrev pub Admits : Option GucType → ℤ → Type 0
Admits none v = ⊥
Admits (some (guc_int w lo hi)) v = (pos lo ≤ℤ v) × (v ≤ℤ pos hi)
Admits (some (guc_string n)) v = ⊥
Admits (some (guc_enum n parser)) v = (s : Bytes) × (v ≡ parser s)

-- Every number is the old one, or one that the entry for it admits.
abbrev pub Follows : Config → Config → Type 0
Follows c d = (n : ℕ) → (d.number n ≡ c.number n) ⊎ Admits (type_at guc_table n) (d.number n)

-- The variable of the entry at position `k` has this name.
abbrev stands_at : ℕ → GucType → Bool
stands_at k (guc_int rale_port lo hi) = true
stands_at k (guc_int dstore_port lo hi) = true
stands_at k (guc_int (plain n) lo hi) = n == k
stands_at k (guc_string n) = n == k
stands_at k (guc_enum n parser) = n == k

abbrev are_placed : ℕ → List GucEntry → Bool
are_placed k [] = true
are_placed k (e ∷ es) = stands_at k e.type && are_placed (suc k) es

pub and_left : (a b : Bool) → (a && b) ≡ true → a ≡ true
and_left a b h = ground arith

pub and_right : (a b : Bool) → (a && b) ≡ true → b ≡ true
and_right a b h = ground arith

find_entry-type_at :
    (es : List GucEntry) (k : ℕ) (name : Bytes) (e : GucEntry)
    → are_placed k es ≡ true
    → find_entry es name ≡ some e
    → (i : ℕ) × (type_at es i ≡ some e.type) × (stands_at (k + i) e.type ≡ true)
unfolding find_entry
find_entry-type_at [] k name e placed h = cc
find_entry-type_at (d ∷ es) k name e placed h = elim (Bool-cases (str_eq name d.name)) [
  | inl here ↦
      let found : some d ≡ some e = rw here at h in
      let same : d.type ≡ e.type = cc found in
      let first : stands_at k d.type ≡ true =
        and_left (stands_at k d.type) (are_placed (suc k) es) placed in
      let start : k + 0 ≡ k = omega arith in (0, ap some same, rw start (rw (← same) first))
  | inr later ↦
      let found : find_entry es name ≡ some e = rw later at h in
      let (i, at, fits) =
        find_entry-type_at es (suc k) name e
          (and_right (stands_at k d.type) (are_placed (suc k) es) placed) found in
      let next : k + suc i ≡ suc k + i = omega arith in (suc i, at, rw next fits)
]

Follows-refl : (c : Config) → Follows c c
Follows-refl c n = inl refl

Follows-trans : (c d e : Config) → Follows c d → Follows d e → Follows c e
Follows-trans c d e h k n = elim (k n) [
  | inr admitted ↦ inr admitted
  | inl same ↦ elim (h n) [
    | inl first ↦ inl (same ∙ first)
    | inr admitted ↦ inr (subst (Admits (type_at guc_table n)) (sym same) admitted)
  ]
]

write_text-Follows : (c : Config) (n : ℕ) (value : Bytes) → Follows c (write_text c n value)
unfolding write_text
write_text-Follows c n value m = inl refl

write_int-Follows :
    (c : Config) (n : ℕ) (v : ℤ)
    → Admits (type_at guc_table n) v
    → Follows c (write_int c (plain n) v)
unfolding write_int
write_int-Follows c n v admitted m = elim (Bool-cases (m == n)) [
  | inr other ↦ inl (rw other refl)
  | inl same ↦
      let e : m ≡ n = (==_iff m n).0 same in
      inr (rw same (subst (λ (k : ℕ). Admits (type_at guc_table k) v) (sym e) admitted))
]

-- The test for the bounds.
abbrev is_outside : ℤ → ℕ → ℕ → Bool
is_outside v lo hi = ltb_ℤ v (pos lo) || ltb_ℤ (pos hi) v

set_int-Follows :
    (c : Config) (w : IntVar) (lo hi : ℕ) (value : Bytes)
    → (is_outside (atoi value) lo hi ≡ false → Follows c (write_int c w (atoi value)))
    → Follows c (set_entry c (guc_int w lo hi) value).0
unfolding set_entry
set_int-Follows c w lo hi value h = elim (Bool-cases (is_outside (atoi value) lo hi)) [
  | inl outside ↦ rw outside (Follows-refl c)
  | inr inside ↦ rw inside (h inside)
]

inside-bounds : (v : ℤ) (lo hi : ℕ) → is_outside v lo hi ≡ false → (pos lo ≤ℤ v) × (v ≤ℤ pos hi)
inside-bounds v lo hi h = ground arith

write_port-Follows :
    (c : Config) (v : ℤ)
    → Follows c (write_int c rale_port v) × Follows c (write_int c dstore_port v)
unfolding write_int
write_port-Follows c v = (λ n. inl refl, λ n. inl refl)

set_entry-Follows :
    (c : Config) (t : GucType) (i : ℕ) (value : Bytes)
    → type_at guc_table i ≡ some t
    → stands_at i t ≡ true
    → Follows c (set_entry c t value).0
unfolding set_entry
set_entry-Follows c (guc_int rale_port lo hi) i value at fits =
    set_int-Follows c rale_port lo hi value (λ h. (write_port-Follows c (atoi value)).0)
set_entry-Follows c (guc_int dstore_port lo hi) i value at fits =
    set_int-Follows c dstore_port lo hi value (λ h. (write_port-Follows c (atoi value)).1)
set_entry-Follows c (guc_int (plain n) lo hi) i value at fits =
    let e : n ≡ i = (==_iff n i).0 fits in
    set_int-Follows c (plain n) lo hi value
      (λ h. write_int-Follows c n (atoi value) (rw (e, at) (inside-bounds (atoi value) lo hi h)))
set_entry-Follows c (guc_string n) i value at fits = write_text-Follows c n value
set_entry-Follows c (guc_enum n parser) i value at fits =
    let e : n ≡ i = (==_iff n i).0 fits in
    write_int-Follows c n (parser value) (rw (e, at) (value, refl))

guc_set-Follows : (c : Config) (name value : Bytes) → Follows c (guc_set c name value).0
unfolding guc_set
guc_set-Follows c name value = elim (Option-cases (find_entry guc_table (alias name))) [
  | inl unknown ↦ rw unknown (Follows-refl c)
  | inr (e, found) ↦
      let (i, at, fits) = find_entry-type_at guc_table 0 (alias name) e refl found in
      let start : 0 + i ≡ i = omega arith in
      rw found (set_entry-Follows c e.type i value at (rw start at fits))
]

set_pair-Follows : (c : Config) (pair : Option (Bytes × Bytes)) → Follows c (set_pair c pair)
set_pair-Follows c none = Follows-refl c
set_pair-Follows c (some (key, value)) = guc_set-Follows c (clean key) (clean value)

config_line-Follows : (c : Config) (line : Bytes) → Follows c (config_line c line)
unfolding config_line
config_line-Follows c line =
    let text = strip_comment (c_string line) in
    elim (Bool-cases (is_empty_line text)) [
      | inl empty ↦ rw empty (Follows-refl c)
      | inr full ↦ rw full (set_pair-Follows c (strchr 61 text))
    ]

config_lines-Follows : (c : Config) (ls : List Bytes) → Follows c (config_lines c ls)
unfolding config_lines
config_lines-Follows c [] = Follows-refl c
config_lines-Follows c (l ∷ ls) =
    Follows-trans c (config_line c l) (config_lines (config_line c l) ls) (config_line-Follows c l)
      (config_lines-Follows (config_line c l) ls)

-- Any file that can be opened is read to its end, and then every number of the settings, but for the
-- two ports, is the one from before the call, or within the bounds of its entry in the table, or a
-- result of the parser of its entry.
pub read_config-Follows :
    (file : Bytes) (c : Config) → (d : Config) × (read_config (some file) c ≡ some d) × Follows c d
unfolding read_config
read_config-Follows file c = (_, refl, config_lines-Follows c (file_lines (length file) file))
