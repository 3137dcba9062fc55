-- ===== src/Daemon/Files.antt =====
-- The files that the library uses in the daemon.
use rale.Base.{
  ◌≡◌, ◌≢◌, refl, sym, ap, ◌∙◌, subst, Bool, true, false, ◌&&◌, List, ◌==◌, if◌then◌else◌, [], ◌∷◌,
  ◌++◌, Option, none, some, Bool-cases, inl, inr, length, length-append, arith, ℕ,
}
use rale.Text.{Bytes, codes, strlcpy, str_eq}
use rale.Cluster.File.{Stored}
use rale.Proto.{State}
use rale.Proto.Restart.{rale_proto_init-follower}
use rale.Dstore.{dstore_init}
use rale.Guc.{Config}
use rale.Guc.Bounds.{and_left, and_right}
use rale.Daemon.Start.{
  Answers, Library, state_path, dstore_state_path, file_at, after_init, init_parts,
  initialize_librale,
}
use rale.Daemon.Started.{
  lib_config, in_range, empty_cluster, unsaved, absurd, initialize-taken,
  initialize_librale-can_start,
}

-- The store has what is in "/rale.state"; the protocol has what is in its own file, if it has one.
pub record UsesFiles (k : Answers) (s : Config) (l : Library) : Type 0 where
  pub store_reads : l.dstore.state_file ≡ k.files (codes "/rale.state")
  pub protocol_reads :
      (p : State) × (l.protocol ≡ some (lib_config s, p))
      × (p.file ≡ file_at k (state_path (lib_config s)))

abbrev or_nothing : Option Bytes → Bytes
or_nothing none = []
or_nothing (some s) = s

longer : (c : ℕ) (path end : Bytes) → some ((c ∷ path) ++ end) ≢ some end
longer c path end h =
    let same = ap (λ (o : Option Bytes). length (or_nothing o)) h in
    omega (arith, same, length-append (c ∷ path) end)

path-differs :
    (path end : Bytes)
    → elim path as (λ x. Option Bytes) [ [] ↦ none | d ∷ p ↦ some ((d ∷ p) ++ end) ] ≢ some end
path-differs [] end h = cc
path-differs (d ∷ p) end h = longer d p end h

paths-differ : (s : Config) → state_path (lib_config s) ≢ some (dstore_state_path (lib_config s))
unfolding state_path dstore_state_path
paths-differ s h = path-differs (strlcpy (s.text 6) 255) (codes "/rale.state") h

init_parts-UsesFiles :
    (k : Answers) (s : Config) (t : Stored) (l : Library)
    → (after_init k (init_parts k (lib_config s) t l)).1 ≡ true
    → UsesFiles k s (after_init k (init_parts k (lib_config s) t l)).0
unfolding init_parts dstore_init dstore_state_path
init_parts-UsesFiles k s t l = elim (Bool-cases k.udp) [
  | inr shut ↦ simp shut (λ h. absurd h)
  | inl made ↦ elim (Bool-cases k.tcp) [
    | inr shut ↦ simp (made, shut) (λ h. absurd h)
    | inl bound ↦
        simp (made, bound)
          (λ h. record {
            store_reads = refl;
            protocol_reads = (_, refl, (rale_proto_init-follower _ _ _).1);
          })
  ]
]

-- The names on a path, as the system walks it: "//" is "/", and "." leads nowhere. `name` is the one
-- that is being read.
abbrev pub with_name : Bytes → List Bytes → List Bytes
with_name [] names = names
with_name (c ∷ name) names = if str_eq (c ∷ name) (codes ".") then names else (c ∷ name) ∷ names

abbrev pub names_from : Bytes → Bytes → List Bytes
names_from name [] = with_name name []
names_from name (c ∷ path) =
    if c == 47 then with_name name (names_from [] path) else names_from (name ++ c ∷ []) path

abbrev pub names : Bytes → List Bytes
names path = names_from [] path

with_name-append :
    (name : Bytes) (ns ms : List Bytes) → with_name name (ns ++ ms) ≡ with_name name ns ++ ms
with_name-append [] ns ms = refl
with_name-append (c ∷ name) ns ms = elim (Bool-cases (str_eq (c ∷ name) (codes "."))) [
  | inl e ↦ rw e refl
  | inr e ↦ rw e refl
]

-- A path with a slash behind it.
names_from-append :
    (name path more : Bytes)
    → names_from name (path ++ 47 ∷ more) ≡ names_from name path ++ names more
names_from-append name [] more = with_name-append name [] (names more)
names_from-append name (c ∷ path) more = elim (Bool-cases (c == 47)) [
  | inl e ↦
      rw (e, names_from-append [] path more)
        (with_name-append name (names_from [] path) (names more))
  | inr e ↦ rw (e, names_from-append (name ++ c ∷ []) path more) refl
]

-- The directory that the settings give, as the library keeps it, and the file in it.
abbrev pub directory : Config → Bytes
directory s = strlcpy (s.text 6) 255

abbrev pub in_directory : Bytes → Option Bytes
in_directory [] = none
in_directory (c ∷ dir) = some ((c ∷ dir) ++ codes "/rale.state")

abbrev pub is_empty : Bytes → Bool
is_empty [] = true
is_empty (c ∷ s) = false

abbrev pub names_of : Option Bytes → List Bytes
names_of none = []
names_of (some path) = names path

-- The two paths: they are not the same text, and the names on them are the same only if there are none on
-- the configured directory.
pub record PathsDiffer (s : Config) : Type 0 where
  pub protocol_path : state_path (lib_config s) ≡ in_directory (directory s)
  pub store_names : names (dstore_state_path (lib_config s)) ≡ codes "rale.state" ∷ []
  pub protocol_names :
      names_of (in_directory (directory s))
      ≡ (if is_empty (directory s) then [] else names (directory s) ++ codes "rale.state" ∷ [])
  pub texts : state_path (lib_config s) ≢ some (dstore_state_path (lib_config s))

state_path-in_directory : (s : Config) → state_path (lib_config s) ≡ in_directory (directory s)
unfolding state_path
state_path-in_directory s = refl

directory_names :
    (dir : Bytes)
    → names_of (in_directory dir)
      ≡ (if is_empty dir then [] else names dir ++ codes "rale.state" ∷ [])
unfolding str_eq
directory_names [] = refl
directory_names (c ∷ dir) = names_from-append [] (c ∷ dir) (codes "rale.state")

PathsDiffer-all : (s : Config) → PathsDiffer s
unfolding dstore_state_path str_eq
PathsDiffer-all s = record {
  protocol_path = state_path-in_directory s;
  store_names = refl;
  protocol_names = directory_names (directory s);
  texts = paths-differ s;
}

-- The start of the library in a process that has not initialized its cluster and has no file for it, if it
-- succeeds: whatever directory the settings give, the store has the contents of "/rale.state", and the
-- protocol those of rale.state in the configured directory, or of no file if none is configured. The two
-- paths differ as texts; and the names on the way, "." apart, are "rale.state" for the store, and those
-- of the directory with "rale.state" behind them for the protocol. (A directory without names, such as
-- "/", or one with ".." or a link on it, may all the same lead to the file of the store.)
pub initialize_librale-UsesFiles :
    (k : Answers) (s : Config) (l : Library)
    → l.dstore.stored.cluster.initialized ≡ false
    → l.dstore.stored.path_set ≡ false
    → (initialize_librale k s l).1 ≡ true
    → UsesFiles k s (initialize_librale k s l).0 × PathsDiffer s
initialize_librale-UsesFiles k s l off unset h =
    let could = sym (initialize_librale-can_start k s l off unset).0 ∙ h in
    let made = and_left k.memory (in_range (s.number 1) && (k.udp && k.tcp)) could in
    let rest = and_right k.memory (in_range (s.number 1) && (k.udp && k.tcp)) could in
    let e =
      initialize-taken k s l made off unset
        (and_left (in_range (s.number 1)) (k.udp && k.tcp) rest) in
    (
      subst (λ (r : Library × Bool). UsesFiles k s r.0) (sym e)
          (init_parts-UsesFiles k s (unsaved (empty_cluster (s.number 1)) l.dstore.stored.file) l
            (sym (ap (λ (r : Library × Bool). r.1) e) ∙ h)),
      PathsDiffer-all s,
    )
