-- ===== src/Tests/Checks.antt =====
-- A path, an address, a name and two strings.
use rale.Base.{◌≡◌, refl, Bool, true, false, none, some}
use rale.Text.{Bytes, codes, strlcpy, strchr, starts_with}
use rale.Text.Number.{is_space, skip_space}
use rale.Cluster.{is_bad_text}
use rale.Validation.{
  is_alpha, is_decimal, contains, path_loop, name_loop, validate_file_path, validate_node_name,
}
use rale.Validation.Paths.{split, validate_file_path_lem}
use rale.Validation.Names.{validate_node_name-stored}
use rale.Util.{trim_end, trim_whitespace}

abbrev path : Bytes
path = codes "/var/lib/rale"

path_accepted : validate_file_path (some path) ≡ true
unfolding validate_file_path contains path_loop starts_with
path_accepted = refl

-- The parent directory is a path that passes.
parent_accepted : validate_file_path (some (codes "..")) ≡ true
unfolding validate_file_path contains path_loop starts_with
parent_accepted = refl

validate_file_path_lem_example : validate_file_path (some path) ≡ true
unfolding split contains starts_with
validate_file_path_lem_example = validate_file_path_lem path

-- Without a letter, three dots are taken for an address that is none.
abbrev refuse_all : Bytes → Bool
refuse_all s = false

name_accepted : validate_node_name (some (codes "node_1")) ≡ true
unfolding validate_node_name name_loop is_alpha is_decimal
name_accepted = refl

validate_node_name-stored_example :
    (is_bad_text (some (codes "node_1")) 256 ≡ false)
    × (strlcpy (codes "node_1") 255 ≡ codes "node_1")
    × (strchr 10 (codes "node_1") ≡ none)
    × (strchr 32 (codes "node_1") ≡ none)
    × (strchr 61 (codes "node_1") ≡ none)
validate_node_name-stored_example = validate_node_name-stored (codes "node_1") name_accepted

trimmed : trim_whitespace (some (codes "  a b ")) ≡ some (codes "a b")
unfolding trim_whitespace trim_end skip_space is_space
trimmed = refl
