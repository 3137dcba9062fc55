-- ===== src/Validation/Names.antt =====
-- What the checks of names and addresses accept.
use rale.Base.{
  ℕ, suc, ◌+◌, ◌≡◌, refl, Bool, true, false, ◌||◌, ◌&&◌, not, [], ◌∷◌, none, some, leb, ◌==◌,
  if◌then◌else◌, length, arith, ◌≤◌,
}
use rale.Text.{Bytes, strlcpy, strlcpy_whole, strchr}
use rale.Cluster.{is_bad_text}
use rale.Validation.{
  is_alpha, is_decimal, is_alnum, host_loop, validate_ip_address, name_loop, validate_node_name,
}

abbrev pub is_host_byte : ℕ → Bool
is_host_byte c = c == 46 || (is_alnum c || (c == 45 || c == 95))

abbrev pub are_host_bytes : Bytes → Bool
are_host_bytes [] = true
are_host_bytes (c ∷ s) = is_host_byte c && are_host_bytes s

abbrev pub has_letter : Bytes → Bool
has_letter [] = false
has_letter (c ∷ s) = is_alpha c || has_letter s

abbrev pub count_dots : Bytes → ℕ
count_dots [] = 0
count_dots (c ∷ s) = (if c == 46 then 1 else 0) + count_dots s

dot_no_letter : (c : ℕ) → (c == 46) ≡ true → is_alpha c ≡ false
unfolding is_alpha
dot_no_letter c h = ground arith

host_loop_lem :
    (dots : ℕ) (alpha : Bool) (s : Bytes)
    → host_loop dots alpha s
      ≡ (are_host_bytes s && (alpha || has_letter s || not (dots + count_dots s == 3)))
unfolding host_loop
host_loop_lem dots true [] = ground arith
host_loop_lem dots false [] = ground arith
host_loop_lem dots alpha (c ∷ s) = ground (
  arith,
  dot_no_letter c,
  host_loop_lem (suc dots) alpha s,
  host_loop_lem dots true s,
  host_loop_lem dots alpha s,
)

-- `validate_ip_address` accepts exactly the texts of 1 to 253 bytes that `inet_pton` takes for an
-- address, or that have only letters, digits, dots, "-" and "_", and a letter or not exactly three
-- dots.
validate_ip_address_lem :
    (inet4 inet6 : Bytes → Bool) (s : Bytes)
    → validate_ip_address inet4 inet6 (some s) ≡ (
        leb 1 (length s)
        && (leb (length s) 253
            && (inet4 s
                || (inet6 s || (are_host_bytes s && (has_letter s || not (count_dots s == 3)))))))
unfolding validate_ip_address
validate_ip_address_lem inet4 inet6 s = ground (arith, host_loop_lem 0 false s)

abbrev pub is_name_byte : ℕ → Bool
is_name_byte c = is_alnum c || (c == 95 || c == 45)

name_loop-strchr :
    (c : ℕ) (s : Bytes) → is_name_byte c ≡ false → name_loop s ≡ true → strchr c s ≡ none
unfolding name_loop strchr
name_loop-strchr c [] other h = refl
name_loop-strchr c (d ∷ s) other h = ground (arith, name_loop-strchr c s)

validate_node_name_parts :
    (s : Bytes)
    → validate_node_name (some s) ≡ true
    → (name_loop s ≡ true) × (length s ≤ 64) × (1 ≤ length s)
unfolding validate_node_name
validate_node_name_parts s h = ground arith

-- A node name that `validate_node_name` accepts passes the name check of `cluster_add_node`, is
-- stored whole, and has none of the bytes that the lines and words of the state files end at.
pub validate_node_name-stored :
    (s : Bytes)
    → validate_node_name (some s) ≡ true
    → (is_bad_text (some s) 256 ≡ false)
      × (strlcpy s 255 ≡ s)
      × (strchr 10 s ≡ none)
      × (strchr 32 s ≡ none)
      × (strchr 61 s ≡ none)
unfolding is_alpha is_decimal
validate_node_name-stored s h =
    let (loop, short, some_byte) = validate_node_name_parts s h in
    (
      ground arith,
      strlcpy_whole s 255 (omega arith),
      name_loop-strchr 10 s refl loop,
      name_loop-strchr 32 s refl loop,
      name_loop-strchr 61 s refl loop,
    )
