-- ===== src/Validation.antt =====
-- librale/src/validation.c: checks of values from outside. LIBRALE_SUCCESS is `true`, LIBRALE_ERROR
-- is `false`, and a NULL pointer is `none`. isalpha, isdigit and iscntrl are those of the C locale;
-- inet_pton and cJSON_Parse are parameters.
pub mod Paths
pub mod Names
use rale.Base.{
  ℕ, zero, suc, ◌+◌, Bool, true, false, ◌||◌, ◌&&◌, not, List, [], ◌∷◌, Option, none, some, ltb,
  leb, ◌==◌, if◌then◌else◌, length, ℤ, pos, ltb_ℤ,
}
use rale.Text.{Bytes, codes, starts_with}

abbrev pub is_empty : Option Bytes → Bool
is_empty none = true
is_empty (some s) = length s == 0

abbrev pub between : ℕ → ℕ → ℕ → Bool
between low high c = leb low c && leb c high

unfoldable pub is_alpha : ℕ → Bool
is_alpha c = between 65 90 c || between 97 122 c

unfoldable pub is_decimal : ℕ → Bool
is_decimal c = between 48 57 c

abbrev pub is_alnum : ℕ → Bool
is_alnum c = is_alpha c || is_decimal c

abbrev pub is_cntrl : ℕ → Bool
is_cntrl c = ltb c 32 || c == 127

-- `strstr(s, part) != NULL`
unfoldable pub contains : Bytes → Bytes → Bool
contains part [] = starts_with part []
contains part (c ∷ s) = starts_with part (c ∷ s) || contains part s

abbrev pub validate_pointer : {A : Type 0} → Option A → Bool
validate_pointer none = false
validate_pointer (some a) = true

unfoldable pub validate_json_string : (Bytes → Bool) → Option Bytes → Bool
validate_json_string parses none = false
validate_json_string parses (some s) =
    if length s == 0 then false else if ltb 65536 (length s) then false else parses s

unfoldable pub validate_node_id : ℤ → Bool
validate_node_id id = if ltb_ℤ id (pos 0) || ltb_ℤ (pos 10) id then false else true

-- The loop over the bytes of a host name; at its end, the test for what looks like an IPv4 address.
unfoldable pub host_loop : ℕ → Bool → Bytes → Bool
host_loop dots alpha [] = if not alpha && dots == 3 then false else true
host_loop dots alpha (c ∷ s) =
    if c == 46
    then host_loop (suc dots) alpha s
    else if is_alpha c
    then host_loop dots true s
    else if not (is_decimal c) && (not (c == 45) && not (c == 95))
    then false
    else host_loop dots alpha s

-- `inet4` and `inet6` say what `inet_pton` accepts.
unfoldable pub validate_ip_address : (Bytes → Bool) → (Bytes → Bool) → Option Bytes → Bool
unfolding host_loop
validate_ip_address inet4 inet6 none = false
validate_ip_address inet4 inet6 (some ip) =
    if length ip == 0
    then false
    else if ltb 253 (length ip)
    then false
    else if inet4 ip
    then true
    else if inet6 ip
    then true
    else host_loop 0 false ip

unfoldable pub validate_port : ℤ → Bool
validate_port port = if ltb_ℤ port (pos 1) || ltb_ℤ (pos 65535) port then false else true

-- The loop over the bytes of a path, with the length of the component so far.
unfoldable pub path_loop : ℕ → Bytes → Bool
path_loop n [] = if ltb 255 n then false else true
path_loop n (c ∷ s) =
    if c == 47
    then (if ltb 255 n then false else path_loop 0 s)
    else if c == 0 || is_cntrl c
    then false
    else path_loop (suc n) s

-- PATH_MAX is 4096.
unfoldable pub validate_file_path : Option Bytes → Bool
unfolding path_loop contains
validate_file_path none = false
validate_file_path (some path) =
    if length path == 0
    then false
    else if leb 4096 (length path)
    then false
    else if contains (codes "../") path || contains (codes "/..") path
    then false
    else if contains (codes "//") path
    then false
    else path_loop 0 path

unfoldable pub name_loop : Bytes → Bool
name_loop [] = true
name_loop (c ∷ s) =
    if not (is_alnum c) && (not (c == 95) && not (c == 45)) then false else name_loop s

abbrev pub starts_alnum : Bytes → Bool
starts_alnum [] = false
starts_alnum (c ∷ s) = is_alnum c

unfoldable pub validate_node_name : Option Bytes → Bool
unfolding name_loop
validate_node_name none = false
validate_node_name (some name) =
    if length name == 0
    then false
    else if ltb (length name) 1 || ltb 64 (length name)
    then false
    else if not (starts_alnum name)
    then false
    else name_loop name

unfoldable pub validate_buffer_size : ℕ → ℕ → ℕ → Bool
validate_buffer_size size min_size max_size =
    if ltb size min_size || ltb max_size size then false else true

unfoldable pub validate_timeout : ℤ → Bool
validate_timeout timeout =
    if ltb_ℤ timeout (pos 0) || ltb_ℤ (pos 300000) timeout then false else true
