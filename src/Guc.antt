-- ===== src/Guc.antt =====
-- raled/src/raled_guc.c: the settings of the daemon. A variable that an entry points to has the entry's
-- position in the table for its name. The two ports are 16 bits wide and lie one behind the other in
-- `config.node`, with `db_path` behind them, and the entries write and read them as 32 bits; numbers
-- are stored low byte first.
pub mod File
pub mod Ports
pub mod Bounds
pub mod Lines
use rale.Base.{
  ℕ, ◌+◌, ◌*◌, ◌/◌, ◌%◌, ◌^◌, Bool, true, false, ◌&&◌, ◌||◌, List, [], ◌∷◌, ◌++◌, Option, none,
  some, ◌==◌, if◌then◌else◌, length, ℤ, pos, ltb_ℤ, to_int, to_uint, replicate, ◌-◌,
}
use rale.Text.{Bytes, codes, str_eq, strlcpy}
use rale.Text.Number.{atoi, format_int}

-- `PROTOCOL_UNIX`, and the first of the destinations and of the levels, are 0.
unfoldable pub parse_log_destination : Bytes → ℤ
parse_log_destination value =
    if str_eq value (codes "stderr")
    then pos 0
    else if str_eq value (codes "stdout")
    then pos 1
    else if str_eq value (codes "file")
    then pos 2
    else if str_eq value (codes "syslog")
    then pos 3
    else pos 1

unfoldable pub parse_protocol : Bytes → ℤ
parse_protocol value = pos 0

unfoldable pub parse_log_level : Bytes → ℤ
parse_log_level value =
    if str_eq value (codes "error")
    then pos 0
    else if str_eq value (codes "warning")
    then pos 1
    else if str_eq value (codes "info")
    then pos 2
    else if str_eq value (codes "debug")
    then pos 3
    else pos 2

pub data IntVar : Type 0 where
  rale_port dstore_port : IntVar
  plain : ℕ → IntVar

-- The type of an entry with its variable, its bounds or its parser. No entry has the type GUC_BOOL.
pub data GucType : Type 0 where
  guc_int : IntVar → ℕ → ℕ → GucType
  guc_string : ℕ → GucType
  guc_enum : ℕ → (Bytes → ℤ) → GucType

-- The default and the description of an entry are never read.
pub record GucEntry : Type 0 where
  pub name : Bytes
  pub type : GucType

abbrev pub int_entry : Bytes → IntVar → ℕ → ℕ → GucEntry
int_entry name v lo hi = record { name = name; type = guc_int v lo hi }

abbrev pub text_entry : Bytes → ℕ → GucEntry
text_entry name v = record { name = name; type = guc_string v }

abbrev pub enum_entry : Bytes → ℕ → (Bytes → ℤ) → GucEntry
enum_entry name v parser = record { name = name; type = guc_enum v parser }

-- The entries from that of the log file of dstore on.
abbrev pub late_entries : List GucEntry
late_entries =
    text_entry (codes "dstore_log_file") 15
    ∷ enum_entry (codes "dstore_log_level") 16 parse_log_level
    ∷ int_entry (codes "dstore_log_rotation_size") (plain 17) 1 1000
    ∷ int_entry (codes "dstore_log_rotation_age") (plain 18) 1 365
    ∷ enum_entry (codes "comm_log_destination") 19 parse_log_destination
    ∷ enum_entry (codes "comm_log_level") 20 parse_log_level
    ∷ int_entry (codes "comm_log_rotation_size") (plain 21) 1 1000
    ∷ int_entry (codes "comm_log_rotation_age") (plain 22) 1 365
    ∷ int_entry (codes "dstore_keep_alive_interval") (plain 23) 1 3600
    ∷ int_entry (codes "dstore_keep_alive_timeout") (plain 24) 1 3600
    ∷ text_entry (codes "log_directory") 25
    ∷ enum_entry (codes "communication_protocol") 26 parse_protocol
    ∷ text_entry (codes "communication_socket") 27
    ∷ int_entry (codes "communication_timeout") (plain 28) 1 3600
    ∷ int_entry (codes "communication_max_retries") (plain 29) 0 100
    ∷ []

abbrev pub guc_table : List GucEntry
guc_table =
    text_entry (codes "node_name") 0
    ∷ int_entry (codes "node_id") (plain 1) 1 10000
    ∷ text_entry (codes "node_ip") 2
    ∷ int_entry (codes "node_priority") (plain 3) 1 100
    ∷ int_entry (codes "rale_port") rale_port 1 65535
    ∷ int_entry (codes "dstore_port") dstore_port 1 65535
    ∷ text_entry (codes "path") 6
    ∷ int_entry (codes "max_size") (plain 7) 0 100000
    ∷ int_entry (codes "max_connections") (plain 8) 0 10000
    ∷ enum_entry (codes "raled_log_destination") 9 parse_log_destination
    ∷ text_entry (codes "raled_log_file") 10
    ∷ enum_entry (codes "raled_log_level") 11 parse_log_level
    ∷ int_entry (codes "raled_log_rotation_size") (plain 12) 1 1000
    ∷ int_entry (codes "raled_log_rotation_age") (plain 13) 1 365
    ∷ enum_entry (codes "dstore_log_destination") 14 parse_log_destination
    ∷ late_entries

-- `config`; `db_start` is the first two bytes of `config.node.db_path`.
pub record Config : Type 0 where
  pub number : ℕ → ℤ
  pub text : ℕ → Bytes
  pub rale_port : ℕ
  pub dstore_port : ℕ
  pub db_start : ℕ

-- The 32 bits of a number.
abbrev pub low : ℤ → ℕ
low v = to_uint 32 v % 2 ^ 16

abbrev pub high : ℤ → ℕ
high v = to_uint 32 v / 2 ^ 16

-- `*((int *) guc_table[i].var) = v`
unfoldable pub write_int : Config → IntVar → ℤ → Config
write_int c rale_port v = record c { rale_port = low v; dstore_port = high v }
write_int c dstore_port v = record c { dstore_port = low v; db_start = high v }
write_int c (plain n) v = record c { number = λ m. if m == n then v else c.number m }

-- `*((int *) guc_table[i].var)`
unfoldable pub read_int : Config → IntVar → ℤ
read_int c rale_port = to_int (pos (c.rale_port + 2 ^ 16 * c.dstore_port))
read_int c dstore_port = to_int (pos (c.dstore_port + 2 ^ 16 * c.db_start))
read_int c (plain n) = c.number n

unfoldable pub write_text : Config → ℕ → Bytes → Config
write_text c n value = record c { text = λ m. if m == n then strlcpy value 255 else c.text m }

unfoldable pub find_entry : List GucEntry → Bytes → Option GucEntry
find_entry [] name = none
find_entry (e ∷ es) name =
    let rest = find_entry es name in if str_eq name e.name then some e else rest

-- The names that the configuration files of older versions use.
unfoldable pub alias : Bytes → Bytes
alias name =
    if str_eq name (codes "socket_path")
    then codes "communication_socket"
    else if str_eq name (codes "log_directory")
    then name
    else if str_eq name (codes "log_file")
    then codes "raled_log_file"
    else if str_eq name (codes "log_level")
    then codes "raled_log_level"
    else name

-- The switch on the type: the settings, and whether 0 is returned.
unfoldable pub set_entry : Config → GucType → Bytes → Config × Bool
set_entry c (guc_int v lo hi) value =
    if ltb_ℤ (atoi value) (pos lo) || ltb_ℤ (pos hi) (atoi value)
    then (c, false)
    else (write_int c v (atoi value), true)
set_entry c (guc_string v) value = (write_text c v value, true)
set_entry c (guc_enum v parser) value = (write_int c (plain v) (parser value), true)

abbrev pub set_found : Config → Option GucEntry → Bytes → Config × Bool
set_found c none value = (c, false)
set_found c (some e) value = set_entry c e.type value

unfoldable pub guc_set : Config → Bytes → Bytes → Config × Bool
guc_set c name value = set_found c (find_entry guc_table (alias name)) value

abbrev pub shown : Config → GucType → Bytes
shown c (guc_int v lo hi) = format_int (read_int c v)
shown c (guc_string v) = c.text v
shown c (guc_enum v parser) = format_int (read_int c (plain v))

-- What is left in `out`, of `outlen` bytes and at least one.
unfoldable pub guc_show : Config → Bytes → ℕ → Option Bytes
guc_show c name outlen = elim (find_entry guc_table name) [
  | none ↦ none
  | some e ↦ some (strlcpy (shown c e.type) outlen)
]

-- `%-30s`
abbrev pub padded : Bytes → Bytes
padded s = s ++ replicate (30 - length s) 32

unfoldable pub show_lines : Config → List GucEntry → List Bytes
show_lines c [] = []
show_lines c (e ∷ es) =
    strlcpy (padded e.name ++ (codes " = " ++ shown c e.type)) 512 ∷ show_lines c es

-- The lines that are logged.
unfoldable pub guc_show_all : Config → List Bytes
guc_show_all c = show_lines c guc_table
