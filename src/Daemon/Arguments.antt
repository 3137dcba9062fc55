-- ===== src/Daemon/Arguments.antt =====
-- raled/src/raled_args.c: the command line of the daemon. `getopt_long` is an argument: the options that
-- it returns, in their order. `none` of a file is one that cannot be opened.
use rale.Base.{
  ℕ, Bool, true, false, ◌&&◌, List, [], ◌∷◌, ◌++◌, Option, none, some, if◌then◌else◌, pos, ◌==◌,
}
use rale.Text.{Bytes, codes, strlcpy}
use rale.Text.Number.{format_int}
use rale.Guc.{Config, guc_set}
use rale.Guc.File.{read_config}

pub data Opt : Type 0 where
  config_opt : Bytes → Opt
  verbose_opt check_opt daemon_opt foreground_opt : Opt
  pid_file_opt : Bytes → Opt
  help_opt unknown_opt : Opt

-- The variables that the options set, with `config` among them.
pub record Options : Type 0 where
  pub config : Config
  pub config_file : Bytes
  pub pid_file : Bytes
  pub verbose : Bool
  pub daemon_mode : Bool
  pub check_only : Bool

-- `handle_verbose`, and what is done in front of it.
unfoldable pub handle_verbose : Options → Options
handle_verbose o = record o {
  config = (guc_set o.config (codes "raled_log_level") (codes "debug")).0;
  verbose = true;
}

-- The loop over the options; `none` is the end of the program after the help.
unfoldable pub read_options : List Opt → Options → Option Options
read_options [] o = some o
read_options (config_opt path ∷ more) o =
    read_options more (record o { config_file = strlcpy path 512 })
read_options (verbose_opt ∷ more) o = read_options more (handle_verbose o)
read_options (check_opt ∷ more) o = read_options more (record o { check_only = true })
read_options (daemon_opt ∷ more) o = read_options more (record o { daemon_mode = true })
read_options (foreground_opt ∷ more) o = read_options more (record o { daemon_mode = false })
read_options (pid_file_opt path ∷ more) o =
    read_options more (record o { pid_file = strlcpy path 256 })
read_options (help_opt ∷ more) o = none
read_options (unknown_opt ∷ more) o = read_options more o

-- The answers of the system: what a path holds that is opened, whether a directory is there after
-- `mkdir`, what `stat` says of a path (whether it is a socket), and the calls for a port.
pub record System : Type 0 where
  pub files : Bytes → Option Bytes
  pub mkdir : Bytes → Bool
  pub stat : Bytes → Option Bool
  pub socket : Bool
  pub setsockopt : Bool
  pub bind : ℕ → Bool

-- `false` is -1.
unfoldable pub check_port_availability : System → ℕ → Bool
check_port_availability k port = k.socket && (k.setsockopt && k.bind port)

unfoldable pub check_unix_socket_availability : System → Bytes → Bool
check_unix_socket_availability k [] = true
check_unix_socket_availability k (c ∷ path) = elim (k.stat (c ∷ path)) [
  | none ↦ true
  | some is_socket ↦ is_socket
]

abbrev pub or_default : Bytes → Bytes → Bytes
or_default [] default = default
or_default (c ∷ s) default = c ∷ s

-- The texts of the settings `log_directory`, `path` and `communication_socket`.
abbrev pub with_default : ℕ → Bytes → Config → Config
with_default n default c = record c {
  text = λ m. if m == n then or_default (c.text n) default else c.text m;
}

abbrev pub socket_path : Config → Bytes
socket_path c = codes "/tmp/rale_" ++ (format_int (pos c.rale_port) ++ codes ".sock")

-- The settings with what is missing filled in.
unfoldable pub completed : Config → Config
completed c =
    with_default 27 (socket_path c)
      (with_default 6 (codes "./db1") (with_default 25 (codes "./log") c))

unfoldable pub run_config_checks : System → Config → Bool
run_config_checks k c =
    let d = completed c in
    (k.mkdir (d.text 25) && k.mkdir (d.text 6))
    && (check_unix_socket_availability k (d.text 27)
        && (check_port_availability k d.rale_port && check_port_availability k d.dstore_port))

-- The program ends with a status, or goes on.
pub data Parsed : Type 0 where
  exits : ℕ → Parsed
  runs : Options → Parsed

abbrev pub after_file : System → Options → Option Config → Parsed
after_file k o none = exits 1
after_file k o (some c) =
    if o.check_only
    then exits (if run_config_checks k c then 0 else 1)
    else runs (record o { config = c })

-- `handle_config_file`, and the checks.
unfoldable pub handle_config_file : System → Options → Parsed
handle_config_file k o = after_file k o (read_config (k.files o.config_file) o.config)

unfoldable pub parse_arguments : System → List Opt → Options → Parsed
parse_arguments k opts start = elim (read_options opts start) [
  | none ↦ exits 0
  | some o ↦
      handle_config_file k
        (record o { config_file = or_default o.config_file (codes "raled.conf") })
]
