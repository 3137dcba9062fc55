-- ===== src/Daemon/Levels.antt =====
-- The log level of the daemon, which the command line and the file of settings give.
use rale.Base.{◌≡◌, refl, ap, ◌∙◌, Bool, true, false, List, [], ◌∷◌, ◌++◌, some, if◌then◌else◌}
use rale.Text.{Bytes, codes, strlcpy, str_eq}
use rale.Guc.{Config, parse_log_level, guc_set, alias, find_entry, set_entry, write_int}
use rale.Guc.File.{read_config}
use rale.Guc.Lines.{AreSettings, settings_text, set_all, read_config-set_all}
use rale.Daemon.Arguments.{
  Opt, config_opt, verbose_opt, check_opt, daemon_opt, foreground_opt, pid_file_opt, help_opt,
  unknown_opt, Options, handle_verbose, read_options, System, or_default, runs, after_file, exits,
  run_config_checks, handle_config_file, parse_arguments,
}

-- Options that start the daemon: neither the help nor the check is asked for.
abbrev pub are_plain : List Opt → Bool
are_plain [] = true
are_plain (check_opt ∷ opts) = false
are_plain (help_opt ∷ opts) = false
are_plain (o ∷ opts) = are_plain opts

-- The path of the last option for it, or the one given.
abbrev pub last_path : List Opt → Bytes → Bytes
last_path [] path = path
last_path (config_opt p ∷ opts) path = last_path opts (strlcpy p 512)
last_path (o ∷ opts) path = last_path opts path

abbrev pub last_mode : List Opt → Bool → Bool
last_mode [] mode = mode
last_mode (daemon_opt ∷ opts) mode = last_mode opts true
last_mode (foreground_opt ∷ opts) mode = last_mode opts false
last_mode (o ∷ opts) mode = last_mode opts mode

abbrev pub Reads : List Opt → Options → Options → Type 0
Reads opts o p =
    (read_options opts o ≡ some p)
    × (p.config_file ≡ last_path opts o.config_file)
    × (p.daemon_mode ≡ last_mode opts o.daemon_mode)
    × (p.check_only ≡ o.check_only)

read_options-Reads :
    (opts : List Opt) (o : Options) → are_plain opts ≡ true → (p : Options) × Reads opts o p
unfolding read_options handle_verbose
read_options-Reads [] o h = (o, (refl, refl, refl, refl))
read_options-Reads (config_opt path ∷ opts) o h = read_options-Reads opts _ h
read_options-Reads (verbose_opt ∷ opts) o h = read_options-Reads opts (handle_verbose o) h
read_options-Reads (check_opt ∷ opts) o h = cc
read_options-Reads (daemon_opt ∷ opts) o h = read_options-Reads opts _ h
read_options-Reads (foreground_opt ∷ opts) o h = read_options-Reads opts _ h
read_options-Reads (pid_file_opt path ∷ opts) o h = read_options-Reads opts _ h
read_options-Reads (help_opt ∷ opts) o h = cc
read_options-Reads (unknown_opt ∷ opts) o h = read_options-Reads opts o h

set_all-append :
    (c : Config) (ps qs : List (Bytes × Bytes)) → set_all c (ps ++ qs) ≡ set_all (set_all c ps) qs
set_all-append c [] qs = refl
set_all-append c (p ∷ ps) qs = set_all-append (guc_set c p.0 p.1).0 ps qs

abbrev pub level_setting : Bytes → List (Bytes × Bytes)
level_setting v = (codes "log_level", v) ∷ []

set-log_level :
    (c : Config) (v : Bytes) → (guc_set c (codes "log_level") v).0.number 11 ≡ parse_log_level v
unfolding guc_set alias find_entry str_eq set_entry write_int
set-log_level c v = refl

handle-runs :
    (k : System) (o : Options) (text : Bytes) (c : Config)
    → k.files o.config_file ≡ some text
    → read_config (some text) o.config ≡ some c
    → o.check_only ≡ false
    → handle_config_file k o ≡ runs (record o { config = c })
unfolding handle_config_file
handle-runs k o text c found read unchecked =
    ap (λ t. after_file k o (read_config t o.config)) found
    ∙ ap (after_file k o) read
    ∙ ap
        (λ b.
          if b
          then exits (if run_config_checks k c then 0 else 1)
          else runs (record o { config = c }))
        unchecked

parse-read :
    (k : System) (opts : List Opt) (o p : Options)
    → read_options opts o ≡ some p
    → parse_arguments k opts o
      ≡ handle_config_file k
          (record p { config_file = or_default p.config_file (codes "raled.conf") })
unfolding parse_arguments
parse-read k opts o p e = rw (e, parse_arguments) refl

-- For a command line that asks neither for the help nor for the check, and a file of settings, named by
-- the last option for it or by default, that ends with a line for "log_level" and has one setting in each
-- line: the daemon goes on in the mode of the last option for it, and its log level is that of the file,
-- also where an option asks for verbose output.
pub parse_arguments-log_level :
    (k : System) (opts : List Opt) (o : Options) (ps : List (Bytes × Bytes)) (v : Bytes)
    → are_plain opts ≡ true
    → o.check_only ≡ false
    → k.files (or_default (last_path opts o.config_file) (codes "raled.conf"))
      ≡ some (settings_text (ps ++ level_setting v))
    → AreSettings (ps ++ level_setting v)
    → (q : Options) × (parse_arguments k opts o ≡ runs q)
      × (q.daemon_mode ≡ last_mode opts o.daemon_mode)
      × (q.config.number 11 ≡ parse_log_level v)
parse_arguments-log_level k opts o ps v plain unchecked file settings =
    let (p, (reads, path, mode, same)) = read_options-Reads opts o plain in
    let read = read_config-set_all (ps ++ level_setting v) p.config settings in
    let named = or_default p.config_file (codes "raled.conf") in
    let found = ap (λ x. k.files (or_default x (codes "raled.conf"))) path ∙ file in
    (
      record p { config_file = named; config = set_all p.config (ps ++ level_setting v) },
      parse-read k opts o p reads
          ∙ handle-runs k (record p { config_file = named }) (settings_text (ps ++ level_setting v))
              _ found read (same ∙ unchecked),
      mode,
      ap (λ (c : Config). c.number 11) (set_all-append p.config ps (level_setting v))
          ∙ set-log_level (set_all p.config ps) v,
    )
