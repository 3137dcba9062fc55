-- ===== src/Tests/Starts.antt =====
-- The daemon with a file of settings on its command line, and a start of the library.
use rale.Base.{◌⊎◌, ◌≡◌, refl, if◌then◌else◌, true, false, [], ◌∷◌, none, some, pos, ◌==◌, arith}
use rale.Text.{codes, str_eq, strlcpy}
use rale.Dstore.{Link}
use rale.Guc.{Config, parse_log_level}
use rale.Guc.Lines.{settings_text}
use rale.Daemon.Arguments.{
  System, Options, config_opt, verbose_opt, foreground_opt, runs, parse_arguments,
}
use rale.Daemon.Start.{Answers, Library, initialize_librale}
use rale.Daemon.Started.{
  can_start, IsStarted, initialize_librale-can_start, initialize_librale-IsStarted,
}
use rale.Daemon.Files.{UsesFiles, PathsDiffer, initialize_librale-UsesFiles}
use rale.Daemon.Levels.{parse_arguments-log_level}

abbrev settings : Config
settings = record {
  number = λ n. if n == 1 then pos 2 else pos 0;
  text = λ n. if n == 6 then codes "/db" else [];
  rale_port = 5002;
  dstore_port = 6002;
  db_start = 0;
}

abbrev answers : Answers
answers = record {
  memory = true;
  files = λ path. if str_eq path (codes "/db/rale.state") then some (codes "4 2 2 0 0\n") else none;
  writable = true;
  udp = true;
  tcp = true;
  env = record { now = 1000; rand = 0; writable = true };
}

abbrev unlinked : Link
unlinked = record {
  client = none;
  connection_status = false;
  last_keep_alive_sent = 0;
  last_connection_attempt = 0;
  connection_attempt_count = pos 0;
}

abbrev fresh : Library
fresh = record {
  dstore = record {
    stored = record {
      cluster = record { nodes = []; node_count = 0; self_id = pos 0; initialized = false };
      path_set = false;
      file = none;
    };
    db = record { table = none; file = none };
    state_file = none;
    server = none;
    links = λ i. unlinked;
    sockets = λ i. pos 0;
    loop_first_run = true;
    tick_first_run = true;
    last_connect_attempt = 0;
    last_keep_alive_check = 0;
  };
  protocol = none;
}

starts : (initialize_librale answers settings fresh).1 ≡ true
starts = (initialize_librale-can_start answers settings fresh refl refl).0

initialize_librale-IsStarted_example :
    (((initialize_librale answers settings fresh).1 ≡ false) × (can_start answers settings ≡ false))
    ⊎ (((initialize_librale answers settings fresh).1 ≡ true)
        × (can_start answers settings ≡ true)
        × IsStarted answers settings (initialize_librale answers settings fresh).0)
initialize_librale-IsStarted_example = initialize_librale-IsStarted answers settings fresh refl refl

initialize_librale-UsesFiles_example :
    UsesFiles answers settings (initialize_librale answers settings fresh).0 × PathsDiffer settings
initialize_librale-UsesFiles_example =
    initialize_librale-UsesFiles answers settings fresh refl refl starts

abbrev system : System
system = record {
  files = λ path.
      if str_eq path (codes "c")
      then some (settings_text ((codes "log_level", codes "error") ∷ []))
      else none;
  mkdir = λ path. true;
  stat = λ path. none;
  socket = true;
  setsockopt = true;
  bind = λ port. true;
}

abbrev options : Options
options = record {
  config = settings;
  config_file = [];
  pid_file = codes "/tmp/raled_%d.pid";
  verbose = false;
  daemon_mode = true;
  check_only = false;
}

parse_arguments-log_level_example :
    (q : Options) × (parse_arguments system
        (config_opt (codes "c") ∷ verbose_opt ∷ foreground_opt ∷ [])
        options
      ≡ runs q)
    × (q.daemon_mode ≡ false)
    × (q.config.number 11 ≡ parse_log_level (codes "error"))
unfolding str_eq strlcpy
parse_arguments-log_level_example =
    parse_arguments-log_level system (config_opt (codes "c") ∷ verbose_opt ∷ foreground_opt ∷ [])
      options [] (codes "error") refl refl refl
      (
        omega arith,
        omega arith,
        (refl, (refl, (refl, (refl, (refl, (refl, (refl, (refl, (refl, tt))))))))),
        (refl, (refl, (refl, (refl, (refl, tt))))),
        omega arith,
        tt,
      )
