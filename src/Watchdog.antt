-- ===== src/Watchdog.antt =====
-- librale/src/watchdog.c: the state of the watchdog. No device is opened by this code, so `device_fd`
-- stays -1 and is left out, and so do the failures that are never counted. A pointer that is NULL is
-- `none`. The counters of 64 bits do not wrap here.
pub mod Leadership
use rale.Base.{
  ℕ, suc, Bool, true, false, ◌&&◌, ◌||◌, not, List, [], ◌∷◌, Option, none, some, leb, ltb, ◌==◌,
  if◌then◌else◌, length,
}
use rale.Text.{Bytes, codes}

pub data WatchdogMode : Type 0 where
  mode_disabled mode_optional mode_required : WatchdogMode

pub data WatchdogState : Type 0 where
  uninitialized disabled enabled active failed in_test : WatchdogState

pub record WatchdogConfig : Type 0 where
  pub device_path : Bytes
  pub mode : WatchdogMode
  pub timeout_seconds : ℕ
  pub safety_margin_seconds : ℕ
  pub keepalive_interval_seconds : ℕ
  pub test_mode : Bool

pub record WatchdogStats : Type 0 where
  pub keepalives_sent : ℕ
  pub enable_count : ℕ
  pub disable_count : ℕ
  pub last_keepalive : ℕ
  pub last_enable : ℕ
  pub last_disable : ℕ

pub record Watchdog : Type 0 where
  pub config : WatchdogConfig
  pub state : WatchdogState
  pub is_active : Bool
  pub last_keepalive : ℕ
  pub enabled_at : ℕ
  pub stats : WatchdogStats

-- `interval` is WATCHDOG_KEEPALIVE_INTERVAL.
unfoldable pub watchdog_config_init_defaults : ℕ → WatchdogConfig
watchdog_config_init_defaults interval = record {
  device_path = codes "/dev/watchdog";
  mode = mode_optional;
  timeout_seconds = 30;
  safety_margin_seconds = 5;
  keepalive_interval_seconds = interval;
  test_mode = false;
}

unfoldable pub watchdog_config_validate : Option WatchdogConfig → Bool
watchdog_config_validate none = false
watchdog_config_validate (some c) =
    if ltb c.timeout_seconds 5 || ltb 600 c.timeout_seconds
    then false
    else if leb c.timeout_seconds c.safety_margin_seconds
    then false
    else if length c.device_path == 0
    then false
    else true

abbrev pub no_stats : WatchdogStats
no_stats = record {
  keepalives_sent = 0;
  enable_count = 0;
  disable_count = 0;
  last_keepalive = 0;
  last_enable = 0;
  last_disable = 0;
}

-- What `watchdog_init` writes.
abbrev pub started : WatchdogConfig → Watchdog
started c = record {
  config = c;
  state = disabled;
  is_active = false;
  last_keepalive = 0;
  enabled_at = 0;
  stats = no_stats;
}

-- `there` says whether the context is not NULL, `mutex` whether its mutex can be made.
unfoldable pub watchdog_init : Bool → Bool → Option WatchdogConfig → Option Watchdog
unfolding watchdog_config_validate
watchdog_init there mutex none = none
watchdog_init there mutex (some c) =
    if not there || (not (watchdog_config_validate (some c)) || not mutex)
    then none
    else some (started c)

unfoldable pub watchdog_cleanup : Watchdog → Watchdog
watchdog_cleanup w = record w { state = uninitialized; is_active = false }

abbrev pub is_disabled : WatchdogMode → Bool
is_disabled mode_disabled = true
is_disabled _ = false

abbrev pub is_required : WatchdogMode → Bool
is_required mode_required = true
is_required _ = false

unfoldable pub watchdog_enable : ℕ → Watchdog → Watchdog
watchdog_enable now w = if is_disabled w.config.mode then w else record w {
  state = if w.config.test_mode then in_test else enabled;
  is_active = true;
  enabled_at = now;
  stats = record w.stats { enable_count = suc w.stats.enable_count; last_enable = now };
}

unfoldable pub watchdog_disable : ℕ → Watchdog → Watchdog
watchdog_disable now w = record w {
  state = disabled;
  is_active = false;
  stats = record w.stats { disable_count = suc w.stats.disable_count; last_disable = now };
}

unfoldable pub watchdog_keepalive : ℕ → Watchdog → Watchdog
watchdog_keepalive now w = if not w.is_active then w else record w {
  last_keepalive = now;
  stats = record w.stats { keepalives_sent = suc w.stats.keepalives_sent; last_keepalive = now };
}

unfoldable pub watchdog_is_active : Option Watchdog → Bool
watchdog_is_active none = false
watchdog_is_active (some w) = w.is_active

unfoldable pub watchdog_get_state : Option Watchdog → WatchdogState
watchdog_get_state none = uninitialized
watchdog_get_state (some w) = w.state

unfoldable pub watchdog_can_become_leader : Option Watchdog → Bool
watchdog_can_become_leader none = false
watchdog_can_become_leader (some w) =
    if is_disabled w.config.mode
    then true
    else if is_required w.config.mode && not w.is_active
    then false
    else true

unfoldable pub watchdog_prepare_for_leadership : ℕ → Watchdog → Watchdog
unfolding watchdog_enable
watchdog_prepare_for_leadership now w =
    if is_disabled w.config.mode then w else watchdog_enable now w

unfoldable pub watchdog_release_leadership : ℕ → Watchdog → Watchdog
unfolding watchdog_disable
watchdog_release_leadership now w = watchdog_disable now w

unfoldable pub watchdog_leadership_keepalive : ℕ → Watchdog → Watchdog
unfolding watchdog_keepalive
watchdog_leadership_keepalive now w = watchdog_keepalive now w

-- A call on a context.
pub data Call : Type 0 where
  enable disable keepalive prepare release : Call

unfoldable pub perform : ℕ → Call → Watchdog → Watchdog
unfolding watchdog_prepare_for_leadership watchdog_release_leadership watchdog_enable
    watchdog_disable watchdog_keepalive
perform now enable w = watchdog_enable now w
perform now disable w = watchdog_disable now w
perform now keepalive w = watchdog_leadership_keepalive now w
perform now prepare w = watchdog_prepare_for_leadership now w
perform now release w = watchdog_release_leadership now w

-- Calls one after the other, each with its time.
unfoldable pub perform_all : List (ℕ × Call) → Watchdog → Watchdog
unfolding perform
perform_all [] w = w
perform_all ((now, c) ∷ cs) w = perform_all cs (perform now c w)
