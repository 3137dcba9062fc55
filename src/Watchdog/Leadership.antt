-- ===== src/Watchdog/Leadership.antt =====
-- When a node with a watchdog may become the leader.
use rale.Base.{
  ℕ, ◌≡◌, refl, Bool, true, false, ◌&&◌, ◌||◌, not, List, [], ◌∷◌, none, some, if◌then◌else◌, arith,
  Bool-cases, inl, inr, subst,
}
use rale.Watchdog.{
  WatchdogState, disabled, enabled, in_test, WatchdogConfig, Watchdog, is_disabled, is_required,
  Call, enable, disable, keepalive, prepare, release, perform, perform_all, watchdog_enable,
  watchdog_keepalive, watchdog_disable, watchdog_prepare_for_leadership,
  watchdog_release_leadership, watchdog_leadership_keepalive, watchdog_config_validate, started,
  watchdog_init, watchdog_can_become_leader, watchdog_get_state,
}

-- Whether the watchdog runs after the calls: the last one that turns it on or off decides.
abbrev pub runs_after : Bool → List (ℕ × Call) → Bool
runs_after on [] = on
runs_after on ((now, enable) ∷ cs) = runs_after true cs
runs_after on ((now, prepare) ∷ cs) = runs_after true cs
runs_after on ((now, disable) ∷ cs) = runs_after false cs
runs_after on ((now, release) ∷ cs) = runs_after false cs
runs_after on ((now, keepalive) ∷ cs) = runs_after on cs

-- The state that goes with it.
abbrev pub state_of : WatchdogConfig → Bool → WatchdogState
state_of c true = if c.test_mode then in_test else enabled
state_of c false = disabled

pub record Runs (c : WatchdogConfig) (on : Bool) (w : Watchdog) : Type 0 where
  pub config : w.config ≡ c
  pub is_on : w.is_active ≡ on
  pub state : w.state ≡ state_of c on

enable-Runs :
    (c : WatchdogConfig) (on : Bool) (w : Watchdog) (now : ℕ)
    → is_disabled c.mode ≡ false
    → Runs c on w
    → Runs c true (watchdog_enable now w)
unfolding watchdog_enable
enable-Runs c on w now used h =
    let mode : is_disabled w.config.mode ≡ false = rw h.config used in
    rw mode (record { config = h.config; is_on = refl; state = rw h.config refl })

keepalive-Runs :
    (c : WatchdogConfig) (on : Bool) (w : Watchdog) (now : ℕ)
    → Runs c on w
    → Runs c on (watchdog_keepalive now w)
unfolding watchdog_keepalive
keepalive-Runs c on w now h = elim (Bool-cases (not w.is_active)) [
  | inl e ↦ rw e h
  | inr e ↦ rw e (record { config = h.config; is_on = h.is_on; state = h.state })
]

prepare-Runs :
    (c : WatchdogConfig) (on : Bool) (w : Watchdog) (now : ℕ)
    → is_disabled c.mode ≡ false
    → Runs c on w
    → Runs c true (watchdog_prepare_for_leadership now w)
unfolding watchdog_prepare_for_leadership
prepare-Runs c on w now used h =
    let mode : is_disabled w.config.mode ≡ false = rw h.config used in
    rw mode (record { config = h.config; is_on = refl; state = rw h.config refl })

perform_all-Runs :
    (c : WatchdogConfig) (on : Bool) (w : Watchdog) (calls : List (ℕ × Call))
    → is_disabled c.mode ≡ false
    → Runs c on w
    → Runs c (runs_after on calls) (perform_all calls w)
unfolding perform_all perform watchdog_release_leadership watchdog_disable
    watchdog_leadership_keepalive
perform_all-Runs c on w [] used h = h
perform_all-Runs c on w ((now, enable) ∷ cs) used h =
    perform_all-Runs c true _ cs used (enable-Runs c on w now used h)
perform_all-Runs c on w ((now, prepare) ∷ cs) used h =
    perform_all-Runs c true _ cs used (prepare-Runs c on w now used h)
perform_all-Runs c on w ((now, disable) ∷ cs) used h =
    perform_all-Runs c false _ cs used (record { config = h.config; is_on = refl; state = refl })
perform_all-Runs c on w ((now, release) ∷ cs) used h =
    perform_all-Runs c false _ cs used (record { config = h.config; is_on = refl; state = refl })
perform_all-Runs c on w ((now, keepalive) ∷ cs) used h =
    perform_all-Runs c on _ cs used (keepalive-Runs c on w now h)

init-Runs :
    (there mutex : Bool) (c : WatchdogConfig) (w : Watchdog)
    → watchdog_init there mutex (some c) ≡ some w
    → Runs c false w
unfolding watchdog_init
init-Runs there mutex c w made =
    elim (Bool-cases (not there || (not (watchdog_config_validate (some c)) || not mutex))) [
      | inl e ↦ let refused : none ≡ some w = rw e at made in cc
      | inr e ↦
          let same : some (started c) ≡ some w = rw e at made in
          let equal : started c ≡ w = cc in
          subst (Runs c false) equal (record { config = refl; is_on = refl; state = refl })
    ]

-- A context that `watchdog_init` has made with a mode other than "disabled", after any calls that turn
-- the watchdog on or off, prepare for or release the leadership, or keep it alive: its node may become
-- the leader exactly if the mode is not "required" or the last call that is not a keep-alive turned the
-- watchdog on, and the state says whether it did, and in which mode.
pub can_become_leader-perform_all :
    (there mutex : Bool) (c : WatchdogConfig) (w : Watchdog) (calls : List (ℕ × Call))
    → is_disabled c.mode ≡ false
    → watchdog_init there mutex (some c) ≡ some w
    → (watchdog_can_become_leader (some (perform_all calls w))
        ≡ not (is_required c.mode && not (runs_after false calls)))
      × (watchdog_get_state (some (perform_all calls w)) ≡ state_of c (runs_after false calls))
unfolding watchdog_can_become_leader watchdog_get_state
can_become_leader-perform_all there mutex c w calls used made =
    let r = perform_all-Runs c false w calls used (init-Runs there mutex c w made) in
    let mode : is_disabled (perform_all calls w).config.mode ≡ false = rw r.config used in
    (rw (mode, r.config, r.is_on) (by_flags (is_required c.mode) (runs_after false calls)), r.state)
  where
    by_flags :
        (required on : Bool)
        → (if required && not on then false else true) ≡ not (required && not on)
    by_flags required on = ground arith
