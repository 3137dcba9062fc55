-- ===== src/Shutdown.antt =====
-- librale/src/shutdown.c: the flags by which the subsystems are told to stop, and report that they have.
-- The mutex is held for the whole of each call. A wait is a call together with the calls that other
-- threads make until its time is up.
pub mod Completion
use rale.Base.{
  ℕ, Bool, true, false, ◌&&◌, ◌||◌, not, List, [], ◌∷◌, Option, none, some, if◌then◌else◌,
}
use rale.Text.{Bytes, codes, str_eq}

pub record Shutdown : Type 0 where
  pub initialized : Bool
  pub system_exit : Bool
  pub dstore : Bool
  pub rale : Bool
  pub comm : Bool

-- `mutex` and `cond` say whether these can be made; `false` is the result -1.
unfoldable pub librale_shutdown_init : Bool → Bool → Shutdown → Shutdown × Bool
librale_shutdown_init mutex cond s =
    if s.initialized
    then (s, true)
    else let cleared : Shutdown = record {
      initialized = false;
      system_exit = false;
      dstore = false;
      rale = false;
      comm = false;
    } in
      if not mutex || not cond
      then (cleared, false)
      else (record cleared { initialized = true }, true)

unfoldable pub librale_shutdown_cleanup : Shutdown → Shutdown
librale_shutdown_cleanup s = record s { initialized = false }

-- The flags afterwards, and whether the condition is broadcast.
unfoldable pub librale_request_shutdown : Shutdown → Shutdown × Bool
librale_request_shutdown s =
    if s.initialized
    then (record s { system_exit = true; dstore = true; rale = true; comm = true }, true)
    else (record s { system_exit = true }, false)

abbrev pub flag_of : Shutdown → Bytes → Bool
flag_of s name =
    if str_eq name (codes "dstore")
    then s.dstore
    else if str_eq name (codes "rale")
    then s.rale
    else if str_eq name (codes "comm")
    then s.comm
    else s.system_exit

unfoldable pub librale_is_shutdown_requested : Shutdown → Option Bytes → Bool
librale_is_shutdown_requested s none = s.system_exit
librale_is_shutdown_requested s (some name) =
    if s.initialized then flag_of s name else s.system_exit

-- The flag of a subsystem is lowered; `none` is an unknown one.
abbrev pub lower : Shutdown → Bytes → Option Shutdown
lower s name =
    if str_eq name (codes "dstore")
    then some (record s { dstore = false })
    else if str_eq name (codes "rale")
    then some (record s { rale = false })
    else if str_eq name (codes "comm")
    then some (record s { comm = false })
    else none

abbrev pub all_done : Shutdown → Bool
all_done s = not s.dstore && (not s.rale && not s.comm)

abbrev pub signalled : Shutdown → Option Shutdown → Shutdown × Bool
signalled s none = (s, false)
signalled s (some s') = (s', all_done s')

unfoldable pub librale_signal_shutdown_complete : Shutdown → Option Bytes → Shutdown × Bool
librale_signal_shutdown_complete s none = (s, false)
librale_signal_shutdown_complete s (some name) =
    if s.initialized then signalled s (lower s name) else (s, false)

-- A call of another thread.
pub data Call : Type 0 where
  request : Call
  signal : Option Bytes → Call

unfoldable pub perform : Shutdown → Call → Shutdown × Bool
perform s request = librale_request_shutdown s
perform s (signal name) = librale_signal_shutdown_complete s name

-- The calls one after the other, and whether one of them broadcasts.
unfoldable pub perform_all : Shutdown → List Call → Shutdown × Bool
unfolding perform
perform_all s [] = (s, false)
perform_all s (c ∷ cs) =
    let first = perform s c in let rest = perform_all first.0 cs in (rest.0, first.1 || rest.1)

-- `pthread_cond_timedwait` is called once, and returns 0 on any broadcast before the time is up, and may
-- return 0 without one: `wakes` says whether it does. `true` is the result 0; `calls` are made while the
-- call waits.
unfoldable pub librale_wait_for_shutdown_completion : Bool → Shutdown → List Call → Bool
unfolding perform_all
librale_wait_for_shutdown_completion wakes s calls =
    if s.initialized then wakes || (perform_all s calls).1 else false
