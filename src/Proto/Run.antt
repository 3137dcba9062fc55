-- ===== src/Proto/Run.antt =====
-- The protocol as a state machine: datagrams, turns of the main loop and commands, in any order.
use rale.Base.{ℕ, List, [], ◌∷◌}
use rale.Text.{Bytes}
use rale.Proto.{Config, Env, State, Output}
use rale.Proto.Handle.{rale_handle_message}
use rale.Proto.Tick.{rale_quram_process, rale_process_command}

pub data Event : Type 0 where
  message : Bytes → Bytes → ℕ → Event
  tick : Event
  command : Bytes → Event

unfoldable pub step : Config → Env → Event → State → State × List Output
step c env (message msg ip port) s = rale_handle_message c env msg ip port s
step c env tick s = rale_quram_process c env s
step c env (command text) s = ((rale_process_command c env text s).0, [])

unfoldable pub run : Config → List (Env × Event) → State → State
run c [] s = s
run c ((env, e) ∷ es) s = run c es (step c env e s).0
