-- ===== src/Dstore/Isolation.antt =====
-- dstore.c as its callers use it: sequences of calls of the functions that dstore.h declares.
use rale.Base.{
  ℕ, zero, suc, ◌≡◌, refl, Bool, true, false, ◌&&◌, List, [], ◌∷◌, Option, none, if◌then◌else◌,
  Option-cases, ◌==◌, ◌||◌, inl, inr, ℤ,
}
use rale.Text.{Bytes}
use rale.Hash.{done}
use rale.Db.Sound.{IsSound}
use rale.Dstore.{Dstore, Env, Output, Action, skip, update, ◌>>◌, dstore_init}
use rale.Dstore.Peers.{
  dstore_init_client, is_due, dstore_send_keep_alive, dstore_send_message,
  dstore_replicate_to_followers,
}
use rale.Dstore.Spread.{dstore_propagate_node_addition, dstore_propagate_node_removal}
use rale.Dstore.Commands.{dstore_handle_put, dstore_put_from_command}
use rale.Dstore.Server.{Event}
use rale.Dstore.Ticks.{
  is_peer, loop_client, loop_round, dstore_client_loop, receive_round, is_tried, try_client,
  tick_rounds, dstore_client_tick, dstore_server_tick, dstore_finit,
}
use rale.Dstore.Silence.{
  IsIsolated, AreToSockets, IsSilent, Keeps-done, Keeps-if, IsSilent-skip, IsSilent->>,
  update-IsIsolated, IsSilent-send_message,
}
use rale.Dstore.Handlers.{
  silence, IsSilent-keep_alive, IsSilent-propagate_addition, IsSilent-propagate_removal,
  IsSilent-replicate,
}
use rale.Dstore.Events.{IsSilent-command, IsSilent-handle_put}
use rale.Dstore.Calls.{LacksCloses, IsSilent-tcp_server_run}

IsSilent-loop_client : (env : Env) (i : ℕ) → IsSilent (λ d. loop_client env i (d.links i).client d)
IsSilent-loop_client env i d h = rw (h.no_clients i) (IsSilent-skip d h)

IsSilent-loop_round : (env : Env) (i : ℕ) → IsSilent (loop_round env i)
unfolding loop_round
IsSilent-loop_round env i d h = search (silence, IsSilent-loop_client)

-- The statics have no part in it.
loop_started : (d : Dstore) → IsIsolated d → IsIsolated (record d { loop_first_run = false })
loop_started d h = update-IsIsolated d _ (λ i. refl) refl h

tick_started : (d : Dstore) → IsIsolated d → IsIsolated (record d { tick_first_run = false })
tick_started d h = update-IsIsolated d _ (λ i. refl) refl h

IsSilent-attempt_time :
    (env : Env) → IsSilent (update λ d. record d { last_connect_attempt = env.now })
IsSilent-attempt_time env d h = Keeps-done (update-IsIsolated d _ (λ i. refl) refl h)

IsSilent-check_time :
    (env : Env) → IsSilent (update λ d. record d { last_keep_alive_check = env.now })
IsSilent-check_time env d h = Keeps-done (update-IsIsolated d _ (λ i. refl) refl h)

IsSilent-client_loop : (env : Env) → IsSilent (dstore_client_loop env)
unfolding dstore_client_loop
IsSilent-client_loop env d h =
    search (silence, loop_started, IsSilent-loop_round, IsSilent-keep_alive)

IsSilent-receive_round : (env : Env) (i : ℕ) → IsSilent (receive_round env i)
unfolding receive_round
IsSilent-receive_round env i d h = rw (h.no_clients i) (search silence)

IsSilent-try : (env : Env) (i : ℕ) → IsSilent (λ d. try_client env i (d.links i).client d)
IsSilent-try env i d h = rw (h.no_clients i) (IsSilent-skip d h)

IsSilent-init_peer :
    (env : Env) (i : ℕ) → IsSilent (λ d. if is_peer d i then dstore_init_client env i d else skip d)
IsSilent-init_peer env i d h = search silence

IsSilent-try_or :
    (env : Env) (i : ℕ) (rest : Action)
    → IsSilent rest
    → IsSilent (λ d.
      if is_peer d i && is_tried env (d.links i).client (d.links i)
      then try_client env i (d.links i).client d
      else (receive_round env i >> rest) d)
IsSilent-try_or env i rest k d h = search (silence, IsSilent-receive_round, IsSilent-try, k)

IsSilent-tick_rounds : (env : Env) (n i : ℕ) → IsSilent (tick_rounds env n i)
unfolding tick_rounds
IsSilent-tick_rounds env zero i = IsSilent-skip
IsSilent-tick_rounds env (suc n) i =
    IsSilent->> _ _ (IsSilent-init_peer env i)
      (IsSilent-try_or env i (tick_rounds env n (suc i)) (IsSilent-tick_rounds env n (suc i)))

IsSilent-client_tick : (env : Env) → IsSilent (dstore_client_tick env)
unfolding dstore_client_tick
IsSilent-client_tick env d h =
    search
      (silence, tick_started, IsSilent-receive_round, IsSilent-attempt_time, IsSilent-tick_rounds)

IsSilent-server_tick :
    (env : Env) (stopping : Bool) (es : List Event)
    → LacksCloses es
    → IsSilent (dstore_server_tick env stopping es)
unfolding dstore_server_tick
IsSilent-server_tick env stopping es lacks d h = elim (Option-cases d.server) [
  | inl e ↦ simp (e, dstore_server_tick) (IsSilent-skip d h)
  | inr (s, e) ↦
      simp (e, dstore_server_tick)
        (Keeps-if _ _ _ (IsSilent-skip d h)
          (IsSilent->> _ _ (IsSilent-tcp_server_run env es lacks) (IsSilent-check env) d h))
]
  where
    IsSilent-check :
        (env : Env)
        → IsSilent (λ e.
          if e.last_keep_alive_check == 0 || is_due env e.last_keep_alive_check
          then (dstore_send_keep_alive env
                >> update λ f. record f { last_keep_alive_check = env.now })
              e
          else skip e)
    IsSilent-check env e k = search (silence, IsSilent-keep_alive, IsSilent-check_time)

-- A call of a function that dstore.h declares, but for the three that only read. `finit` has the static
-- `cleanup_done`.
pub data Call : Type 0 where
  init : Bool → Call
  finit : Bool → Call
  replicate_to_followers : Bytes → Bytes → Call
  put : Option Bytes → Option Bytes → Call
  put_from_command : Bytes → Call
  send_message : ℕ → Bytes → Call
  propagate_node_addition : ℤ → Bytes → Bytes → ℕ → ℕ → Call
  propagate_node_removal : ℤ → Call
  client_loop : Call
  client_tick : Call
  server_tick : Bool → List Event → Call

unfoldable pub perform : Env → Call → Action
perform env (init socket) = update (λ d. (dstore_init socket d).0)
perform env (finit finished) = update (λ d. (dstore_finit finished d).1)
perform env (replicate_to_followers key value) = dstore_replicate_to_followers env key value
perform env (put key value) = dstore_handle_put env key value
perform env (put_from_command command) = dstore_put_from_command env command
perform env (send_message i message) = dstore_send_message env i message
perform env (propagate_node_addition id name ip rale_port dstore_port) =
    dstore_propagate_node_addition env id name ip rale_port dstore_port
perform env (propagate_node_removal id) = dstore_propagate_node_removal env id
perform env client_loop = dstore_client_loop env
perform env client_tick = dstore_client_tick env
perform env (server_tick stopping events) = dstore_server_tick env stopping events

-- Calls one after the other, each with its own answers from outside.
unfoldable pub perform_all : List (Env × Call) → Action
unfolding perform
perform_all [] = skip
perform_all ((env, call) ∷ calls) = perform env call >> perform_all calls

-- No client closes its connection in the calls.
abbrev pub AreOpen : List (Env × Call) → Type 0
AreOpen [] = Unit
AreOpen ((env, server_tick stopping events) ∷ calls) = LacksCloses events × AreOpen calls
AreOpen ((env, _) ∷ calls) = AreOpen calls

init-IsIsolated : (socket : Bool) (d : Dstore) → IsIsolated d → IsIsolated (dstore_init socket d).0
unfolding dstore_init
init-IsIsolated true d h = record { no_clients = h.no_clients; table = h.table }
init-IsIsolated false d h = record { no_clients = h.no_clients; table = h.table }

finit-IsIsolated :
    (finished : Bool) (d : Dstore) → IsIsolated d → IsIsolated (dstore_finit finished d).1
unfolding dstore_finit
finit-IsIsolated true d h = h
finit-IsIsolated false d h = record { no_clients = λ i. refl; table = h.table }

IsSilent-perform_all : (calls : List (Env × Call)) → AreOpen calls → IsSilent (perform_all calls)
unfolding perform_all
IsSilent-perform_all [] h = IsSilent-skip
IsSilent-perform_all ((env, init b) ∷ cs) h =
    IsSilent->> _ _ (λ d k. Keeps-done (init-IsIsolated b d k)) (IsSilent-perform_all cs h)
IsSilent-perform_all ((env, finit b) ∷ cs) h =
    IsSilent->> _ _ (λ d k. Keeps-done (finit-IsIsolated b d k)) (IsSilent-perform_all cs h)
IsSilent-perform_all ((env, replicate_to_followers k v) ∷ cs) h =
    IsSilent->> _ _ (IsSilent-replicate env k v) (IsSilent-perform_all cs h)
IsSilent-perform_all ((env, put k v) ∷ cs) h =
    IsSilent->> _ _ (IsSilent-handle_put env k v) (IsSilent-perform_all cs h)
IsSilent-perform_all ((env, put_from_command c) ∷ cs) h =
    IsSilent->> _ _ (IsSilent-command env c) (IsSilent-perform_all cs h)
IsSilent-perform_all ((env, send_message i m) ∷ cs) h =
    IsSilent->> _ _ (IsSilent-send_message env i m) (IsSilent-perform_all cs h)
IsSilent-perform_all ((env, propagate_node_addition id n ip r s) ∷ cs) h =
    IsSilent->> _ _ (IsSilent-propagate_addition env id n ip r s) (IsSilent-perform_all cs h)
IsSilent-perform_all ((env, propagate_node_removal id) ∷ cs) h =
    IsSilent->> _ _ (IsSilent-propagate_removal env id) (IsSilent-perform_all cs h)
IsSilent-perform_all ((env, client_loop) ∷ cs) h =
    IsSilent->> _ _ (IsSilent-client_loop env) (IsSilent-perform_all cs h)
IsSilent-perform_all ((env, client_tick) ∷ cs) h =
    IsSilent->> _ _ (IsSilent-client_tick env) (IsSilent-perform_all cs h)
IsSilent-perform_all ((env, server_tick stopping es) ∷ cs) h =
    IsSilent->> _ _ (IsSilent-server_tick env stopping es h.0) (IsSilent-perform_all cs h.1)

-- After `dstore_init` on a store that has no clients yet, and whose hash table is valid or not
-- allocated, any sequence of calls of the functions that dstore.h declares, in which no client of the
-- server closes its connection, returns, and every byte that it sends goes to a client of the server:
-- nothing is sent to another node over the clients of the store, so that writes are not replicated and
-- commands not forwarded. (dstore_server_loop, which dstore.h does not declare, is not among the calls.)
pub perform_all-silent :
    (socket : Bool) (d : Dstore) (calls : List (Env × Call))
    → ((i : ℕ) → (d.links i).client ≡ none)
    → IsSound d.db.table
    → AreOpen calls
    → (e : Dstore) × (os : List Output) × (perform_all calls (dstore_init socket d).0
        ≡ done (e, os))
      × AreToSockets os
perform_all-silent socket d calls no_clients sound kept =
    let r =
      IsSilent-perform_all calls kept (dstore_init socket d).0
        (init-IsIsolated socket d (record { no_clients = no_clients; table = sound })) in
    (r.after, r.sent, r.returns, r.sockets)
