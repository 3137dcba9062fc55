-- ===== src/Dstore/Idle.antt =====
-- The functions of dstore.c that write to other nodes only, on a store without clients.
use rale.Base.{
  ℕ, zero, suc, ◌≡◌, refl, Bool, true, false, List, [], none, if◌then◌else◌, Bool-cases, inl, inr,
  ◌==◌, ap, sym, ==_iff,
}
use std.Path.{fun_ext}
use rale.Text.{Bytes}
use rale.Hash.{Outcome, done}
use rale.TcpServer.{set_at}
use rale.TcpClient.{tcp_client_init}
use rale.Dstore.{Link, Dstore, Env, Output, Action, skip, ◌>>◌, each, set_link}
use rale.Dstore.Peers.{
  dstore_init_client, send_to_node, dstore_send_message, replicate_to,
  dstore_replicate_to_followers,
}
use rale.Dstore.Spread.{propagate_to, introduce_to}
use rale.Dstore.Commands.{forward_to_leader}
use rale.Dstore.Server.{delete_at}
use rale.Dstore.Silence.{IsIsolated}

-- The call returns, changes nothing and sends nothing.
pub record Rests (d : Dstore) (r : Outcome (Dstore × List Output)) : Type 0 where
  pub returns : r ≡ done (d, [])

abbrev pub IsIdle : Action → Type 0
IsIdle a = (d : Dstore) → IsIsolated d → Rests d (a d)

pub IsIdle-skip : IsIdle skip
IsIdle-skip d h = record { returns = refl }

pub IsIdle->> : (a b : Action) → IsIdle a → IsIdle b → IsIdle (a >> b)
IsIdle->> a b ha hb d h = record { returns = rw ((ha d h).returns, (hb d h).returns) refl }

IsIdle-each : (n i : ℕ) (f : ℕ → Action) → ((j : ℕ) → IsIdle (f j)) → IsIdle (each n i f)
unfolding each
IsIdle-each zero i f h = IsIdle-skip
IsIdle-each (suc n) i f h = IsIdle->> (f i) (each n (suc i) f) (h i) (IsIdle-each n (suc i) f h)

pub Rests-if :
    (d : Dstore) (c : Bool) (a b : Outcome (Dstore × List Output))
    → Rests d a
    → Rests d b
    → Rests d (if c then a else b)
Rests-if d true a b ha hb = ha
Rests-if d false a b ha hb = hb

no_client_set : (l : Link) → l.client ≡ none → record l { client = none } ≡ l
no_client_set l h = ap (λ c. record l { client = c }) (sym h)

set_link_same :
    (d : Dstore) (i : ℕ) (f : Link → Link) → f (d.links i) ≡ d.links i → set_link i f d ≡ d
set_link_same d i f h = ap (λ g. record d { links = g }) (fun_ext at_index)
  where
    at_index : (j : ℕ) → set_at d.links i (f (d.links i)) j ≡ d.links j
    at_index j = elim (Bool-cases (i == j)) [
      | inl same ↦ rw (same, h, (==_iff i j).0 same)
      | inr other ↦ rw other
    ]

IsIdle-init_client : (env : Env) (i : ℕ) → IsIdle (dstore_init_client env i)
unfolding dstore_init_client tcp_client_init
IsIdle-init_client env i d h = Rests-if d _ _ _ (IsIdle-skip d h) (
    Rests-if d _ _ _ (IsIdle-skip d h) (record {
      returns =
          ap (λ e. done (e, []))
            (set_link_same d i (λ l. record l { client = none })
              (no_client_set (d.links i) (h.no_clients i)));
    }))

IsIdle-send_to_node : (env : Env) (i : ℕ) (m : Bytes) → IsIdle (send_to_node env i m)
unfolding send_to_node
IsIdle-send_to_node env i m d h = rw (h.no_clients i, send_to_node) (IsIdle-skip d h)

IsIdle-send_message : (env : Env) (i : ℕ) (m : Bytes) → IsIdle (dstore_send_message env i m)
unfolding dstore_send_message
IsIdle-send_message env i m d h =
    Rests-if d _ _ _ (IsIdle-send_to_node env i m d h) (IsIdle-skip d h)

ruleset idle =
    (Rests-if, IsIdle-skip, IsIdle->>, IsIdle-each, IsIdle-init_client, IsIdle-send_message)

IsIdle-replicate_to : (env : Env) (m : Bytes) (i : ℕ) → IsIdle (replicate_to env m i)
unfolding replicate_to
IsIdle-replicate_to env m i d h = search idle

pub IsIdle-replicate : (env : Env) (k v : Bytes) → IsIdle (dstore_replicate_to_followers env k v)
unfolding dstore_replicate_to_followers
IsIdle-replicate env k v d h = search (idle, IsIdle-replicate_to)

pub IsIdle-forward : (env : Env) (m : Bytes) → IsIdle (forward_to_leader env m)
unfolding forward_to_leader
IsIdle-forward env m d h = search idle

IsIdle-delete_at : (env : Env) (m : Bytes) (i : ℕ) → IsIdle (delete_at env m i)
unfolding delete_at
IsIdle-delete_at env m i d h = search idle

IsIdle-propagate_to : (env : Env) (m : Bytes) (i : ℕ) → IsIdle (propagate_to env m i)
unfolding propagate_to
IsIdle-propagate_to env m i d h = search idle

IsIdle-introduce_to : (env : Env) (i : ℕ) → IsIdle (introduce_to env i)
unfolding introduce_to
IsIdle-introduce_to env i d h = search idle
