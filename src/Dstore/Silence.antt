-- ===== src/Dstore/Silence.antt =====
-- What the clients of dstore.c come to: no action of the store sends over them.
use rale.Base.{
  ℕ, zero, suc, ◌≡◌, refl, Bool, true, false, List, [], ◌∷◌, ◌++◌, none, ◌==◌, if◌then◌else◌,
  Bool-cases, Option-cases, inl, inr, ◌∙◌,
}
use rale.Text.{Bytes}
use rale.Hash.{Outcome, done}
use rale.Db.Sound.{IsSound}
use rale.TcpClient.{tcp_client_init}
use rale.TcpServer.{tcp_server_send}
use rale.Dstore.{
  Link, Dstore, Env, Output, to_node, to_socket, Action, skip, update, ◌>>◌, each, set_link,
}
use rale.Dstore.Peers.{
  dstore_init_client, send_to_node, send_to_socket, dstore_send_message, replicate_to,
}

-- No client is kept, and the table of the database is valid if it is allocated.
pub record IsIsolated (d : Dstore) : Type 0 where
  pub no_clients : (i : ℕ) → (d.links i).client ≡ none
  pub table : IsSound d.db.table

-- All of the outputs go to clients of the server.
abbrev pub AreToSockets : List Output → Type 0
AreToSockets [] = Unit
AreToSockets (to_node i m ∷ os) = ⊥
AreToSockets (to_socket i m ∷ os) = AreToSockets os

-- The call returns, leaves the store isolated, and has sent to no node.
pub record Keeps (r : Outcome (Dstore × List Output)) : Type 0 where
  pub after : Dstore
  pub sent : List Output
  pub returns : r ≡ done (after, sent)
  pub isolated : IsIsolated after
  pub sockets : AreToSockets sent

abbrev pub IsSilent : Action → Type 0
IsSilent a = (d : Dstore) → IsIsolated d → Keeps (a d)

AreToSockets-append :
    (os ps : List Output) → AreToSockets os → AreToSockets ps → AreToSockets (os ++ ps)
AreToSockets-append [] ps h k = k
AreToSockets-append (to_node i m ∷ os) ps h k = absurd h
AreToSockets-append (to_socket i m ∷ os) ps h k = AreToSockets-append os ps h k

pub Keeps-done : {d : Dstore} → IsIsolated d → Keeps (done (d, []))
Keeps-done h = record { after = _; sent = []; returns = refl; isolated = h; sockets = tt }

Keeps-sent : {d : Dstore} {os : List Output} → IsIsolated d → AreToSockets os → Keeps (done (d, os))
Keeps-sent h k = record { after = _; sent = _; returns = refl; isolated = h; sockets = k }

pub IsSilent-skip : IsSilent skip
IsSilent-skip d h = Keeps-done h

pub IsSilent->> : (a b : Action) → IsSilent a → IsSilent b → IsSilent (a >> b)
IsSilent->> a b ha hb d h =
    let first = ha d h in
    let second = hb first.after first.isolated in
    record {
      after = second.after;
      sent = first.sent ++ second.sent;
      returns = rw (first.returns, second.returns) refl;
      isolated = second.isolated;
      sockets = AreToSockets-append first.sent second.sent first.sockets second.sockets;
    }

pub IsSilent-each : (n i : ℕ) (f : ℕ → Action) → ((j : ℕ) → IsSilent (f j)) → IsSilent (each n i f)
unfolding each
IsSilent-each zero i f h = IsSilent-skip
IsSilent-each (suc n) i f h =
    IsSilent->> (f i) (each n (suc i) f) (h i) (IsSilent-each n (suc i) f h)

pub Keeps-if :
    (c : Bool) (a b : Outcome (Dstore × List Output))
    → Keeps a
    → Keeps b
    → Keeps (if c then a else b)
Keeps-if true a b ha hb = ha
Keeps-if false a b ha hb = hb

pub IsSilent-if :
    (c : Bool) (a b : Action) → IsSilent a → IsSilent b → IsSilent (if c then a else b)
IsSilent-if true a b ha hb = ha
IsSilent-if false a b ha hb = hb

-- A change that leaves the clients and the table.
pub update-IsIsolated :
    (d e : Dstore)
    → ((i : ℕ) → (e.links i).client ≡ (d.links i).client)
    → e.db.table ≡ d.db.table
    → IsIsolated d
    → IsIsolated e
update-IsIsolated d e same table h = record {
  no_clients = λ i. same i ∙ h.no_clients i;
  table = rw table h.table;
}

-- A change of a link that leaves it without a client.
pub set_link-IsIsolated :
    (d : Dstore) (i : ℕ) (f : Link → Link)
    → (f (d.links i)).client ≡ none
    → IsIsolated d
    → IsIsolated (set_link i f d)
set_link-IsIsolated d i f e h = record { no_clients = λ j. by_index j; table = h.table }
  where
    by_index : (j : ℕ) → ((set_link i f d).links j).client ≡ none
    by_index j = elim (Bool-cases (i == j)) [
      | inl same ↦ rw same e
      | inr other ↦ rw other (h.no_clients j)
    ]

pub IsSilent-update :
    (f : Dstore → Dstore) → ((d : Dstore) → IsIsolated d → IsIsolated (f d)) → IsSilent (update f)
IsSilent-update f h d k = Keeps-done (h d k)

pub IsSilent-init_client : (env : Env) (i : ℕ) → IsSilent (dstore_init_client env i)
unfolding dstore_init_client tcp_client_init
IsSilent-init_client env i d h = Keeps-if _ _ _ (IsSilent-skip d h) (
    Keeps-if _ _ _ (IsSilent-skip d h)
      (Keeps-done (set_link-IsIsolated d i (λ l. record l { client = none }) refl h)))

pub IsSilent-send_to_node : (env : Env) (i : ℕ) (m : Bytes) → IsSilent (send_to_node env i m)
unfolding send_to_node
IsSilent-send_to_node env i m d h = rw (h.no_clients i, send_to_node) (IsSilent-skip d h)

pub IsSilent-send_to_socket : (env : Env) (i : ℕ) (m : Bytes) → IsSilent (send_to_socket env i m)
unfolding send_to_socket
IsSilent-send_to_socket env i m d h = elim (Option-cases d.server) [
  | inl e ↦ simp (e, send_to_socket) (IsSilent-skip d h)
  | inr (s, e) ↦ elim (Option-cases (tcp_server_send s i (env.taken i m) m)) [
    | inl k ↦ simp (e, k, send_to_socket) (IsSilent-skip d h)
    | inr (bytes, k) ↦ simp (e, k, send_to_socket) (Keeps-sent h tt)
  ]
]

pub IsSilent-send_message : (env : Env) (i : ℕ) (m : Bytes) → IsSilent (dstore_send_message env i m)
unfolding dstore_send_message
IsSilent-send_message env i m d h =
    Keeps-if _ _ _ (IsSilent-send_to_node env i m d h) (IsSilent-skip d h)

pub IsSilent-replicate_to : (env : Env) (m : Bytes) (i : ℕ) → IsSilent (replicate_to env m i)
unfolding replicate_to
IsSilent-replicate_to env m i d h =
    search (Keeps-if, IsSilent-skip, IsSilent->>, IsSilent-init_client, IsSilent-send_message)
