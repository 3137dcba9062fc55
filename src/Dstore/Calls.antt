-- ===== src/Dstore/Calls.antt =====
-- dstore.c as its callers use it: the callbacks of its server, and what a server does with its clients.
use rale.Base.{ℕ, refl, true, List, [], ◌∷◌, Option, none, some, Option-cases, inl, inr, ℤ}
use rale.Text.{Bytes}
use rale.Db.Sound.{db_get-IsSound, db_delete-IsSound}
use rale.TcpServer.{TcpServer, accept_client, server_read, server_read_error}
use rale.Dstore.{Dstore, Env, Action, skip, update}
use rale.Dstore.Server.{
  set_socket, dstore_server_on_connection, greet, answer_get, delete_at, delete_key, handle_delete,
  server_line, run_all, dstore_server_on_receive, Event, connects_in, sends, fails, closes, serve,
  tcp_server_run,
}
use rale.Dstore.Silence.{
  IsIsolated, IsSilent, Keeps, Keeps-done, Keeps-if, IsSilent-skip, IsSilent-if, IsSilent->>,
  IsSilent-each, update-IsIsolated, set_link-IsIsolated, IsSilent-send_to_socket,
}
use rale.Dstore.Handlers.{silence, IsSilent-snapshot, IsSilent-leader_to_socket}
use rale.Dstore.Events.{IsSilent-command, IsSilent-forward}

set_socket-IsIsolated :
    (d : Dstore) (i : ℕ) (id : ℤ) → IsIsolated d → IsIsolated (set_socket i id d)
set_socket-IsIsolated d i id h = update-IsIsolated d _ (λ j. refl) refl h

IsSilent-set_socket : (i : ℕ) (id : ℤ) → IsSilent (update (set_socket i id))
IsSilent-set_socket i id d h = Keeps-done (set_socket-IsIsolated d i id h)

IsSilent-on_connection : (env : Env) (i : ℕ) → IsSilent (dstore_server_on_connection env i)
unfolding dstore_server_on_connection
IsSilent-on_connection env i =
    search (silence, IsSilent-set_socket, IsSilent-snapshot, IsSilent-leader_to_socket)

IsSilent-greet : (env : Env) (i : ℕ) (text : Bytes) → IsSilent (greet env i text)
unfolding greet
IsSilent-greet env i text d h = Keeps-if _ _ _ (IsSilent-skip d h) (
    Keeps-done (
      set_link-IsIsolated (set_socket i _ d) _
        (λ l. record l { connection_status = true; last_keep_alive_sent = env.now })
        (h.no_clients _) (set_socket-IsIsolated d i _ h)))

IsSilent-answer_get : (env : Env) (i : ℕ) (key : Bytes) → IsSilent (answer_get env i key)
unfolding answer_get
IsSilent-answer_get env i key d h =
    let (b, value, run, sound) = db_get-IsSound d.db key 1023 h.table in
    rw run (
      IsSilent-send_to_socket env i _ (record d { db = b })
        (record { no_clients = h.no_clients; table = sound }))

IsSilent-delete_at : (env : Env) (m : Bytes) (i : ℕ) → IsSilent (delete_at env m i)
unfolding delete_at
IsSilent-delete_at env m i d h = search silence

IsSilent-delete_key : (env : Env) (key : Bytes) → IsSilent (delete_key env key)
unfolding delete_key
IsSilent-delete_key env key d h =
    let (b, run, sound) = db_delete-IsSound d.db key h.table in
    rw run (
      IsSilent-each _ 0 _ (IsSilent-delete_at env _) (record d { db = b })
        (record { no_clients = h.no_clients; table = sound }))

IsSilent-handle_delete : (env : Env) (key : Bytes) → IsSilent (handle_delete env key)
unfolding handle_delete
IsSilent-handle_delete env key d h = search (silence, IsSilent-delete_key, IsSilent-forward)

IsSilent-server_line : (env : Env) (i : ℕ) (line : Bytes) → IsSilent (server_line env i line)
unfolding server_line
IsSilent-server_line env i line =
    search
      (
        IsSilent-if, IsSilent-skip, IsSilent-greet, IsSilent-answer_get, IsSilent-delete_key,
        IsSilent-handle_delete, IsSilent-command,
      )
      depth 9

IsSilent-run_all :
    (act : Bytes → Action) (ws : List Bytes)
    → ((w : Bytes) → IsSilent (act w))
    → IsSilent (run_all act ws)
unfolding run_all
IsSilent-run_all act [] h = IsSilent-skip
IsSilent-run_all act (w ∷ ws) h =
    IsSilent->> (act w) (run_all act ws) (h w) (IsSilent-run_all act ws h)

IsSilent-on_receive :
    (env : Env) (i : ℕ) (message : Bytes) → IsSilent (dstore_server_on_receive env i message)
unfolding dstore_server_on_receive
IsSilent-on_receive env i message = IsSilent-run_all _ _ (IsSilent-server_line env i)

-- No client closes its connection.
abbrev pub LacksCloses : List Event → Type 0
LacksCloses [] = Unit
LacksCloses (closes depth i ∷ es) = ⊥
LacksCloses (connects_in ∷ es) = LacksCloses es
LacksCloses (sends i bytes ∷ es) = LacksCloses es
LacksCloses (fails i ∷ es) = LacksCloses es

server-IsIsolated :
    (d : Dstore) (o : Option TcpServer) → IsIsolated d → IsIsolated (record d { server = o })
server-IsIsolated d o h = update-IsIsolated d _ (λ j. refl) refl h

IsSilent-accepted :
    (env : Env) (s : TcpServer) (d : Dstore) → IsIsolated d → Keeps (serve env connects_in s d)
unfolding serve
IsSilent-accepted env s d h = elim (Option-cases (accept_client s).1) [
  | inl e ↦ simp (e, serve) (IsSilent-skip d h)
  | inr (i, e) ↦
      simp (e, serve)
        (IsSilent-on_connection env i _ (server-IsIsolated d (some (accept_client s).0) h))
]

IsSilent-sends :
    (env : Env) (i : ℕ) (bytes : Bytes) (s : TcpServer) (d : Dstore)
    → IsIsolated d
    → Keeps (serve env (sends i bytes) s d)
unfolding serve
IsSilent-sends env i bytes s d h = Keeps-if _ _ _ (IsSilent-skip d h) (
    IsSilent-run_all _ _ (IsSilent-on_receive env i) _
      (server-IsIsolated d (some (server_read s i bytes).0) h))

IsSilent-fails :
    (env : Env) (i : ℕ) (s : TcpServer) (d : Dstore)
    → IsIsolated d
    → Keeps (serve env (fails i) s d)
unfolding serve
IsSilent-fails env i s d h =
    Keeps-if _ _ _ (IsSilent-skip d h)
      (Keeps-done (server-IsIsolated d (some (server_read_error s i)) h))

IsSilent-at_server :
    (env : Env) (e : Event)
    → ((s : TcpServer) (d : Dstore) → IsIsolated d → Keeps (serve env e s d))
    → IsSilent (λ d. elim d.server [ none ↦ skip d | some s ↦ serve env e s d ])
IsSilent-at_server env e served d h = elim (Option-cases d.server) [
  | inl k ↦ simp k (IsSilent-skip d h)
  | inr (s, k) ↦ simp k (served s d h)
]

pub IsSilent-tcp_server_run :
    (env : Env) (es : List Event) → LacksCloses es → IsSilent (tcp_server_run env es)
unfolding tcp_server_run
IsSilent-tcp_server_run env [] h = IsSilent-skip
IsSilent-tcp_server_run env (closes depth i ∷ es) h = absurd h
IsSilent-tcp_server_run env (connects_in ∷ es) h =
    IsSilent->> _ _ (IsSilent-at_server env connects_in (IsSilent-accepted env))
      (IsSilent-tcp_server_run env es h)
IsSilent-tcp_server_run env (sends i bytes ∷ es) h =
    IsSilent->> _ _ (IsSilent-at_server env (sends i bytes) (IsSilent-sends env i bytes))
      (IsSilent-tcp_server_run env es h)
IsSilent-tcp_server_run env (fails i ∷ es) h =
    IsSilent->> _ _ (IsSilent-at_server env (fails i) (IsSilent-fails env i))
      (IsSilent-tcp_server_run env es h)
