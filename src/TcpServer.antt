-- ===== src/TcpServer.antt =====
-- librale/src/tcp_server.c: the slots of the clients, and the buffers that cut what a client sends into
-- lines. `select`, `accept` and `read` are arguments: which slot has what to read.
pub mod Stream
pub mod Framing
pub mod Slots
use rale.Base.{
  ℕ, zero, suc, ◌+◌, ◌-◌, Bool, true, false, ◌||◌, not, List, [], ◌∷◌, ◌++◌, Option, none, some,
  ltb, leb, ◌==◌, if◌then◌else◌, length, take, drop,
}
use rale.Text.{Bytes, c_string, strchr}

abbrev pub max_clients : ℕ
max_clients = 5

-- `server->client_socks[i] != -1`, and `recv_buf[i]` up to `recv_len[i]`.
pub record TcpServer : Type 0 where
  pub used : ℕ → Bool
  pub recv_buf : ℕ → Bytes

abbrev pub set_at {ℓ} : {A : Type ℓ} → (ℕ → A) → ℕ → A → ℕ → A
set_at f index a i = if index == i then a else f i

-- The listening server, once the socket calls have succeeded.
abbrev pub listening : TcpServer
listening = record { used = λ i. false; recv_buf = λ i. [] }

-- The loop for a free slot, from slot `i` on with `n` slots left.
unfoldable pub free_slot : ℕ → ℕ → (ℕ → Bool) → Option ℕ
free_slot zero i used = none
free_slot (suc n) i used = let rest = free_slot n (suc i) used in if used i then rest else some i

-- What `accept` brings: the slot of the new client, or `none` if the connection is closed again.
unfoldable pub accept_client : TcpServer → TcpServer × Option ℕ
unfolding free_slot
accept_client s = elim (free_slot max_clients 0 s.used) [
  | none ↦ (s, none)
  | some i ↦ (record s { used = set_at s.used i true }, some i)
]

-- What `read` has got is appended; a full buffer is emptied first.
unfoldable pub append_received : Bytes → Bytes → Bytes
append_received buf received =
    if leb 2048 (length buf + length received) then received else buf ++ received

-- How much of a line is taken.
abbrev pub line_length : Bytes → ℕ
line_length line = if leb 1024 (length line) then 1023 else length line

-- One round of the loop that follows, with the line that `strchr` has found. Of a line of more than
-- 1023 bytes these are taken, and one byte more is dropped.
unfoldable pub split_line :
    (Bytes → List Bytes × Bytes) → Bytes → Option (Bytes × Bytes) → List Bytes × Bytes
split_line again buf none = ([], buf)
split_line again buf (some (line, after)) =
    let rest = again (drop (suc (line_length line)) buf) in
    (if line_length line == 0 then rest.0 else take (line_length line) line ∷ rest.0, rest.1)

-- `while ((newline = strchr(recv_buf, '\n')) != NULL)`: the lines that are passed on, and what stays in
-- the buffer. The fuel is the length of the buffer, of which each round takes a byte.
unfoldable pub split_lines : ℕ → Bytes → List Bytes × Bytes
unfolding split_line
split_lines zero buf = ([], buf)
split_lines (suc n) buf = split_line (split_lines n) buf (strchr 10 (c_string buf))

-- What is done with a positive `read`: the lines for `on_receive`, and the buffer afterwards.
unfoldable pub receive_bytes : Bytes → Bytes → List Bytes × Bytes
unfolding append_received split_lines
receive_bytes buf received =
    let whole = append_received buf received in split_lines (length whole) whole

-- Several reads from one client, in order.
unfoldable pub receive_all : Bytes → List Bytes → List Bytes × Bytes
receive_all buf [] = ([], buf)
receive_all buf (r ∷ rs) =
    let first = receive_bytes buf r in
    let rest = receive_all first.1 rs in (first.0 ++ rest.0, rest.1)

-- The slot's buffer after a read, and the lines.
unfoldable pub server_read : TcpServer → ℕ → Bytes → TcpServer × List Bytes
server_read s i received =
    let r = receive_bytes (s.recv_buf i) received in
    (record s { recv_buf = set_at s.recv_buf i r.1 }, r.0)

-- A read error frees the slot, and calls nothing.
unfoldable pub server_read_error : TcpServer → ℕ → TcpServer
server_read_error s i = record s { used = set_at s.used i false }

-- `tcp_server_send` to a slot: the bytes that go out, if `send` takes them.
unfoldable pub tcp_server_send : TcpServer → ℕ → Bool → Bytes → Option Bytes
tcp_server_send s i taken message =
    if leb max_clients i || not (s.used i)
    then none
    else if taken
    then some (message ++ 10 ∷ [])
    else none

-- `tcp_server_client_disconnect` calls `on_disconnection` before it frees the slot, and dstore.c's
-- `on_disconnection`, which is `clear` here, ends with a call of `tcp_server_client_disconnect`. The
-- depth is the number of calls that the stack has room for; `none` is a stack that is full.
unfoldable pub tcp_server_client_disconnect :
    {S : Type 0} → (S → S) → ℕ → TcpServer → ℕ → S → Option (TcpServer × S)
tcp_server_client_disconnect clear zero s i x = none
tcp_server_client_disconnect clear (suc depth) s i x =
    let inner = tcp_server_client_disconnect clear depth s i (clear x) in
    if leb max_clients i || not (s.used i) then some (s, x) else elim inner [
      | none ↦ none
      | some (s', x') ↦ some (record s' { used = set_at s'.used i false }, x')
    ]

-- What `tcp_server_run` does when a client closes its connection.
unfoldable pub close_client :
    {S : Type 0} → (S → S) → ℕ → TcpServer → ℕ → S → Option (TcpServer × S)
close_client clear depth s i x = elim (tcp_server_client_disconnect clear depth s i (clear x)) [
  | none ↦ none
  | some (s', x') ↦ some (record s' { used = set_at s'.used i false }, x')
]

-- `tcp_server_cleanup`
unfoldable pub tcp_server_cleanup : TcpServer → TcpServer
tcp_server_cleanup s = record s { used = λ i. false }
