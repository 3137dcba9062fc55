-- ===== src/TcpClient.antt =====
-- librale/src/tcp_client.c: one outgoing connection. `none` is NULL. The calls of the socket interface
-- and of `malloc` are answered by arguments: `inet_pton` says which texts are addresses, and a socket
-- is a number, negative if it cannot be had.
use rale.Base.{
  Bool, true, false, ◌&&◌, ◌||◌, not, Option, none, some, if◌then◌else◌, ℤ, pos, minus_one,
  is_nonneg, ltb_ℤ,
}
use rale.Text.{Bytes}

-- `tcp_client_t`; the callbacks are those of dstore.c.
pub record TcpClient : Type 0 where
  pub sock : ℤ
  pub is_connected : Bool
  pub ip_address : Bytes

-- `callbacks` and `errbuf` say which of these arguments are there, `memory` what `malloc` and `strdup`
-- answer.
unfoldable pub tcp_client_init :
    (Bytes → Bool) → Bool → Option Bytes → Bool → Bool → Option TcpClient
tcp_client_init inet_pton memory none callbacks errbuf = none
tcp_client_init inet_pton memory (some ip) callbacks errbuf =
    if not callbacks || not errbuf
    then none
    else if not memory
    then none
    else if not (inet_pton ip)
    then none
    else some (record { sock = minus_one; is_connected = false; ip_address = ip })

-- The answers of `socket`, `inet_pton` and `connect`; `true` is 0.
unfoldable pub tcp_client_connect : ℤ → Bool → Bool → ℤ → TcpClient → TcpClient × Bool
tcp_client_connect socket address connected port c =
    if ltb_ℤ port (pos 1)
    then (c, false)
    else let closed = if c.is_connected && is_nonneg c.sock then false else c.is_connected in
      if ltb_ℤ socket (pos 0)
      then (record c { sock = socket; is_connected = closed }, false)
      else if not address
      then (record c { sock = minus_one; is_connected = closed }, false)
      else if not connected
      then (record c { sock = minus_one; is_connected = closed }, false)
      else (record c { sock = socket; is_connected = true }, true)

-- What a send or a receive comes to: nothing is done, the bytes pass, or the connection is lost and
-- `on_disconnection` is called.
pub data Passed : Type 0 where
  idle : Passed
  passed : Bytes → Passed
  lost : Passed

-- `whole` says whether `send` takes the whole message.
unfoldable pub tcp_client_send : Bool → TcpClient → Bytes → TcpClient × Passed
tcp_client_send whole c message =
    if not c.is_connected || ltb_ℤ c.sock (pos 0)
    then (c, idle)
    else if whole
    then (c, passed message)
    else (record c { is_connected = false }, lost)

-- `none` is an answer of `recv` that is not positive.
unfoldable pub tcp_client_receive : Option Bytes → TcpClient → TcpClient × Passed
tcp_client_receive received c =
    if not c.is_connected || ltb_ℤ c.sock (pos 0)
    then (c, idle)
    else elim received [ none ↦ (record c { is_connected = false }, lost) | some s ↦ (c, passed s) ]
