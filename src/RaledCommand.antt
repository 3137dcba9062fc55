-- ===== src/RaledCommand.antt =====
-- raled/src/raled_command.c: the commands of the daemon's clients, and their replies. cJSON is the
-- function `parse`; `errbuf` is what the buffer of process_put_command holds after its call, which the
-- code leaves to whatever stands in memory. Logging has no part in it.
pub mod Tokens
pub mod Replies
pub mod Refused
use rale.Base.{
  ℕ, zero, suc, ◌+◌, ◌-◌, Bool, true, false, ◌&&◌, ◌||◌, List, [], ◌∷◌, ◌++◌, Option, none, some,
  leb, ltb, ◌==◌, if◌then◌else◌, ℤ, pos, ◌==ℤ◌, take, length,
}
use rale.Text.{Bytes, codes, str_eq, strlcpy}
use rale.Text.Number.{format_int, decimal}
use rale.Hash.{Outcome, done, ◌>>=◌}
use rale.Db.{db_get}
use rale.Dstore.{Dstore, Env, Output, cluster_of}
use rale.Dstore.Peers.{count}
use rale.Dstore.Commands.{dstore_put_from_command}
use rale.RaledCommand.Tokens.{next_token, upper, skip_blanks, has_tokens}

pub data Status : Type 0 where
  rale_success : Status
  rale_error_general : Status

pub record Reply : Type 0 where
  pub status : Status
  pub response : Bytes

-- What a command finds: `parse` gives the strings under the keys of a JSON object.
pub record Setting : Type 0 where
  pub env : Env
  pub role : ℤ
  pub errbuf : Bytes
  pub parse : Bytes → Option (Bytes → Option Bytes)
  pub response_size : ℕ

abbrev pub Handler : Type 0
Handler = Dstore → Outcome ((Dstore × List Output) × Reply)

-- `snprintf(response, response_size, ...)`, and the result.
abbrev pub reply : Setting → Status → Bytes → Reply
reply r status text = record { status = status; response = strlcpy text r.response_size }

abbrev pub answer : Reply → Handler
answer a d = done ((d, []), a)

abbrev pub fail : Setting → Bytes → Handler
fail r text = answer (reply r rale_error_general (codes "ERROR: " ++ text))

abbrev pub get_reply : Setting → Option Bytes → Reply
get_reply r none = reply r rale_error_general (codes "ERROR: Key not found")
get_reply r (some value) = reply r rale_success (codes "OK: " ++ value)

-- The lookup of `process_get_command`.
unfoldable pub get_value : Setting → Bytes → Handler
get_value r key d = do
  g ← db_get d.db (some key) 1024
  done ((record d { db = g.0 }, []), get_reply r g.1)

unfoldable pub process_get_command : Setting → Bytes → Handler
process_get_command r key =
    if ltb 256 (length key) then fail r (codes "Key too long") else get_value r key

abbrev pub put_reply : Setting → Bytes → Reply
put_reply r value =
    if ltb 0 (length r.errbuf)
    then reply r rale_error_general (codes "ERROR: " ++ r.errbuf)
    else reply r rale_success (codes "OK: " ++ value)

-- `full_command`
abbrev pub full_command : Bytes → Bytes → Bytes
full_command key value = strlcpy (codes "PUT " ++ (key ++ 32 ∷ value)) 512

-- The write of `process_put_command`.
unfoldable pub put_value : Setting → Bytes → Bytes → Handler
put_value r key value d = do
  p ← dstore_put_from_command r.env (full_command key value) d
  done (p, put_reply r value)

unfoldable pub process_put_command : Setting → Bytes → Bytes → Handler
process_put_command r key value =
    if ltb 256 (length key)
    then fail r (codes "Key too long")
    else if ltb 1024 (length value)
    then fail r (codes "Value too long")
    else put_value r key value

unfoldable pub role_str : ℤ → Bytes
role_str role =
    if role ==ℤ pos 0
    then codes "follower"
    else if role ==ℤ pos 1
    then codes "candidate"
    else if role ==ℤ pos 2
    then codes "leader"
    else codes "unknown"

-- What the loop of `process_list_command` prints for index `i`; `pos` is where.
unfoldable pub list_entry : Bytes → ℤ → ℕ → ℕ → Bytes
list_entry role self at i =
    (if ltb 10 at then codes "," else [])
    ++ (codes "{\"id\":" ++ decimal i)
    ++ (codes ",\"name\":\"node" ++ decimal i)
    ++ codes "\",\"ip\":\"unknown\",\"rale_port\":0,\"dstore_port\":0,\"role\":\""
    ++ (if pos i ==ℤ self then role else codes "unknown")
    ++ codes "\"}"

-- The loop of `process_list_command`, from index `i` on: the response, and `pos`.
unfoldable pub list_nodes : ℕ → Bytes → ℤ → ℕ → ℕ → Bytes → Bytes × ℕ
list_nodes size role self zero i text = (text, length text)
list_nodes size role self (suc n) i text =
    let entry = list_entry role self (length text) i in
    let rest = list_nodes size role self n (suc i) (text ++ entry) in
    if leb (size - length text) (length entry)
    then (text ++ strlcpy entry (size - length text), length text)
    else rest

-- The end of `process_list_command`. `response_size - 2` wraps if it is 1.
unfoldable pub close_list : ℕ → Bytes × ℕ → Bytes
close_list size (text, at) =
    if size == 1 || ltb (at + 2) size then strlcpy (text ++ codes "]}") size else text

-- `role_buf` has 16 bytes.
unfoldable pub process_list_command : Setting → Handler
process_list_command r d =
    answer
      (record {
        status = rale_success;
        response = close_list r.response_size (
            list_nodes r.response_size (strlcpy (role_str r.role) 16) (cluster_of d).self_id
              (count d) 0 (strlcpy (codes "{\"nodes\":[") r.response_size));
      })
      d

unfoldable pub process_status_command : Setting → Handler
process_status_command r d =
    answer
      (reply r rale_success (
        codes "STATUS: node_id="
        ++ format_int (cluster_of d).self_id
        ++ (codes ", role=" ++ role_str r.role)
        ++ (codes ", cluster_size=" ++ decimal (count d))))
      d

unfoldable pub process_stop_command : Setting → Handler
process_stop_command r = answer (reply r rale_success (codes "OK: stop command received"))

-- The arguments are only logged.
unfoldable pub process_add_command : Setting → Handler
process_add_command r = fail r (codes "ADD command not implemented in current API")

unfoldable pub process_remove_command : Setting → Handler
process_remove_command r = fail r (codes "REMOVE command not implemented in current API")

-- "GET": what is left of the line.
unfoldable pub get_command : Setting → Option (Bytes × Bytes) → Handler
get_command r none = fail r (codes "GET requires a key")
get_command r (some (key, rest)) = process_get_command r key

-- "PUT". The value is `strtok(NULL, "")`, the rest of the line unless it is empty.
unfoldable pub put_command : Setting → Option (Bytes × Bytes) → Handler
put_command r none = fail r (codes "PUT requires key and value")
put_command r (some (key, [])) = fail r (codes "PUT requires key and value")
put_command r (some (key, c ∷ s)) = process_put_command r key (skip_blanks (c ∷ s))

-- The tests of the first token.
unfoldable pub text_command : Setting → Bytes → Bytes → Handler
text_command r token rest =
    if str_eq token (codes "GET")
    then get_command r (next_token rest)
    else if str_eq token (codes "PUT")
    then put_command r (next_token rest)
    else if str_eq token (codes "LIST")
    then process_list_command r
    else if str_eq token (codes "STATUS")
    then process_status_command r
    else if str_eq token (codes "STOP")
    then process_stop_command r
    else if str_eq token (codes "ADD")
    then (if has_tokens 5 rest
        then process_add_command r
        else fail r (codes "ADD requires node_id name ip rale_port dstore_port"))
    else if str_eq token (codes "REMOVE")
    then (if has_tokens 1 rest
        then process_remove_command r
        else fail r (codes "REMOVE requires node_id"))
    else fail r (codes "Unknown command '" ++ token ++ codes "'")

unfoldable pub text_line : Setting → Option (Bytes × Bytes) → Handler
text_line r none = fail r (codes "Invalid command format")
text_line r (some (token, rest)) = text_command r (upper token) rest

-- The JSON part: a call of a handler, or none and the text is read as a line.
unfoldable pub json_get : Setting → Option Bytes → Option Handler
json_get r none = none
json_get r (some key) = some (process_get_command r key)

unfoldable pub json_put : Setting → Option Bytes → Option Bytes → Option Handler
json_put r (some key) (some value) = some (process_put_command r key value)
json_put r (some key) none = none
json_put r none value = none

unfoldable pub json_command : Setting → (Bytes → Option Bytes) → Option Bytes → Option Handler
json_command r item none = none
json_command r item (some cmd) =
    if str_eq cmd (codes "GET")
    then json_get r (item (codes "key"))
    else if str_eq cmd (codes "PUT")
    then json_put r (item (codes "key")) (item (codes "value"))
    else none

unfoldable pub json_text : Setting → Option (Bytes → Option Bytes) → Option Handler
json_text r none = none
json_text r (some item) = json_command r item (item (codes "command"))

-- No argument is NULL. The line is cut to `command_copy`.
unfoldable pub raled_process_command : Setting → Bytes → Handler
raled_process_command r text d =
    if r.response_size == 0
    then done ((d, []), record { status = rale_error_general; response = [] })
    else if length text == 0
    then fail r (codes "Empty command") d
    else elim (json_text r (r.parse text)) [
      | some handler ↦ handler d
      | none ↦ text_line r (next_token (take 1023 text)) d
    ]
