-- ===== src/Http/Server.antt =====
-- raled/src/raled_rest_api.c: requests, responses and their texts. A NULL pointer is `none`; the length
-- of a body is that of its bytes. `memory` says whether malloc, strdup and realloc succeed.
use rale.Base.{
  ℕ, ◌+◌, ◌-◌, Bool, true, false, List, [], ◌∷◌, ◌++◌, Option, none, some, leb, ltb, ◌==◌,
  if◌then◌else◌, take, drop, length,
}
use rale.Text.{Bytes, codes, str_eq, strchr, c_string}
use rale.Text.Number.{decimal}
use rale.Http.Search.{strstr, crlf, blank_line}

pub data HttpMethod : Type 0 where
  get post put delete options head : HttpMethod

-- The enumerators of `http_status_t`, and the zero of a new response.
pub data HttpStatus : Type 0 where
  unset ok created accepted no_content bad_request unauthorized forbidden not_found : HttpStatus
  method_not_allowed conflict internal_error not_implemented service_unavailable : HttpStatus

pub record HttpRequest : Type 0 where
  pub method : HttpMethod
  pub path : Bytes
  pub query_string : Option Bytes
  pub headers : List (Bytes × Bytes)
  pub body : Option Bytes

pub record HttpResponse : Type 0 where
  pub status : HttpStatus
  pub headers : List (Bytes × Bytes)
  pub body : Option Bytes
  pub content_type : Option Bytes

infixl 5 ◌>>=◌ ◌>>◌
abbrev pub ◌>>=◌ : {A B : Type 0} → Option A → (A → Option B) → Option B
none >>= f = none
some a >>= f = f a

abbrev pub ◌>>◌ : {B : Type 0} → Option (Unit {0}) → Option B → Option B
m >> k = m >>= λ _. k

abbrev pub require : Bool → Option (Unit {0})
require true = some tt
require false = none

-- `strstr(s, "\r\n")`, or `strstr(s, "\n")`: what stands before it.
abbrev pub before : Option (Bytes × Bytes) → Option (Bytes × Bytes) → Option Bytes
before (some found) other = some found.0
before none (some found) = some found.0
before none none = none

-- The request line, up to `line_end`.
unfoldable pub request_line : Bytes → Option Bytes
request_line text = before (strstr crlf text) (strstr (10 ∷ []) text)

unfoldable pub parse_method : Bytes → Option HttpMethod
parse_method name =
    if str_eq name (codes "GET")
    then some get
    else if str_eq name (codes "POST")
    then some post
    else if str_eq name (codes "PUT")
    then some put
    else if str_eq name (codes "DELETE")
    then some delete
    else if str_eq name (codes "OPTIONS")
    then some options
    else if str_eq name (codes "HEAD")
    then some head
    else none

-- The path up to a '?', and the query string behind it, which is a copy.
unfoldable pub split_query : Bool → Bytes → Bytes × Option Bytes
split_query memory path = elim (strchr 63 path) [
  | none ↦ (path, none)
  | some (p, q) ↦ (p, if memory then some q else none)
]

-- `body_start += (body_start[1] == '\n') ? 2 : 4`
unfoldable pub body_skip : Bytes → ℕ
body_skip [] = 4
body_skip (a ∷ []) = 4
body_skip (a ∷ b ∷ s) = if b == 10 then 2 else 4

-- The offset of the body, if there is a blank line.
unfoldable pub body_start : Bytes → Option ℕ
body_start text = elim (strstr blank_line text) [
  | some (a, b) ↦ some (length a + body_skip b)
  | none ↦ elim (strstr (10 ∷ 10 ∷ []) text) [
    | some (a, b) ↦ some (length a + body_skip b)
    | none ↦ none
  ]
]

abbrev pub copy_body : Bool → Bytes → Option Bytes
copy_body memory [] = none
copy_body memory (c ∷ s) = if memory then some (c ∷ s) else none

unfoldable pub request_body : Bool → Bytes → Option Bytes
request_body memory raw = elim (body_start (c_string raw)) [
  | none ↦ none
  | some at ↦ copy_body memory (drop at raw)
]

-- `raw` is the buffer up to `data_length`; the byte behind it is zero.
unfoldable pub raled_http_parse_request : Bool → Bytes → Option HttpRequest
raled_http_parse_request memory raw = do
  line ← request_line (c_string raw)
  first ← strchr 32 line
  require (ltb (length first.0) 16)
  method ← parse_method first.0
  second ← strchr 32 first.1
  require memory
  some (record {
    method = method;
    path = (split_query memory second.0).0;
    query_string = (split_query memory second.0).1;
    headers = [];
    body = request_body memory raw;
  })

unfoldable pub status_code : HttpStatus → ℕ
status_code unset = 0
status_code ok = 200
status_code created = 201
status_code accepted = 202
status_code no_content = 204
status_code bad_request = 400
status_code unauthorized = 401
status_code forbidden = 403
status_code not_found = 404
status_code method_not_allowed = 405
status_code conflict = 409
status_code internal_error = 500
status_code not_implemented = 501
status_code service_unavailable = 503

unfoldable pub status_text : HttpStatus → Bytes
status_text unset = codes "Unknown"
status_text ok = codes "OK"
status_text created = codes "Created"
status_text accepted = codes "Accepted"
status_text no_content = codes "No Content"
status_text bad_request = codes "Bad Request"
status_text unauthorized = codes "Unauthorized"
status_text forbidden = codes "Forbidden"
status_text not_found = codes "Not Found"
status_text method_not_allowed = codes "Method Not Allowed"
status_text conflict = codes "Conflict"
status_text internal_error = codes "Internal Server Error"
status_text not_implemented = codes "Not Implemented"
status_text service_unavailable = codes "Service Unavailable"

-- `snprintf` of one more piece; if it does not fit, the function returns -1.
unfoldable pub write_piece : ℕ → Bytes → Bytes → Option Bytes
write_piece size piece text =
    if leb (size - length text) (length piece) then none else some (text ++ piece)

unfoldable pub write_headers : ℕ → List (Bytes × Bytes) → Bytes → Option Bytes
write_headers size [] text = some text
write_headers size ((key, value) ∷ hs) text = do
  more ← write_piece size (key ++ (codes ": " ++ (value ++ crlf))) text
  write_headers size hs more

unfoldable pub write_content_type : ℕ → Option Bytes → Bytes → Option Bytes
write_content_type size none text = some text
write_content_type size (some t) text =
    write_piece size (codes "Content-Type: " ++ (t ++ crlf)) text

-- "Content-Length", if there is a body of some length.
unfoldable pub write_content_length : ℕ → Option Bytes → Bytes → Option Bytes
write_content_length size none text = some text
write_content_length size (some []) text = some text
write_content_length size (some (c ∷ s)) text =
    write_piece size (codes "Content-Length: " ++ (decimal (length (c ∷ s)) ++ crlf)) text

-- `if (written + 2 < buffer_size)`
unfoldable pub end_headers : ℕ → Bytes → Option Bytes
end_headers size text = if ltb (length text + 2) size then some (text ++ crlf) else none

-- As much of the body as there is room for.
unfoldable pub write_body : ℕ → Option Bytes → Bytes → Bytes
write_body size none text = text
write_body size (some body) text = text ++ take (size - length text - 1) body

-- What is left in the buffer, of `size` bytes, if 0 is returned.
unfoldable pub raled_http_generate_response : HttpResponse → ℕ → Option Bytes
raled_http_generate_response r size = do
  require (ltb 0 size)
  line ←
      write_piece size
        (codes "HTTP/1.1 "
          ++ (decimal (status_code r.status) ++ 32 ∷ (status_text r.status ++ crlf)))
        []
  headers ← write_headers size r.headers line
  typed ← write_content_type size r.content_type headers
  sized ← write_content_length size r.body typed
  ended ← end_headers size sized
  some (write_body size r.body ended)

-- The pointers are not NULL. If strdup fails the old body is gone.
unfoldable pub raled_http_set_json_body : Bool → HttpResponse → Bytes → HttpResponse
raled_http_set_json_body memory r json =
    if memory
    then record r { body = some json; content_type = some (codes "application/json") }
    else record r { body = none }

unfoldable pub raled_http_set_header : Bool → HttpResponse → Bytes → Bytes → HttpResponse
raled_http_set_header memory r key value =
    if memory then record r { headers = r.headers ++ (key, value) ∷ [] } else r

unfoldable pub raled_http_add_cors_headers : Bool → HttpResponse → HttpResponse
raled_http_add_cors_headers memory r =
    let origin = raled_http_set_header memory r (codes "Access-Control-Allow-Origin") (codes "*") in
    let methods =
      raled_http_set_header memory origin (codes "Access-Control-Allow-Methods")
        (codes "GET, POST, PUT, DELETE, OPTIONS") in
    raled_http_set_header memory methods (codes "Access-Control-Allow-Headers")
      (codes "Content-Type, Authorization")
