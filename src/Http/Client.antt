-- ===== src/Http/Client.antt =====
-- ralectrl/src/ralectrl_http_client.c. A NULL pointer is `none`; -1 is `none` or `false`. The answers of
-- the sockets and of cJSON are arguments; times are left out.
use rale.Base.{
  ℕ, ◌+◌, ◌-◌, Bool, true, false, ◌&&◌, ◌||◌, List, [], ◌∷◌, ◌++◌, Option, none, some, leb, ltb,
  ◌==◌, if◌then◌else◌, take, drop, length, ℤ, pos, pos_part, ◌==ℤ◌, to_uint,
}
use rale.Text.{Bytes, codes, strchr, starts_with, strlcpy, c_string}
use rale.Text.Number.{decimal, atoi}
use rale.Http.Search.{strstr, crlf, blank_line}
use rale.Http.Server.{◌>>=◌, ◌>>◌, require, before}

-- The fields that requests are made of.
pub record ClientConfig : Type 0 where
  pub server_host : Bytes
  pub server_port : ℕ
  pub api_key : Option Bytes

pub record ClientResponse : Type 0 where
  pub status_code : ℤ
  pub body : Option Bytes
  pub content_type : Option Bytes

-- The connection: whether it is made, whether `send` takes the request, and what `recv` then brings.
pub record Network : Type 0 where
  pub memory : Bool
  pub connects : Bool
  pub sends : Bytes → Bool
  pub replies : Bytes → List Bytes

unfoldable pub ralectrl_http_config_init : ClientConfig
ralectrl_http_config_init = record {
  server_host = codes "localhost";
  server_port = 8080;
  api_key = none;
}

abbrev pub or_empty : Option Bytes → Bytes
or_empty none = []
or_empty (some s) = s

-- "Content-Length", if there is a body of some length.
abbrev pub length_line : Bytes → Bytes
length_line [] = []
length_line (c ∷ s) = codes "Content-Length: " ++ (decimal (length (c ∷ s)) ++ crlf)

-- `request` before it is cut.
unfoldable pub request_text : Bytes → Bytes → Bytes → Bytes → Option Bytes → Bytes
request_text method path host headers body =
    method
    ++ 32
      ∷ (path
          ++ (codes " HTTP/1.1\r\nHost: "
              ++ (host
                  ++ (crlf
                      ++ (length_line (or_empty body)
                          ++ (codes "Connection: close\r\n"
                              ++ (headers ++ (crlf ++ or_empty body))))))))

-- What is sent.
unfoldable pub ralectrl_http_send_request :
    Network → Bytes → Bytes → Bytes → Bytes → Option Bytes → Option Bytes
ralectrl_http_send_request n method path host headers body =
    let request = request_text method path host headers body in
    if leb 8192 (length request) then none else if n.sends request then some request else none

-- The loop over `recv`; an empty piece is the end.
unfoldable pub receive_data : Bool → Option Bytes → List Bytes → Option Bytes
receive_data memory sofar [] = sofar
receive_data memory sofar ([] ∷ more) = sofar
receive_data memory sofar ((c ∷ s) ∷ more) =
    let rest = receive_data memory (some (or_empty sofar ++ c ∷ s)) more in
    if memory then rest else none

unfoldable pub status_of : Bytes → ℤ
status_of text =
    if starts_with (codes "HTTP/1.") text
    then (elim (strchr 32 (drop 7 text)) [ none ↦ pos 0 | some (a, b) ↦ atoi b ])
    else pos 0

-- `body_start - response_data`
unfoldable pub body_offset : Bytes → ℕ → ℕ
body_offset text size = elim (strstr blank_line text) [
  | some (a, b) ↦ length a + 4
  | none ↦ elim (strstr (10 ∷ 10 ∷ []) text) [ some (a, b) ↦ length a + 2 | none ↦ size ]
]

-- What follows a header's name, if it stands before the body.
unfoldable pub header_value : Bytes → Bytes → ℕ → Option Bytes
header_value name text start = elim (strstr name text) [
  | none ↦ none
  | some (a, b) ↦ if ltb (length a) start then some (drop (length name) b) else none
]

abbrev pub content_length_of : Option Bytes → ℤ
content_length_of none = pos 0
content_length_of (some s) = atoi s

unfoldable pub skip_blanks_only : Bytes → Bytes
skip_blanks_only [] = []
skip_blanks_only (c ∷ s) = let rest = skip_blanks_only s in if c == 32 then rest else c ∷ s

unfoldable pub line_of : Bytes → Option Bytes
line_of text = before (strstr crlf text) (strstr (10 ∷ []) text)

unfoldable pub content_type_of : Bool → Option Bytes → Option Bytes
content_type_of memory none = none
content_type_of memory (some s) = if memory then line_of (skip_blanks_only s) else none

-- The length of the copy of the body: `content_length` bounds it, if it is positive.
unfoldable pub body_length_of : ℤ → ℕ → ℕ
body_length_of n available =
    if ltb 0 (pos_part n) && ltb (pos_part n) available then pos_part n else available

unfoldable pub body_of : Bool → Bytes → ℕ → ℤ → Option Bytes
body_of memory raw start n =
    if ltb start (length raw) && memory
    then some (take (body_length_of n (length raw - start)) (drop start raw))
    else none

-- The response, once all of it is there.
unfoldable pub parse_response : Bool → Bytes → ClientResponse
parse_response memory raw =
    let text = c_string raw in
    let start = body_offset text (length raw) in
    record {
      status_code = status_of text;
      body =
          body_of memory raw start
            (content_length_of (header_value (codes "Content-Length:") text start));
      content_type = content_type_of memory (header_value (codes "Content-Type:") text start);
    }

unfoldable pub ralectrl_http_receive_response : Bool → List Bytes → Option ClientResponse
ralectrl_http_receive_response memory pieces = do
  raw ← receive_data memory none pieces
  some (parse_response memory raw)

unfoldable pub host_header : ClientConfig → Bytes
host_header c = strlcpy (c.server_host ++ 58 ∷ decimal c.server_port) 256

abbrev pub bearer : Bytes → Bytes
bearer key = codes "Authorization: Bearer " ++ (key ++ crlf)

-- `headers` has 512 bytes.
unfoldable pub auth_header : ClientConfig → Bytes
auth_header c = elim c.api_key [ none ↦ [] | some key ↦ strlcpy (bearer key) 512 ]

unfoldable pub json_header : ClientConfig → Bytes
json_header c = elim c.api_key [
  | none ↦ codes "Content-Type: application/json\r\n"
  | some key ↦ strlcpy (codes "Content-Type: application/json\r\n" ++ bearer key) 512
]

-- One request, from the connection on. `none` leaves the response cleared.
unfoldable pub exchange :
    Network → ClientConfig → Bytes → Bytes → Bytes → Option Bytes → Option ClientResponse
exchange n c method path headers body = do
  require n.connects
  request ← ralectrl_http_send_request n method path (host_header c) headers body
  ralectrl_http_receive_response n.memory (n.replies request)

-- No argument is NULL.
unfoldable pub ralectrl_http_get : Network → ClientConfig → Bytes → Option ClientResponse
ralectrl_http_get n c path = exchange n c (codes "GET") path (auth_header c) none

unfoldable pub ralectrl_http_post_json :
    Network → ClientConfig → Bytes → Option Bytes → Option ClientResponse
ralectrl_http_post_json n c path json = exchange n c (codes "POST") path (json_header c) json

unfoldable pub ralectrl_http_delete : Network → ClientConfig → Bytes → Option ClientResponse
ralectrl_http_delete n c path = exchange n c (codes "DELETE") path (auth_header c) none

-- A body that the caller's buffer holds.
unfoldable pub fitting_body : ℕ → Option Bytes → Option Bytes
fitting_body size none = none
fitting_body size (some body) =
    if ltb (length (c_string body)) size then some (c_string body) else none

-- `ralectrl_api_get_status` and its like: the text in the caller's buffer, if 0 is returned.
unfoldable pub fetch : Network → ClientConfig → Bytes → ℕ → Option Bytes
fetch n c path size = do
  r ← ralectrl_http_get n c path
  require (r.status_code ==ℤ pos 200)
  fitting_body size r.body

unfoldable pub ralectrl_api_get_status : Network → ClientConfig → ℕ → Option Bytes
ralectrl_api_get_status n c size = fetch n c (codes "/api/v1/status") size

unfoldable pub ralectrl_api_list_nodes : Network → ClientConfig → ℕ → Option Bytes
ralectrl_api_list_nodes n c size = fetch n c (codes "/api/v1/nodes") size

unfoldable pub ralectrl_api_get_health : Network → ClientConfig → ℕ → Option Bytes
ralectrl_api_get_health n c size = fetch n c (codes "/api/v1/health") size

-- What `ralectrl_api_trigger_election` makes of a response: the text in the buffer, and whether 0 is
-- returned.
abbrev pub election_text : ClientResponse → Option Bytes → Option Bytes × Bool
election_text r none = (none, false)
election_text r (some text) = (some text, r.status_code ==ℤ pos 200 || r.status_code ==ℤ pos 202)

unfoldable pub election_reply : ℕ → Option ClientResponse → Option Bytes × Bool
election_reply size none = (none, false)
election_reply size (some r) = election_text r (fitting_body size r.body)

unfoldable pub ralectrl_api_trigger_election : Network → ClientConfig → ℕ → Option Bytes × Bool
ralectrl_api_trigger_election n c size =
    election_reply size
      (ralectrl_http_post_json n c (codes "/api/v1/election/trigger") (some (codes "{}")))

unfoldable pub ralectrl_test_connection : Network → ClientConfig → Bool
ralectrl_test_connection n c = elim (ralectrl_api_get_health n c 1024) [
  | none ↦ false
  | some text ↦ true
]

-- The host, the port and `use_ssl`.
pub record ServerUrl : Type 0 where
  pub host : Bytes
  pub port : ℕ
  pub use_ssl : Bool

-- The part after the protocol.
unfoldable pub parse_authority : Bytes → ℕ → Bool → ServerUrl
parse_authority text port ssl = elim (strchr 58 text) [
  | some (h, p) ↦ record { host = h; port = to_uint 16 (atoi p); use_ssl = ssl }
  | none ↦ elim (strchr 47 text) [
    | some (h, p) ↦ record { host = h; port = port; use_ssl = ssl }
    | none ↦ record { host = text; port = port; use_ssl = ssl }
  ]
]

unfoldable pub ralectrl_parse_server_url : Bool → Bytes → Option ServerUrl
ralectrl_parse_server_url memory url = do
  require memory
  some (
      if starts_with (codes "http://") url
      then parse_authority (drop 7 url) 80 false
      else if starts_with (codes "https://") url
      then parse_authority (drop 8 url) 443 true
      else parse_authority url 8080 false)

unfoldable pub ralectrl_http_is_success : Option ClientResponse → Bool
ralectrl_http_is_success none = false
ralectrl_http_is_success (some r) =
    leb 200 (pos_part r.status_code) && ltb (pos_part r.status_code) 300

abbrev pub first_of : Option Bytes → Option Bytes → Bytes
first_of (some s) other = s
first_of none (some s) = s
first_of none none = codes "Unknown error"

-- `parse` gives the strings under the keys of a JSON object; the buffer has at least one byte.
unfoldable pub ralectrl_extract_error_message :
    (Bytes → Option (Bytes → Option Bytes)) → Bytes → ℕ → Option Bytes
ralectrl_extract_error_message parse json size = do
  item ← parse json
  some (strlcpy (first_of (item (codes "error")) (item (codes "message"))) size)
