-- ===== src/Http/Health.antt =====
-- The health check of the client, at a server that is just initialized.
use rale.Base.{
  ℕ, suc, ◌-◌, ◌≤◌, ◌<◌, ◌≡◌, refl, ap, subst, ◌∙◌, true, false, List, [], ◌∷◌, ◌++◌, Option, none,
  some, leb, ltb, ◌==◌, if◌then◌else◌, drop, length, arith, length-append, take_all, length-take,
  Option-cases, inl, inr, pos,
}
use rale.Text.{Bytes, codes, starts_with, str_eq, strlcpy, c_string}
use rale.Http.Server.{
  ok, get, HttpRequest, HttpResponse, raled_http_parse_request, raled_http_generate_response,
  raled_http_set_json_body, status_code, request_body,
}
use rale.Http.Rest.{
  Process, Rest, RestConfig, raled_rest_handle_connection, raled_rest_route_request, find_endpoint,
  raled_rest_server_init, register_all, raled_rest_register_endpoint, raled_path_matches,
  raled_rest_handle_health, answer, new_response, healthy, written, default_endpoints, with_cors,
  routed,
}
use rale.Http.Client.{
  ClientConfig, ClientResponse, Network, parse_response, status_of, ralectrl_http_receive_response,
  ralectrl_http_send_request, exchange, request_text, ralectrl_http_get, fetch, fitting_body,
  ralectrl_api_get_health, ralectrl_test_connection, host_header, auth_header, bearer,
}
use rale.Http.Search.{crlf}
use rale.Http.Lines.{Lacks-check}
use rale.Http.Requests.{first_line, method_name, parse-first_line, is_target_end}
use rale.Http.Reading.{parse_response-generate_response}
use rale.Http.Exchange.{Cuts, receive_data-Cuts}
use rale.Http.Locked.{Brings, Reaches}

length-strlcpy : (s : Bytes) (n : ℕ) → length (strlcpy s (suc n)) ≤ n
unfolding strlcpy
length-strlcpy s n = omega (arith, length-take (suc n - 1) s)

length-host_header : (c : ClientConfig) → length (host_header c) ≤ 255
unfolding host_header
length-host_header c = length-strlcpy _ 255

length-auth_header : (c : ClientConfig) → length (auth_header c) ≤ 511
unfolding auth_header
length-auth_header c = elim (Option-cases c.api_key) [
  | inl e ↦ rw (auth_header, e) (omega arith)
  | inr (key, e) ↦ rw (auth_header, e) (length-strlcpy (bearer key) 511)
]

abbrev health_path : Bytes
health_path = codes "/api/v1/health"

abbrev request_of : ClientConfig → Bytes
request_of c = request_text (codes "GET") health_path (host_header c) (auth_header c) none

-- What follows the request line.
request_rest : ClientConfig → Bytes
request_rest c =
    codes "Host: "
    ++ (host_header c ++ (codes "\r\nConnection: close\r\n" ++ (auth_header c ++ crlf)))

request_of-first_line :
    (c : ClientConfig) → request_of c ≡ first_line get health_path ++ 13 ∷ 10 ∷ request_rest c
unfolding request_text request_rest method_name
request_of-first_line c = refl

length-request_of : (c : ClientConfig) → length (request_of c) ≤ 1000
unfolding request_text
length-request_of c = omega (
  arith,
  length-host_header c,
  length-auth_header c,
  length-append (auth_header c) crlf,
  length-append (host_header c) (codes "\r\nConnection: close\r\n" ++ (auth_header c ++ crlf)),
)

some_request : (c : ClientConfig) → 0 < length (request_of c)
unfolding request_text
some_request c = omega arith

-- The handler that the server finds.
abbrev health_response : Process → HttpResponse
health_response p = answer p ok healthy new_response

request_at : Bytes → Option Bytes → HttpRequest
request_at path body = record {
  method = get;
  path = path;
  query_string = none;
  headers = [];
  body = body;
}

-- The health check is routed to its handler.
find_health :
    (p : Process) (body : Option Bytes)
    → find_endpoint (default_endpoints p) (request_at health_path body) new_response
      ≡ some (health_response p)
unfolding find_endpoint str_eq raled_path_matches raled_rest_handle_health request_at
find_health p body = refl

register_defaults : (p : Process) → register_all [] (default_endpoints p) ≡ default_endpoints p
unfolding register_all raled_rest_register_endpoint
register_defaults p = refl

health-routed :
    (p : Process) (s : Rest) (body : Option Bytes)
    → s.endpoints ≡ default_endpoints p
    → s.config.api_key ≡ none
    → s.config.enable_cors ≡ false
    → with_cors p s
        (routed p (raled_rest_route_request p s (request_at health_path body) new_response))
      ≡ health_response p
unfolding raled_rest_route_request
health-routed p s body endpoints open_server no_cors =
    rw (no_cors, open_server, endpoints, find_health p body) refl

connection-parsed :
    (p : Process) (s : Rest) (input : Bytes) (request : HttpRequest)
    → 0 < length input
    → length input ≤ 8191
    → raled_http_parse_request p.memory input ≡ some request
    → raled_rest_handle_connection p s input
      ≡ written (
          raled_http_generate_response
            (with_cors p s (routed p (raled_rest_route_request p s request new_response)))
            8192)
unfolding raled_rest_handle_connection
connection-parsed p s [] request some_input fits parsed = absurd (omega arith)
connection-parsed p s (c ∷ input) request some_input fits parsed =
    rw (raled_rest_handle_connection, take_all 8191 (c ∷ input) fits, parsed)

request_of-parsed :
    (c : ClientConfig)
    → raled_http_parse_request true (request_of c)
      ≡ some (request_at health_path (request_body true (request_of c)))
unfolding request_at
request_of-parsed c =
    rw (request_of-first_line c) (
      parse-first_line get health_path (Lacks-check is_target_end health_path refl)
        (request_rest c))

health-connection :
    (p : Process) (s : Rest) (c : ClientConfig)
    → p.memory ≡ true
    → s.endpoints ≡ default_endpoints p
    → s.config.api_key ≡ none
    → s.config.enable_cors ≡ false
    → raled_rest_handle_connection p s (request_of c)
      ≡ written (raled_http_generate_response (health_response p) 8192)
health-connection p s c memory endpoints open_server no_cors =
    connection-parsed p s (request_of c) (request_at health_path (request_body true (request_of c)))
      (some_request c) (omega (arith, length-request_of c)) (rw memory (request_of-parsed c))
    ∙ ap (λ (r : HttpResponse). written (raled_http_generate_response r 8192))
        (health-routed p s (request_body true (request_of c)) endpoints open_server no_cors)

health_response-read :
    (p : Process)
    → p.memory ≡ true
    → (text : Bytes) × (written (raled_http_generate_response (health_response p) 8192) ≡ some text)
      × (parse_response true text ≡ record {
        status_code = pos 200;
        body = some healthy;
        content_type = some (codes "application/json");
      })
unfolding raled_http_set_json_body status_code
health_response-read p memory = rw memory (
    parse_response-generate_response
      (record {
        status = ok;
        headers = [];
        body = some healthy;
        content_type = some (codes "application/json");
      })
      123 (drop 1 healthy) refl refl refl (omega arith) (Lacks-check (λ c. c == 0) healthy refl))

abbrev health_reply : ClientResponse
health_reply = record {
  status_code = pos 200;
  body = some healthy;
  content_type = some (codes "application/json");
}

-- An empty text has no status.
reply_ne_empty : (t : Bytes) → parse_response true t ≡ health_reply → (length t == 0) ≡ false
unfolding parse_response status_of c_string starts_with
reply_ne_empty [] h = absurd (bad (ap (λ (r : ClientResponse). r.status_code) h))
  where
    bad : pos 0 ≡ pos 200 → ⊥
    bad e = cc
reply_ne_empty (c ∷ t) h = ground arith

receive-health_reply :
    (ps : List Bytes) (t : Bytes)
    → Cuts ps t
    → parse_response true t ≡ health_reply
    → ralectrl_http_receive_response true ps ≡ some health_reply
unfolding ralectrl_http_receive_response
receive-health_reply ps t h e = rw (receive_data-Cuts ps t h, reply_ne_empty t e, e) refl

get-health_reply :
    (n : Network) (c : ClientConfig) (t : Bytes)
    → n.memory ≡ true
    → n.connects ≡ true
    → n.sends (request_of c) ≡ true
    → Cuts (n.replies (request_of c)) t
    → parse_response true t ≡ health_reply
    → ralectrl_http_get n c health_path ≡ some health_reply
unfolding ralectrl_http_get exchange ralectrl_http_send_request
get-health_reply n c t memory up sent whole read =
    let fits : leb 8192 (length (request_of c)) ≡ false = ground (arith, length-request_of c) in
    rw (up, fits, sent, memory, receive-health_reply (n.replies (request_of c)) t whole read) refl

init-fields :
    (p : Process) (config : RestConfig) (s : Rest)
    → raled_rest_server_init p true config [] ≡ some s
    → config.api_key ≡ none
    → config.enable_cors ≡ false
    → (s.endpoints ≡ default_endpoints p)
      × (s.config.api_key ≡ none)
      × (s.config.enable_cors ≡ false)
unfolding raled_rest_server_init
init-fields p config s started open_server no_cors = ground (arith, register_defaults p)

-- The client at a server that is initialized from no endpoints, without an API key and without CORS,
-- with memory to be had at both, over a connection that is made and takes the request, and whose answers
-- come back whole: whatever host, port and API key the client has, its test of the connection succeeds,
-- and its call for the health gets the text of the handler if the buffer holds it and fails otherwise.
pub get_health-server :
    (p : Process) (s : Rest) (config : RestConfig) (n : Network) (c : ClientConfig) (size : ℕ)
    → p.memory ≡ true
    → raled_rest_server_init p true config [] ≡ some s
    → config.api_key ≡ none
    → config.enable_cors ≡ false
    → n.memory ≡ true
    → n.connects ≡ true
    → ((request : Bytes) → n.sends request ≡ true)
    → Reaches n (raled_rest_handle_connection p s)
    → (ralectrl_api_get_health n c size
        ≡ (if ltb (length healthy) size then some healthy else none))
      × (ralectrl_test_connection n c ≡ true)
unfolding ralectrl_api_get_health ralectrl_test_connection fetch fitting_body c_string
get_health-server p s config n c size memory started open_server no_cors client up sends reaches =
    let (endpoints, key, cors) = init-fields p config s started open_server no_cors in
    let (text, sent, read) = health_response-read p memory in
    let whole : Cuts (n.replies (request_of c)) text =
      subst (Brings (n.replies (request_of c)))
        (health-connection p s c memory endpoints key cors ∙ sent) (reaches (request_of c)) in
    let got = get-health_reply n c text client up (sends (request_of c)) whole read in
    (rw (ralectrl_api_get_health, fetch, got) refl, rw (ralectrl_test_connection, got) refl)
