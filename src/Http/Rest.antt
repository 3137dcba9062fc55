-- ===== src/Http/Rest.antt =====
-- raled/src/raled_rest_api.c: the endpoints, the server and its connections. `g_endpoints` is a list, a
-- function of an endpoint's pointer is the function. The answers of sockets and threads are arguments;
-- of cJSON only the texts that cJSON_Print returns are.
use rale.Base.{
  ℕ, ◌+◌, Bool, true, false, ◌&&◌, ◌||◌, not, List, [], ◌∷◌, ◌++◌, Option, none, some, leb, ◌==◌,
  if◌then◌else◌, take, drop, length,
}
use rale.Text.{Bytes, codes, str_eq, starts_with, c_string}
use rale.Http.Server.{
  HttpStatus, HttpMethod, get, post, put, delete, options, head, unset, ok, accepted, bad_request,
  unauthorized, not_found, not_implemented, HttpRequest, HttpResponse, raled_http_parse_request,
  raled_http_generate_response, raled_http_set_json_body, raled_http_add_cors_headers,
}

-- `strcasecmp(a, b) == 0`, in the C locale.
abbrev pub to_lower : ℕ → ℕ
to_lower c = if leb 65 c && leb c 90 then c + 32 else c

unfoldable pub same_letters : Bytes → Bytes → Bool
same_letters [] [] = true
same_letters [] (d ∷ t) = false
same_letters (c ∷ s) [] = false
same_letters (c ∷ s) (d ∷ t) = to_lower c == to_lower d && same_letters s t

unfoldable pub raled_http_get_header : List (Bytes × Bytes) → Bytes → Option Bytes
raled_http_get_header [] key = none
raled_http_get_header ((k, v) ∷ hs) key =
    let rest = raled_http_get_header hs key in if same_letters k key then some v else rest

unfoldable pub raled_http_check_auth : HttpRequest → Bytes → Bool
raled_http_check_auth request api_key =
    elim (raled_http_get_header request.headers (codes "Authorization")) [
      | none ↦ false
      | some value ↦ starts_with (codes "Bearer ") value && str_eq (drop 7 value) api_key
    ]

unfoldable pub raled_path_matches : Bytes → Bytes → Bool
raled_path_matches path pattern = str_eq path pattern

-- What the process has: malloc, and what cJSON_Print returns to two of the handlers.
pub record Process : Type 0 where
  pub memory : Bool
  pub status_json : Option Bytes
  pub nodes_json : Option Bytes

abbrev pub Handler : Type 0
Handler = HttpRequest → HttpResponse → HttpResponse

-- The status of a response, and then its body.
abbrev pub answer : Process → HttpStatus → Bytes → HttpResponse → HttpResponse
answer p status json r = raled_http_set_json_body p.memory (record r { status = status }) json

-- `raled_http_set_json_body` does nothing with NULL.
abbrev pub answer_printed : Process → Option Bytes → HttpResponse → HttpResponse
answer_printed p none r = record r { status = ok }
answer_printed p (some json) r = answer p ok json r

-- The handlers; all return 0.
unfoldable pub raled_rest_handle_status : Process → Handler
raled_rest_handle_status p request r = answer_printed p p.status_json r

unfoldable pub raled_rest_handle_list_nodes : Process → Handler
raled_rest_handle_list_nodes p request r = answer_printed p p.nodes_json r

abbrev pub not_yet : Bytes → Bytes
not_yet what =
    codes "{\"error\":\"Not Implemented\",\"message\":\""
    ++ what
    ++ codes " endpoint not yet implemented\"}"

unfoldable pub raled_rest_handle_add_node : Process → Handler
raled_rest_handle_add_node p request r = answer p not_implemented (not_yet (codes "Add node")) r

unfoldable pub raled_rest_handle_trigger_election : Process → Handler
raled_rest_handle_trigger_election p request r =
    answer p not_implemented (not_yet (codes "Trigger election")) r

unfoldable pub raled_rest_handle_step_down : Process → Handler
raled_rest_handle_step_down p request r = answer p not_implemented (not_yet (codes "Step down")) r

abbrev pub healthy : Bytes
healthy = codes "{\"status\":\"healthy\",\"timestamp\":0}"

unfoldable pub raled_rest_handle_health : Process → Handler
raled_rest_handle_health p request r = answer p ok healthy r

unfoldable pub raled_rest_handle_metrics : Process → Handler
raled_rest_handle_metrics p request r = answer p not_implemented (not_yet (codes "Metrics")) r

unfoldable pub raled_rest_handle_shutdown : Process → Handler
raled_rest_handle_shutdown p request r =
    answer p accepted
      (codes "{\"status\":\"shutdown_initiated\",\"message\":\"Graceful shutdown initiated\"}") r

-- `requires_auth` and `description` are never read.
pub record Endpoint : Type 0 where
  pub path : Bytes
  pub method : HttpMethod
  pub handler : Handler

-- `g_endpoints` up to `g_endpoint_count`, and whether 0 is returned. No pointer is NULL.
unfoldable pub raled_rest_register_endpoint :
    List Endpoint → Bytes → HttpMethod → Handler → List Endpoint × Bool
raled_rest_register_endpoint es path method handler =
    if leb 32 (length es)
    then (es, false)
    else (es ++ (record { path = path; method = method; handler = handler }) ∷ [], true)

unfoldable pub register_all : List Endpoint → List Endpoint → List Endpoint
register_all es [] = es
register_all es (d ∷ ds) =
    register_all (raled_rest_register_endpoint es d.path d.method d.handler).0 ds

abbrev pub endpoint : Bytes → HttpMethod → Handler → Endpoint
endpoint path method handler = record { path = path; method = method; handler = handler }

-- The default endpoints.
abbrev pub default_endpoints : Process → List Endpoint
default_endpoints p =
    endpoint (codes "/api/v1/status") get (raled_rest_handle_status p)
    ∷ endpoint (codes "/api/v1/nodes") get (raled_rest_handle_list_nodes p)
    ∷ endpoint (codes "/api/v1/nodes") post (raled_rest_handle_add_node p)
    ∷ endpoint (codes "/api/v1/election/trigger") post (raled_rest_handle_trigger_election p)
    ∷ endpoint (codes "/api/v1/leader/step-down") post (raled_rest_handle_step_down p)
    ∷ endpoint (codes "/api/v1/health") get (raled_rest_handle_health p)
    ∷ endpoint (codes "/api/v1/metrics") get (raled_rest_handle_metrics p)
    ∷ endpoint (codes "/api/v1/shutdown") post (raled_rest_handle_shutdown p)
    ∷ []

pub record RestConfig : Type 0 where
  pub bind_address : Option Bytes
  pub enable_cors : Bool
  pub api_key : Option Bytes

-- `g_endpoints`, and `g_rest_server` where it is set.
pub record Rest : Type 0 where
  pub endpoints : List Endpoint
  pub config : RestConfig
  pub server_fd : Option ℕ
  pub running : Bool

-- `g_endpoints` before, and whether the mutex is made. A copy that strdup fails to make is NULL.
unfoldable pub raled_rest_server_init : Process → Bool → RestConfig → List Endpoint → Option Rest
raled_rest_server_init p mutex config es =
    if mutex
    then some (record {
      endpoints = register_all es (default_endpoints p);
      config = record config {
        bind_address = if p.memory then config.bind_address else none;
        api_key = if p.memory then config.api_key else none;
      };
      server_fd = none;
      running = false;
    })
    else none

abbrev pub method_eq : HttpMethod → HttpMethod → Bool
method_eq get get = true
method_eq post post = true
method_eq put put = true
method_eq delete delete = true
method_eq options options = true
method_eq head head = true
method_eq _ _ = false

-- The loop of `raled_rest_route_request`; `none` is the result -1.
unfoldable pub find_endpoint : List Endpoint → HttpRequest → HttpResponse → Option HttpResponse
find_endpoint [] request r = none
find_endpoint (e ∷ es) request r =
    let rest = find_endpoint es request r in
    if method_eq e.method request.method
      && (str_eq e.path request.path || raled_path_matches request.path e.path)
    then some (e.handler request r)
    else rest

abbrev pub deny : Process → HttpResponse → HttpResponse
deny p r =
    answer p unauthorized
      (codes "{\"error\":\"Unauthorized\",\"message\":\"Invalid or missing API key\"}") r

unfoldable pub raled_rest_route_request :
    Process → Rest → HttpRequest → HttpResponse → Option HttpResponse
raled_rest_route_request p s request r = elim s.config.api_key [
  | none ↦ find_endpoint s.endpoints request r
  | some key ↦
      if not (raled_http_check_auth request key)
      then some (deny p r)
      else find_endpoint s.endpoints request r
]

abbrev pub new_response : HttpResponse
new_response = record { status = unset; headers = []; body = none; content_type = none }

abbrev pub bad_response : Process → HttpResponse
bad_response p =
    answer p bad_request (codes "{\"error\":\"Bad Request\",\"message\":\"Invalid HTTP request\"}")
      new_response

abbrev pub routed : Process → Option HttpResponse → HttpResponse
routed p (some r) = r
routed p none =
    answer p not_found (codes "{\"error\":\"Not Found\",\"message\":\"Endpoint not found\"}")
      new_response

abbrev pub with_cors : Process → Rest → HttpResponse → HttpResponse
with_cors p s r = if s.config.enable_cors then raled_http_add_cors_headers p.memory r else r

-- What is written, `strlen(response_buffer)` bytes of it.
abbrev pub written : Option Bytes → Option Bytes
written none = none
written (some text) = some (c_string text)

-- `input` is what one `read` brings. After a request that does not parse the buffer is written even if
-- no response fits, which the text of that response does.
unfoldable pub raled_rest_handle_connection : Process → Rest → Bytes → Option Bytes
raled_rest_handle_connection p s [] = none
raled_rest_handle_connection p s (c ∷ input) =
    elim (raled_http_parse_request p.memory (take 8191 (c ∷ input))) [
      | none ↦ written (raled_http_generate_response (bad_response p) 8192)
      | some request ↦ written (
          raled_http_generate_response
            (with_cors p s (routed p (raled_rest_route_request p s request new_response))) 8192)
    ]

-- What the calls of `raled_rest_server_start` return; `inet_pton` is asked if there is an address.
pub record StartCalls : Type 0 where
  pub socket : Option ℕ
  pub inet_pton : Bytes → Bool
  pub bind : Bool
  pub listen : Bool
  pub pthread_create : Bool

abbrev pub has_address : StartCalls → Option Bytes → Bool
has_address c none = true
has_address c (some []) = true
has_address c (some (b ∷ s)) = c.inet_pton (b ∷ s)

-- The server, and whether 0 is returned. A socket that is closed stays in `server_fd`.
unfoldable pub raled_rest_server_start : StartCalls → Rest → Rest × Bool
raled_rest_server_start c s = elim c.socket [
  | none ↦ (record s { server_fd = none }, false)
  | some fd ↦
      let opened = record s { server_fd = some fd } in
      if has_address c s.config.bind_address && (c.bind && (c.listen && c.pthread_create))
      then (record opened { running = true }, true)
      else if has_address c s.config.bind_address && (c.bind && c.listen)
      then (record opened { running = false }, false)
      else (opened, false)
]

unfoldable pub raled_rest_server_stop : Rest → Rest
raled_rest_server_stop s =
    if not s.running then s else record s { running = false; server_fd = none }

unfoldable pub raled_rest_server_cleanup : Rest → Rest
raled_rest_server_cleanup s =
    let stopped = raled_rest_server_stop s in
    record stopped { config = record stopped.config { bind_address = none; api_key = none } }

-- What `accept` returns in turn: a client with its input, an interruption, or an error.
pub data Accepted : Type 0 where
  client : Bytes → Accepted
  interrupted : Accepted
  failed : Accepted

-- The loop of `raled_rest_server_thread`, while the server is running: what is written to each client.
unfoldable pub raled_rest_server_thread : Process → Rest → List Accepted → List (Option Bytes)
raled_rest_server_thread p s [] = []
raled_rest_server_thread p s (client input ∷ more) =
    raled_rest_handle_connection p s input ∷ raled_rest_server_thread p s more
raled_rest_server_thread p s (interrupted ∷ more) = raled_rest_server_thread p s more
raled_rest_server_thread p s (failed ∷ more) = []
