-- ===== src/Tests/Web.antt =====
-- A server of the REST interface and a client of it, and files of settings.
use rale.Base.{◌≡◌, refl, true, false, List, [], ◌∷◌, Option, none, some, arith, pos, append-nil}
use rale.Text.{Bytes, codes}
use rale.Http.Server.{
  post, ok, HttpResponse, raled_http_parse_request, raled_http_generate_response, status_code,
}
use rale.Http.Rest.{
  Process, Rest, RestConfig, raled_rest_handle_connection, raled_rest_server_init, register_all,
  raled_rest_register_endpoint, healthy, written, default_endpoints,
}
use rale.Http.Client.{
  ClientConfig, Network, request_text, parse_response, ralectrl_http_get, ralectrl_http_post_json,
  ralectrl_http_delete, fetch, ralectrl_api_trigger_election, ralectrl_api_get_health,
  ralectrl_test_connection,
}
use rale.Http.Locked.{Brings, Refused, locked_server-Refused}
use rale.Http.Lines.{lines_text}
use rale.Http.Requests.{method_name, parse_request-request_text}
use rale.Http.Reading.{parse_response-generate_response}
use rale.Http.Health.{get_health-server}
use rale.Guc.{Config}
use rale.Guc.File.{read_config}
use rale.Guc.Lines.{settings_text, set_all, read_config-set_all}
use rale.Guc.Bounds.{Follows, read_config-Follows}
use rale.Guc.Ports.{rale_last, rale_first, read_config-ports}

abbrev process : Process
process = record { memory = true; status_json = none; nodes_json = none }

abbrev config : RestConfig
config = record { bind_address = none; enable_cors = false; api_key = none }

abbrev serving : RestConfig → Rest
serving c = record {
  endpoints = default_endpoints process;
  config = c;
  server_fd = none;
  running = false;
}

-- Answers come in one piece.
abbrev pieces : Option Bytes → List Bytes
pieces none = []
pieces (some []) = []
pieces (some (c ∷ s)) = (c ∷ s) ∷ []

abbrev network : Rest → Network
network s = record {
  memory = true;
  connects = true;
  sends = λ r. true;
  replies = λ r. pieces (raled_rest_handle_connection process s r);
}

pieces-Brings : (o : Option Bytes) → Brings (pieces o) o
pieces-Brings none = refl
pieces-Brings (some []) = refl
pieces-Brings (some (c ∷ s)) = ([], rw append-nil refl, refl)

abbrev client : ClientConfig
client = record { server_host = codes "h"; server_port = 8080; api_key = some (codes "k") }

abbrev locked : Rest
locked = serving (record config { api_key = some (codes "k") })

locked_server-Refused_example :
    Refused (ralectrl_http_get (network locked) client (codes "/"))
    × Refused (ralectrl_http_post_json (network locked) client (codes "/") none)
    × Refused (ralectrl_http_delete (network locked) client (codes "/"))
    × (fetch (network locked) client (codes "/") 100 ≡ none)
    × ((ralectrl_api_trigger_election (network locked) client 100).1 ≡ false)
locked_server-Refused_example =
    locked_server-Refused process locked (codes "k") (network locked) client (codes "/") none 100
      refl (λ r. pieces-Brings (raled_rest_handle_connection process locked r))

parse_request-request_text_example :
    raled_http_parse_request true (
      request_text
        (method_name post)
        (codes "/a")
        (codes "h")
        (lines_text (codes "B: c" ∷ []))
        (some (codes "{}")))
    ≡ some (record {
      method = post;
      path = codes "/a";
      query_string = none;
      headers = [];
      body = some (13 ∷ 10 ∷ codes "{}");
    })
parse_request-request_text_example =
    parse_request-request_text post (codes "/a") (codes "h") (codes "B: c" ∷ []) (some (codes "{}"))
      (refl, (refl, tt)) (refl, tt) ((refl, (refl, (refl, (refl, tt)))), tt)

abbrev response : HttpResponse
response = record {
  status = ok;
  headers = [];
  body = some (codes "{}");
  content_type = some (codes "application/json");
}

parse_response-generate_response_example :
    (text : Bytes) × (written (raled_http_generate_response response 8192) ≡ some text)
    × (parse_response true text ≡ record {
      status_code = pos 200;
      body = some (codes "{}");
      content_type = some (codes "application/json");
    })
unfolding status_code
parse_response-generate_response_example =
    parse_response-generate_response response 123 (125 ∷ []) refl refl refl (omega arith)
      (refl, (refl, tt))

get_health-server_example :
    (ralectrl_api_get_health (network (serving config)) client 100 ≡ some healthy)
    × (ralectrl_test_connection (network (serving config)) client ≡ true)
unfolding raled_rest_server_init register_all raled_rest_register_endpoint
get_health-server_example =
    get_health-server process (serving config) config (network (serving config)) client 100 refl
      refl refl refl refl refl (λ r. refl)
      (λ r. pieces-Brings (raled_rest_handle_connection process (serving config) r))

abbrev settings : Config
settings = record {
  number = λ n. pos 0;
  text = λ n. [];
  rale_port = 0;
  dstore_port = 0;
  db_start = 0;
}

read_config-set_all_example :
    read_config (some (settings_text ((codes "node_id", codes "4") ∷ []))) settings
    ≡ some (set_all settings ((codes "node_id", codes "4") ∷ []))
read_config-set_all_example = read_config-set_all ((codes "node_id", codes "4") ∷ []) settings (
    (
      omega arith,
      omega arith,
      (refl, (refl, (refl, (refl, (refl, (refl, (refl, tt))))))),
      (refl, tt),
      omega arith,
      tt,
    ))

read_config-Follows_example :
    (d : Config) × (read_config (some (codes "node_id = 0\n")) settings ≡ some d)
    × Follows settings d
read_config-Follows_example = read_config-Follows (codes "node_id = 0\n") settings

read_config-ports_example :
    (read_config (some (settings_text (rale_last 5001 6001))) settings
      ≡ some (record settings { rale_port = 5001; dstore_port = 0; db_start = 0 }))
    × (read_config (some (settings_text (rale_first 5001 6001))) settings
        ≡ some (record settings { rale_port = 5001; dstore_port = 6001; db_start = 0 }))
read_config-ports_example =
    read_config-ports 5001 6001 settings (omega arith, omega arith) (omega arith, omega arith)
