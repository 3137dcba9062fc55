-- ===== src/Http/Exchange.antt =====
-- The client of ralectrl_http_client.c at the server of raled_rest_api.c.
use rale.Base.{
  ℕ, ◌≡◌, refl, sym, subst, ◌∙◌, Bool, true, false, List, [], ◌∷◌, ◌++◌, Option, none, some, ◌==◌,
  if◌then◌else◌, take, length, arith, append_assoc, append-nil, Option-cases, ◌⊎◌, inl, inr,
}
use rale.Text.{Bytes, c_string}
use rale.Http.Server.{
  HttpStatus, unauthorized, bad_request, HttpRequest, HttpResponse, raled_http_parse_request,
  raled_http_generate_response, raled_http_set_json_body, raled_http_add_cors_headers,
  raled_http_set_header,
}
use rale.Http.Responses.{Extends, status_line, generate_response-Extends}
use rale.Http.Rest.{
  Process, Rest, raled_rest_handle_connection, raled_rest_route_request, raled_http_check_auth,
  raled_http_get_header, deny, new_response, bad_response, written, with_cors,
}
use rale.Http.Client.{receive_data}

-- The pieces are the text, and none is empty.
abbrev pub Cuts : List Bytes → Bytes → Type 0
Cuts [] t = t ≡ []
Cuts ([] ∷ ps) t = ⊥
Cuts ((c ∷ p) ∷ ps) t = (u : Bytes) × (t ≡ (c ∷ p) ++ u) × Cuts ps u

receive_data-append :
    (sofar : Bytes) (ps : List Bytes) (t : Bytes)
    → Cuts ps t
    → receive_data true (some sofar) ps ≡ some (sofar ++ t)
unfolding receive_data
receive_data-append sofar [] t h = rw (h, append-nil)
receive_data-append sofar ([] ∷ ps) t h = absurd h
receive_data-append sofar ((c ∷ p) ∷ ps) t (u, e, h) =
    rw (receive_data-append (sofar ++ c ∷ p) ps u h, e) (rw append_assoc)

-- However the text comes, the client has it whole, or nothing.
pub receive_data-Cuts :
    (ps : List Bytes) (t : Bytes)
    → Cuts ps t
    → receive_data true none ps ≡ (if length t == 0 then none else some t)
unfolding receive_data
receive_data-Cuts [] t h = rw h refl
receive_data-Cuts ([] ∷ ps) t h = absurd h
receive_data-Cuts ((d ∷ p) ∷ ps) t (u, e, h) =
    rw (receive_data-append (d ∷ p) ps u h, e) (ground arith)

pub receive_data-none : (ps : List Bytes) → receive_data false none ps ≡ none
unfolding receive_data
receive_data-none [] = refl
receive_data-none ([] ∷ ps) = refl
receive_data-none ((c ∷ p) ∷ ps) = refl

-- With an API key at the server, the headers are not looked at.
locked-route :
    (p : Process) (s : Rest) (key : Bytes) (request : HttpRequest)
    → s.config.api_key ≡ some key
    → request.headers ≡ []
    → raled_rest_route_request p s request new_response ≡ some (deny p new_response)
unfolding raled_rest_route_request raled_http_check_auth raled_http_get_header
locked-route p s key request e h = rw (e, h) refl

parse_request-headers :
    (memory : Bool) (raw : Bytes) (r : HttpRequest)
    → raled_http_parse_request memory raw ≡ some r
    → r.headers ≡ []
unfolding raled_http_parse_request
parse_request-headers memory raw r h = ground arith

locked-connection :
    (p : Process) (s : Rest) (key : Bytes) (c : ℕ) (input : Bytes)
    → s.config.api_key ≡ some key
    → (raled_rest_handle_connection p s (c ∷ input)
        ≡ written (raled_http_generate_response (bad_response p) 8192))
      ⊎ (raled_rest_handle_connection p s (c ∷ input)
          ≡ written (raled_http_generate_response (with_cors p s (deny p new_response)) 8192))
unfolding raled_rest_handle_connection
locked-connection p s key c input e =
    elim (Option-cases (raled_http_parse_request p.memory (take 8191 (c ∷ input)))) [
      | inl bad ↦ inl (rw (raled_rest_handle_connection, bad))
      | inr (r, good) ↦ inr (
          rw (
            raled_rest_handle_connection,
            good,
            locked-route p s key r e
                (parse_request-headers p.memory (take 8191 (c ∷ input)) r good),
          ))
    ]

with_cors-status : (p : Process) (s : Rest) (r : HttpResponse) → (with_cors p s r).status ≡ r.status
unfolding raled_http_add_cors_headers raled_http_set_header
with_cors-status p s r = ground arith

deny-status : (p : Process) (r : HttpResponse) → (deny p r).status ≡ unauthorized
unfolding raled_http_set_json_body
deny-status p r = ground arith

bad-status : (p : Process) → (bad_response p).status ≡ bad_request
unfolding raled_http_set_json_body
bad-status p = ground arith

-- A response of this status, if there is one.
abbrev pub Says : HttpStatus → Option Bytes → Type 0
Says st none = Unit
Says st (some t) = (u : Bytes) × (t ≡ c_string (status_line st ++ u))

written-Says :
    (st : HttpStatus) (o : Option Bytes) → Extends (status_line st) o → Says st (written o)
written-Says st none h = tt
written-Says st (some t) (u, e) = (u, rw e refl)

response-Says :
    (st : HttpStatus) (r : HttpResponse)
    → r.status ≡ st
    → Says st (written (raled_http_generate_response r 8192))
response-Says st r e = written-Says st _ (
    subst (λ x. Extends (status_line x) (raled_http_generate_response r 8192)) e
      (generate_response-Extends r 8192))

pub locked-Says :
    (p : Process) (s : Rest) (key : Bytes) (input : Bytes)
    → s.config.api_key ≡ some key
    → Says bad_request (raled_rest_handle_connection p s input)
      ⊎ Says unauthorized (raled_rest_handle_connection p s input)
unfolding raled_rest_handle_connection
locked-Says p s key [] e = inl tt
locked-Says p s key (c ∷ input) e = elim (locked-connection p s key c input e) [
  | inl bad ↦ inl (
      subst (Says bad_request) (sym bad)
        (response-Says bad_request (bad_response p) (bad-status p)))
  | inr denied ↦ inr (
      subst (Says unauthorized) (sym denied) (
        response-Says unauthorized (with_cors p s (deny p new_response))
          (with_cors-status p s (deny p new_response) ∙ deny-status p new_response)))
]
