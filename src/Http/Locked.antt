-- ===== src/Http/Locked.antt =====
-- A server with an API key, and the client of ralectrl_http_client.c.
use rale.Base.{
  ℕ, ◌≡◌, refl, Bool, true, false, [], ◌∷◌, ◌++◌, List, Option, none, some, ◌==◌, length,
  Bool-cases, ◌⊎◌, inl, inr, pos, ◌==ℤ◌, arith, leb,
}
use rale.Text.{Bytes, codes, c_string}
use rale.Http.Server.{◌>>=◌, ◌>>◌, require, HttpStatus, unauthorized, bad_request, status_code}
use rale.Http.Responses.{status_line, status_of-status_line}
use rale.Http.Rest.{Process, Rest, raled_rest_handle_connection}
use rale.Http.Client.{
  ClientConfig, ClientResponse, Network, receive_data, parse_response,
  ralectrl_http_receive_response, ralectrl_http_send_request, exchange, request_text,
  ralectrl_http_get, ralectrl_http_post_json, ralectrl_http_delete, fetch, fitting_body,
  ralectrl_api_trigger_election, election_reply, election_text, host_header, auth_header,
  json_header,
}
use rale.Http.Exchange.{Cuts, receive_data-Cuts, receive_data-none, Says, locked-Says}

-- What arrives of an answer: all of it, in any pieces; nothing, if there is none.
abbrev pub Brings : List Bytes → Option Bytes → Type 0
Brings ps none = ps ≡ []
Brings ps (some t) = Cuts ps t

-- The requests of the client go to the server, and its answers come back whole.
abbrev pub Reaches : Network → (Bytes → Option Bytes) → Type 0
Reaches n serve = (request : Bytes) → Brings (n.replies request) (serve request)

-- The client got no response, or one that refuses.
abbrev pub Refused : Option ClientResponse → Type 0
Refused none = Unit
Refused (some r) = (r.status_code ≡ pos 400) ⊎ (r.status_code ≡ pos 401)

c_string_idem : (s : Bytes) → c_string (c_string s) ≡ c_string s
unfolding c_string
c_string_idem [] = refl
c_string_idem (c ∷ s) = ground (arith, c_string_idem s)

status_read :
    (memory : Bool) (st : HttpStatus) (u : Bytes)
    → (parse_response memory (c_string (status_line st ++ u))).status_code ≡ pos (status_code st)
unfolding parse_response
status_read memory st u = rw (c_string_idem (status_line st ++ u)) (status_of-status_line st u)

-- The client at an answer of a known status.
abbrev HasStatus : ℕ → Option ClientResponse → Type 0
HasStatus code none = Unit
HasStatus code (some r) = r.status_code ≡ pos code

receive-HasStatus :
    (memory : Bool) (ps : List Bytes) (st : HttpStatus) (o : Option Bytes)
    → Brings ps o
    → Says st o
    → HasStatus (status_code st) (ralectrl_http_receive_response memory ps)
unfolding ralectrl_http_receive_response
receive-HasStatus false ps st o h k = rw (receive_data-none ps) tt
receive-HasStatus true ps st none h k = rw h (unfold receive_data in tt)
receive-HasStatus true ps st (some t) h (u, e) = elim (Bool-cases (length t == 0)) [
  | inl empty ↦ rw (receive_data-Cuts ps t h, empty) tt
  | inr full ↦ rw (receive_data-Cuts ps t h, full, e) (status_read true st u)
]

Refused-HasStatus : (o : Option ClientResponse) → HasStatus 400 o ⊎ HasStatus 401 o → Refused o
Refused-HasStatus none h = tt
Refused-HasStatus (some r) h = h

module _ (p : Process) (s : Rest) (key : Bytes) (locked : s.config.api_key ≡ some key) (n : Network)
    (reaches : Reaches n (raled_rest_handle_connection p s)) (c : ClientConfig) where
  receive-Refused :
      (request : Bytes) → Refused (ralectrl_http_receive_response n.memory (n.replies request))
  unfolding status_code
  receive-Refused request = Refused-HasStatus _ (elim (locked-Says p s key request locked) [
    | inl bad ↦
        inl (receive-HasStatus n.memory (n.replies request) bad_request _ (reaches request) bad)
    | inr denied ↦
        inr (receive-HasStatus n.memory (n.replies request) unauthorized _ (reaches request) denied)
  ])

  exchange-Refused :
      (method path headers : Bytes) (body : Option Bytes)
      → Refused (exchange n c method path headers body)
  unfolding exchange ralectrl_http_send_request
  exchange-Refused method path headers body =
      let request = request_text method path (host_header c) headers body in
      elim (Bool-cases n.connects) [
        | inr down ↦ rw down tt
        | inl up ↦ elim (Bool-cases (leb 8192 (length request))) [
          | inl long ↦ rw (up, long) tt
          | inr fits ↦ elim (Bool-cases (n.sends request)) [
            | inr lost ↦ rw (up, fits, lost) tt
            | inl sent ↦ rw (up, fits, sent) (receive-Refused request)
          ]
        ]
      ]

fetch-Refused :
    (o : Option ClientResponse) (size : ℕ)
    → Refused o
    → (o >>= λ r. require (r.status_code ==ℤ pos 200) >> fitting_body size r.body) ≡ none
fetch-Refused none size h = refl
fetch-Refused (some r) size (inl bad) = rw bad refl
fetch-Refused (some r) size (inr denied) = rw denied refl

election_text-Refused :
    (r : ClientResponse) (text : Option Bytes) → Refused (some r) → (election_text r text).1 ≡ false
election_text-Refused r none h = refl
election_text-Refused r (some text) (inl bad) = rw bad refl
election_text-Refused r (some text) (inr denied) = rw denied refl

election-Refused :
    (size : ℕ) (o : Option ClientResponse) → Refused o → (election_reply size o).1 ≡ false
unfolding election_reply
election-Refused size none h = refl
election-Refused size (some r) h = election_text-Refused r (fitting_body size r.body) h

-- A server that is configured with an API key, whatever its endpoints are and whatever key the client
-- sends, refuses every request of the client of ralectrl, whose answers come back whole: a GET, a POST
-- and a DELETE of any path fail or have status 400 or 401, the calls that fetch a text fail, and that
-- which triggers an election does not succeed.
pub locked_server-Refused :
    (p : Process) (s : Rest) (key : Bytes) (n : Network) (c : ClientConfig) (path : Bytes)
    (json : Option Bytes) (size : ℕ)
    → s.config.api_key ≡ some key
    → Reaches n (raled_rest_handle_connection p s)
    → Refused (ralectrl_http_get n c path)
      × Refused (ralectrl_http_post_json n c path json)
      × Refused (ralectrl_http_delete n c path)
      × (fetch n c path size ≡ none)
      × ((ralectrl_api_trigger_election n c size).1 ≡ false)
unfolding ralectrl_http_get ralectrl_http_post_json ralectrl_http_delete fetch
    ralectrl_api_trigger_election
locked_server-Refused p s key n c path json size locked reaches =
    let refuses = exchange-Refused p s key locked n reaches c in
    (
      refuses (codes "GET") path (auth_header c) none,
      refuses (codes "POST") path (json_header c) json,
      refuses (codes "DELETE") path (auth_header c) none,
      fetch-Refused _ size (refuses (codes "GET") path (auth_header c) none),
      election-Refused size _ (
          refuses (codes "POST") (codes "/api/v1/election/trigger") (json_header c)
            (some (codes "{}"))),
    )
