-- ===== src/Http/Address.antt =====
-- The address of a server, as ralectrl_http_client.c reads it.
use rale.Base.{
  ℕ, ◌<◌, ◌^◌, ◌%◌, ◌≡◌, refl, Bool, true, false, ◌∷◌, ◌++◌, some, ◌==◌, to_uint, arith,
}
use rale.Text.{Bytes, codes, starts_with}
use rale.Text.Number.{decimal}
use rale.Text.Number.RoundTrip.{Stops}
use rale.StateFile.Words.{Lacks, strchr-append}
use rale.Http.Client.{parse_authority, ralectrl_parse_server_url}
use rale.Http.Responses.{atoi-decimal}

abbrev pub protocol : Bool → Bytes
protocol false = codes "http://"
protocol true = codes "https://"

authority-read :
    (host : Bytes) (port default_port : ℕ) (rest : Bytes) (ssl : Bool)
    → Lacks (λ c. c == 58) host
    → port < 2 ^ 16
    → Stops rest
    → parse_authority (host ++ 58 ∷ (decimal port ++ rest)) default_port ssl
      ≡ record { host = host; port = port; use_ssl = ssl }
unfolding to_uint parse_authority
authority-read host port default_port rest ssl plain small stops =
    let value : port % 2 ^ 16 ≡ port = omega (arith, small) in
    rw (
      parse_authority,
      strchr-append 58 host (decimal port ++ rest) plain,
      atoi-decimal port rest (omega (arith, small)) stops,
      value,
    )

-- The address of a host without ":" and a port of 16 bits, with either protocol and with whatever
-- follows the port unless that starts with a digit, is read as that host, that port and that protocol.
parse_server_url-protocol :
    (ssl : Bool) (host : Bytes) (port : ℕ) (rest : Bytes)
    → Lacks (λ c. c == 58) host
    → port < 2 ^ 16
    → Stops rest
    → ralectrl_parse_server_url true (protocol ssl ++ (host ++ 58 ∷ (decimal port ++ rest)))
      ≡ some (record { host = host; port = port; use_ssl = ssl })
unfolding ralectrl_parse_server_url starts_with
parse_server_url-protocol false host port rest plain small stops =
    rw (authority-read host port 80 rest false plain small stops) refl
parse_server_url-protocol true host port rest plain small stops =
    rw (authority-read host port 443 rest true plain small stops) refl
