-- ===== src/Http/Requests.antt =====
-- The text of a request: what ralectrl_http_client.c sends, raled_rest_api.c reads.
use rale.Base.{
  ℕ, ◌≡◌, refl, ap, ◌∙◌, Bool, true, false, ◌||◌, List, [], ◌∷◌, ◌++◌, Option, none, some, ltb,
  ◌==◌, length, arith, append_assoc, append-nil,
}
use rale.Text.{Bytes, codes, strchr, starts_with, str_eq, c_string}
use rale.Text.Number.{decimal}
use rale.StateFile.Words.{Lacks, strchr-append}
use rale.StateFile.Reading.{Lacks-append}
use rale.Http.Search.{crlf, strstr-append, strstr-here, c_string-append, decimal-Lacks}
use rale.Http.Server.{
  HttpMethod, get, post, put, delete, options, head, raled_http_parse_request, request_line,
  parse_method, split_query, request_body,
}
use rale.Http.Client.{request_text, length_line, or_empty}
use rale.Http.Lines.{
  is_break, lines_text, AreLines, Lacks-cr, Lacks-zero, c_string-line, request_body-first,
  are_lacking, Lacks-check,
}

unfoldable pub method_name : HttpMethod → Bytes
method_name get = codes "GET"
method_name post = codes "POST"
method_name put = codes "PUT"
method_name delete = codes "DELETE"
method_name options = codes "OPTIONS"
method_name head = codes "HEAD"

abbrev pub is_target_end : ℕ → Bool
is_target_end c = c == 32 || (c == 63 || is_break c)

abbrev pub first_line : HttpMethod → Bytes → Bytes
first_line m path = method_name m ++ 32 ∷ (path ++ codes " HTTP/1.1")

-- The lines of a request but its headers.
abbrev length_lines : Bytes → List Bytes
length_lines [] = []
length_lines (c ∷ s) = (codes "Content-Length: " ++ decimal (length (c ∷ s))) ∷ []

abbrev request_lines : HttpMethod → Bytes → Bytes → Bytes → List Bytes → List Bytes
request_lines m path host body headers =
    first_line m path
    ∷ (codes "Host: " ++ host)
    ∷ (length_lines body ++ codes "Connection: close" ∷ headers)

length_line-lines :
    (body : Bytes) (ls : List Bytes)
    → lines_text (length_lines body ++ ls) ≡ length_line body ++ lines_text ls
length_line-lines [] ls = refl
length_line-lines (c ∷ s) ls = simp append_assoc

request_text-lines :
    (m : HttpMethod) (path host : Bytes) (headers : List Bytes) (body : Option Bytes)
    → request_text (method_name m) path host (lines_text headers) body
      ≡ lines_text (request_lines m path host (or_empty body) headers) ++ 13 ∷ 10 ∷ or_empty body
unfolding request_text
request_text-lines m path host headers body =
    simp (length_line-lines (or_empty body) (codes "Connection: close" ∷ headers), append_assoc)

Lacks-target :
    (sep : ℕ → Bool) (s : Bytes)
    → ((c : ℕ) → is_target_end c ≡ false → sep c ≡ false)
    → Lacks is_target_end s
    → Lacks sep s
Lacks-target sep [] h k = tt
Lacks-target sep (c ∷ s) h k = (h c k.0, Lacks-target sep s h k.1)

strchr-Lacks : (c : ℕ) (s : Bytes) → Lacks (λ d. d == c) s → strchr c s ≡ none
unfolding strchr
strchr-Lacks c [] h = refl
strchr-Lacks c (d ∷ s) h = rw (h.0, strchr-Lacks c s h.1, strchr)

method_name-plain :
    (m : HttpMethod)
    → (are_lacking (λ d. d == 32) (method_name m) ≡ true)
      × (are_lacking is_break (method_name m) ≡ true)
      × (ltb (length (method_name m)) 16 ≡ true)
      × (parse_method (method_name m) ≡ some m)
unfolding method_name parse_method str_eq
method_name-plain get = (refl, refl, refl, refl)
method_name-plain post = (refl, refl, refl, refl)
method_name-plain put = (refl, refl, refl, refl)
method_name-plain delete = (refl, refl, refl, refl)
method_name-plain options = (refl, refl, refl, refl)
method_name-plain head = (refl, refl, refl, refl)

method_name-cons : (m : HttpMethod) → (c : ℕ) × (l : Bytes) × (method_name m ≡ c ∷ l)
unfolding method_name
method_name-cons get = (_, _, refl)
method_name-cons post = (_, _, refl)
method_name-cons put = (_, _, refl)
method_name-cons delete = (_, _, refl)
method_name-cons options = (_, _, refl)
method_name-cons head = (_, _, refl)

module _ (m : HttpMethod) (path : Bytes) (plain : Lacks is_target_end path) where
  path-Lacks : Lacks is_break path
  path-Lacks = Lacks-target is_break path (λ c h. ground arith) plain

  first_line-Lacks : Lacks is_break (first_line m path)
  first_line-Lacks =
      Lacks-append is_break (method_name m) (32 ∷ (path ++ codes " HTTP/1.1"))
        (Lacks-check is_break (method_name m) (method_name-plain m).1)
        (
          refl,
          Lacks-append is_break path (codes " HTTP/1.1") path-Lacks
              (Lacks-check is_break (codes " HTTP/1.1") refl),
        )

  request_line-found :
      (t : Bytes) → request_line (first_line m path ++ 13 ∷ 10 ∷ t) ≡ some (first_line m path)
  unfolding request_line starts_with
  request_line-found t =
      rw
        (
          strstr-append 13 (10 ∷ []) (first_line m path) (13 ∷ 10 ∷ t)
              (Lacks-cr (first_line m path) first_line-Lacks),
          strstr-here crlf (13 ∷ 10 ∷ t) refl,
          append-nil,
        )
        refl

  first_space : strchr 32 (first_line m path) ≡ some (method_name m, path ++ codes " HTTP/1.1")
  first_space =
      strchr-append 32 (method_name m) (path ++ codes " HTTP/1.1")
        (Lacks-check (λ d. d == 32) (method_name m) (method_name-plain m).0)

  second_space : strchr 32 (path ++ codes " HTTP/1.1") ≡ some (path, codes "HTTP/1.1")
  second_space =
      strchr-append 32 path (codes "HTTP/1.1")
        (Lacks-target (λ d. d == 32) path (λ c h. ground arith) plain)

  split_query-path : split_query true path ≡ (path, none)
  unfolding split_query
  split_query-path = rw (
    split_query,
    strchr-Lacks 63 path (Lacks-target (λ d. d == 63) path (λ c h. ground arith) plain),
  )

  length_lines-AreLines :
      (body : Bytes) (ls : List Bytes) → AreLines ls → AreLines (length_lines body ++ ls)
  length_lines-AreLines [] ls h = h
  length_lines-AreLines (c ∷ s) ls h = (
    Lacks-append is_break (codes "Content-Length: ") (decimal (length (c ∷ s)))
        (Lacks-check is_break (codes "Content-Length: ") refl)
        (decimal-Lacks is_break (length (c ∷ s)) (λ d e. ground arith)),
    h,
  )

  body-found :
      (host : Bytes) (headers : List Bytes) (body : Bytes)
      → Lacks is_break host
      → AreLines headers
      → request_body true (lines_text (request_lines m path host body headers) ++ 13 ∷ 10 ∷ body)
        ≡ some (13 ∷ 10 ∷ body)
  body-found host headers body h k =
      let (c, l, e) = method_name-cons m in
      let rest =
        (codes "Host: " ++ host) ∷ (length_lines body ++ codes "Connection: close" ∷ headers) in
      let lines : AreLines rest = (
        Lacks-append is_break (codes "Host: ") host (Lacks-check is_break (codes "Host: ") refl) h,
        length_lines-AreLines body (codes "Connection: close" ∷ headers)
            (Lacks-check is_break (codes "Connection: close") refl, k),
      ) in
      request_body-first (first_line m path) c (l ++ 32 ∷ (path ++ codes " HTTP/1.1")) rest body
        (rw e refl) first_line-Lacks lines

  parse-found :
      (raw : Bytes) (b : Option Bytes)
      → request_line (c_string raw) ≡ some (first_line m path)
      → request_body true raw ≡ b
      → raled_http_parse_request true raw
        ≡ some (record { method = m; path = path; query_string = none; headers = []; body = b })
  unfolding raled_http_parse_request
  parse-found raw b line found =
      rw
        (
          line,
          first_space,
          (method_name-plain m).2,
          (method_name-plain m).3,
          second_space,
          split_query-path,
          found,
        )
        refl

  -- Only the request line matters for the method and the path.
  pub parse-first_line :
      (t : Bytes)
      → raled_http_parse_request true (first_line m path ++ 13 ∷ 10 ∷ t)
        ≡ some (record {
          method = m;
          path = path;
          query_string = none;
          headers = [];
          body = request_body true (first_line m path ++ 13 ∷ 10 ∷ t);
        })
  unfolding c_string
  parse-first_line t =
      parse-found (first_line m path ++ 13 ∷ 10 ∷ t) _
        (ap request_line (
            c_string-append (first_line m path) (13 ∷ 10 ∷ t)
              (Lacks-zero (first_line m path) first_line-Lacks))
          ∙ request_line-found (c_string t))
        refl

-- A request as the client writes it, of any method that the server knows, with a path that has no
-- space, "?", carriage return or zero byte, a host without the latter two, and header lines that are not
-- empty and have none of these: the server reads the method and the path, but no header, and for the
-- body it takes the carriage return and line feed that end the header, and then the body that was sent,
-- also where none was sent.
pub parse_request-request_text :
    (m : HttpMethod) (path host : Bytes) (headers : List Bytes) (body : Option Bytes)
    → Lacks is_target_end path
    → Lacks is_break host
    → AreLines headers
    → raled_http_parse_request true
        (request_text (method_name m) path host (lines_text headers) body)
      ≡ some (record {
        method = m;
        path = path;
        query_string = none;
        headers = [];
        body = some (13 ∷ 10 ∷ or_empty body);
      })
parse_request-request_text m path host headers body plain h k =
    let b = or_empty body in
    let w = first_line m path in
    let rest = (codes "Host: " ++ host) ∷ (length_lines b ++ codes "Connection: close" ∷ headers) in
    rw (request_text-lines m path host headers body) (
      parse-found m path plain (lines_text (w ∷ rest) ++ 13 ∷ 10 ∷ b) (some (13 ∷ 10 ∷ b))
        (ap request_line (
            c_string-line w (lines_text rest) (13 ∷ 10 ∷ b)
              (Lacks-zero w (first_line-Lacks m path plain)))
          ∙ request_line-found m path plain (c_string (lines_text rest ++ 13 ∷ 10 ∷ b)))
        (body-found m path plain host headers b h k))
