-- ===== src/Http/Reading.antt =====
-- What the client of ralectrl_http_client.c makes of the text of a response.
use rale.Base.{
  ℕ, ◌+◌, ◌-◌, ◌≤◌, ◌<◌, ◌^◌, ◌≡◌, refl, sym, ap, ◌∙◌, true, false, [], ◌∷◌, ◌++◌, some, ltb, ◌==◌,
  drop, length, arith, append_assoc, append-nil, length-append, take_all, drop-append, pos, ℤ,
}
use rale.Text.{Bytes, codes, starts_with, c_string}
use rale.Text.Number.{decimal, atoi, is_space, is_digit}
use rale.Text.Number.RoundTrip.{scan_number_space}
use rale.Http.Rest.{written}
use rale.Http.Search.{strstr, crlf, is_zero, blank_line, with_prefix, strstr-here, strstr-append}
use rale.Http.Server.{
  HttpStatus, HttpResponse, raled_http_generate_response, status_code, status_text,
}
use rale.Http.Client.{
  parse_response, status_of, body_offset, header_value, skip_blanks_only, line_of, content_type_of,
  body_length_of, body_of,
}
use rale.Http.Responses.{status_line, status_of-status_line, atoi-decimal}
use rale.Http.Lines.{strstr-lines, c_string-lines, Lacks-check}
use rale.StateFile.Words.{Lacks}
use rale.Http.Replies.{
  head_text, response_lines, type_line, size_line, strstr-absent, first_lines_absent,
  head_text-AreLines, generate-head_text,
}

header_value-found :
    (name text w rest : Bytes) (start : ℕ)
    → strstr name text ≡ some (w, name ++ rest)
    → length w < start
    → header_value name text start ≡ some rest
unfolding header_value
header_value-found name text w rest start found h =
    let before : ltb (length w) start ≡ true = ground (arith, h) in
    rw (header_value, found, before, drop-append name rest)

-- A header behind lines without its name.
header_value-absent :
    (c : ℕ) (p w rest : Bytes) (start : ℕ)
    → strstr (c ∷ p) (w ++ ((c ∷ p) ++ rest)) ≡ with_prefix w (strstr (c ∷ p) ((c ∷ p) ++ rest))
    → starts_with (c ∷ p) ((c ∷ p) ++ rest) ≡ true
    → length w < start
    → header_value (c ∷ p) (w ++ ((c ∷ p) ++ rest)) start ≡ some rest
header_value-absent c p w rest start passed here h =
    header_value-found (c ∷ p) (w ++ ((c ∷ p) ++ rest)) w rest start
      (passed
        ∙ ap (with_prefix w) (strstr-here (c ∷ p) ((c ∷ p) ++ rest) here)
        ∙ ap (λ (v : Bytes). some (v, (c ∷ p) ++ rest)) (append-nil w))
      h

atoi-space : (n : ℕ) (t : Bytes) → n < 2 ^ 31 → atoi (32 ∷ (decimal n ++ 13 ∷ t)) ≡ pos n
unfolding atoi is_space is_digit
atoi-space n t h =
    rw (scan_number_space 32 (decimal n ++ 13 ∷ t) refl) (atoi-decimal n (13 ∷ t) h refl)

-- The length of the header and its blank line.
abbrev head_length : HttpStatus → ℕ → ℕ
head_length s n = length (head_text s n) + 2

body_offset-found :
    (text a u : Bytes) (size : ℕ)
    → strstr blank_line text ≡ some (a, u)
    → body_offset text size ≡ length a + 4
unfolding body_offset
body_offset-found text a u size found = rw (body_offset, found)

-- The text as far as the client's functions on strings read it.
reply_text : HttpStatus → ℕ → Bytes → Bytes
reply_text s n cb = head_text s n ++ 13 ∷ 10 ∷ cb

module _ (s : HttpStatus) (n : ℕ) (cb : Bytes) where
  reply_text-body_offset : (size : ℕ) → body_offset (reply_text s n cb) size ≡ head_length s n
  unfolding reply_text
  reply_text-body_offset size =
      let (a, found, whole) =
        strstr-lines 72
          (drop 1 (codes "HTTP/1.1 " ++ (decimal (status_code s) ++ 32 ∷ status_text s)))
          (drop 1 (response_lines s n)) cb (head_text-AreLines s n) in
      let ends : length a + 2 ≡ length (head_text s n) =
        sym (length-append a crlf) ∙ ap (λ (x : Bytes). length x) whole in
      body_offset-found (reply_text s n cb) a (13 ∷ 10 ∷ 13 ∷ 10 ∷ cb) size found
      ∙ omega (arith, ends)

  reply_text-size :
      reply_text s n cb
      ≡ (status_line s ++ type_line)
        ++ (codes "Content-Length:" ++ 32 ∷ (decimal n ++ 13 ∷ 10 ∷ 13 ∷ 10 ∷ cb))
  unfolding reply_text
  reply_text-size = simp append_assoc

  reply_text-type :
      reply_text s n cb
      ≡ status_line s
        ++ (codes "Content-Type:"
            ++ (codes " application/json" ++ 13 ∷ 10 ∷ (size_line n ++ 13 ∷ 10 ∷ cb)))
  unfolding reply_text
  reply_text-type = simp append_assoc

  head_text-parts : head_text s n ≡ (status_line s ++ type_line) ++ size_line n
  head_text-parts = simp append_assoc

  lengths :
      (length (status_line s) < head_length s n)
      × (length (status_line s ++ type_line) < head_length s n)
  lengths =
      let front = status_line s ++ type_line in
      let parts : length (head_text s n) ≡ length (front ++ size_line n) =
        ap (λ (x : Bytes). length x) head_text-parts in
      (
        omega (
          arith,
          parts,
          length-append front (size_line n),
          length-append (status_line s) type_line,
        ),
        omega (arith, parts, length-append front (size_line n)),
      )

  content_length-read :
      header_value (codes "Content-Length:") (reply_text s n cb) (head_length s n)
      ≡ some (32 ∷ (decimal n ++ 13 ∷ 10 ∷ 13 ∷ 10 ∷ cb))
  unfolding starts_with
  content_length-read =
      let rest = 32 ∷ (decimal n ++ 13 ∷ 10 ∷ 13 ∷ 10 ∷ cb) in
      let name = codes "Content-Length:" in
      rw reply_text-size (
        header_value-absent 67 (drop 1 name) (status_line s ++ type_line) rest (head_length s n)
          (strstr-absent name (status_line s ++ type_line) (name ++ rest) (first_lines_absent s).0)
          refl lengths.1)

  content_type-read :
      header_value (codes "Content-Type:") (reply_text s n cb) (head_length s n)
      ≡ some (codes " application/json" ++ 13 ∷ 10 ∷ (size_line n ++ 13 ∷ 10 ∷ cb))
  unfolding starts_with
  content_type-read =
      let rest = codes " application/json" ++ 13 ∷ 10 ∷ (size_line n ++ 13 ∷ 10 ∷ cb) in
      let name = codes "Content-Type:" in
      rw reply_text-type (
        header_value-absent 67 (drop 1 name) (status_line s) rest (head_length s n)
          (strstr-absent name (status_line s) (name ++ rest) (first_lines_absent s).1) refl
          lengths.0)

line_of-found : (w t : Bytes) → Lacks (λ c. c == 13) w → line_of (w ++ 13 ∷ 10 ∷ t) ≡ some w
unfolding line_of starts_with
line_of-found w t h =
    rw
      (
        strstr-append 13 (10 ∷ []) w (13 ∷ 10 ∷ t) h,
        strstr-here crlf (13 ∷ 10 ∷ t) refl,
        append-nil,
      )
      refl

content_type_of-json :
    (t : Bytes)
    → content_type_of true (some (codes " application/json" ++ 13 ∷ 10 ∷ t))
      ≡ some (codes "application/json")
unfolding content_type_of skip_blanks_only
content_type_of-json t =
    line_of-found (codes "application/json") t
      (Lacks-check (λ c. c == 13) (codes "application/json") refl)

body_of-found :
    (h body : Bytes) (n : ℕ)
    → 0 < length body
    → n ≡ length body
    → body_of true (h ++ body) (length h) (pos n) ≡ some body
unfolding body_of body_length_of
body_of-found h body n some_body e =
    let rest : length (h ++ body) - length h ≡ length body = omega (arith, length-append h body) in
    let inside : ltb (length h) (length (h ++ body)) ≡ true =
      ground (arith, length-append h body, some_body) in
    let whole : ltb n (length body) ≡ false = ground (arith, e) in
    let positive : ltb 0 n ≡ true = ground (arith, e, some_body) in
    rw (inside, rest, whole, positive, drop-append h body)
      (ap some (take_all (length body) body (omega arith)))

c_string_whole : (s : Bytes) → Lacks is_zero s → c_string s ≡ s
unfolding c_string
c_string_whole [] h = refl
c_string_whole (c ∷ s) h = rw (h.0, c_string_whole s h.1) refl

reply_text-plain :
    (s : HttpStatus) (n : ℕ) (cb : Bytes)
    → Lacks is_zero cb
    → c_string (reply_text s n cb) ≡ reply_text s n cb
unfolding reply_text c_string
reply_text-plain s n cb h =
    c_string-lines (response_lines s n) (13 ∷ 10 ∷ cb) (head_text-AreLines s n)
    ∙ ap (λ (x : Bytes). head_text s n ++ 13 ∷ 10 ∷ x) (c_string_whole cb h)

reply_text-body :
    (s : HttpStatus) (n : ℕ) (body : Bytes)
    → 0 < length body
    → n ≡ length body
    → body_of true (reply_text s n body) (head_length s n) (pos n) ≡ some body
unfolding reply_text
reply_text-body s n body h e =
    let front = head_text s n ++ crlf in
    let size : length front ≡ head_length s n = length-append (head_text s n) crlf in
    ap (λ (x : Bytes). body_of true x (head_length s n) (pos n))
      (sym (append_assoc (head_text s n) crlf body))
    ∙ ap (λ (k : ℕ). body_of true (front ++ body) k (pos n)) (sym size)
    ∙ body_of-found front body n h e

parse_response-parts :
    (raw : Bytes) (code : ℤ) (body : Bytes) (start n : ℕ) (v w t : Bytes)
    → c_string raw ≡ raw
    → status_of raw ≡ code
    → body_offset raw (length raw) ≡ start
    → header_value (codes "Content-Length:") raw start ≡ some v
    → atoi v ≡ pos n
    → header_value (codes "Content-Type:") raw start ≡ some w
    → content_type_of true (some w) ≡ some t
    → body_of true raw start (pos n) ≡ some body
    → parse_response true raw
      ≡ record { status_code = code; body = some body; content_type = some t }
unfolding parse_response
parse_response-parts raw code body start n v w t plain status offset size number type typed found =
    rw (plain, status, offset, size, number, type, typed, found) refl

-- A response that has no extra header, as the handlers leave it, with a JSON body of 1 to 8,000 bytes
-- without a zero byte: the text that the server sends is read by the client as the same status, the same
-- body and the content type of JSON, whatever the body is.
pub parse_response-generate_response :
    (r : HttpResponse) (c : ℕ) (body : Bytes)
    → r.headers ≡ []
    → r.content_type ≡ some (codes "application/json")
    → r.body ≡ some (c ∷ body)
    → length (c ∷ body) ≤ 8000
    → Lacks is_zero (c ∷ body)
    → (text : Bytes) × (written (raled_http_generate_response r 8192) ≡ some text)
      × (parse_response true text ≡ record {
        status_code = pos (status_code r.status);
        body = some (c ∷ body);
        content_type = some (codes "application/json");
      })
parse_response-generate_response r c body no_headers typed has_body fits plain =
    let n = length (c ∷ body) in
    let text = reply_text r.status n (c ∷ body) in
    let parts = reply_text-type r.status n (c ∷ body) in
    let u : Bytes =
      codes "Content-Type:"
      ++ (codes " application/json" ++ 13 ∷ 10 ∷ (size_line n ++ 13 ∷ 10 ∷ c ∷ body)) in
    let whole = reply_text-plain r.status n (c ∷ body) plain in
    (
      text,
      rw (generate-head_text r c body no_headers typed has_body fits)
          (ap some (unfold reply_text in whole)),
      parse_response-parts text (pos (status_code r.status)) (c ∷ body) (head_length r.status n) n
          (32 ∷ (decimal n ++ 13 ∷ 10 ∷ 13 ∷ 10 ∷ c ∷ body))
          (codes " application/json" ++ 13 ∷ 10 ∷ (size_line n ++ 13 ∷ 10 ∷ c ∷ body))
          (codes "application/json") whole
          (sym (ap status_of whole)
            ∙ ap (λ (x : Bytes). status_of (c_string x)) parts
            ∙ status_of-status_line r.status u)
          (reply_text-body_offset r.status n (c ∷ body) (length text))
          (content_length-read r.status n (c ∷ body))
          (atoi-space n (10 ∷ 13 ∷ 10 ∷ c ∷ body) (omega arith))
          (content_type-read r.status n (c ∷ body))
          (content_type_of-json (size_line n ++ 13 ∷ 10 ∷ c ∷ body))
          (reply_text-body r.status n (c ∷ body) (omega arith) refl),
    )
