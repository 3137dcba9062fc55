-- ===== src/Http/Replies.antt =====
-- A response of a handler of raled_rest_api.c, as ralectrl_http_client.c reads it.
use rale.Base.{
  ℕ, ◌+◌, ◌-◌, ◌≤◌, ◌<◌, ◌^◌, ◌≡◌, refl, sym, ap, Bool, true, false, not, ◌&&◌, ◌||◌, List, [], ◌∷◌,
  ◌++◌, some, ltb, ◌==◌, length, arith, append_assoc, length-append, take_all, pos,
}
use rale.Text.{Bytes, codes, starts_with}
use rale.Text.Number.{decimal, digits, format_int}
use rale.StateFile.Reading.{Lacks-append, length-format_int-le}
use rale.Http.Search.{
  strstr, crlf, with_prefix, strstr_skip, with_prefix_nil, with_prefix-cons, decimal-Lacks,
}
use rale.Http.Server.{
  HttpStatus, unset, ok, created, accepted, no_content, bad_request, unauthorized, forbidden,
  not_found, method_not_allowed, conflict, internal_error, not_implemented, service_unavailable,
  HttpResponse, raled_http_generate_response, write_piece, write_headers, write_content_type,
  write_content_length, end_headers, write_body, status_code, status_text,
}
use rale.Http.Responses.{status_line}
use rale.Http.Lines.{lines_text, AreLines, is_break, are_lacking, Lacks-check}

-- The first text is not the start of the second, whatever follows that.
abbrev pub differs : Bytes → Bytes → Bool
differs [] s = false
differs (c ∷ p) [] = false
differs (c ∷ p) (d ∷ s) = not (c == d) || differs p s

-- The text is nowhere in the second, nor does it start there.
abbrev pub is_absent : Bytes → Bytes → Bool
is_absent p [] = true
is_absent p (c ∷ s) = differs p (c ∷ s) && is_absent p s

differs-starts_with : (p s t : Bytes) → differs p s ≡ true → starts_with p (s ++ t) ≡ false
unfolding starts_with
differs-starts_with [] s t h = cc
differs-starts_with (c ∷ p) [] t h = cc
differs-starts_with (c ∷ p) (d ∷ s) t h = ground (arith, differs-starts_with p s t)

pub strstr-absent :
    (p w t : Bytes) → is_absent p w ≡ true → strstr p (w ++ t) ≡ with_prefix w (strstr p t)
strstr-absent p [] t h = sym (with_prefix_nil (strstr p t))
strstr-absent p (c ∷ w) t h =
    rw
      (
        strstr_skip p c (w ++ t) (differs-starts_with p (c ∷ w) t (ground arith)),
        strstr-absent p w t (ground arith),
      )
      (with_prefix-cons c w (strstr p t))

abbrev pub response_lines : HttpStatus → ℕ → List Bytes
response_lines s n =
    (codes "HTTP/1.1 " ++ (decimal (status_code s) ++ 32 ∷ status_text s))
    ∷ codes "Content-Type: application/json"
    ∷ (codes "Content-Length: " ++ decimal n)
    ∷ []

pub first_lines_absent :
    (s : HttpStatus)
    → (is_absent
          (codes "Content-Length:")
          (status_line s ++ codes "Content-Type: application/json\r\n")
        ≡ true)
      × (is_absent (codes "Content-Type:") (status_line s) ≡ true)
      × (ltb (length (status_line s)) 60 ≡ true)
      × (are_lacking is_break (codes "HTTP/1.1 " ++ (decimal (status_code s) ++ 32 ∷ status_text s))
          ≡ true)
unfolding status_code status_text decimal digits
first_lines_absent unset = (refl, refl, refl, refl)
first_lines_absent ok = (refl, refl, refl, refl)
first_lines_absent created = (refl, refl, refl, refl)
first_lines_absent accepted = (refl, refl, refl, refl)
first_lines_absent no_content = (refl, refl, refl, refl)
first_lines_absent bad_request = (refl, refl, refl, refl)
first_lines_absent unauthorized = (refl, refl, refl, refl)
first_lines_absent forbidden = (refl, refl, refl, refl)
first_lines_absent not_found = (refl, refl, refl, refl)
first_lines_absent method_not_allowed = (refl, refl, refl, refl)
first_lines_absent conflict = (refl, refl, refl, refl)
first_lines_absent internal_error = (refl, refl, refl, refl)
first_lines_absent not_implemented = (refl, refl, refl, refl)
first_lines_absent service_unavailable = (refl, refl, refl, refl)

-- The text of a response with a body of `n` bytes, up to the body.
abbrev pub head_text : HttpStatus → ℕ → Bytes
head_text s n = lines_text (response_lines s n)

write_piece-fits :
    (size : ℕ) (piece text : Bytes)
    → length text + length piece < size
    → write_piece size piece text ≡ some (text ++ piece)
unfolding write_piece
write_piece-fits size piece text h = ground arith

end_headers-fits :
    (size : ℕ) (text : Bytes) → length text + 2 < size → end_headers size text ≡ some (text ++ crlf)
unfolding end_headers
end_headers-fits size text h = ground arith

length-decimal-le : (n : ℕ) → n < 2 ^ 31 → length (decimal n) ≤ 11
unfolding format_int
length-decimal-le n h = length-format_int-le (pos n) (omega arith)

abbrev pub type_line : Bytes
type_line = codes "Content-Type: application/json\r\n"

abbrev pub size_line : ℕ → Bytes
size_line n = codes "Content-Length: " ++ (decimal n ++ crlf)

head_text-lines :
    (s : HttpStatus) (n : ℕ) (body : Bytes)
    → (((status_line s ++ type_line) ++ size_line n) ++ crlf) ++ body
      ≡ head_text s n ++ 13 ∷ 10 ∷ body
head_text-lines s n body = simp append_assoc

pub generate-head_text :
    (r : HttpResponse) (c : ℕ) (body : Bytes)
    → r.headers ≡ []
    → r.content_type ≡ some (codes "application/json")
    → r.body ≡ some (c ∷ body)
    → length (c ∷ body) ≤ 8000
    → raled_http_generate_response r 8192
      ≡ some (head_text r.status (length (c ∷ body)) ++ 13 ∷ 10 ∷ c ∷ body)
unfolding raled_http_generate_response write_headers write_content_type write_content_length
    write_body
generate-head_text r c body no_headers typed has_body fits =
    let n = length (c ∷ body) in
    let first : length (status_line r.status) < 60 =
      ground (arith, (first_lines_absent r.status).2) in
    let number : length (decimal n) ≤ 11 = length-decimal-le n (omega arith) in
    let t1 = status_line r.status in
    let t2 = t1 ++ type_line in
    let t3 = t2 ++ size_line n in
    let l2 : length t2 ≤ 92 = omega (arith, first, length-append t1 type_line) in
    let l3 : length t3 ≤ 121 =
      omega (arith, number, l2, length-append t2 (size_line n), length-append (decimal n) crlf) in
    let l4 : length (t3 ++ crlf) ≤ 123 = omega (arith, l3, length-append t3 crlf) in
    rw
      (
        write_piece-fits 8192 t1 [] (omega (arith, first)),
        no_headers,
        typed,
        write_piece-fits 8192 type_line t1 (omega (arith, first)),
        has_body,
        write_piece-fits 8192 (size_line n) t2
            (omega (arith, number, l2, length-append (decimal n) crlf)),
        end_headers-fits 8192 t3 (omega (arith, l3)),
        take_all (8192 - length (t3 ++ crlf) - 1) (c ∷ body) (omega (arith, l4, fits)),
      )
      (ap some (head_text-lines r.status n (c ∷ body)))

pub head_text-AreLines : (s : HttpStatus) (n : ℕ) → AreLines (response_lines s n)
head_text-AreLines s n =
    let last : AreLines ((codes "Content-Length: " ++ decimal n) ∷ []) = (
      Lacks-append is_break (codes "Content-Length: ") (decimal n)
          (Lacks-check is_break (codes "Content-Length: ") refl)
          (decimal-Lacks is_break n (λ d e. ground arith)),
      tt,
    ) in
    (
      Lacks-check is_break (codes "HTTP/1.1 " ++ (decimal (status_code s) ++ 32 ∷ status_text s))
          (first_lines_absent s).3,
      (Lacks-check is_break (codes "Content-Type: application/json") refl, last),
    )
