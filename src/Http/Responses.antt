-- ===== src/Http/Responses.antt =====
-- The text of a response: raled_http_generate_response, and what ralectrl_http_client.c reads in it.
use rale.Base.{
  ℕ, ◌+◌, ◌-◌, ◌<◌, ◌^◌, ◌≡◌, refl, false, List, [], ◌∷◌, ◌++◌, Option, none, some, ltb, leb, take,
  length, arith, append_assoc, append-nil, Bool-cases, inl, inr, pos,
}
use rale.Text.{Bytes, codes, strchr, starts_with, c_string}
use rale.Text.Number.{decimal, atoi, format_int, is_digit}
use rale.Text.Number.RoundTrip.{Stops, atoi-format_int}
use rale.Http.Search.{crlf, is_zero, c_string-append, decimal-Lacks}
use rale.Http.Server.{
  ◌>>=◌, HttpStatus, unset, ok, created, accepted, no_content, bad_request, unauthorized, forbidden,
  not_found, method_not_allowed, conflict, internal_error, not_implemented, service_unavailable,
  HttpResponse, raled_http_generate_response, write_piece, write_headers, write_content_type,
  write_content_length, end_headers, write_body, status_code, status_text,
}
use rale.Http.Client.{status_of}

-- What is written so far stays in front.
abbrev pub Extends : Bytes → Option Bytes → Type 0
Extends text none = Unit
Extends text (some t) = (u : Bytes) × (t ≡ text ++ u)

Extends-some : (text : Bytes) → Extends text (some text)
Extends-some text = ([], rw append-nil refl)

Extends->>= :
    (text : Bytes) (m : Option Bytes) (f : Bytes → Option Bytes)
    → Extends text m
    → ((t : Bytes) → Extends t (f t))
    → Extends text (m >>= f)
Extends->>= text none f h k = tt
Extends->>= text (some t) f (u, e) k = longer text u t (f t) e (k t)
  where
    longer : (text u t : Bytes) (o : Option Bytes) → t ≡ text ++ u → Extends t o → Extends text o
    longer text u t none e h = tt
    longer text u t (some s) e (v, d) = (u ++ v, rw (d, e) (append_assoc text u v))

write_piece-Extends : (size : ℕ) (piece text : Bytes) → Extends text (write_piece size piece text)
unfolding write_piece
write_piece-Extends size piece text = elim (Bool-cases (leb (size - length text) (length piece))) [
  | inl full ↦ rw full tt
  | inr room ↦ rw room (piece, refl)
]

write_headers-Extends :
    (size : ℕ) (hs : List (Bytes × Bytes)) (text : Bytes)
    → Extends text (write_headers size hs text)
unfolding write_headers
write_headers-Extends size [] text = Extends-some text
write_headers-Extends size ((k, v) ∷ hs) text =
    Extends->>= text (write_piece size (k ++ (codes ": " ++ (v ++ crlf))) text)
      (write_headers size hs) (write_piece-Extends size _ text) (write_headers-Extends size hs)

write_content_type-Extends :
    (size : ℕ) (t : Option Bytes) (text : Bytes) → Extends text (write_content_type size t text)
unfolding write_content_type
write_content_type-Extends size none text = Extends-some text
write_content_type-Extends size (some t) text = write_piece-Extends size _ text

write_content_length-Extends :
    (size : ℕ) (body : Option Bytes) (text : Bytes)
    → Extends text (write_content_length size body text)
unfolding write_content_length
write_content_length-Extends size none text = Extends-some text
write_content_length-Extends size (some []) text = Extends-some text
write_content_length-Extends size (some (c ∷ s)) text = write_piece-Extends size _ text

end_headers-Extends : (size : ℕ) (text : Bytes) → Extends text (end_headers size text)
unfolding end_headers
end_headers-Extends size text = elim (Bool-cases (ltb (length text + 2) size)) [
  | inl room ↦ rw room (crlf, refl)
  | inr full ↦ rw full tt
]

write_body-Extends :
    (size : ℕ) (body : Option Bytes) (text : Bytes)
    → Extends text (some (write_body size body text))
unfolding write_body
write_body-Extends size none text = Extends-some text
write_body-Extends size (some body) text = (take (size - length text - 1) body, refl)

abbrev pub status_line : HttpStatus → Bytes
status_line s = codes "HTTP/1.1 " ++ (decimal (status_code s) ++ 32 ∷ (status_text s ++ crlf))

first_piece :
    (size : ℕ) (piece : Bytes) (f : Bytes → Option Bytes)
    → ((t : Bytes) → Extends t (f t))
    → Extends piece (write_piece size piece [] >>= f)
unfolding write_piece
first_piece size piece f h = elim (Bool-cases (leb (size - 0) (length piece))) [
  | inl full ↦ rw full tt
  | inr room ↦ rw room (h piece)
]

-- A response starts with its status line.
pub generate_response-Extends :
    (r : HttpResponse) (size : ℕ)
    → Extends (status_line r.status) (raled_http_generate_response r size)
unfolding raled_http_generate_response
generate_response-Extends r size = elim (Bool-cases (ltb 0 size)) [
  | inr none_at_all ↦ rw none_at_all tt
  | inl room ↦ rw room (
      first_piece size (status_line r.status) _ λ line.
        Extends->>= line (write_headers size r.headers line) _
          (write_headers-Extends size r.headers line)
          λ headers.
            Extends->>= headers (write_content_type size r.content_type headers) _
              (write_content_type-Extends size r.content_type headers)
              λ typed.
                Extends->>= typed (write_content_length size r.body typed) _
                  (write_content_length-Extends size r.body typed)
                  λ sized.
                    Extends->>= sized (end_headers size sized) _ (end_headers-Extends size sized)
                      (write_body-Extends size r.body))
]

status_code-IsInt : (s : HttpStatus) → status_code s < 1000
unfolding status_code
status_code-IsInt unset = omega arith
status_code-IsInt ok = omega arith
status_code-IsInt created = omega arith
status_code-IsInt accepted = omega arith
status_code-IsInt no_content = omega arith
status_code-IsInt bad_request = omega arith
status_code-IsInt unauthorized = omega arith
status_code-IsInt forbidden = omega arith
status_code-IsInt not_found = omega arith
status_code-IsInt method_not_allowed = omega arith
status_code-IsInt conflict = omega arith
status_code-IsInt internal_error = omega arith
status_code-IsInt not_implemented = omega arith
status_code-IsInt service_unavailable = omega arith

digit_not_zero : (d : ℕ) → d < 10 → is_zero (48 + d) ≡ false
digit_not_zero d h = ground arith

Stops-other : (c : ℕ) (s : Bytes) → is_digit c ≡ false → Stops (c ∷ s)
Stops-other c s h = h

pub atoi-decimal : (n : ℕ) (r : Bytes) → n < 2 ^ 31 → Stops r → atoi (decimal n ++ r) ≡ pos n
unfolding format_int
atoi-decimal n r h stops = atoi-format_int (pos n) r (omega arith) stops

-- A number in the middle of a text.
c_string-decimal : (n : ℕ) (t : Bytes) → c_string (decimal n ++ t) ≡ decimal n ++ c_string t
c_string-decimal n t = c_string-append (decimal n) t (decimal-Lacks is_zero n digit_not_zero)

-- The client reads the status of a response that has come whole, whatever follows the status line.
pub status_of-status_line :
    (s : HttpStatus) (u : Bytes) → status_of (c_string (status_line s ++ u)) ≡ pos (status_code s)
unfolding status_of c_string starts_with strchr is_digit
status_of-status_line s u =
    let n = status_code s in
    rw
      (
        append_assoc (decimal n) (32 ∷ (status_text s ++ crlf)) u,
        c_string-decimal n (32 ∷ ((status_text s ++ crlf) ++ u)),
      )
      (atoi-decimal n (32 ∷ c_string ((status_text s ++ crlf) ++ u))
        (omega (arith, status_code-IsInt s)) refl)
