-- ===== src/RaledCommand/Refused.antt =====
-- A "PUT" of the daemon's clients: what raled_command.c makes of it, and dstore.c of that.
use rale.Base.{
  ℕ, zero, suc, ◌≤◌, ◌<◌, ◌≡◌, refl, Bool, true, false, ◌||◌, [], ◌∷◌, ◌++◌, none, some, ◌==◌, take,
  length, arith, take_all, length-append,
}
use rale.Text.{Bytes, codes, strchr, starts_with, strlcpy, str_eq}
use rale.Hash.{done}
use rale.StateFile.Words.{Lacks}
use rale.Dstore.{Dstore, Env}
use rale.Dstore.Commands.{dstore_put_from_command, plain_command, put_split}
use rale.RaledCommand.{
  Setting, put_reply, put_value, full_command, process_put_command, put_command, text_command,
  text_line, json_text, raled_process_command,
}
use rale.RaledCommand.Tokens.{is_blank, token_end, next_token, upper, skip_blanks}

abbrev is_equals : ℕ → Bool
is_equals c = c == 61

Lacks-append : (s t : Bytes) → Lacks is_equals s → Lacks is_equals t → Lacks is_equals (s ++ t)
Lacks-append [] t h k = k
Lacks-append (c ∷ s) t h k = (h.0, Lacks-append s t h.1 k)

Lacks-take : (n : ℕ) (s : Bytes) → Lacks is_equals s → Lacks is_equals (take n s)
Lacks-take zero s h = tt
Lacks-take (suc n) [] h = tt
Lacks-take (suc n) (c ∷ s) h = (h.0, Lacks-take n s h.1)

strchr-Lacks : (s : Bytes) → Lacks is_equals s → strchr 61 s ≡ none
unfolding strchr
strchr-Lacks [] h = refl
strchr-Lacks (c ∷ s) h = rw (h.0, strchr-Lacks s h.1, strchr)

put-refused :
    (env : Env) (text : Bytes) (d : Dstore)
    → Lacks is_equals text
    → dstore_put_from_command env (codes "PUT " ++ text) d ≡ done (d, [])
unfolding dstore_put_from_command plain_command put_split starts_with
put-refused env text d h = rw (strchr-Lacks text h) (ground arith)

full_command-lem :
    (key value : Bytes) → full_command key value ≡ codes "PUT " ++ take 507 (key ++ 32 ∷ value)
unfolding strlcpy
full_command-lem key value = refl

put_value-refused :
    (r : Setting) (key value : Bytes) (d : Dstore)
    → Lacks is_equals key
    → Lacks is_equals value
    → put_value r key value d ≡ done ((d, []), put_reply r value)
unfolding put_value
put_value-refused r key value d h k =
    rw
      (
        full_command-lem key value,
        put-refused r.env (take 507 (key ++ 32 ∷ value)) d
            (Lacks-take 507 (key ++ 32 ∷ value) (Lacks-append key (32 ∷ value) h (refl, k))),
      )
      refl

token_end-append :
    (w s : Bytes) (c : ℕ) → Lacks is_blank w → is_blank c ≡ true → token_end (w ++ c ∷ s) ≡ (w, s)
unfolding token_end
token_end-append [] s c h k = rw k refl
token_end-append (d ∷ w) s c h k = rw (h.0, token_end-append w s c h.1 k) refl

next_token-append :
    (d : ℕ) (w s : Bytes) (c : ℕ)
    → Lacks is_blank (d ∷ w)
    → is_blank c ≡ true
    → next_token ((d ∷ w) ++ c ∷ s) ≡ some (d ∷ w, s)
unfolding next_token
next_token-append d w s c h k = rw (h.0, token_end-append (d ∷ w) s c h k) refl

-- The line of a client.
abbrev pub put_line : Bytes → Bytes → Bytes
put_line key value = codes "PUT " ++ (key ++ 32 ∷ value)

put_line-token :
    (r : Setting) (s : Bytes)
    → text_line r (next_token (codes "PUT " ++ s)) ≡ put_command r (next_token s)
unfolding text_line next_token token_end upper text_command str_eq
put_line-token r s = refl

put_command-first :
    (r : Setting) (key v : Bytes) (c : ℕ)
    → (c == 32 || c == 9) ≡ false
    → put_command r (some (key, c ∷ v)) ≡ process_put_command r key (c ∷ v)
unfolding put_command skip_blanks
put_command-first r key v c h = rw h refl

put_fits :
    (r : Setting) (key value : Bytes) (d : Dstore)
    → length key ≤ 256
    → length value ≤ 1024
    → process_put_command r key value d ≡ put_value r key value d
unfolding process_put_command
put_fits r key value d h k = ground arith

line_read :
    (r : Setting) (text : Bytes) (d : Dstore)
    → 0 < r.response_size
    → 0 < length text
    → length text < 1024
    → r.parse text ≡ none
    → raled_process_command r text d ≡ text_line r (next_token text) d
unfolding raled_process_command json_text
line_read r text d room some_text short json =
    let has_room : (r.response_size == 0) ≡ false = ground (arith, room) in
    let is_text : (length text == 0) ≡ false = ground (arith, some_text) in
    rw (has_room, is_text, json, take_all 1023 text (omega (arith, short))) refl

value_short : (key value : Bytes) → length (put_line key value) < 1024 → length value ≤ 1024
value_short key value h = omega (arith, h, length-append key (32 ∷ value))

-- A line "PUT key value" that is no JSON text and shorter than 1,024 bytes, with a key of 1 to 256 bytes
-- without blanks and a value that does not start with a blank, neither of which has "=": the node is
-- left as it was, nothing is sent and nothing is stored, at the leader too. The reply is that of a
-- success, "OK: " and the value, if the buffer for errors, which nobody writes, happens to hold the
-- empty text, and an error with that buffer's text otherwise.
pub put_line-refused :
    (r : Setting) (k : ℕ) (key : Bytes) (c : ℕ) (value : Bytes) (d : Dstore)
    → 0 < r.response_size
    → r.parse (put_line (k ∷ key) (c ∷ value)) ≡ none
    → length (put_line (k ∷ key) (c ∷ value)) < 1024
    → length (k ∷ key) ≤ 256
    → Lacks is_blank (k ∷ key)
    → (c == 32 || c == 9) ≡ false
    → Lacks is_equals (k ∷ key)
    → Lacks is_equals (c ∷ value)
    → raled_process_command r (put_line (k ∷ key) (c ∷ value)) d
      ≡ done ((d, []), put_reply r (c ∷ value))
put_line-refused r k key c value d room json short fits plain first h l =
    rw
      (
        line_read r (put_line (k ∷ key) (c ∷ value)) d room (omega arith) short json,
        put_line-token r ((k ∷ key) ++ 32 ∷ c ∷ value),
        next_token-append k key (c ∷ value) 32 plain refl,
        put_command-first r (k ∷ key) value c first,
        put_fits r (k ∷ key) (c ∷ value) d fits (value_short (k ∷ key) (c ∷ value) short),
      )
      (put_value-refused r (k ∷ key) (c ∷ value) d h l)
