-- ===== src/RaledCommand/Replies.antt =====
-- What every command of raled_command.c comes to at a node without connections to its peers.
use rale.Base.{
  ℕ, zero, suc, ◌-◌, ◌<◌, ◌≡◌, refl, Bool, true, false, List, [], ◌∷◌, ◌++◌, Option, none, some,
  if◌then◌else◌, leb, ltb, ◌==◌, ◌||◌, ◌+◌, Bool-cases, inl, inr, ℤ, arith, length, length-take,
  length-append, Bool-cases, take,
}
use rale.Text.{Bytes, strlcpy}
use rale.Hash.{Outcome, done}
use rale.Db.Sound.{db_get-IsSound}
use rale.Dstore.{Dstore, Output}
use rale.Dstore.Silence.{IsIsolated, AreToSockets}
use rale.Dstore.Events.{IsSilent-command}
use rale.RaledCommand.{
  Status, Reply, Setting, Handler, reply, answer, fail, get_reply, get_value, process_get_command,
  put_reply, put_value, process_put_command, list_entry, list_nodes, close_list,
  process_list_command, process_status_command, process_stop_command, process_add_command,
  process_remove_command, get_command, put_command, text_command, text_line, json_get, json_put,
  json_command, json_text, raled_process_command, full_command,
}
use rale.RaledCommand.Tokens.{skip_blanks}

-- The call returns with a reply that its buffer holds, leaves the store isolated, and has sent to no
-- node.
pub record Answers (size : ℕ) (r : Outcome ((Dstore × List Output) × Reply)) : Type 0 where
  pub after : Dstore
  pub sent : List Output
  pub said : Reply
  pub returns : r ≡ done ((after, sent), said)
  pub isolated : IsIsolated after
  pub sockets : AreToSockets sent
  pub fits : length said.response < size

module _ (r : Setting) (room : 0 < r.response_size) where
  abbrev IsAnswered : Handler → Type 0
  IsAnswered h = (d : Dstore) → IsIsolated d → Answers r.response_size (h d)

  length-strlcpy : (s : Bytes) → length (strlcpy s r.response_size) < r.response_size
  unfolding strlcpy
  length-strlcpy s = omega (arith, room, length-take (r.response_size - 1) s)

  IsAnswered-answer : (a : Reply) → length a.response < r.response_size → IsAnswered (answer a)
  IsAnswered-answer a h d iso = record {
    after = d;
    sent = [];
    said = a;
    returns = refl;
    isolated = iso;
    sockets = tt;
    fits = h;
  }

  IsAnswered-reply : (status : Status) (text : Bytes) → IsAnswered (answer (reply r status text))
  IsAnswered-reply status text = IsAnswered-answer (reply r status text) (length-strlcpy text)

  IsAnswered-fail : (text : Bytes) → IsAnswered (fail r text)
  IsAnswered-fail text = IsAnswered-reply _ _

  IsAnswered-if :
      (c : Bool) (a b : Handler) → IsAnswered a → IsAnswered b → IsAnswered (if c then a else b)
  IsAnswered-if true a b ha hb = ha
  IsAnswered-if false a b ha hb = hb

  get_reply-fits : (value : Option Bytes) → length (get_reply r value).response < r.response_size
  get_reply-fits none = length-strlcpy _
  get_reply-fits (some value) = length-strlcpy _

  put_reply-fits : (value : Bytes) → length (put_reply r value).response < r.response_size
  put_reply-fits value = elim (Bool-cases (ltb 0 (length r.errbuf))) [
    | inl e ↦ rw e (length-strlcpy _)
    | inr e ↦ rw e (length-strlcpy _)
  ]

  IsAnswered-get_value : (key : Bytes) → IsAnswered (get_value r key)
  unfolding get_value
  IsAnswered-get_value key d h =
      let (b, value, run, sound) = db_get-IsSound d.db key 1023 h.table in
      record {
        after = record d { db = b };
        sent = [];
        said = get_reply r value;
        returns = rw run refl;
        isolated = record { no_clients = h.no_clients; table = sound };
        sockets = tt;
        fits = get_reply-fits value;
      }

  IsAnswered-get : (key : Bytes) → IsAnswered (process_get_command r key)
  unfolding process_get_command
  IsAnswered-get key = IsAnswered-if _ _ _ (IsAnswered-fail _) (IsAnswered-get_value key)

  IsAnswered-put_value : (key value : Bytes) → IsAnswered (put_value r key value)
  unfolding put_value
  IsAnswered-put_value key value d h =
      let k = IsSilent-command r.env (full_command key value) d h in
      record {
        after = k.after;
        sent = k.sent;
        said = put_reply r value;
        returns = rw k.returns refl;
        isolated = k.isolated;
        sockets = k.sockets;
        fits = put_reply-fits value;
      }

  IsAnswered-put : (key value : Bytes) → IsAnswered (process_put_command r key value)
  unfolding process_put_command
  IsAnswered-put key value = search (IsAnswered-if, IsAnswered-fail, IsAnswered-put_value)

  list_nodes-fits :
      (role : Bytes) (self : ℤ) (n i : ℕ) (text : Bytes)
      → length text < r.response_size
      → length (list_nodes r.response_size role self n i text).0 < r.response_size
  unfolding list_nodes strlcpy
  list_nodes-fits role self zero i text h = h
  list_nodes-fits role self (suc n) i text h =
      let entry = list_entry role self (length text) i in
      let room = r.response_size - length text in
      elim (Bool-cases (leb room (length entry))) [
        | inl e ↦ rw e (
            omega
              (arith, h, length-append text (take (room - 1) entry), length-take (room - 1) entry))
        | inr e ↦ rw e (
            list_nodes-fits role self n (suc i) (text ++ entry)
              (ground (arith, e, h, length-append text entry)))
      ]

  close_list-fits :
      (list : Bytes × ℕ)
      → length list.0 < r.response_size
      → length (close_list r.response_size list) < r.response_size
  unfolding close_list
  close_list-fits list h =
      elim (Bool-cases (r.response_size == 1 || ltb (list.1 + 2) r.response_size)) [
        | inl e ↦ rw e (length-strlcpy _)
        | inr e ↦ rw e h
      ]

  IsAnswered-list : IsAnswered (process_list_command r)
  unfolding process_list_command
  IsAnswered-list d =
      IsAnswered-answer _ (close_list-fits _ (list_nodes-fits _ _ _ _ _ (length-strlcpy _))) d

  IsAnswered-status : IsAnswered (process_status_command r)
  unfolding process_status_command
  IsAnswered-status d = IsAnswered-reply _ _ d

  IsAnswered-get_command : (t : Option (Bytes × Bytes)) → IsAnswered (get_command r t)
  unfolding get_command
  IsAnswered-get_command none = IsAnswered-fail _
  IsAnswered-get_command (some (key, rest)) = IsAnswered-get key

  IsAnswered-put_command : (t : Option (Bytes × Bytes)) → IsAnswered (put_command r t)
  unfolding put_command
  IsAnswered-put_command none = IsAnswered-fail _
  IsAnswered-put_command (some (key, [])) = IsAnswered-fail _
  IsAnswered-put_command (some (key, c ∷ s)) = IsAnswered-put key (skip_blanks (c ∷ s))

  IsAnswered-text : (token rest : Bytes) → IsAnswered (text_command r token rest)
  unfolding text_command process_stop_command process_add_command process_remove_command
  IsAnswered-text token rest =
      search
        (
          IsAnswered-if, IsAnswered-get_command, IsAnswered-put_command, IsAnswered-list,
          IsAnswered-status, IsAnswered-reply,
        )
        depth 12

  IsAnswered-line : (t : Option (Bytes × Bytes)) → IsAnswered (text_line r t)
  unfolding text_line
  IsAnswered-line none = IsAnswered-fail _
  IsAnswered-line (some (token, rest)) = IsAnswered-text _ rest

  -- The handler that is chosen, if one is.
  abbrev AreAnswered : Option Handler → Type 0
  AreAnswered none = Unit
  AreAnswered (some h) = IsAnswered h

  json_get-AreAnswered : (key : Option Bytes) → AreAnswered (json_get r key)
  unfolding json_get
  json_get-AreAnswered none = tt
  json_get-AreAnswered (some key) = IsAnswered-get key

  json_put-AreAnswered : (key value : Option Bytes) → AreAnswered (json_put r key value)
  unfolding json_put
  json_put-AreAnswered none value = tt
  json_put-AreAnswered (some key) none = tt
  json_put-AreAnswered (some key) (some value) = IsAnswered-put key value

  AreAnswered-if :
      (c : Bool) (a b : Option Handler)
      → AreAnswered a
      → AreAnswered b
      → AreAnswered (if c then a else b)
  AreAnswered-if true a b ha hb = ha
  AreAnswered-if false a b ha hb = hb

  json_command-AreAnswered :
      (item : Bytes → Option Bytes) (cmd : Option Bytes) → AreAnswered (json_command r item cmd)
  unfolding json_command
  json_command-AreAnswered item none = tt
  json_command-AreAnswered item (some cmd) =
      search (AreAnswered-if, json_get-AreAnswered, json_put-AreAnswered)

  json_text-AreAnswered : (items : Option (Bytes → Option Bytes)) → AreAnswered (json_text r items)
  unfolding json_text
  json_text-AreAnswered none = tt
  json_text-AreAnswered (some item) = json_command-AreAnswered item _

  IsAnswered-chosen :
      (o : Option Handler) (h : Handler)
      → AreAnswered o
      → IsAnswered h
      → IsAnswered (λ d. elim o [ some handler ↦ handler d | none ↦ h d ])
  IsAnswered-chosen none h k l = l
  IsAnswered-chosen (some handler) h k l = k

-- At a node where no client is kept and whose table is valid, with a response buffer of at least one
-- byte, any command, whether the text is JSON that asks for something or is read as a line, returns. Its
-- reply is shorter than the buffer, on every branch, so that its closing zero fits; the node stays as
-- it was described, and nothing is sent to another node.
pub raled_process_command-Answers :
    (r : Setting) (text : Bytes) (d : Dstore)
    → 0 < r.response_size
    → IsIsolated d
    → Answers r.response_size (raled_process_command r text d)
unfolding raled_process_command
raled_process_command-Answers r text d room h =
    let has_room : (r.response_size == 0) ≡ false = ground (arith, room) in
    elim (Bool-cases (length text == 0)) [
      | inl f ↦ rw (has_room, f) (IsAnswered-fail r room _ d h)
      | inr f ↦
          rw (has_room, f)
            (IsAnswered-chosen r room (json_text r (r.parse text)) _
              (json_text-AreAnswered r room _) (IsAnswered-line r room _) d h)
    ]
