-- ===== src/Proto/Grant.antt =====
-- What a granted vote means.
use rale.Base.{
  ℕ, ◌≡◌, ◌≢◌, inl, inr, true, ◌&&◌, List, [], ◌∷◌, some, ℤ, minus_one, arith, Bool-cases, not,
  ◌==ℤ◌, ltb_ℤ, get_or, ap, refl, ◌||◌, Option,
}
use rale.Text.{Bytes, codes}
use rale.StateFile.{print}
use rale.Proto.{Config, Env, State, Output, send, notify, fields, format_message, rale_state_save}
use rale.Proto.Message.{vote_request, parse_message}
use rale.Proto.Handle.{
  is_leader, Effect, saves, sends, perform_effects, grant_effects, rale_handle_message, handle,
  grant_vote, adopt_term, handle_vote_request,
}
use rale.Proto.Run.{Event, message, step, run}
use rale.Proto.Vote.{HasRoom, RunHasRoom, Keeps, Keeps-trans, step-Keeps, run-Keeps}

-- The one reply that tells a candidate that it has this node's vote in the node's term.
abbrev pub grant_reply : Config → State → Bytes → ℕ → List Output
grant_reply c s ip port =
    send (format_message (codes "VOTE_GRANTED") c.node_id s.current_term) ip port ∷ []

-- The vote stands in the state, and in the file if it can be written.
pub record VotedFor (c : Config) (env : Env) (id : ℤ) (s : State) : Type 0 where
  pub vote : s.voted_for ≡ id
  pub stored : (c.path_set && env.writable) ≡ true → s.file ≡ some (print (fields s))

grant_vote-VotedFor :
    (c : Config) (env : Env) (id : ℤ) (ip : Bytes) (port : ℕ) (s s' : State)
    → (grant_vote c env id ip port s).1 ≡ grant_reply c s' ip port
    → VotedFor c env id (grant_vote c env id ip port s).0
unfolding grant_vote
grant_vote-VotedFor c env id ip port s s' h = ground arith

-- The sixth letter of the first message tells VOTE_GRANTED from VOTE_DENIED.
abbrev sixth : List Output → ℕ
sixth [] = 0
sixth (send m ip port ∷ os) = get_or m 5 0
sixth (notify m ∷ os) = 0

denied_not_granted :
    (c : Config) (s s' : State) (ip : Bytes) (port : ℕ)
    → send (format_message (codes "VOTE_DENIED") c.node_id s.current_term) ip port ∷ []
      ≢ grant_reply c s' ip port
unfolding format_message
denied_not_granted c s s' ip port h = omega (arith, ap sixth h)

handle_vote_request-VotedFor :
    (c : Config) (env : Env) (id term : ℤ) (ip : Bytes) (port : ℕ) (s s' : State)
    → (handle_vote_request c env id term ip port s).1 ≡ grant_reply c s' ip port
    → VotedFor c env id (handle_vote_request c env id term ip port s).0
unfolding handle_vote_request
handle_vote_request-VotedFor c env id term ip port s s' h =
    elim (Bool-cases (not (term ==ℤ minus_one) && ltb_ℤ term s.current_term)) [
      | inl lower ↦ absurd (denied_not_granted c s s' ip port (rw lower at h))
      | inr taken ↦
          rw taken
            (grant_vote-VotedFor c env id ip port (adopt_term c env term s) s' (rw taken at h))
    ]

-- The request of candidate `id` in `msg`, which this node answers by granting its vote.
pub record Granted (c : Config) (env : Env) (msg : Bytes) (id term : ℤ) (ip : Bytes) (port : ℕ)
    (s : State) : Type 0 where
  pub request : parse_message msg ≡ vote_request (some (id, term))
  pub reply : let r = rale_handle_message c env msg ip port s in r.1 ≡ grant_reply c r.0 ip port

Granted-records :
    (c : Config) (env : Env) (msg : Bytes) (id term : ℤ) (ip : Bytes) (port : ℕ) (s : State)
    → Granted c env msg id term ip port s
    → VotedFor c env id (rale_handle_message c env msg ip port s).0
unfolding rale_handle_message handle
Granted-records c env msg id term ip port s g = rw g.request (
    handle_vote_request-VotedFor c env id term ip port s
      (handle_vote_request c env id term ip port s).0 (rw g.request at g.reply))

-- What is sent, each with the vote and the file as they are at that moment.
abbrev pub seen_at_send : List Effect → State → List (Output × ℤ × Option Bytes)
seen_at_send [] s = []
seen_at_send (saves t ∷ es) s = seen_at_send es t
seen_at_send (sends o ∷ es) s = (o, s.voted_for, s.file) ∷ seen_at_send es s

-- The reply is the one thing that is sent, and goes out when the vote and the file are as after the call.
abbrev pub RepliesLast : Config → Env → ℤ → Bytes → ℕ → State → State × List Output → Type 0
RepliesLast c env id ip port before r =
    let effects = grant_effects c env id ip port before in
    (r ≡ perform_effects effects before)
    × (seen_at_send effects before
        ≡ (
          send (format_message (codes "VOTE_GRANTED") c.node_id r.0.current_term) ip port,
          id,
          r.0.file,
        )
          ∷ [])

effects-RepliesLast :
    (c : Config) (env : Env) (id : ℤ) (ip : Bytes) (port : ℕ) (s : State)
    → RepliesLast c env id ip port s (perform_effects (grant_effects c env id ip port s) s)
unfolding rale_state_save
effects-RepliesLast c env id ip port s = elim (Bool-cases (c.path_set && env.writable)) [
  | inl h ↦ (refl, rw h refl)
  | inr h ↦ (refl, rw h refl)
]

grant_vote-RepliesLast :
    (c : Config) (env : Env) (id : ℤ) (ip : Bytes) (port : ℕ) (s s' : State)
    → (grant_vote c env id ip port s).1 ≡ grant_reply c s' ip port
    → RepliesLast c env id ip port s (grant_vote c env id ip port s)
unfolding grant_vote
grant_vote-RepliesLast c env id ip port s s' h =
    elim (Bool-cases
      (not (is_leader s.role) && (s.voted_for ==ℤ minus_one || s.voted_for ==ℤ id))) [
        | inl taken ↦ rw taken (effects-RepliesLast c env id ip port s)
        | inr refused ↦ absurd (nothing_sent c s' ip port (rw refused at h))
      ]
  where
    nothing_sent : (c : Config) (s' : State) (ip : Bytes) (port : ℕ) → [] ≢ grant_reply c s' ip port
    nothing_sent c s' ip port h = cc

handle_vote_request-RepliesLast :
    (c : Config) (env : Env) (id term : ℤ) (ip : Bytes) (port : ℕ) (s s' : State)
    → (handle_vote_request c env id term ip port s).1 ≡ grant_reply c s' ip port
    → RepliesLast c env id ip port
        (adopt_term c env term s)
        (handle_vote_request c env id term ip port s)
unfolding handle_vote_request
handle_vote_request-RepliesLast c env id term ip port s s' h =
    elim (Bool-cases (not (term ==ℤ minus_one) && ltb_ℤ term s.current_term)) [
      | inl lower ↦ absurd (denied_not_granted c s s' ip port (rw lower at h))
      | inr taken ↦
          rw taken
            (grant_vote-RepliesLast c env id ip port (adopt_term c env term s) s' (rw taken at h))
    ]

-- A node that grants its vote has recorded it when the reply is sent: in its state, and in rale.state if
-- a path is set and the file can be written. At that moment the file is as it is after the call.
pub Granted-VotedFor :
    (c : Config) (env : Env) (msg : Bytes) (id term : ℤ) (ip : Bytes) (port : ℕ) (s : State)
    → Granted c env msg id term ip port s
    → VotedFor c env id (rale_handle_message c env msg ip port s).0
      × RepliesLast c env id ip port
          (adopt_term c env term s)
          (rale_handle_message c env msg ip port s)
unfolding rale_handle_message handle
Granted-VotedFor c env msg id term ip port s g = (
  Granted-records c env msg id term ip port s g,
  rw g.request (
      handle_vote_request-RepliesLast c env id term ip port s
        (handle_vote_request c env id term ip port s).0 (rw g.request at g.reply)),
)

-- Between two granted votes of one term, whatever the node receives and does in between, there is no
-- second candidate (candidate -1, which stands for "no vote", apart, and as long as the term stays
-- below the largest `int`).
pub one_candidate_per_term :
    (c : Config) (env1 env2 : Env) (msg1 msg2 : Bytes) (id1 id2 term1 term2 : ℤ) (ip1 ip2 : Bytes)
    (port1 port2 : ℕ) (es : List (Env × Event)) (s : State)
    → let s1 = (rale_handle_message c env1 msg1 ip1 port1 s).0 in
      let s2 = run c es s1 in
      let s3 = (rale_handle_message c env2 msg2 ip2 port2 s2).0 in
      Granted c env1 msg1 id1 term1 ip1 port1 s
      → Granted c env2 msg2 id2 term2 ip2 port2 s2
      → RunHasRoom c es s1
      → HasRoom s2
      → s3.current_term ≡ s1.current_term
      → id1 ≢ minus_one
      → id2 ≡ id1
one_candidate_per_term c env1 env2 msg1 msg2 id1 id2 term1 term2 ip1 ip2 port1 port2 es s g1 g2
      rooms room same real =
    let first = Granted-records c env1 msg1 id1 term1 ip1 port1 s g1 in
    let s1 = (rale_handle_message c env1 msg1 ip1 port1 s).0 in
    let s2 = run c es s1 in
    let second = Granted-records c env2 msg2 id2 term2 ip2 port2 s2 g2 in
    let last : Keeps s2 (rale_handle_message c env2 msg2 ip2 port2 s2).0 =
      unfold step in step-Keeps c env2 (message msg2 ip2 port2) s2 room in
    let kept = Keeps-trans (run-Keeps c es s1 rooms) last in
    ground (arith, first.vote, second.vote, kept.stands)
