-- ===== src/Proto/Weakness.antt =====
-- What the protocol does not check: who votes, of which term a grant or a heartbeat is, and whether a
-- node is alone.
use rale.Base.{
  ℕ, zero, suc, ◌+◌, ◌/◌, ◌^◌, ◌≤◌, ◌<◌, ◌≡◌, ◌≢◌, refl, true, false, List, [], ◌∷◌, some, ℤ, pos,
  arith, ==ℤ_iff, ◌==ℤ◌, ltb_ℤ, length, to_int, incr, replicate, ap,
}
use rale.Text.{Bytes}
use rale.Proto.{
  Role, follower, candidate, leader, transitioning, Peer, Config, Env, State, Output,
  rale_state_save, rale_become_follower, send_all,
}
use rale.Proto.Message.{heartbeat, vote_granted, parse_message}
use rale.Proto.Handle.{
  rale_handle_message, handle, rale_become_leader, follow_heartbeat, handle_vote_granted,
  begin_election,
}
use rale.Proto.Tick.{
  rale_quram_process, rale_request_votes, rale_start_election, rale_handle_candidate_duties,
  rale_handle_follower_duties, role_duties,
}
use rale.Proto.Run.{Event, message, tick, step, run}

incr_pos : (n : ℕ) → suc n < 2 ^ 31 → incr (pos n) ≡ pos (suc n)
unfolding incr to_int
incr_pos n h = ground arith

-- A candidate that counts votes, in a term not below that of the grants.
pub record Counting (term : ℤ) (v : ℕ) (s : State) : Type 0 where
  pub active : s.election_active ≡ true
  pub current : ltb_ℤ s.current_term term ≡ false
  pub votes : s.votes_received ≡ pos v

module _ (c : Config) (env : Env) (term : ℤ) (small : length c.peers < 2 ^ 31) where
  one_more :
      (v : ℕ) (s : State)
      → Counting term v s
      → suc v ≤ length c.peers / 2
      → Counting term (suc v) (handle_vote_granted c env term s).0
  unfolding handle_vote_granted
  one_more v s h few = ground (arith, h.active, h.current, h.votes, incr_pos v)

  last_one :
      (v : ℕ) (s : State)
      → Counting term v s
      → v ≡ length c.peers / 2
      → (handle_vote_granted c env term s).0.role ≡ leader
  unfolding handle_vote_granted rale_become_leader rale_state_save
  last_one v s h enough = ground (arith, h.active, h.current, h.votes, incr_pos v)

module _ (c : Config) (env : Env) (msg ip : Bytes) (port : ℕ) (voter term : ℤ)
    (small : length c.peers < 2 ^ 31)
    (grant : parse_message msg ≡ vote_granted (some (voter, term))) where
  step_grant :
      (s : State) → (step c env (message msg ip port) s).0 ≡ (handle_vote_granted c env term s).0
  unfolding step rale_handle_message handle
  step_grant s = rw grant

  run_repeats :
      (m : ℕ) (s : State)
      → run c (replicate (suc m) (env, message msg ip port)) s
        ≡ run c (replicate m (env, message msg ip port)) (handle_vote_granted c env term s).0
  run_repeats m s = unfold run in ap (run c (replicate m (env, message msg ip port))) (step_grant s)

  elected_by_repeats :
      (m v : ℕ) (s : State)
      → Counting term v s
      → v + m ≡ length c.peers / 2
      → (run c (replicate (suc m) (env, message msg ip port)) s).role ≡ leader
  elected_by_repeats zero v s h e =
      rw (run_repeats zero s) (unfold run in last_one c env term small v s h (omega arith))
  elected_by_repeats (suc m) v s h e = rw (run_repeats (suc m) s) (
      elected_by_repeats m (suc v) (handle_vote_granted c env term s).0
        (one_more c env term small v s h (omega arith)) (omega arith))

-- A candidate that has only its own vote becomes the leader when one voter's VOTE_GRANTED comes as
-- often as half of the cluster's size, whoever the voter is and however old the term of the grant.
pub one_voter_elects :
    (c : Config) (env : Env) (msg ip : Bytes) (port : ℕ) (voter term : ℤ) (m : ℕ) (s : State)
    → length c.peers < 2 ^ 31
    → parse_message msg ≡ vote_granted (some (voter, term))
    → Counting term 1 s
    → suc m ≡ length c.peers / 2
    → (run c (replicate (suc m) (env, message msg ip port)) s).role ≡ leader
one_voter_elects c env msg ip port voter term m s small grant h e =
    elected_by_repeats c env msg ip port voter term small grant m 1 s h (omega arith)

-- A heartbeat that names a leader makes this node its follower and ends its election, whatever the
-- node's role and term and whatever the term of the heartbeat.
any_heartbeat_deposes :
    (c : Config) (env : Env) (msg ip : Bytes) (port : ℕ) (n : ℕ) (term : ℤ) (s : State)
    → parse_message msg ≡ heartbeat (some (pos n, term))
    → let s' = (rale_handle_message c env msg ip port s).0 in
      (s'.role ≡ follower) × (s'.leader_id ≡ pos n) × (s'.election_active ≡ false)
unfolding rale_handle_message handle follow_heartbeat rale_become_follower
any_heartbeat_deposes c env msg ip port n term s beat =
    rw beat (ground (arith, ==ℤ_iff (pos n) s.leader_id))

-- The cluster has no other member.
abbrev pub OnlySelf : ℤ → List Peer → Type 0
OnlySelf self [] = Unit
OnlySelf self (p ∷ ps) = ((p.id ==ℤ self) ≡ true) × OnlySelf self ps

send_all_alone :
    (self : ℤ) (msg : Bytes) (ps : List Peer) → OnlySelf self ps → send_all self msg ps ≡ []
unfolding send_all
send_all_alone self msg [] h = refl
send_all_alone self msg (p ∷ ps) h = rw h.0 (send_all_alone self msg ps h.1)

-- Silent and no leader.
abbrev pub Idle : State × List Output → Type 0
Idle r = (r.1 ≡ []) × (r.0.role ≢ leader)

module _ (c : Config) (env : Env) (alone : OnlySelf c.node_id c.peers) where
  request_votes-Idle : (s : State) → s.role ≢ leader → Idle (rale_request_votes c env s)
  unfolding rale_request_votes
  request_votes-Idle s h = (send_all_alone c.node_id _ c.peers alone, h)

  begin_election-ne-leader : (s : State) → (begin_election c env s).role ≢ leader
  unfolding begin_election rale_state_save
  begin_election-ne-leader s h = ground arith

  start_election-Idle : (s : State) → Idle (rale_start_election c env s)
  unfolding rale_start_election
  start_election-Idle s = request_votes-Idle (begin_election c env s) (begin_election-ne-leader s)

  follower_duties-Idle : (s : State) → s.role ≢ leader → Idle (rale_handle_follower_duties c env s)
  unfolding rale_handle_follower_duties
  follower_duties-Idle s h = ground (arith, start_election-Idle (record s { role = candidate }))

  candidate_duties-Idle :
      (s : State) → s.role ≢ leader → Idle (rale_handle_candidate_duties c env s)
  unfolding rale_handle_candidate_duties
  candidate_duties-Idle s h = ground (
    arith,
    request_votes-Idle s h,
    start_election-Idle s,
    start_election-Idle (rale_request_votes c env s).0,
  )

  role_duties-Idle :
      (r : Role) (s : State) → r ≢ leader → s.role ≢ leader → Idle (role_duties r c env s)
  unfolding role_duties
  role_duties-Idle leader s n h = absurd (n refl)
  role_duties-Idle candidate s n h = candidate_duties-Idle s h
  role_duties-Idle follower s n h = follower_duties-Idle s h
  role_duties-Idle transitioning s n h = follower_duties-Idle s h

abbrev pub ticks : List Env → List (Env × Event)
ticks [] = []
ticks (env ∷ envs) = (env, tick) ∷ ticks envs

-- The only member of a cluster that is not its leader sends nothing and does not become the leader,
-- however often its loop turns.
pub alone_never_leads :
    (c : Config) (envs : List Env) (last : Env) (s : State)
    → OnlySelf c.node_id c.peers
    → s.role ≢ leader
    → Idle (rale_quram_process c last (run c (ticks envs) s))
unfolding run
alone_never_leads c [] last s alone h =
    unfold rale_quram_process in role_duties-Idle c last alone s.role s h h
alone_never_leads c (env ∷ envs) last s alone h =
    alone_never_leads c envs last (step c env tick s).0 alone
      (unfold step rale_quram_process in (role_duties-Idle c env alone s.role s h h).1)
