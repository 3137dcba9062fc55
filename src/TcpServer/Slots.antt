-- ===== src/TcpServer/Slots.antt =====
-- The slots of the clients over connections and their ends.
use rale.Base.{
  ℕ, zero, suc, ◌≡◌, ◌<◌, ◌≤◌, ◌+◌, ◌≢◌, refl, Bool, true, false, none, some, arith, Option-cases,
  sym, ap, ◌∙◌, inl, inr,
}
use rale.TcpServer.{
  TcpServer, max_clients, set_at, free_slot, accept_client, tcp_server_client_disconnect,
  close_client,
}

free_slot_lem :
    (n i : ℕ) (used : ℕ → Bool) (j : ℕ)
    → free_slot n i used ≡ some j
    → (i ≤ j) × (j < i + n) × (used j ≡ false)
unfolding free_slot
free_slot_lem zero i used j h = cc
free_slot_lem (suc n) i used j h = ground (arith, free_slot_lem n (suc i) used j)

-- The two results of `accept_client`.
accept_client-some :
    (s : TcpServer) (k : ℕ)
    → free_slot max_clients 0 s.used ≡ some k
    → accept_client s ≡ (record s { used = set_at s.used k true }, some k)
unfolding accept_client
accept_client-some s k e = simp (e, accept_client)

accept_client-none :
    (s : TcpServer) → free_slot max_clients 0 s.used ≡ none → accept_client s ≡ (s, none)
unfolding accept_client
accept_client-none s e = simp (e, accept_client)

taken-slot :
    (s : TcpServer) (j k : ℕ)
    → free_slot max_clients 0 s.used ≡ some k
    → some k ≡ some j
    → (j < max_clients)
      × (s.used j ≡ false)
      × (set_at s.used k true j ≡ true)
      × ((i : ℕ) → i ≢ j → set_at s.used k true i ≡ s.used i)
taken-slot s j k e h =
    let same : k ≡ j = cc in
    let free = free_slot_lem max_clients 0 s.used k e in
    (
      omega (arith, free, same),
      cc,
      ground (arith, same),
      λ i differs. ground (arith, same, differs),
    )

-- A new client gets a slot among the five that no client has, and no other slot changes.
accept_client_lem :
    (s : TcpServer) (j : ℕ)
    → (accept_client s).1 ≡ some j
    → (j < max_clients)
      × (s.used j ≡ false)
      × ((accept_client s).0.used j ≡ true)
      × ((i : ℕ) → i ≢ j → (accept_client s).0.used i ≡ s.used i)
accept_client_lem s j h = elim (Option-cases (free_slot max_clients 0 s.used)) [
  | inl e ↦ let never : none ≡ some j = sym (ap (λ r. r.1) (accept_client-none s e)) ∙ h in cc
  | inr (k, e) ↦
      rw (accept_client-some s k e)
        (taken-slot s j k e (sym (ap (λ r. r.1) (accept_client-some s k e)) ∙ h))
]

disconnect-overflows :
    {S : Type 0} (clear : S → S) (depth : ℕ) (s : TcpServer) (i : ℕ) (x : S)
    → i < max_clients
    → s.used i ≡ true
    → tcp_server_client_disconnect clear depth s i x ≡ none
unfolding tcp_server_client_disconnect
disconnect-overflows clear zero s i x low taken = refl
disconnect-overflows clear (suc depth) s i x low taken =
    ground (arith, disconnect-overflows clear depth s i (clear x))

-- When a client in a slot closes its connection, the calls that end it never return, however deep the
-- stack is: each of the two functions calls the other.
pub close_client-overflows :
    {S : Type 0} (clear : S → S) (depth : ℕ) (s : TcpServer) (i : ℕ) (x : S)
    → i < max_clients
    → s.used i ≡ true
    → close_client clear depth s i x ≡ none
unfolding close_client
close_client-overflows clear depth s i x low taken =
    rw (disconnect-overflows clear depth s i (clear x) low taken, close_client) refl
