-- ===== src/Shutdown/Completion.antt =====
-- A request, the reports of the subsystems, and the wait for them.
use rale.Base.{
  ◌≡◌, refl, Bool, true, false, ◌&&◌, ◌||◌, not, List, [], ◌∷◌, ◌++◌, none, some, Bool-cases, inl,
  inr, arith, ap,
}
use rale.Text.{Bytes, codes, str_eq, eq_of_str_eq}
use rale.Shutdown.{
  Shutdown, librale_request_shutdown, librale_is_shutdown_requested,
  librale_signal_shutdown_complete, all_done, Call, signal, perform, perform_all,
  librale_wait_for_shutdown_completion,
}

-- The name is among those that have reported.
abbrev pub has_reported : Bytes → List Bytes → Bool
has_reported name [] = false
has_reported name (n ∷ ns) = str_eq n name || has_reported name ns

abbrev pub reports : List Bytes → List Call
reports [] = []
reports (n ∷ ns) = signal (some n) ∷ reports ns

abbrev unless : Bool → Bool → Bool
unless true flag = false
unless false flag = flag

-- The flags of `s` without those of the subsystems that have reported.
abbrev pub without : Shutdown → List Bytes → Shutdown
without s ns = record s {
  dstore = unless (has_reported (codes "dstore") ns) s.dstore;
  rale = unless (has_reported (codes "rale") ns) s.rale;
  comm = unless (has_reported (codes "comm") ns) s.comm;
}

-- One of the three has reported, and all of them have.
abbrev pub some_reported : List Bytes → Bool
some_reported ns =
    has_reported (codes "dstore") ns
    || (has_reported (codes "rale") ns || has_reported (codes "comm") ns)

abbrev pub all_reported : List Bytes → Bool
all_reported ns =
    has_reported (codes "dstore") ns
    && (has_reported (codes "rale") ns && has_reported (codes "comm") ns)

-- The flags and the broadcasts of one report, by the name.
report_one :
    (s : Shutdown) (n : Bytes)
    → s.initialized ≡ true
    → librale_signal_shutdown_complete s (some n)
      ≡ (without s (n ∷ []), some_reported (n ∷ []) && all_done (without s (n ∷ [])))
unfolding librale_signal_shutdown_complete str_eq
report_one s n h = elim (Bool-cases (str_eq n (codes "dstore"))) [
  | inl e ↦ rw (h, eq_of_str_eq n (codes "dstore") e) refl
  | inr e ↦ elim (Bool-cases (str_eq n (codes "rale"))) [
    | inl f ↦ rw (h, eq_of_str_eq n (codes "rale") f) refl
    | inr f ↦ elim (Bool-cases (str_eq n (codes "comm"))) [
      | inl g ↦ rw (h, eq_of_str_eq n (codes "comm") g) refl
      | inr g ↦ rw (h, e, f, g) refl
    ]
  ]
]

unless_or : (a b flag : Bool) → unless b (unless a flag) ≡ unless (a || b) flag
unless_or true true flag = refl
unless_or true false flag = refl
unless_or false b flag = refl

or_false : (b : Bool) → b || false ≡ b
or_false true = refl
or_false false = refl

without-cons :
    (s : Shutdown) (n : Bytes) (ns : List Bytes)
    → without (without s (n ∷ [])) ns ≡ without s (n ∷ ns)
without-cons s n ns = simp (unless_or, or_false)

join_broadcasts :
    (d r c x y z x' y' z' : Bool)
    → ((x || (y || z)) && (not (unless x d) && (not (unless y r) && not (unless z c))))
        || ((x' || (y' || z'))
            && (not (unless (x || x') d) && (not (unless (y || y') r) && not (unless (z || z') c))))
      ≡ ((x || x') || ((y || y') || (z || z')))
        && (not (unless (x || x') d) && (not (unless (y || y') r) && not (unless (z || z') c)))
join_broadcasts d r c x y z x' y' z' = ground arith

-- A report broadcasts if all flags are down after it.
perform_all-reports :
    (s : Shutdown) (ns : List Bytes)
    → s.initialized ≡ true
    → perform_all s (reports ns) ≡ (without s ns, some_reported ns && all_done (without s ns))
unfolding perform_all perform
perform_all-reports s [] h = refl
perform_all-reports s (n ∷ ns) h =
    rw (report_one s n h, perform_all-reports (without s (n ∷ [])) ns h, without-cons s n ns)
      (ap (λ b. (without s (n ∷ ns), b))
        (simp (or_false, unless_or)
          (join_broadcasts s.dstore s.rale s.comm (str_eq n (codes "dstore"))
            (str_eq n (codes "rale")) (str_eq n (codes "comm")) (has_reported (codes "dstore") ns)
            (has_reported (codes "rale") ns) (has_reported (codes "comm") ns))))

has_reported-append :
    (name : Bytes) (ns ms : List Bytes)
    → has_reported name (ns ++ ms) ≡ has_reported name ns || has_reported name ms
has_reported-append name [] ms = refl
has_reported-append name (n ∷ ns) ms = rw (has_reported-append name ns ms) (ground arith)

unless-true : (b : Bool) → unless b true ≡ not b
unless-true true = refl
unless-true false = refl

not-unless-true : (b : Bool) → not (unless b true) ≡ b
not-unless-true true = refl
not-unless-true false = refl

abbrev asked_all : Shutdown → Shutdown
asked_all s = record s { system_exit = true; dstore = true; rale = true; comm = true }

request_lem : (s : Shutdown) → s.initialized ≡ true → (librale_request_shutdown s).0 ≡ asked_all s
unfolding librale_request_shutdown
request_lem s h = rw h refl

request-reports :
    (s : Shutdown) (ns : List Bytes)
    → s.initialized ≡ true
    → (perform_all (librale_request_shutdown s).0 (reports ns)).0 ≡ without (asked_all s) ns
request-reports s ns h =
    rw (request_lem s h) (ap (λ r. r.0) (perform_all-reports (asked_all s) ns h))

wait_during :
    (wakes : Bool) (s : Shutdown) (ns ms : List Bytes)
    → s.initialized ≡ true
    → librale_wait_for_shutdown_completion wakes (without (asked_all s) ns) (reports ms)
      ≡ wakes || (some_reported ms && all_reported (ns ++ ms))
unfolding librale_wait_for_shutdown_completion
wait_during wakes s ns ms h =
    rw (perform_all-reports (without (asked_all s) ns) ms h, h)
      (simp (unless_or, has_reported-append, not-unless-true))

-- On an initialized system, when the subsystems `ns` have reported after a request, a subsystem is told
-- to stop exactly if it has not reported, and the system as a whole is. A wait that begins then, and
-- during which the subsystems `ms` report, returns 0 exactly if it wakes up without a broadcast, as a
-- condition variable may, or one of the three reports during the wait and all of the three have reported
-- by its end: without such a wakeup it returns -1 when all of them have reported before.
pub wait-reports :
    (wakes : Bool) (s : Shutdown) (ns ms : List Bytes)
    → s.initialized ≡ true
    → let asked = (perform_all (librale_request_shutdown s).0 (reports ns)).0 in
      (librale_is_shutdown_requested asked (some (codes "dstore"))
        ≡ not (has_reported (codes "dstore") ns))
      × (librale_is_shutdown_requested asked (some (codes "rale"))
          ≡ not (has_reported (codes "rale") ns))
      × (librale_is_shutdown_requested asked (some (codes "comm"))
          ≡ not (has_reported (codes "comm") ns))
      × (librale_is_shutdown_requested asked none ≡ true)
      × (librale_wait_for_shutdown_completion wakes asked (reports ms)
          ≡ wakes || (some_reported ms && all_reported (ns ++ ms)))
unfolding librale_is_shutdown_requested str_eq
wait-reports wakes s ns ms h = rw (request-reports s ns h) (
  rw (h, unless-true) refl,
  rw (h, unless-true) refl,
  rw (h, unless-true) refl,
  refl,
  wait_during wakes s ns ms h,
)
