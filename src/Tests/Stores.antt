-- ===== src/Tests/Stores.antt =====
-- A store of a cluster of two nodes, and the server's buffers.
use rale.Base.{
  ℕ, ◌≡◌, ◌<◌, refl, to_int, true, false, List, [], ◌∷◌, none, some, arith, pos, minus_one, take,
  length, if◌then◌else◌, ◌==◌,
}
use rale.Text.{Bytes, codes, str_eq}
use rale.Hash.{HashTable, done, hash, hash_func, uint_of_char}
use rale.Hash.Laws.{IsValid}
use rale.Hash.Buckets.{count, view}
use rale.StateFile.{dstore_is_current_leader, read_fields, fgets, token_fields}
use rale.StateFile.Words.{words}
use rale.Text.Number.{atoi, to_long, scan_number, scan_signed, skip_space}
use rale.Cluster.{success, Node, Cluster, zero_node, add_status, position}
use rale.Cluster.Members.{IsGood, IsValid as IsCluster, Adds, added}
use rale.TcpServer.{TcpServer, close_client, receive_all}
use rale.TcpServer.Slots.{close_client-overflows}
use rale.TcpServer.Stream.{stream_lines, short_lines}
use rale.TcpServer.Framing.{receive_all-stream_lines}
use rale.Dstore.{Dstore, Env, Link, Output, dstore_init, cluster_of, is_leader}
use rale.Dstore.Peers.{send_to_socket}
use rale.Dstore.Spread.{snapshot_message, remove_message}
use rale.Dstore.Commands.{dstore_put_from_command}
use rale.Dstore.Server.{server_line, value_answer, connects_in, sends, clear_socket}
use rale.Dstore.Silence.{IsIsolated, AreToSockets}
use rale.Dstore.Isolation.{
  Call, put_from_command, replicate_to_followers, client_tick, server_tick, perform_all,
  perform_all-silent,
}
use rale.Dstore.Writes.{written, put_message, put-get}
use rale.Dstore.Joining.{Travels, snapshot-Adds}
use rale.Dstore.Ignored.{peer_commands-ignored}

abbrev first : Node
first = record zero_node {
  id = pos 1;
  name = codes "n1";
  ip = codes "10.0.0.1";
  rale_port = 7400;
  dstore_port = 7401;
}

abbrev second : Node
second = record first { id = pos 2; name = codes "n2"; ip = codes "10.0.0.2" }

abbrev third : Node
third = record first { id = pos 3; name = codes "n3"; ip = codes "10.0.0.3" }

abbrev eight : List Node
eight =
    zero_node ∷ zero_node ∷ zero_node ∷ zero_node ∷ zero_node ∷ zero_node ∷ zero_node ∷ zero_node
    ∷ []

abbrev two : Cluster
two = record { nodes = first ∷ second ∷ eight; node_count = 2; self_id = pos 1; initialized = true }

abbrev empty : HashTable
empty = record { entries = λ i. []; locked = false }

abbrev down : Link
down = record {
  client = none;
  connection_status = false;
  last_keep_alive_sent = 0;
  last_connection_attempt = 0;
  connection_attempt_count = pos 0;
}

abbrev server : TcpServer
server = record { used = λ i. i == 0; recv_buf = λ i. [] }

-- The store of node 1; the text is that of rale.state.
abbrev pub store : Bytes → Dstore
store state = record {
  stored = record { cluster = two; path_set = false; file = none };
  db = record { table = some empty; file = none };
  state_file = some state;
  server = some server;
  links = λ i. down;
  sockets = λ i. minus_one;
  loop_first_run = true;
  tick_first_run = true;
  last_connect_attempt = 0;
  last_keep_alive_check = 0;
}

abbrev pub leading : Dstore
leading = store (codes "4 1 1 0 0\n")

abbrev following : Dstore
following = store (codes "4 2 2 0 0\n")

abbrev pub env : Env
env = record {
  now = 100;
  writable = true;
  memory = true;
  keep_alive_interval = 5;
  errno = 0;
  inet_pton = λ s. true;
  connects = λ i. (pos 3, true, true);
  received = λ i. none;
  whole = λ i m. true;
  taken = λ i m. true;
}

empty-IsValid : IsValid empty
unfolding count
empty-IsValid = record {
  free = refl;
  placed = record { once = λ k i. omega arith; home = λ k i h. refl };
}

pub store-IsIsolated : (state : Bytes) → IsIsolated (store state)
store-IsIsolated state = record { no_clients = λ i. refl; table = empty-IsValid }

leads : (is_leader leading ≡ true) × (is_leader following ≡ false)
unfolding is_leader dstore_is_current_leader read_fields fgets token_fields words atoi to_long
    to_int scan_number scan_signed skip_space
leads = (refl, refl)

close_client-overflows_example : close_client (clear_socket 0) 8 server 0 leading ≡ none
close_client-overflows_example =
    close_client-overflows (clear_socket 0) 8 server 0 leading (omega arith) refl

receive_all-stream_lines_example :
    receive_all [] (codes "GE" ∷ codes "T a\n\nGET b" ∷ []) ≡ ((codes "GET a") ∷ [], codes "GET b")
unfolding stream_lines short_lines
receive_all-stream_lines_example =
    receive_all-stream_lines [] (codes "GE" ∷ codes "T a\n\nGET b" ∷ [])
      (omega arith, (omega arith, tt)) tt (ground arith) refl

-- A write at the leader, a turn of the clients, and a client of the server that reads.
abbrev calls : List (Env × Call)
calls =
    (env, put_from_command (codes "PUT a=1"))
    ∷ (env, replicate_to_followers (codes "a") (codes "1"))
    ∷ (env, client_tick)
    ∷ (env, client_tick)
    ∷ (env, server_tick false (connects_in ∷ sends 0 (codes "GET a\n") ∷ []))
    ∷ []

perform_all-silent_example :
    (e : Dstore) × (os : List Output) × (perform_all calls (dstore_init true leading).0
      ≡ done (e, os))
    × AreToSockets os
perform_all-silent_example =
    perform_all-silent true leading calls (λ i. refl) empty-IsValid (tt, tt)

put-get_example :
    (t : HashTable) × (dstore_put_from_command env (put_message (codes "a") (codes "1")) leading
      ≡ done (written env (codes "a") (codes "1") t leading, []))
    × ((q : Bytes) → view t q ≡ (if str_eq (codes "a") q then some (codes "1") else view empty q))
    × (server_line env 0 (codes "GET a") (written env (codes "a") (codes "1") t leading)
        ≡ send_to_socket env 0
            (take 511 (value_answer (codes "a") none))
            (written env (codes "a") (codes "1") t leading))
unfolding hash hash_func uint_of_char
put-get_example =
    put-get env 0 (codes "a") (codes "1") empty leading (store-IsIsolated _) refl empty-IsValid refl
      leads.0 refl (refl, tt) refl

member-IsGood :
    (id : ℕ) (name ip : Bytes)
    → 0 < id
    → id < 1000
    → length name ≡ 2
    → length ip ≡ 8
    → IsGood (record first { id = pos id; name = name; ip = ip })
member-IsGood id name ip low high name_two ip_eight = record {
  id_low = omega arith;
  id_high = omega arith;
  name_low = omega arith;
  name_high = omega arith;
  ip_low = omega arith;
  ip_high = omega arith;
  rale_low = omega arith;
  rale_high = omega arith;
  dstore_low = omega arith;
  dstore_high = omega arith;
}

third-Travels : Travels third
third-Travels = record {
  good = member-IsGood 3 third.name third.ip (omega arith) (omega arith) refl refl;
  name_short = omega arith;
  ip_short = omega arith;
  name_plain = ground arith;
  ip_plain = ground arith;
}

two-IsValid : IsCluster two
unfolding position
two-IsValid = record {
  width = refl;
  bound = omega arith;
  members = (
    member-IsGood 1 first.name first.ip (omega arith) (omega arith) refl refl,
    refl,
    (member-IsGood 2 second.name second.ip (omega arith) (omega arith) refl refl, refl, tt),
  );
}

snapshot-Adds_example :
    (e : Dstore) × (dstore_put_from_command env (snapshot_message third) leading ≡ done (e, []))
    × Adds two
        (added 100 two (pos 3) (some (codes "n3")) (some (codes "10.0.0.3")) 7400 7401)
        success
        (cluster_of e, success)
unfolding add_status position
snapshot-Adds_example = snapshot-Adds env third leading third-Travels two-IsValid refl

peer_commands-ignored_example :
    (dstore_put_from_command env (codes "FORWARD_PUT a=1") leading ≡ done (leading, []))
    × (dstore_put_from_command env (remove_message (pos 2)) leading ≡ done (leading, []))
peer_commands-ignored_example = peer_commands-ignored env (codes "a=1") (pos 2) leading
