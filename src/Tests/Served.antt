-- ===== src/Tests/Served.antt =====
-- The theorems on the server, at concrete inputs: a database in memory, JSON trees, two clients.
use shelter_server_hpc.Exec.{try_or}
use shelter_server_hpc.Exec.{◌>>=◌}
use shelter_server_hpc.Server.State.{on_db}
use shelter_server_hpc.Exec.{ends}
use shelter_server_hpc.Server.State.{send_bytes}
use shelter_server_hpc.Prelude.{
  List, ◌≡◌, refl, arith, ◌+◌, pos, negsuc, true, false, [], ◌∷◌, ◌++◌, Bytes, codes, contains,
  starts_with, int_max,
}
use shelter_server_hpc.CJson.Trees.{trees, parse_tree}
use shelter_server_hpc.CJson.Trees.Printed.{serialize}
use shelter_server_hpc.Nlohmann.{message}
use shelter_server_hpc.Nlohmann.Trees.{json_trees, find_exact, put_exact}
use shelter_server_hpc.Exec.{ok, nothing, when, ◌>>◌, modify}
use shelter_server_hpc.Wrapper.Entries.{Entries, insert_key, find_key}
use shelter_server_hpc.Wrapper.Memory.{ordered, ordered-IsOrdered}
use shelter_server_hpc.Wrapper.Operations.{count_values}
use shelter_server_hpc.Server.Tables.{UdpClientData}
use shelter_server_hpc.Server.Reachable.{no_clients}
use shelter_server_hpc.Server.State.{
  Libraries, State, last_alert_id_key, last_event_key, increment, set_id, log_event,
}
use shelter_server_hpc.Server.Messages.{recv_tcp_json, received, peer}
use shelter_server_hpc.Server.TcpMessages.{Moment}
use shelter_server_hpc.Server.Listing.{new_client, v4, accept_tcp_conn, list_tcp_client}
use shelter_server_hpc.Server.Notices.{accepted, alert_json, handle_alert}
use shelter_server_hpc.Server.Start.{get_last_id}
use shelter_server_hpc.Server.Loop.{
  stopped, Ready, tcp_ready, unix_ready, client_ready, selects, handle_ready, handle_all, run_loop,
}
use shelter_server_hpc.Server.FrameLoop.{asks}
use shelter_server_hpc.Server.StockKept.{handle_ready-stock}
use shelter_server_hpc.Server.Invariant.{Sound, begins, handles, Reach-Sound}
use shelter_server_hpc.Server.NoticeRound.{run_loop-disconnect}
use shelter_server_hpc.Server.History.{AllStored, after_alerts, after_alerts-AllStored}
use shelter_server_hpc.Server.Broadcast.{
  Puts, alert_entries, alert_line, tcp_messages, udp_messages, handle_alert_lem,
}
use shelter_server_hpc.Server.Restart.{get_last_id-handle_alert}
use shelter_server_hpc.Server.Counts.{occurs, count_values-handle_alert}

abbrev pub libraries : Libraries
libraries = record {
  json = json_trees;
  cjson = trees;
  database = ordered;
  undef = negsuc int_max;
  gzip = record {
    gzopen = λ path. true;
    compressed = λ text. b'z' ∷ text;
    takes_all = λ text. true;
    gzclose = λ path. true;
  };
  canny = λ path directory files. insert_key (directory ++ codes "canny.png") (codes "edges") files;
}

-- A server without clients, on that database.
abbrev pub server : Entries → State Entries
server db = record {
  db = db;
  tables = no_clients;
  supplies_id_gen = pos 1;
  alerts_id_gen = pos 5;
  emerg_notif_id_gen = pos 0;
  entry_alerts_count = record { north = 0; south = 0; east = 2; west = 0 };
  server_running = true;
  watched = [];
  files = [];
  sent = [];
  log = [];
}

abbrev pub stored : Entries → Entries → Entries
stored d [] = d
stored d ((k, v) ∷ kvs) = stored (insert_key k v d) kvs

-- Every write of a database in memory succeeds.
pub stored-Puts : (d kvs : Entries) → Puts ordered d kvs (stored d kvs)
stored-Puts d [] = refl
stored-Puts d ((k, v) ∷ kvs) = (insert_key k v d, refl, stored-Puts (insert_key k v d) kvs)

abbrev pub udp_client : UdpClientData
udp_client = record {
  sockfd = pos 4;
  client_addr = record { sin_port = 5000; word = 7; sin6_addr = [] };
}

abbrev pub two_clients : State Entries
two_clients = record (server []) {
  tables = record { tcp_clients = pos 7 ∷ []; udp_clients = udp_client ∷ [] };
  watched = pos 7 ∷ [];
}

abbrev pub now : Bytes
now = codes "2024-05-20_12:00"

abbrev alert : Bytes
alert = codes "ALERT: EAST"

abbrev alert_text : Bytes
alert_text = serialize (alert_json libraries alert)

abbrev pub alerted : Entries
alerted = stored [] (alert_entries libraries two_clients now alert)

handle_alert_lem_example : handle_alert libraries now alert two_clients ≡ (
  ok tt,
  record two_clients {
    db = alerted;
    alerts_id_gen = increment (pos 5);
    entry_alerts_count = record { north = 0; south = 0; east = 3; west = 0 };
    sent =
        tcp_messages libraries alert_text (pos 7 ∷ [])
        ++ udp_messages libraries alert (udp_client ∷ []);
    log =
        alert
        ∷ codes "Sent alert notification to all connected clients"
        ∷ alert_line libraries two_clients now
        ∷ [];
  },
)
unfolding contains
handle_alert_lem_example =
    handle_alert_lem libraries now alert alert_text two_clients alerted refl refl
      (stored-Puts [] (alert_entries libraries two_clients now alert))

abbrev alerted_server : State Entries
alerted_server = (handle_alert libraries now alert two_clients).1

get_last_id-handle_alert_example :
    (get_last_id ordered last_alert_id_key alerted_server.db ≡ (ok (pos 5), alerted_server.db))
    × (set_id (pos 5) ≡ alerted_server.alerts_id_gen)
get_last_id-handle_alert_example =
    get_last_id-handle_alert libraries ordered-IsOrdered now alert alert_text two_clients alerted
      (omega arith, omega arith) refl refl
      (stored-Puts [] (alert_entries libraries two_clients now alert)) refl

count_values-handle_alert_example :
    count_values (codes "EAST") alerted_server.db
      + occurs (codes "EAST") (find_key last_event_key [])
    ≡ count_values (codes "EAST") [] + 2
unfolding contains starts_with find_key
count_values-handle_alert_example =
    count_values-handle_alert libraries ordered-IsOrdered now alert alert_text two_clients alerted
      b'E' (codes "AST") (omega arith) refl refl refl
      (stored-Puts [] (alert_entries libraries two_clients now alert)) refl refl

-- A TCP client asks for the stock; another one comes; a failure notice arrives.
abbrev pub moment : Moment
moment = record { now = now; peername = peer (codes "10.0.0.1"); image_directory = [] }

abbrev status_request : Ready
status_request = client_ready (pos 7) moment (received (serialize (message json_trees "status")))

status_request-asks : asks libraries status_request ≡ false
unfolding recv_tcp_json serialize put_exact parse_tree find_exact
status_request-asks = refl

handle_ready-stock_example :
    let d = (handle_ready libraries status_request two_clients).1.db in
    (ordered.get d (codes "food") ≡ ordered.get [] (codes "food"))
    × (ordered.get d (codes "medicine") ≡ ordered.get [] (codes "medicine"))
handle_ready-stock_example =
    handle_ready-stock libraries ordered-IsOrdered status_request two_clients status_request-asks

abbrev connection : Ready
connection = tcp_ready (new_client (pos 7) (v4 (codes "10.0.0.1")))

Reach-Sound_example : Sound (handle_ready libraries connection (server [])).1
unfolding handle_ready accept_tcp_conn list_tcp_client log_event modify ◌>>◌ when
Reach-Sound_example =
    Reach-Sound libraries (handle_ready libraries connection (server [])).1
      (handles (server []) connection (begins (server []) refl refl) refl refl)

abbrev notice : Ready
notice = unix_ready now (accepted (received (codes "Electricity failure")))

-- A round with two connections, before and behind the notice.
abbrev newcomer : Ready
newcomer = tcp_ready (new_client (pos 9) (v4 (codes "10.0.0.2")))

abbrev round : List Ready
round = connection ∷ notice ∷ newcomer ∷ []

abbrev connected : State Entries
connected = (handle_all libraries (connection ∷ []) (server [])).1

abbrev notified : State Entries
notified = (handle_ready libraries notice connected).1

round_handled : (handle_all libraries round (server [])).0 ≡ ok tt
unfolding handle_all handle_ready accept_tcp_conn list_tcp_client log_event modify ◌>>◌ when nothing
    try_or ◌>>=◌ on_db ends send_bytes
round_handled = refl

run_loop-disconnect_example :
    let r = run_loop libraries (selects round ∷ []) (server []) in
    (notified.sent
      ≡ connected.sent
        ++ tcp_messages libraries
            (serialize (message json_trees "disconnect"))
            connected.tables.tcp_clients)
    × (notified.server_running ≡ false)
    × (r.0 ≡ ok stopped)
    × (r.1.sent ≡ (handle_all libraries (newcomer ∷ []) notified).1.sent)
run_loop-disconnect_example =
    run_loop-disconnect libraries now b'E' (codes "lectricity failure")
      (serialize (message json_trees "disconnect")) (connection ∷ []) (newcomer ∷ []) [] (server [])
      (omega arith) refl refl round_handled

abbrev alerts : List (Bytes × Bytes)
alerts = (now, alert) ∷ (codes "12:31", codes "ALERT: WEST") ∷ []

after_alerts-AllStored_example :
    AllStored libraries (after_alerts libraries alerts two_clients).db 5 alerts
after_alerts-AllStored_example =
    after_alerts-AllStored libraries ordered-IsOrdered (λ d. refl)
      (λ d k v. (insert_key k v d, refl)) alerts two_clients 5 refl (omega arith)
      ((alert_text, refl), ((serialize (alert_json libraries (codes "ALERT: WEST")), refl), tt))
