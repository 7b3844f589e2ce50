-- ===== src/Server/Messages.antt =====
-- What the handlers of the server share: receiving, sending, the stock as JSON, the summary.
use shelter_server_hpc.Prelude.{
  ℕ, ℤ, pos, String, Option, none, some, List, [], ◌∷◌, Bytes, codes, length, ltb, if◌then◌else◌,
}
use shelter_server_hpc.TcpClient.Receive.{c_string}
use shelter_server_hpc.Supplies.Stock.{FoodSupply, MedicineSupply, Loaded}
use shelter_server_hpc.Supplies.Store.{Run}
use shelter_server_hpc.Supplies.Load.{get_food_supply, get_medicine_supply}
use shelter_server_hpc.Supplies.Update.{update_supplies_from_json}
use shelter_server_hpc.Exec.{
  Result, ok, throws, crashes, Exec, pure, ends, nothing, try_or, ◌>>=◌, ◌>>◌,
}
use shelter_server_hpc.Wrapper.{c_api}
use shelter_server_hpc.Wrapper.Operations.{open_wrapper, get_value_by_key, count_occurrences}
use shelter_server_hpc.Server.Tables.{UdpClientData}
use shelter_server_hpc.Server.State.{
  Libraries, State, on_db, send_bytes, to_tcp, to_udp, last_event_key,
}

-- What `recv` or `recvfrom` gives: an error, or bytes, none of them if the connection is closed.
pub data Received : Type 0 where
  recv_fails : Received
  received : Bytes → Received

-- What `getpeername` and `inet_ntop` give: an error, or the text of the address.
pub data Peername : Type 0 where
  getpeername_fails : Peername
  peer : Bytes → Peername

unfoldable pub get_tcp_client_ip : Peername → Bytes
get_tcp_client_ip getpeername_fails = codes "Unknown"
get_tcp_client_ip (peer ip) = ip

abbrev pub buffer_size : ℕ
buffer_size = 1024

-- The NUL behind 1024 bytes is written outside the buffer.
unfoldable pub recv_tcp_json : Received → Result Bytes
unfolding c_string
recv_tcp_json recv_fails = ok []
recv_tcp_json (received bytes) =
    if ltb (length bytes) buffer_size then ok (c_string bytes) else crashes

module _ (L : Libraries) where
  open L use {json, cjson, database, undef}
  open json use {Json, null, text, number, set, dump, parse}

  abbrev pub Action : Type 0 → Type 0
  Action A = Exec (State database.Db) A

  abbrev pub dump_or_throw : Json → Result Bytes
  dump_or_throw j = elim (dump j) [ none ↦ throws | some t ↦ ok t ]

  -- One datagram: at most `BUFFER_SIZE - 1` bytes. What cannot be parsed becomes null.
  unfoldable pub recv_udp_json : Received → Json
  unfolding c_string
  recv_udp_json recv_fails = null
  recv_udp_json (received bytes) = elim (parse (c_string bytes)) [ none ↦ null | some j ↦ j ]

  -- `send_json` for one client: the results of `send` and `sendto` are only printed.
  unfoldable pub send_json_to_tcp_client : ℤ → Json → Action (Unit {0})
  send_json_to_tcp_client fd j = do bytes ← ends (dump_or_throw j); send_bytes (to_tcp fd bytes)

  unfoldable pub send_json_to_udp_client : UdpClientData → Json → Action (Unit {0})
  send_json_to_udp_client client j = do
    bytes ← ends (dump_or_throw j)
    send_bytes (to_udp client bytes)

  unfoldable pub send_to_fds : List ℤ → Json → Action (Unit {0})
  unfolding send_json_to_tcp_client
  send_to_fds [] j = nothing
  send_to_fds (fd ∷ fds) j = send_json_to_tcp_client fd j >> send_to_fds fds j

  unfoldable pub send_json_to_all_tcp_clients : Json → Action (Unit {0})
  unfolding send_to_fds
  send_json_to_all_tcp_clients j s = send_to_fds s.tables.tcp_clients j s

  unfoldable pub send_to_clients : List UdpClientData → Bytes → Action (Unit {0})
  send_to_clients [] bytes = nothing
  send_to_clients (client ∷ clients) bytes =
      send_bytes (to_udp client bytes) >> send_to_clients clients bytes

  unfoldable pub send_to_all_udp_clients : Bytes → Action (Unit {0})
  unfolding send_to_clients
  send_to_all_udp_clients bytes s = send_to_clients s.tables.udp_clients bytes s

  unfoldable pub food_json : FoodSupply → Json
  food_json f =
      let a = set null (codes "meat") (number f.meat) in
      let b = set a (codes "vegetables") (number f.vegetables) in
      let c = set b (codes "fruits") (number f.fruits) in set c (codes "water") (number f.water)

  unfoldable pub medicine_json : MedicineSupply → Json
  medicine_json m =
      let a = set null (codes "antibiotics") (number m.antibiotics) in
      let b = set a (codes "analgesics") (number m.analgesics) in
      set b (codes "bandages") (number m.bandages)

  -- The pointers may be NULL, and are read without a test.
  unfoldable pub supplies_to_json : Option FoodSupply → Option MedicineSupply → Result Json
  unfolding food_json medicine_json
  supplies_to_json (some f) (some m) =
      ok (set (set null (codes "food") (food_json f)) (codes "medicine") (medicine_json m))
  supplies_to_json food medicine = crashes

  abbrev pub pointer : {A : Type 0} → Loaded A → Result (Option A)
  pointer (Loaded.loaded a) = ok (some a)
  pointer Loaded.null = ok none
  pointer Loaded.crashes = crashes

  -- The two loaders, as the server calls them.
  unfoldable pub load_food : Action (Option FoodSupply)
  load_food s = (pointer (get_food_supply cjson (c_api database) s.db), s)

  unfoldable pub load_medicine : Action (Option MedicineSupply)
  load_medicine s = (pointer (get_medicine_supply cjson (c_api database) s.db), s)

  -- `convertJsonToCJson`: NULL if the text is not parsed, or is `null`.
  unfoldable pub convert_json_to_cjson : Json → Result (Option cjson.Json)
  convert_json_to_cjson j = elim (dump j) [
    | none ↦ throws
    | some bytes ↦ elim (cjson.parse (some bytes)) [
      | none ↦ ok none
      | some c ↦ if cjson.is_null c then ok none else ok (some c)
    ]
  ]

  abbrev pub stored :
      State database.Db
      → Run (FoodSupply × MedicineSupply × database.Db)
      → Result (FoodSupply × MedicineSupply) × State database.Db
  stored s (Run.done (f, m, d)) = (ok (f, m), record s { db = d })
  stored s Run.crashes = (crashes, s)

  -- `update_supplies_from_json` on the two structs, with what they hold afterwards.
  unfoldable pub update_supplies :
      FoodSupply → MedicineSupply → Option cjson.Json → Action (FoodSupply × MedicineSupply)
  update_supplies f m c s =
      stored s (update_supplies_from_json cjson (c_api database) undef s.db f m c)

  unfoldable pub alerts_of : ℕ → ℕ → ℕ → ℕ → Json
  alerts_of n e w s =
      let a = set null (codes "north_entry") (number (pos n)) in
      let b = set a (codes "east_entry") (number (pos e)) in
      let c = set b (codes "west_entry") (number (pos w)) in
      set c (codes "south_entry") (number (pos s))

  unfoldable pub summary_of : Json → Json → Json → Json
  summary_of alerts supplies last =
      let a = set null (codes "alerts") alerts in
      let b = set a (codes "supplies") supplies in
      let c = set b (codes "last_keepalived") last in
      set c (codes "message") (text (codes "summary_response"))

  -- The number of values of the database with that word in them; 0 if the database does not open.
  unfoldable pub count_alerts_at : String → Action ℕ
  unfolding open_wrapper count_occurrences
  count_alerts_at entry =
      try_or 0 (do on_db (open_wrapper database); on_db (count_occurrences database (codes entry)))

  -- The summary's last event; an empty text if there is none.
  unfoldable pub get_last_event : Action Json
  unfolding open_wrapper get_value_by_key
  get_last_event = do
    value ←
        try_or []
          (do on_db (open_wrapper database); on_db (get_value_by_key database last_event_key))
    pure (set null last_event_key (text value))

  -- The numbers are of values with the word, in the order in which the code asks for them.
  unfoldable pub create_json_summary : Action Json
  unfolding count_alerts_at load_food load_medicine supplies_to_json get_last_event
  create_json_summary = do
    n ← count_alerts_at "NORTH"
    e ← count_alerts_at "EAST"
    w ← count_alerts_at "WEST"
    s ← count_alerts_at "SOUTH"
    f ← load_food
    m ← load_medicine
    supplies ← ends (supplies_to_json f m)
    last ← get_last_event
    pure (summary_of (alerts_of n e w s) supplies last)
