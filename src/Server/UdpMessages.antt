-- ===== src/Server/UdpMessages.antt =====
-- `checkUdpClientsMsgs`, with the parts of its branches.
use shelter_server_hpc.Prelude.{
  Bool, true, false, Option, none, some, ◌++◌, Bytes, codes, equal, if◌then◌else◌,
}
use shelter_server_hpc.Supplies.Stock.{FoodSupply, MedicineSupply}
use shelter_server_hpc.Nlohmann.{string_of}
use shelter_server_hpc.Exec.{crashes, pure, ends, nothing, catching, ◌>>=◌, ◌>>◌}
use shelter_server_hpc.Wrapper.Operations.{open_wrapper, put}
use shelter_server_hpc.Server.Tables.{UdpClientData}
use shelter_server_hpc.Server.Listing.{list_udp_client}
use shelter_server_hpc.Server.State.{
  Libraries, on_db, log_event, next_supplies_id, admin_user, key_of, supplies_key_prefix,
  last_supplies_id_key, last_event_key,
}
use shelter_server_hpc.Server.Messages.{
  Received, recv_udp_json, Action, dump_or_throw, send_json_to_udp_client, supplies_to_json,
  load_food, load_medicine, convert_json_to_cjson, update_supplies, create_json_summary,
}

-- What the system gives with one datagram: the text of `getCurrentTimestamp`, the text of the sender's
-- address, and the entry for the list of clients.
pub record Datagram : Type 0 where
  pub now : Bytes
  pub client_ip : Bytes
  pub client : UdpClientData

pub data Request : Type 0 where
  update status summary invalid : Request

unfoldable pub request_of : Bytes → Request
unfolding equal
request_of t =
    if equal t (codes "update")
    then update
    else if equal t (codes "status")
    then status
    else if equal t (codes "summary")
    then summary
    else invalid

module _ (L : Libraries) where
  open L use {json, cjson, database}
  open json use {Json, text, set, find}

  -- The pointers may be NULL: then one is read at the latest by `suppliesToJson`.
  unfoldable pub update_pointers :
      Option FoodSupply → Option MedicineSupply → Json → Action L (FoodSupply × MedicineSupply)
  unfolding convert_json_to_cjson update_supplies
  update_pointers (some f) (some m) j = do
    c ← ends (convert_json_to_cjson L j)
    update_supplies L f m c
  update_pointers food medicine j = do _ ← ends (convert_json_to_cjson L j); ends crashes

  -- The identifier is written first; the latest stock is not.
  unfoldable pub store_update : Bytes → Bytes → FoodSupply → MedicineSupply → Action L (Unit {0})
  unfolding next_supplies_id supplies_to_json open_wrapper put
  store_update now line food medicine = catching (do
    id ← next_supplies_id
    supplies ← ends (supplies_to_json L (some food) (some medicine))
    bytes ← ends (dump_or_throw L supplies)
    on_db (open_wrapper database)
    on_db (put database last_supplies_id_key id)
    on_db (put database (key_of supplies_key_prefix id now) bytes)
    on_db (put database last_event_key line)
    log_event (
        codes "Supplies update written to RocksDB with key: " ++ key_of supplies_key_prefix id now))

  unfoldable pub handle_update :
      Datagram → Json → Bytes → Option FoodSupply → Option MedicineSupply → Action L (Unit {0})
  unfolding update_pointers store_update equal
  handle_update d j auth food medicine =
      if equal auth admin_user
      then (do
        (f', m') ← update_pointers food medicine j
        log_event (codes "Update request from authenticated UDP client " ++ d.client_ip)
        store_update d.now (codes "Update request from authenticated UDP client " ++ d.client_ip) f'
            m')
      else log_event (codes "Update request from not authenticated UDP client " ++ d.client_ip)

  unfoldable pub handle_status :
      Datagram → Option FoodSupply → Option MedicineSupply → Action L (Unit {0})
  unfolding supplies_to_json open_wrapper put
  handle_status d food medicine =
      let line = codes "Status request from UDP client " ++ d.client_ip in
      do
        log_event line
        supplies ← ends (supplies_to_json L food medicine)
        send_json_to_udp_client L d.client supplies
        catching (do on_db (open_wrapper database); on_db (put database last_event_key line))

  unfoldable pub handle_summary : Datagram → Action L (Unit {0})
  unfolding create_json_summary
  handle_summary d = do
    log_event (codes "Summary request from UDP client " ++ d.client_ip)
    answer ← create_json_summary L
    send_json_to_udp_client L d.client answer

  unfoldable pub handle_request : Datagram → Json → Bytes → Request → Action L (Unit {0})
  unfolding handle_update handle_status handle_summary load_food load_medicine
  handle_request d j auth request = do
    food ← load_food L
    medicine ← load_medicine L
    elim request [
      | update ↦ handle_update d j auth food medicine
      | status ↦ handle_status d food medicine
      | summary ↦ handle_summary d
      | invalid ↦ nothing
    ]

  -- The two strings are converted before anything else; each conversion may throw.
  unfoldable pub handle_members : Datagram → Json → Json → Json → Action L Bool
  unfolding handle_request request_of
  handle_members d j m h = do
    value ← ends (string_of json m)
    auth ← ends (string_of json h)
    handle_request d j auth (request_of value) >> pure true

  unfoldable pub handle_json : Datagram → Json → Action L Bool
  unfolding handle_members
  handle_json d j = elim (find j (codes "message")) [
    | none ↦ pure false
    | some m ↦ elim (find j (codes "hostname")) [
      | none ↦ pure false
      | some h ↦ handle_members d j m h
    ]
  ]

  -- The sender of a datagram that gives null, an empty object or an empty array is not listed.
  unfoldable pub check_udp_clients_msgs : Datagram → Received → Action L Bool
  unfolding recv_udp_json handle_json list_udp_client
  check_udp_clients_msgs d r =
      let j = recv_udp_json L r in
      if json.is_empty j then pure false else (do list_udp_client d.client; handle_json d j)
