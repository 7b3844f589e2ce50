-- ===== src/Server/TcpMessages.antt =====
-- `checkTcpClientsMsgs`, with the parts of its branches.
use shelter_server_hpc.Prelude.{
  ℤ, Bool, true, false, String, Option, none, some, List, [], ◌∷◌, ◌++◌, Bytes, codes, equal,
  if◌then◌else◌,
}
use shelter_server_hpc.Supplies.Stock.{FoodSupply, MedicineSupply}
use shelter_server_hpc.Nlohmann.{message, string_of, is_text}
use shelter_server_hpc.Exec.{Result, throws, pure, ends, nothing, catching, ◌>>=◌, ◌>>◌}
use shelter_server_hpc.Wrapper.Operations.{open_wrapper, put}
use shelter_server_hpc.Server.State.{
  Libraries, on_db, log_event, next_supplies_id, admin_user, key_of, supplies_key_prefix,
  latest_supplies_key, last_supplies_id_key, last_event_key,
}
use shelter_server_hpc.Server.Messages.{
  Received, Peername, get_tcp_client_ip, recv_tcp_json, Action, dump_or_throw,
  send_json_to_tcp_client, supplies_to_json, load_food, load_medicine, convert_json_to_cjson,
  update_supplies, create_json_summary,
}
use shelter_server_hpc.Server.Images.{send_image_list, send_image}

-- What the system gives while one message is handled: the text of `getCurrentTimestamp`, the address
-- of the client, and the listing of the directory of the images.
pub record Moment : Type 0 where
  pub now : Bytes
  pub peername : Peername
  pub image_directory : List (Bool × Bytes)

-- A line of the log about a client.
abbrev pub about : String → Moment → Bytes
about words t = codes words ++ get_tcp_client_ip t.peername

-- The texts that the `if` chain of the code compares with.
pub data Request : Type 0 where
  authenticateme status update summary request_available_images image_selection invalid : Request

unfoldable pub request_of : Bytes → Request
unfolding equal
request_of t =
    if equal t (codes "authenticateme")
    then authenticateme
    else if equal t (codes "status")
    then status
    else if equal t (codes "update")
    then update
    else if equal t (codes "summary")
    then summary
    else if equal t (codes "request_available_images")
    then request_available_images
    else if equal t (codes "image_selection")
    then image_selection
    else invalid

module _ (L : Libraries) where
  open L use {json, cjson, database}
  open json use {Json, null, text, set, find, parse}

  -- Without a host's name nothing is done; with another name than the admin's the answer is false, on
  -- which the caller closes the connection.
  unfoldable pub handle_authenticateme : Moment → ℤ → Json → Action L Bool
  handle_authenticateme t client_fd j = elim (find j (codes "hostname")) [
    | none ↦ pure true
    | some hostname ↦
        if is_text json hostname admin_user
        then (do
          log_event (about "Update request from authenticated TCP client " t)
          send_json_to_tcp_client L client_fd (message json "auth_success")
          pure true)
        else (do
          log_event (about "Update request from not authenticated TCP client " t)
          send_json_to_tcp_client L client_fd (message json "auth_failure")
          pure false)
  ]

  unfoldable pub handle_status :
      Moment → ℤ → Option FoodSupply → Option MedicineSupply → Action L (Unit {0})
  unfolding supplies_to_json open_wrapper put
  handle_status t client_fd food medicine =
      let line = about "Status request from TCP client " t in
      do
        log_event line
        supplies ← ends (supplies_to_json L food medicine)
        send_json_to_tcp_client L client_fd
            (set supplies (codes "message") (text (codes "supplies_response")))
        catching (do on_db (open_wrapper database); on_db (put database last_event_key line))

  -- The new stock is written under a key of its own and as the latest one, then the identifier and the
  -- event.
  unfoldable pub store_update : Bytes → Bytes → FoodSupply → MedicineSupply → Action L (Unit {0})
  unfolding next_supplies_id supplies_to_json open_wrapper put
  store_update now line food medicine = catching (do
    id ← next_supplies_id
    supplies ← ends (supplies_to_json L (some food) (some medicine))
    bytes ← ends (dump_or_throw L supplies)
    on_db (open_wrapper database)
    on_db (put database (key_of supplies_key_prefix id now) bytes)
    on_db (put database latest_supplies_key bytes)
    on_db (put database last_supplies_id_key id)
    on_db (put database last_event_key line)
    log_event (
        codes "Supplies update written to RocksDB with key: " ++ key_of supplies_key_prefix id now))

  unfoldable pub handle_update :
      Moment → Json → Option FoodSupply → Option MedicineSupply → Action L (Unit {0})
  unfolding store_update convert_json_to_cjson update_supplies
  handle_update t j (some f) (some m) = do
    log_event (about "Update request from TCP client " t)
    c ← ends (convert_json_to_cjson L j)
    (f', m') ← update_supplies L f m c
    store_update t.now (about "Update request from TCP client " t) f' m'
  handle_update t j food medicine = log_event (about "Update request from TCP client " t)

  unfoldable pub handle_summary : Moment → ℤ → Action L (Unit {0})
  unfolding create_json_summary
  handle_summary t client_fd = do
    log_event (about "Summary request from TCP client " t)
    answer ← create_json_summary L
    send_json_to_tcp_client L client_fd answer

  -- `received_json["image"]` is null without such a member, which is no string.
  abbrev pub selected_name : Json → Result Bytes
  selected_name j = elim (find j (codes "image")) [
    | none ↦ throws
    | some name ↦ string_of json name
  ]

  unfoldable pub handle_image_selection : ℤ → Json → Action L (Unit {0})
  handle_image_selection client_fd j = do name ← ends (selected_name j); send_image L client_fd name

  -- A request that is no authentication: the stock is loaded first.
  unfoldable pub handle_request : Moment → ℤ → Json → Request → Action L (Unit {0})
  unfolding handle_status handle_update handle_summary handle_image_selection load_food
      load_medicine
  handle_request t client_fd j request = do
    food ← load_food L
    medicine ← load_medicine L
    elim request [
      | authenticateme ↦ nothing
      | status ↦ handle_status t client_fd food medicine
      | update ↦ handle_update t j food medicine
      | summary ↦ handle_summary t client_fd
      | request_available_images ↦ (do
        log_event (codes "Request for available images received from TCP client")
        send_image_list L client_fd t.image_directory)
      | image_selection ↦ handle_image_selection client_fd j
      | invalid ↦ log_event (about "Invalid request received from TCP client " t)
    ]

  unfoldable pub dispatch : Moment → ℤ → Json → Request → Action L Bool
  unfolding handle_authenticateme handle_request
  dispatch t client_fd j authenticateme = handle_authenticateme t client_fd j
  dispatch t client_fd j request = handle_request t client_fd j request >> pure true

  -- A message that is no string throws outside of every `try`.
  unfoldable pub handle_json : Moment → ℤ → Json → Action L Bool
  unfolding dispatch request_of
  handle_json t client_fd j = elim (find j (codes "message")) [
    | none ↦ pure true
    | some m ↦ do value ← ends (string_of json m); dispatch t client_fd j (request_of value)
  ]

  unfoldable pub handle_text : Moment → ℤ → Bytes → Action L Bool
  unfolding handle_json
  handle_text t client_fd [] = pure false
  handle_text t client_fd (b ∷ bs) = elim (parse (b ∷ bs)) [
    | none ↦ pure false
    | some j ↦ handle_json t client_fd j
  ]

  -- The answer is false if the connection is to be closed.
  unfoldable pub check_tcp_clients_msgs : Moment → ℤ → Received → Action L Bool
  unfolding recv_tcp_json handle_text
  check_tcp_clients_msgs t client_fd r = do
    bytes ← ends (recv_tcp_json r)
    handle_text t client_fd bytes
