-- ===== src/Server/FrameTcp.antt =====
-- What `checkTcpClientsMsgs` keeps, if the update of the stock does.
use shelter_server_hpc.Prelude.{
  ◌≡◌, refl, arith, ℤ, true, false, Option, none, some, [], ◌∷◌, Bytes, codes, equal,
}
use shelter_server_hpc.Supplies.Stock.{FoodSupply, MedicineSupply}
use shelter_server_hpc.Nlohmann.{is_text, string_of}
use shelter_server_hpc.Exec.{◌>>=◌, ends}
use shelter_server_hpc.Exec.Keeps.{Keeps, Keeps-then, Keeps-pure, Keeps-Option, Keeps-bind_ends}
use shelter_server_hpc.Server.State.{Libraries, State}
use shelter_server_hpc.Server.Messages.{Received, recv_tcp_json}
use shelter_server_hpc.Server.Frame.{Primitives}
use shelter_server_hpc.Server.FrameMessages.{
  message_rules, create_json_summary-Keeps, send_image_list-Keeps, send_image-Keeps,
}
use shelter_server_hpc.Server.TcpMessages
use shelter_server_hpc.Server.TcpMessages.{Moment}
use shelter_server_hpc.Server.Asks.{
  has_text, asks_update, tcp_asks_update, is_text_of_string, UpdateKeeps,
}

module _ (L : Libraries) (P : State L.database.Db → Type 0) (prim : Primitives L P) where
  open L use {database, json, cjson}

  handle_authenticateme-Keeps :
      (t : Moment) (fd : ℤ) (j : json.Json) → Keeps P (TcpMessages.handle_authenticateme L t fd j)
  unfolding TcpMessages.handle_authenticateme
  handle_authenticateme-Keeps t fd j =
      Keeps-Option (json.find j (codes "hostname")) (search message_rules)
        (λ h _. search message_rules depth 20)

  tcp_status-Keeps :
      (t : Moment) (fd : ℤ) (f : Option FoodSupply) (m : Option MedicineSupply)
      → Keeps P (TcpMessages.handle_status L t fd f m)
  unfolding TcpMessages.handle_status
  tcp_status-Keeps t fd f m = search message_rules depth 20

  tcp_store-Keeps :
      (now line : Bytes) (f : FoodSupply) (m : MedicineSupply)
      → Keeps P (TcpMessages.store_update L now line f m)
  unfolding TcpMessages.store_update
  tcp_store-Keeps now line f m = search message_rules depth 20

  tcp_update-Keeps :
      (t : Moment) (j : json.Json) (f : Option FoodSupply) (m : Option MedicineSupply)
      → UpdateKeeps L P
      → Keeps P (TcpMessages.handle_update L t j f m)
  unfolding TcpMessages.handle_update
  tcp_update-Keeps t j none m k = search message_rules depth 20
  tcp_update-Keeps t j (some f) none k = search message_rules depth 20
  tcp_update-Keeps t j (some f) (some m) k = search (message_rules, tcp_store-Keeps, k) depth 20

  tcp_summary-Keeps : (t : Moment) (fd : ℤ) → Keeps P (TcpMessages.handle_summary L t fd)
  unfolding TcpMessages.handle_summary
  tcp_summary-Keeps t fd = search (message_rules, create_json_summary-Keeps) depth 20

  image_selection-Keeps :
      (fd : ℤ) (j : json.Json) → Keeps P (TcpMessages.handle_image_selection L fd j)
  unfolding TcpMessages.handle_image_selection
  image_selection-Keeps fd j = search (message_rules, send_image-Keeps) depth 20

  tcp_request-Keeps :
      (t : Moment) (fd : ℤ) (j : json.Json) (r : TcpMessages.Request)
      → (r ≡ TcpMessages.Request.update → UpdateKeeps L P)
      → Keeps P (TcpMessages.handle_request L t fd j r)
  unfolding TcpMessages.handle_request
  tcp_request-Keeps t fd j TcpMessages.Request.authenticateme k = search message_rules depth 20
  tcp_request-Keeps t fd j TcpMessages.Request.status k =
      search (message_rules, tcp_status-Keeps) depth 20
  tcp_request-Keeps t fd j TcpMessages.Request.update k =
      search (message_rules, tcp_update-Keeps, k refl) depth 20
  tcp_request-Keeps t fd j TcpMessages.Request.summary k =
      search (message_rules, tcp_summary-Keeps) depth 20
  tcp_request-Keeps t fd j TcpMessages.Request.request_available_images k =
      search (message_rules, send_image_list-Keeps) depth 20
  tcp_request-Keeps t fd j TcpMessages.Request.image_selection k =
      search (message_rules, image_selection-Keeps) depth 20
  tcp_request-Keeps t fd j TcpMessages.Request.invalid k = search message_rules depth 20

  dispatch-Keeps :
      (t : Moment) (fd : ℤ) (j : json.Json) (r : TcpMessages.Request)
      → (r ≡ TcpMessages.Request.update → UpdateKeeps L P)
      → Keeps P (TcpMessages.dispatch L t fd j r)
  unfolding TcpMessages.dispatch
  dispatch-Keeps t fd j TcpMessages.Request.authenticateme k = handle_authenticateme-Keeps t fd j
  dispatch-Keeps t fd j r k = Keeps-then (tcp_request-Keeps t fd j r k) (Keeps-pure true)

  request_of-update :
      (v : Bytes)
      → TcpMessages.request_of v ≡ TcpMessages.Request.update
      → equal v (codes "update") ≡ true
  unfolding TcpMessages.request_of
  request_of-update v e = ground arith

  dispatch_of-Keeps :
      (t : Moment) (fd : ℤ) (j : json.Json) (v : Bytes)
      → (equal v (codes "update") ≡ true → UpdateKeeps L P)
      → Keeps P (TcpMessages.dispatch L t fd j (TcpMessages.request_of v))
  dispatch_of-Keeps t fd j v k =
      dispatch-Keeps t fd j (TcpMessages.request_of v) (λ e. k (request_of-update v e))

  tcp_message-Keeps :
      (t : Moment) (fd : ℤ) (j m : json.Json)
      → (is_text json m (codes "update") ≡ true → UpdateKeeps L P)
      → Keeps P (do
        value ← ends (string_of json m)
        TcpMessages.dispatch L t fd j (TcpMessages.request_of value))
  tcp_message-Keeps t fd j m k =
      Keeps-bind_ends (string_of json m) _
        λ v e. dispatch_of-Keeps t fd j v (λ u. k (is_text_of_string L m v (codes "update") e u))

  tcp_json-Keeps :
      (t : Moment) (fd : ℤ) (j : json.Json)
      → (has_text L "message" "update" j ≡ true → UpdateKeeps L P)
      → Keeps P (TcpMessages.handle_json L t fd j)
  unfolding TcpMessages.handle_json
  tcp_json-Keeps t fd j k =
      Keeps-Option (json.find j (codes "message")) (Keeps-pure true)
        λ m e. tcp_message-Keeps t fd j m (λ u. k (rw (e, has_text) u))

  tcp_text-Keeps :
      (t : Moment) (fd : ℤ) (text : Bytes)
      → (asks_update L text ≡ true → UpdateKeeps L P)
      → Keeps P (TcpMessages.handle_text L t fd text)
  unfolding TcpMessages.handle_text
  tcp_text-Keeps t fd [] k = Keeps-pure false
  tcp_text-Keeps t fd (b ∷ bs) k =
      Keeps-Option (json.parse (b ∷ bs)) (Keeps-pure false)
        λ j e. tcp_json-Keeps t fd j (λ u. k (rw (e, asks_update) u))

  pub check_tcp_clients_msgs-Keeps :
      (t : Moment) (fd : ℤ) (r : Received)
      → (tcp_asks_update L r ≡ true → UpdateKeeps L P)
      → Keeps P (TcpMessages.check_tcp_clients_msgs L t fd r)
  unfolding TcpMessages.check_tcp_clients_msgs
  check_tcp_clients_msgs-Keeps t fd r k =
      Keeps-bind_ends (recv_tcp_json r) _
        λ text e. tcp_text-Keeps t fd text (λ u. k (rw (e, tcp_asks_update) u))
