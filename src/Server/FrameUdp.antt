-- ===== src/Server/FrameUdp.antt =====
-- What `checkUdpClientsMsgs` keeps, if the update of the stock does.
use shelter_server_hpc.Prelude.{
  ◌≡◌, refl, arith, true, false, inl, inr, Option, none, some, Bytes, codes, equal, Bool-cases,
}
use shelter_server_hpc.Supplies.Stock.{FoodSupply, MedicineSupply}
use shelter_server_hpc.Nlohmann.{is_text, string_of}
use shelter_server_hpc.Exec.Keeps.{
  Keeps, Keeps-then, Keeps-bind, Keeps-pure, Keeps-if, Keeps-Option, Keeps-bind_ends,
}
use shelter_server_hpc.Server.Listing.{list_udp_client}
use shelter_server_hpc.Server.State.{Libraries, State, admin_user}
use shelter_server_hpc.Server.Messages.{Received, recv_udp_json}
use shelter_server_hpc.Server.Frame.{Primitives, log_event-Keeps}
use shelter_server_hpc.Server.FrameMessages.{
  message_rules, create_json_summary-Keeps, load_food-Keeps, load_medicine-Keeps,
}
use shelter_server_hpc.Server.UdpMessages
use shelter_server_hpc.Server.UdpMessages.{Datagram}
use shelter_server_hpc.Server.Asks.{has_text, udp_asks_update, is_text_of_string, UpdateKeeps}

module _ (L : Libraries) (P : State L.database.Db → Type 0) (prim : Primitives L P) where
  open L use {database, json, cjson}

  udp_store-Keeps :
      (now line : Bytes) (f : FoodSupply) (m : MedicineSupply)
      → Keeps P (UdpMessages.store_update L now line f m)
  unfolding UdpMessages.store_update
  udp_store-Keeps now line f m = search message_rules depth 20

  update_pointers-Keeps :
      (f : Option FoodSupply) (m : Option MedicineSupply) (j : json.Json)
      → UpdateKeeps L P
      → Keeps P (UdpMessages.update_pointers L f m j)
  unfolding UdpMessages.update_pointers
  update_pointers-Keeps none m j k = search message_rules
  update_pointers-Keeps (some f) none j k = search message_rules
  update_pointers-Keeps (some f) (some m) j k = search (message_rules, k) depth 20

  udp_update-Keeps :
      (d : Datagram) (j : json.Json) (auth : Bytes) (f : Option FoodSupply)
      (m : Option MedicineSupply)
      → (equal auth admin_user ≡ true → UpdateKeeps L P)
      → Keeps P (UdpMessages.handle_update L d j auth f m)
  unfolding UdpMessages.handle_update
  udp_update-Keeps d j auth f m k = elim (Bool-cases (equal auth admin_user)) [
    | inl e ↦ rw e (
        Keeps-bind _ (update_pointers-Keeps f m j (k e))
          λ (f', m'). Keeps-then (log_event-Keeps L P prim _) (udp_store-Keeps d.now _ f' m'))
    | inr e ↦ rw e (search message_rules)
  ]

  udp_status-Keeps :
      (d : Datagram) (f : Option FoodSupply) (m : Option MedicineSupply)
      → Keeps P (UdpMessages.handle_status L d f m)
  unfolding UdpMessages.handle_status
  udp_status-Keeps d f m = search message_rules depth 20

  udp_summary-Keeps : (d : Datagram) → Keeps P (UdpMessages.handle_summary L d)
  unfolding UdpMessages.handle_summary
  udp_summary-Keeps d = search (message_rules, create_json_summary-Keeps) depth 20

  udp_request-Keeps :
      (d : Datagram) (j : json.Json) (auth : Bytes) (r : UdpMessages.Request)
      → (r ≡ UdpMessages.Request.update → equal auth admin_user ≡ true → UpdateKeeps L P)
      → Keeps P (UdpMessages.handle_request L d j auth r)
  unfolding UdpMessages.handle_request
  udp_request-Keeps d j auth UdpMessages.Request.update k =
      Keeps-bind _ (load_food-Keeps L P prim)
        λ f. Keeps-bind _ (load_medicine-Keeps L P prim) λ m. udp_update-Keeps d j auth f m (k refl)
  udp_request-Keeps d j auth UdpMessages.Request.status k =
      search (message_rules, udp_status-Keeps) depth 20
  udp_request-Keeps d j auth UdpMessages.Request.summary k =
      search (message_rules, udp_summary-Keeps) depth 20
  udp_request-Keeps d j auth UdpMessages.Request.invalid k = search message_rules depth 20

  udp_request_of-update :
      (v : Bytes)
      → UdpMessages.request_of v ≡ UdpMessages.Request.update
      → equal v (codes "update") ≡ true
  unfolding UdpMessages.request_of
  udp_request_of-update v e = ground arith

  udp_members-Keeps :
      (d : Datagram) (j m h : json.Json)
      → (is_text json m (codes "update") ≡ true
          → is_text json h admin_user ≡ true
          → UpdateKeeps L P)
      → Keeps P (UdpMessages.handle_members L d j m h)
  unfolding UdpMessages.handle_members
  udp_members-Keeps d j m h k = Keeps-bind_ends (string_of json m) _ λ v e.
      Keeps-bind_ends (string_of json h) _ λ auth a.
        Keeps-then
          (udp_request-Keeps d j auth (UdpMessages.request_of v) (λ u w.
            k (is_text_of_string L m v (codes "update") e (udp_request_of-update v u))
              (is_text_of_string L h auth admin_user a w)))
          (Keeps-pure true)

  udp_json-Keeps :
      (d : Datagram) (j : json.Json)
      → (has_text L "message" "update" j ≡ true
          → has_text L "hostname" "ubuntu" j ≡ true
          → UpdateKeeps L P)
      → Keeps P (UdpMessages.handle_json L d j)
  unfolding UdpMessages.handle_json
  udp_json-Keeps d j k = Keeps-Option (json.find j (codes "message")) (Keeps-pure false) λ m e.
      Keeps-Option (json.find j (codes "hostname")) (Keeps-pure false)
        λ h f. udp_members-Keeps d j m h (λ u w. k (rw (e, has_text) u) (rw (f, has_text) w))

  pub check_udp_clients_msgs-Keeps :
      (d : Datagram) (r : Received)
      → Keeps P (list_udp_client d.client)
      → (udp_asks_update L r ≡ true → UpdateKeeps L P)
      → Keeps P (UdpMessages.check_udp_clients_msgs L d r)
  unfolding UdpMessages.check_udp_clients_msgs
  check_udp_clients_msgs-Keeps d r l k =
      Keeps-if (json.is_empty (recv_udp_json L r)) (Keeps-pure false)
        (Keeps-then l (udp_json-Keeps d (recv_udp_json L r) (λ u w. k (rw (u, w) refl))))
