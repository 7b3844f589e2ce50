-- ===== src/Server/Asks.antt =====
-- Which messages ask the server for an update of the stock.
use shelter_server_hpc.Prelude.{
  ◌≡◌, arith, Bool, true, false, ◌&&◌, Option, none, some, [], ◌∷◌, Bytes, String, codes, equal,
}
use shelter_server_hpc.Supplies.Stock.{FoodSupply, MedicineSupply}
use shelter_server_hpc.Nlohmann.{is_text, string_of}
use shelter_server_hpc.Exec.{ok, throws, exits, crashes}
use shelter_server_hpc.Exec.Keeps.{Keeps}
use shelter_server_hpc.Server.State.{Libraries, State}
use shelter_server_hpc.Server.Messages.{Received, recv_tcp_json, recv_udp_json, update_supplies}

module _ (L : Libraries) where
  open L use {database, json, cjson}

  -- Whether a member of a value is that text.
  abbrev pub has_text : String → String → json.Json → Bool
  has_text name words j = elim (json.find j (codes name)) [
    | none ↦ false
    | some m ↦ is_text json m (codes words)
  ]

  pub is_text_of_string :
      (m : json.Json) (v words : Bytes)
      → string_of json m ≡ ok v
      → equal v words ≡ true
      → is_text json m words ≡ true
  is_text_of_string m v words e u = ground arith

  -- Whether a message of a TCP client asks for an update.
  abbrev pub asks_update : Bytes → Bool
  asks_update [] = false
  asks_update (b ∷ bs) = elim (json.parse (b ∷ bs)) [
    | none ↦ false
    | some j ↦ has_text "message" "update" j
  ]

  abbrev pub tcp_asks_update : Received → Bool
  tcp_asks_update r = elim (recv_tcp_json r) [
    | ok text ↦ asks_update text
    | throws ↦ false
    | exits ↦ false
    | crashes ↦ false
  ]

  -- Whether a datagram asks for an update in the name of the admin.
  abbrev pub udp_asks_update : Received → Bool
  udp_asks_update r =
      has_text "message" "update" (recv_udp_json L r)
      && has_text "hostname" "ubuntu" (recv_udp_json L r)

  -- The update of the stock keeps a predicate.
  abbrev pub UpdateKeeps : (State database.Db → Type 0) → Type 0
  UpdateKeeps P =
      (f : FoodSupply) (m : MedicineSupply) (c : Option cjson.Json)
      → Keeps P (update_supplies L f m c)
