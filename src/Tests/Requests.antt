-- ===== src/Tests/Requests.antt =====
-- Updates of the stock by both kinds of clients, as far as what is loaded afterwards.
use shelter_server_hpc.Nlohmann.Trees.{find_exact}
use shelter_server_hpc.Supplies.Store.{update_food_supply_in_db}
use shelter_server_hpc.Supplies.Store.{update_medicine_supply_in_db}
use shelter_server_hpc.Supplies.Update.{update_field}
use shelter_server_hpc.Supplies.Update.{add_clamped}
use shelter_server_hpc.CJson.Trees.{parse_text}
use shelter_server_hpc.Nlohmann.Trees.{put_exact}
use shelter_server_hpc.Prelude.{
  ◌≡◌, refl, arith, pos, negsuc, int_max, true, some, List, [], ◌∷◌, Bytes, codes, equal, ◌+ℤ◌,
}
use shelter_server_hpc.CJson.Trees.{trees, trees-IsLawful, find_child, is_kind, number_of}
use shelter_server_hpc.CJson.Trees.Printed.{serialize}
use shelter_server_hpc.Nlohmann.Trees.{json_trees}
use shelter_server_hpc.Exec.{ok}
use shelter_server_hpc.Wrapper.{c_api}
use shelter_server_hpc.Wrapper.Entries.{Entries, insert_key}
use shelter_server_hpc.Wrapper.Memory.{ordered, ordered-IsOrdered}
use shelter_server_hpc.Supplies.Stock.{loaded}
use shelter_server_hpc.Supplies.Store.{done, food_to_json, medicine_to_json}
use shelter_server_hpc.Supplies.Load.{get_food_supply, get_medicine_supply}
use shelter_server_hpc.Supplies.Update.{update_food, update_medicine, update_supplies_from_json}
use shelter_server_hpc.Supplies.Arithmetic.{
  FoodFits, MedicineFits, requested, food_after, medicine_after,
}
use shelter_server_hpc.Server.State.{increment, latest_supplies_key}
use shelter_server_hpc.Server.Messages.{load_food, load_medicine, convert_json_to_cjson}
use shelter_server_hpc.Server.TcpMessages
use shelter_server_hpc.Server.TcpMessages.{about}
use shelter_server_hpc.Server.UdpMessages.{Datagram, handle_json}
use shelter_server_hpc.Server.TcpUpdate
use shelter_server_hpc.Server.TcpUpdate.{stock_json, update_line, Updates}
use shelter_server_hpc.Server.UdpUpdate.{
  update_entries, admin_line, refused_line, handle_json-refused, handle_json-update_latest,
}
use shelter_server_hpc.Server.StockUpdate.{handle_json-stock}
use shelter_server_hpc.Tests.Data.{
  some_food, some_medicine, some_food-IsFood, some_medicine-IsMedicine,
}
use shelter_server_hpc.Tests.Served.{libraries, stored, stored-Puts, udp_client, now, moment}
use shelter_server_hpc.Tests.Updated.{
  stock, request, serving, new_food, new_stock, new_text, loads_some_food, loads_some_medicine,
  request_converts,
}

abbrev request_datagram : Datagram
request_datagram = record { now = now; client_ip = codes "10.0.0.2"; client = udp_client }

-- The request with a host name.
abbrev from_host : Bytes → json_trees.Json
from_host host = json_trees.set request (codes "hostname") (json_trees.text host)

abbrev admin_entries : List (Bytes × Bytes)
admin_entries =
    update_entries libraries serving now (admin_line libraries request_datagram) new_text

admin_converts :
    convert_json_to_cjson libraries (from_host (codes "ubuntu"))
    ≡ ok (some (from_host (codes "ubuntu")))
unfolding convert_json_to_cjson parse_text serialize put_exact
admin_converts = refl

admin_updates :
    update_supplies_from_json trees
      (c_api ordered)
      (negsuc int_max)
      stock
      some_food
      some_medicine
      (some (from_host (codes "ubuntu")))
    ≡ done (new_food, some_medicine, new_stock)
unfolding update_supplies_from_json update_food_supply_in_db update_medicine_supply_in_db
    update_food update_medicine insert_key find_child equal put_exact is_kind update_field
    add_clamped number_of
admin_updates = refl

abbrev of_admin : Updates libraries serving (from_host (codes "ubuntu"))
of_admin = record {
  food = some_food;
  medicine = some_medicine;
  tree = some (from_host (codes "ubuntu"));
  new_food = new_food;
  new_medicine = some_medicine;
  db = new_stock;
  loads_food = loads_some_food;
  loads_medicine = loads_some_medicine;
  converts = admin_converts;
  updates = admin_updates;
}

handle_json-update_latest_example :
    (handle_json libraries request_datagram (from_host (codes "ubuntu")) serving ≡ (
      ok true,
      record serving {
        db = stored new_stock admin_entries;
        supplies_id_gen = increment (pos 1);
        log = admin_line libraries request_datagram ∷ update_line libraries serving now ∷ [];
      },
    ))
    × (ordered.get (stored new_stock admin_entries) latest_supplies_key
        ≡ ordered.get stock latest_supplies_key)
unfolding find_exact put_exact equal
handle_json-update_latest_example =
    handle_json-update_latest libraries trees-IsLawful ordered-IsOrdered request_datagram
      (from_host (codes "ubuntu")) (json_trees.text (codes "update"))
      (json_trees.text (codes "ubuntu")) new_text serving (stored new_stock admin_entries) of_admin
      refl refl refl refl refl refl (stored-Puts new_stock admin_entries)

loads_both :
    (load_food libraries serving ≡ (ok (some some_food), serving))
    × (load_medicine libraries serving ≡ (ok (some some_medicine), serving))
unfolding load_food serialize load_medicine food_to_json medicine_to_json
loads_both = (rw loads_some_food refl, rw loads_some_medicine refl)

handle_json-refused_example :
    handle_json libraries request_datagram (from_host (codes "fedora")) serving
    ≡ (ok true, record serving { log = refused_line libraries request_datagram ∷ [] })
unfolding find_exact put_exact equal
handle_json-refused_example =
    handle_json-refused libraries request_datagram (from_host (codes "fedora"))
      (json_trees.text (codes "update")) (json_trees.text (codes "fedora")) (codes "fedora")
      (some some_food) (some some_medicine) serving refl refl refl refl refl loads_both.0
      loads_both.1

-- The database after each of the two writes.
abbrev food_text : Bytes
food_text =
    serialize (food_to_json trees (update_food trees (negsuc int_max) (some request) some_food))

abbrev medicine_text : Bytes
medicine_text =
    serialize
      (medicine_to_json trees (update_medicine trees (negsuc int_max) (some request) some_medicine))

abbrev first_write : Entries
first_write = insert_key (codes "food") food_text stock

abbrev second_write : Entries
second_write = insert_key (codes "medicine") medicine_text first_write

abbrev tcp_entries : List (Bytes × Bytes)
tcp_entries =
    TcpUpdate.update_entries libraries serving now (about "Update request from TCP client " moment)
      (serialize (
        stock_json libraries (food_after trees (some request) some_food)
          (medicine_after trees (some request) some_medicine)))

request-FoodFits : FoodFits trees (some request) some_food
unfolding ◌+ℤ◌ requested find_child put_exact equal is_kind number_of
request-FoodFits = record {
  meat = omega arith;
  vegetables = omega arith;
  fruits = omega arith;
  water = omega arith;
}

request-MedicineFits : MedicineFits trees (some request) some_medicine
unfolding ◌+ℤ◌ requested find_child put_exact equal
request-MedicineFits = record {
  antibiotics = omega arith;
  analgesics = omega arith;
  bandages = omega arith;
}

handle_json-stock_example :
    let s' = (TcpMessages.handle_json libraries moment (pos 7) request serving).1 in
    (get_food_supply trees (c_api ordered) s'.db
      ≡ loaded (food_after trees (some request) some_food))
    × (get_medicine_supply trees (c_api ordered) s'.db
        ≡ loaded (medicine_after trees (some request) some_medicine))
unfolding find_exact put_exact equal
handle_json-stock_example =
    handle_json-stock libraries trees-IsLawful ordered-IsOrdered moment (pos 7) request
      (json_trees.text (codes "update"))
      (serialize (
        stock_json libraries (food_after trees (some request) some_food)
          (medicine_after trees (some request) some_medicine)))
      serving (stored second_write tcp_entries) first_write second_write some_food some_medicine
      (some request) refl refl request_converts loads_some_food loads_some_medicine some_food-IsFood
      some_medicine-IsMedicine request-FoodFits request-MedicineFits
      (record { opens = refl; text = food_text; printed = refl; put = refl })
      (record { opens = refl; text = medicine_text; printed = refl; put = refl }) refl (λ x. refl)
      refl (stored-Puts second_write tcp_entries)
