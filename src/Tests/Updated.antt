-- ===== src/Tests/Updated.antt =====
-- The update of the stock by a TCP client, at a concrete message.
use shelter_server_hpc.Supplies.Store.{update_food_supply_in_db}
use shelter_server_hpc.Supplies.Store.{update_medicine_supply_in_db}
use shelter_server_hpc.CJson.Trees.{is_kind}
use shelter_server_hpc.Supplies.Update.{update_field}
use shelter_server_hpc.Supplies.Update.{add_clamped}
use shelter_server_hpc.Supplies.Load.{medicine_of_json}
use shelter_server_hpc.Supplies.Load.{food_of_json}
use shelter_server_hpc.CJson.Trees.{find_child}
use shelter_server_hpc.CJson.Trees.{add_child}
use shelter_server_hpc.CJson.Trees.{number_of}
use shelter_server_hpc.Prelude.{
  ◌≡◌, refl, pos, negsuc, int_max, true, some, [], ◌∷◌, Bytes, codes, equal,
}
use shelter_server_hpc.CJson.Trees.{trees, parse_text}
use shelter_server_hpc.CJson.Trees.Printed.{serialize}
use shelter_server_hpc.Nlohmann.{message}
use shelter_server_hpc.Nlohmann.Trees.{json_trees, find_exact, put_exact}
use shelter_server_hpc.Exec.{ok}
use shelter_server_hpc.Wrapper.{c_api}
use shelter_server_hpc.Wrapper.Entries.{Entries, insert_key, find_key}
use shelter_server_hpc.Wrapper.Memory.{ordered}
use shelter_server_hpc.Supplies.Stock.{Loaded, FoodSupply}
use shelter_server_hpc.Supplies.Store.{done, food_to_json, medicine_to_json}
use shelter_server_hpc.Supplies.Load.{get_food_supply, get_medicine_supply}
use shelter_server_hpc.Supplies.Update.{update_food, update_medicine, update_supplies_from_json}
use shelter_server_hpc.Server.State.{State, increment}
use shelter_server_hpc.Server.Messages.{convert_json_to_cjson}
use shelter_server_hpc.Server.TcpMessages.{about, handle_json}
use shelter_server_hpc.Server.TcpUpdate.{
  stock_json, update_entries, update_line, Updates, handle_json-update,
}
use shelter_server_hpc.Tests.Data.{some_food, some_medicine}
use shelter_server_hpc.Tests.Served.{libraries, stored, stored-Puts, two_clients, now, moment}

-- The database of a server with some stock.
abbrev pub stock : Entries
stock =
    (codes "food", serialize (food_to_json trees some_food))
    ∷ (codes "medicine", serialize (medicine_to_json trees some_medicine))
    ∷ []

-- {"message": "update", "food": {"meat": -4}}
abbrev pub request : json_trees.Json
request =
    json_trees.set (message json_trees "update") (codes "food")
      (json_trees.set json_trees.null (codes "meat") (json_trees.number (negsuc 3)))

abbrev pub new_food : FoodSupply
new_food = record some_food { meat = pos 6 }

abbrev pub new_stock : Entries
new_stock =
    (codes "food", serialize (food_to_json trees new_food))
    ∷ (codes "medicine", serialize (medicine_to_json trees some_medicine))
    ∷ []

abbrev pub serving : State Entries
serving = record two_clients { db = stock }

pub loads_some_food : get_food_supply trees (c_api ordered) stock ≡ Loaded.loaded some_food
unfolding get_food_supply food_of_json find_child parse_text find_key serialize food_to_json
    add_child number_of
loads_some_food = refl

pub loads_some_medicine :
    get_medicine_supply trees (c_api ordered) stock ≡ Loaded.loaded some_medicine
unfolding get_medicine_supply medicine_of_json find_child parse_text find_key serialize
    medicine_to_json add_child number_of
loads_some_medicine = refl

pub request_converts : convert_json_to_cjson libraries request ≡ ok (some request)
unfolding convert_json_to_cjson parse_text serialize put_exact
request_converts = refl

pub request_updates :
    update_supplies_from_json trees
      (c_api ordered)
      (negsuc int_max)
      stock
      some_food
      some_medicine
      (some request)
    ≡ done (new_food, some_medicine, new_stock)
unfolding update_supplies_from_json update_food_supply_in_db update_medicine_supply_in_db
    update_food update_medicine insert_key find_child equal put_exact is_kind update_field
    add_clamped number_of
request_updates = refl

abbrev pub updates : Updates libraries serving request
updates = record {
  food = some_food;
  medicine = some_medicine;
  tree = some request;
  new_food = new_food;
  new_medicine = some_medicine;
  db = new_stock;
  loads_food = loads_some_food;
  loads_medicine = loads_some_medicine;
  converts = request_converts;
  updates = request_updates;
}

abbrev pub new_text : Bytes
new_text = serialize (stock_json libraries new_food some_medicine)

abbrev pub line : Bytes
line = about "Update request from TCP client " moment

abbrev pub updated : Entries
updated = stored new_stock (update_entries libraries serving now line new_text)

handle_json-update_example : handle_json libraries moment (pos 7) request serving ≡ (
  ok true,
  record serving {
    db = updated;
    supplies_id_gen = increment (pos 1);
    log = line ∷ update_line libraries serving now ∷ [];
  },
)
unfolding find_exact put_exact equal
handle_json-update_example =
    handle_json-update libraries moment (pos 7) request (json_trees.text (codes "update")) new_text
      serving updated updates refl refl refl refl
      (stored-Puts new_stock (update_entries libraries serving now line new_text))
