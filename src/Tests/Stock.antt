-- ===== src/Tests/Stock.antt =====
-- The theorems on the stock, at concrete inputs.
use text.Mathlib.TextEquality.{eq_iff}
use shelter_server_hpc.Prelude.{
  equal, ◌≡◌, ◌≢◌, refl, ◌↔◌, ◌≤◌, arith, pos, negsuc, ◌+ℤ◌, pos_part, int_max, String, none, some,
  [], ◌∷◌, Bytes,
}
use shelter_server_hpc.CJson.Trees.{
  trees, trees-IsLawful, find_child, add_child, is_kind, number_of, parse_text, parse_tree,
}
use shelter_server_hpc.CJson.Trees.Printed.{serialize}
use shelter_server_hpc.RocksDb.{found}
use shelter_server_hpc.RocksDb.Memory.{memory, memory-IsLawful, memory-Writes, get-empty, Pairs}
use shelter_server_hpc.Supplies.Stock.{
  food_key, medicine_key, loaded, no_food, no_medicine, IsAmount,
}
use shelter_server_hpc.Supplies.Store.{
  done, food_to_json, medicine_to_json, update_food_supply_in_db,
}
use shelter_server_hpc.Supplies.Load.{get_food_supply, get_medicine_supply}
use shelter_server_hpc.Supplies.Update.{
  update_food, update_medicine, update_supplies_from_json, add_clamped,
}
use shelter_server_hpc.Supplies.Init.{init_rocksdb_supplies, default_food, default_medicine}
use shelter_server_hpc.Supplies.Arithmetic.{
  clamped_sum, requested, amount_in, FoodFits, MedicineFits, food_after, medicine_after,
}
use shelter_server_hpc.Supplies.Bounds.{add_clamped-IsAmount_iff}
use shelter_server_hpc.Supplies.RoundTrip.{Commits, get_food_supply-update_food_supply_in_db}
use shelter_server_hpc.Supplies.Transaction.{
  update_supplies_from_json_lem, update_supplies_from_json-get_ne,
}
use shelter_server_hpc.Supplies.Initial.{init_rocksdb_supplies-get, init_rocksdb_supplies-loads}
use shelter_server_hpc.Tests.Data.{
  some_food, some_medicine, some_food-IsFood, some_medicine-IsMedicine, request,
}

-- The texts that the update writes, and the database after each of the two writes.
abbrev food_text : Bytes
food_text = serialize (food_to_json trees (update_food trees (negsuc 0) (some request) some_food))

abbrev medicine_text : Bytes
medicine_text =
    serialize
      (medicine_to_json trees (update_medicine trees (negsuc 0) (some request) some_medicine))

abbrev first_write : Pairs
first_write = (food_key, food_text) ∷ []

abbrev second_write : Pairs
second_write = (medicine_key, medicine_text) ∷ first_write

request_fits_food : FoodFits trees (some request) some_food
unfolding requested amount_in equal find_child add_child is_kind number_of ◌+ℤ◌
request_fits_food = record {
  meat = omega arith;
  vegetables = omega arith;
  fruits = omega arith;
  water = omega arith;
}

request_fits_medicine : MedicineFits trees (some request) some_medicine
unfolding requested amount_in equal find_child add_child is_kind number_of ◌+ℤ◌
request_fits_medicine = record {
  antibiotics = omega arith;
  analgesics = omega arith;
  bandages = omega arith;
}

commits :
    (d : Pairs) (key : String) (json : trees.Json)
    → Commits trees memory d ((key, serialize json) ∷ d) key json
commits d key json = record { opens = refl; text = serialize json; printed = refl; put = refl }

update_supplies_from_json_lem_example :
    (update_supplies_from_json trees memory (negsuc 0) [] some_food some_medicine (some request)
      ≡ done (
        food_after trees (some request) some_food,
        medicine_after trees (some request) some_medicine,
        second_write,
      ))
    × (get_food_supply trees memory second_write
        ≡ loaded (food_after trees (some request) some_food))
    × (get_medicine_supply trees memory second_write
        ≡ loaded (medicine_after trees (some request) some_medicine))
update_supplies_from_json_lem_example =
    update_supplies_from_json_lem trees trees-IsLawful memory memory-IsLawful (negsuc 0) []
      first_write second_write some_food some_medicine (some request) some_food-IsFood
      some_medicine-IsMedicine request_fits_food request_fits_medicine (commits [] food_key _)
      (commits first_write medicine_key _) refl refl

-- Of 10 rations of meat, 4 are taken.
food_after-request : food_after trees (some request) some_food ≡ record some_food { meat = pos 6 }
unfolding requested amount_in equal find_child add_child is_kind number_of ◌+ℤ◌ clamped_sum
food_after-request = refl

get_food_supply-update_food_supply_in_db_example :
    (update_food_supply_in_db trees memory [] some_food
      ≡ done ((food_key, serialize (food_to_json trees some_food)) ∷ []))
    × (get_food_supply trees memory ((food_key, serialize (food_to_json trees some_food)) ∷ [])
        ≡ loaded some_food)
get_food_supply-update_food_supply_in_db_example =
    get_food_supply-update_food_supply_in_db trees trees-IsLawful memory memory-IsLawful [] _
      some_food some_food-IsFood (commits [] food_key (food_to_json trees some_food)) refl

other_food : "shelter" ≢ food_key
other_food = ground (arith, eq_iff "shelter" food_key)

other_medicine : "shelter" ≢ medicine_key
other_medicine = ground (arith, eq_iff "shelter" medicine_key)

update_supplies_from_json-get_ne_example :
    memory.get second_write "shelter" ≡ memory.get [] "shelter"
update_supplies_from_json-get_ne_example =
    update_supplies_from_json-get_ne trees trees-IsLawful memory memory-IsLawful (negsuc 0) []
      second_write some_food (food_after trees (some request) some_food) some_medicine
      (medicine_after trees (some request) some_medicine) (some request) "shelter" other_food
      other_medicine update_supplies_from_json_lem_example.0

food_parses : trees.parse (some default_food) ≡ some (food_to_json trees no_food)
unfolding parse_text parse_tree food_to_json add_child
food_parses = refl

medicine_parses : trees.parse (some default_medicine) ≡ some (medicine_to_json trees no_medicine)
unfolding parse_text parse_tree medicine_to_json add_child
medicine_parses = refl

init_rocksdb_supplies-get_example :
    (memory.get (init_rocksdb_supplies memory []) food_key ≡ found (some default_food))
    × (memory.get (init_rocksdb_supplies memory []) medicine_key ≡ found (some default_medicine))
init_rocksdb_supplies-get_example =
    init_rocksdb_supplies-get memory memory-IsLawful memory-Writes [] none none refl
      (get-empty food_key) (get-empty medicine_key)

init_rocksdb_supplies-loads_example :
    (get_food_supply trees memory (init_rocksdb_supplies memory []) ≡ loaded no_food)
    × (get_medicine_supply trees memory (init_rocksdb_supplies memory []) ≡ loaded no_medicine)
init_rocksdb_supplies-loads_example =
    init_rocksdb_supplies-loads trees trees-IsLawful memory memory-IsLawful memory-Writes [] refl
      (get-empty food_key) (get-empty medicine_key) refl food_parses medicine_parses

add_clamped-IsAmount_iff_example :
    IsAmount (add_clamped (negsuc 0) (pos 3) (negsuc 4)) ↔ (pos_part (pos 3 +ℤ negsuc 4) ≤ int_max)
add_clamped-IsAmount_iff_example =
    add_clamped-IsAmount_iff (negsuc 0) (pos 3) (negsuc 4) (λ h. ground arith)
