-- ===== src/Supplies/Store.antt =====
-- `update_food_supply_in_db` and `update_medicine_supply_in_db`. Every error is printed and
-- otherwise ignored, so that the database is then left as it was.
use shelter_server_hpc.Prelude.{String, none, some, if◌then◌else◌}
use shelter_server_hpc.CJson.{CJson, add_number_to_object}
use shelter_server_hpc.RocksDb.{RocksDb, refused, written}
use shelter_server_hpc.Supplies.Stock.{FoodSupply, MedicineSupply, food_key, medicine_key}

-- A function that works on the database ends with the database, or reads a NULL pointer.
pub data Run (D : Type 0) : Type 0 where
  done : D → Run D
  crashes : Run D

infixl 5 ◌>>=◌
abbrev pub ◌>>=◌ : {A B : Type 0} → Run A → (A → Run B) → Run B
done a >>= f = f a
crashes >>= f = crashes

module _ (C : CJson) where
  open C use {Json, create_object, print_unformatted}

  unfoldable pub food_to_json : FoodSupply → Json
  food_to_json f =
      let a = add_number_to_object C create_object "meat" f.meat in
      let b = add_number_to_object C a "vegetables" f.vegetables in
      let c = add_number_to_object C b "fruits" f.fruits in add_number_to_object C c "water" f.water

  unfoldable pub medicine_to_json : MedicineSupply → Json
  medicine_to_json m =
      let a = add_number_to_object C create_object "antibiotics" m.antibiotics in
      let b = add_number_to_object C a "analgesics" m.analgesics in
      add_number_to_object C b "bandages" m.bandages

  module _ (R : RocksDb) where
    open R use {Db, opens, put}

    -- Prints a tree and writes it under a key; `strlen` reads the printed text.
    unfoldable pub store_json : Db → String → Json → Run Db
    store_json d key json =
        if opens d
        then elim (print_unformatted json) [
          | none ↦ crashes
          | some text ↦ elim (put d key text) [ refused ↦ done d | written d' ↦ done d' ]
        ]
        else done d

    unfoldable pub update_food_supply_in_db : Db → FoodSupply → Run Db
    unfolding store_json food_to_json
    update_food_supply_in_db d f = store_json d food_key (food_to_json f)

    unfoldable pub update_medicine_supply_in_db : Db → MedicineSupply → Run Db
    unfolding store_json medicine_to_json
    update_medicine_supply_in_db d m = store_json d medicine_key (medicine_to_json m)
