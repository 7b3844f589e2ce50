-- ===== src/Supplies/Update.antt =====
-- `update_supplies_from_json`: the amounts of a message are added to the stock, and the stock is
-- written to the database. The pointers to the stock are taken as valid.
use shelter_server_hpc.Prelude.{
  ℕ, ℤ, pos, pos_part, ◌+ℤ◌, int_max, leb, String, Option, none, some, if◌then◌else◌,
}
use shelter_server_hpc.CJson.{CJson}
use shelter_server_hpc.RocksDb.{RocksDb}
use shelter_server_hpc.Supplies.Stock.{FoodSupply, MedicineSupply}
use shelter_server_hpc.Supplies.Store.{
  Run, done, ◌>>=◌, update_food_supply_in_db, update_medicine_supply_in_db,
}

-- `(int)x` for a non-negative double. Beyond the range of `int` the C standard leaves the result
-- open: `undef` stands for what the machine gives.
unfoldable pub cast_int : ℤ → ℕ → ℤ
cast_int undef n = if leb n int_max then pos n else undef

-- `(int)fmax(0, (double)x + v)`. A double holds the sum of two `int`s exactly.
unfoldable pub add_clamped : ℤ → ℤ → ℤ → ℤ
unfolding cast_int ◌+ℤ◌
add_clamped undef x v = cast_int undef (pos_part (x +ℤ v))

module _ (C : CJson) where
  open C use {Json, get_object_item, is_object, is_number, valueint}

  -- One field: the item of that name is added if it is there and is a number.
  unfoldable pub update_field : ℤ → Json → String → ℤ → ℤ
  update_field undef object key x = elim (get_object_item (some object) key) [
    | none ↦ x
    | some item ↦ if is_number item then add_clamped undef x (valueint item) else x
  ]

  -- The four fields of a section that is an object.
  unfoldable pub add_food : ℤ → Json → FoodSupply → FoodSupply
  add_food undef object f = record {
    meat = update_field undef object "meat" f.meat;
    vegetables = update_field undef object "vegetables" f.vegetables;
    fruits = update_field undef object "fruits" f.fruits;
    water = update_field undef object "water" f.water;
  }

  unfoldable pub add_medicine : ℤ → Json → MedicineSupply → MedicineSupply
  add_medicine undef object m = record {
    antibiotics = update_field undef object "antibiotics" m.antibiotics;
    analgesics = update_field undef object "analgesics" m.analgesics;
    bandages = update_field undef object "bandages" m.bandages;
  }

  unfoldable pub update_food : ℤ → Option Json → FoodSupply → FoodSupply
  unfolding add_food
  update_food undef json f = elim (get_object_item json "food") [
    | none ↦ f
    | some object ↦ if is_object object then add_food undef object f else f
  ]

  unfoldable pub update_medicine : ℤ → Option Json → MedicineSupply → MedicineSupply
  unfolding add_medicine
  update_medicine undef json m = elim (get_object_item json "medicine") [
    | none ↦ m
    | some object ↦ if is_object object then add_medicine undef object m else m
  ]

  -- What the two structs hold afterwards, and the database.
  abbrev pub Updated : Type 0 → Type 0
  Updated D = FoodSupply × MedicineSupply × D

  unfoldable pub update_supplies_from_json :
      (R : RocksDb) → ℤ → R.Db → FoodSupply → MedicineSupply → Option Json → Run (Updated R.Db)
  update_supplies_from_json R undef d f m json =
      let f' = update_food undef json f in
      let m' = update_medicine undef json m in
      do
        d' ← update_food_supply_in_db C R d f'
        d'' ← update_medicine_supply_in_db C R d' m'
        done (f', m', d'')
