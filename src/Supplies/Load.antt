-- ===== src/Supplies/Load.antt =====
-- `get_food_supply` and `get_medicine_supply`. A member that is missing is a NULL pointer, of which
-- the code reads the field `valueint`.
use shelter_server_hpc.Prelude.{ℤ, String, Option, none, some, if◌then◌else◌}
use shelter_server_hpc.CJson.{CJson}
use shelter_server_hpc.RocksDb.{RocksDb, failed, found}
use shelter_server_hpc.Supplies.Stock.{
  FoodSupply, MedicineSupply, Loaded, loaded, null, crashes, food_key, medicine_key,
}

infixl 5 ◌>>=◌
abbrev pub ◌>>=◌ : {A B : Type 0} → Loaded A → (A → Loaded B) → Loaded B
loaded a >>= f = f a
null >>= f = null
crashes >>= f = crashes

module _ (C : CJson) where
  open C use {Json, get_object_item, valueint}

  -- `cJSON_GetObjectItem(json, key)->valueint`
  unfoldable pub read_int : Option Json → String → Loaded ℤ
  read_int json key = elim (get_object_item json key) [
    | none ↦ crashes
    | some item ↦ loaded (valueint item)
  ]

  unfoldable pub food_of_json : Option Json → Loaded FoodSupply
  unfolding read_int
  food_of_json json = do
    m ← read_int json "meat"
    v ← read_int json "vegetables"
    f ← read_int json "fruits"
    w ← read_int json "water"
    loaded (record { meat = m; vegetables = v; fruits = f; water = w })

  unfoldable pub medicine_of_json : Option Json → Loaded MedicineSupply
  unfolding read_int
  medicine_of_json json = do
    t ← read_int json "antibiotics"
    g ← read_int json "analgesics"
    b ← read_int json "bandages"
    loaded (record { antibiotics = t; analgesics = g; bandages = b })

  module _ (R : RocksDb) where
    open R use {Db, opens_read_only, get}

    -- Opens the database, reads the value of a key, and hands its parse to a reader.
    unfoldable pub load_json : {A : Type 0} → Db → String → (Option Json → Loaded A) → Loaded A
    load_json d key read =
        if opens_read_only d
        then elim (get d key) [ failed ↦ null | found value ↦ read (C.parse value) ]
        else null

    unfoldable pub get_food_supply : Db → Loaded FoodSupply
    unfolding load_json
    get_food_supply d = load_json d food_key food_of_json

    unfoldable pub get_medicine_supply : Db → Loaded MedicineSupply
    unfolding load_json
    get_medicine_supply d = load_json d medicine_key medicine_of_json
