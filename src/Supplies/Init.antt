-- ===== src/Supplies/Init.antt =====
-- `init_rocksdb_supplies`: each key that the database lacks gets a default value.
use shelter_server_hpc.Prelude.{Bool, true, false, String, none, some, Bytes, codes, if◌then◌else◌}
use shelter_server_hpc.RocksDb.{RocksDb, failed, found, refused, written}
use shelter_server_hpc.Supplies.Stock.{food_key, medicine_key}

abbrev pub default_food : Bytes
default_food = codes "{\"meat\": 0, \"vegetables\": 0, \"fruits\": 0, \"water\": 0}"

abbrev pub default_medicine : Bytes
default_medicine = codes "{\"antibiotics\": 0, \"analgesics\": 0, \"bandages\": 0}"

module _ (R : RocksDb) where
  open R use {Db, opens, get, put}

  -- The database, and whether the function goes on (an error makes it return).
  unfoldable pub ensure_key : Db → String → Bytes → Db × Bool
  ensure_key d key default = elim (get d key) [
    | failed ↦ (d, false)
    | found (some value) ↦ (d, true)
    | found none ↦ elim (put d key default) [ refused ↦ (d, false) | written d' ↦ (d', true) ]
  ]

  unfoldable pub init_rocksdb_supplies : Db → Db
  unfolding ensure_key
  init_rocksdb_supplies d =
      if opens d
      then (let (d', more) = ensure_key d food_key default_food in
          if more then (ensure_key d' medicine_key default_medicine).0 else d')
      else d
