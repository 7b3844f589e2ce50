-- ===== src/Supplies/Initial.antt =====
-- `init_rocksdb_supplies`, and the loaders on a database with and without the keys.
use shelter_server_hpc.Prelude.{
  ◌≡◌, ◌≢◌, refl, sym, ◌∙◌, arith, true, String, Option, none, some, Bytes,
}
use shelter_server_hpc.CJson.{CJson, IsLawful}
use shelter_server_hpc.RocksDb
use shelter_server_hpc.RocksDb.{RocksDb, Writes, found}
use shelter_server_hpc.Supplies.Stock.{
  food_key, medicine_key, loaded, crashes, no_food, no_medicine,
}
use shelter_server_hpc.Supplies.Load.{read_int, food_of_json, get_food_supply, get_medicine_supply}
use shelter_server_hpc.Supplies.Store.{food_to_json, medicine_to_json}
use shelter_server_hpc.Supplies.Init.{
  ensure_key, init_rocksdb_supplies, default_food, default_medicine,
}
use shelter_server_hpc.Supplies.RoundTrip.{
  food_of_json-food_to_json, medicine_of_json-medicine_to_json,
}
use shelter_server_hpc.Supplies.Transaction.{food_key-ne-medicine_key}

module _ (C : CJson) (L : IsLawful C) (R : RocksDb) where
  -- On a database that opens but has no food key, the loader reads a NULL pointer.
  pub get_food_supply_missing :
      (d : R.Db)
      → R.opens_read_only d ≡ true
      → R.get d food_key ≡ found none
      → get_food_supply C R d ≡ crashes
  unfolding get_food_supply food_of_json
  get_food_supply_missing d o e = rw (o, e, L.parse_null) (rw (L.get_null "meat", read_int))

module _ (R : RocksDb) (D : RocksDb.IsLawful R) (W : Writes R) where
  -- The value of a key after the function has made sure of it.
  abbrev value_or : Option Bytes → Bytes → Bytes
  value_or none default = default
  value_or (some v) default = v

  ensure_key-get :
      (d : R.Db) (key : String) (default : Bytes) (o : Option Bytes)
      → R.get d key ≡ found o
      → ((ensure_key R d key default).1 ≡ true)
        × (R.get (ensure_key R d key default).0 key ≡ found (some (value_or o default)))
        × ((other : String)
            → other ≢ key
            → R.get (ensure_key R d key default).0 other ≡ R.get d other)
  unfolding ensure_key
  ensure_key-get d key default (some v) e = rw (e, ensure_key) (refl, e, λ other ne. refl)
  ensure_key-get d key default none e =
      let (d', w) = W d key default in
      rw (e, w, ensure_key)
        (
          refl,
          D.get-put_self d d' key default w,
          λ other ne. D.get-put_ne d d' key other default w ne,
        )

  -- On a database that works, each of the two keys has its old value afterwards, or the default if
  -- it had none.
  pub init_rocksdb_supplies-get :
      (d : R.Db) (food medicine : Option Bytes)
      → R.opens d ≡ true
      → R.get d food_key ≡ found food
      → R.get d medicine_key ≡ found medicine
      → (R.get (init_rocksdb_supplies R d) food_key ≡ found (some (value_or food default_food)))
        × (R.get (init_rocksdb_supplies R d) medicine_key
            ≡ found (some (value_or medicine default_medicine)))
  unfolding init_rocksdb_supplies
  init_rocksdb_supplies-get d food medicine o f m =
      let (more, f₁, frame₁) = ensure_key-get d food_key default_food food f in
      let m₁ = frame₁ medicine_key (λ e. food_key-ne-medicine_key (sym e)) ∙ m in
      let (_, m₂, frame₂) = ensure_key-get _ medicine_key default_medicine medicine m₁ in
      rw (o, more) (frame₂ food_key food_key-ne-medicine_key ∙ f₁, m₂)

  ensure_key-present :
      (d : R.Db) (key : String) (default v : Bytes)
      → R.get d key ≡ found (some v)
      → ensure_key R d key default ≡ (d, true)
  unfolding ensure_key
  ensure_key-present d key default v e = rw (e, ensure_key)

  -- On a database that works, a second run changes nothing, if the database still opens.
  pub init_rocksdb_supplies-init_rocksdb_supplies :
      (d : R.Db) (food medicine : Option Bytes)
      → R.opens d ≡ true
      → R.get d food_key ≡ found food
      → R.get d medicine_key ≡ found medicine
      → R.opens (init_rocksdb_supplies R d) ≡ true
      → init_rocksdb_supplies R (init_rocksdb_supplies R d) ≡ init_rocksdb_supplies R d
  init_rocksdb_supplies-init_rocksdb_supplies d food medicine o f m again =
      let (f₁, m₁) = init_rocksdb_supplies-get d food medicine o f m in
      unfold init_rocksdb_supplies in
      rw (
        again,
        ensure_key-present _ food_key default_food _ f₁,
        ensure_key-present _ medicine_key default_medicine _ m₁,
      )

module _ (C : CJson) (L : IsLawful C) (R : RocksDb) (D : RocksDb.IsLawful R) (W : Writes R) where
  -- On a database that works and has neither key, both loaders read amounts of 0 afterwards, if the
  -- library parses the two default texts to the objects that they spell.
  pub init_rocksdb_supplies-loads :
      (d : R.Db)
      → R.opens d ≡ true
      → R.get d food_key ≡ found none
      → R.get d medicine_key ≡ found none
      → R.opens_read_only (init_rocksdb_supplies R d) ≡ true
      → C.parse (some default_food) ≡ some (food_to_json C no_food)
      → C.parse (some default_medicine) ≡ some (medicine_to_json C no_medicine)
      → (get_food_supply C R (init_rocksdb_supplies R d) ≡ loaded no_food)
        × (get_medicine_supply C R (init_rocksdb_supplies R d) ≡ loaded no_medicine)
  init_rocksdb_supplies-loads d o f m o' pf pm =
      let (f₁, m₁) = init_rocksdb_supplies-get R D W d none none o f m in
      (
        unfold get_food_supply in
            rw (o', f₁, pf) (food_of_json-food_to_json C L no_food (omega arith)),
        unfold get_medicine_supply in
            rw (o', m₁, pm) (medicine_of_json-medicine_to_json C L no_medicine (omega arith)),
      )
