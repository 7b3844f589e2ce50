-- ===== src/Server/StockUpdate.antt =====
-- From the message of a TCP client to what the loaders of lib/suppliesData then read.
use shelter_server_hpc.Prelude.{◌≡◌, refl, ◌∙◌, ℤ, true, Option, some, List, Bytes, codes, equal}
use shelter_server_hpc.CJson
use shelter_server_hpc.Supplies.Stock.{
  FoodSupply, MedicineSupply, IsFood, IsMedicine, loaded, food_key, medicine_key,
}
use shelter_server_hpc.Supplies.Store.{food_to_json, medicine_to_json}
use shelter_server_hpc.Supplies.Load.{load_json, get_food_supply, get_medicine_supply}
use shelter_server_hpc.Supplies.Update.{update_food, update_medicine}
use shelter_server_hpc.Supplies.Arithmetic.{FoodFits, MedicineFits, food_after, medicine_after}
use shelter_server_hpc.Supplies.RoundTrip.{Commits}
use shelter_server_hpc.Supplies.Transaction.{update_supplies_from_json_lem}
use shelter_server_hpc.Exec.{ok}
use shelter_server_hpc.Wrapper.{c_api}
use shelter_server_hpc.Wrapper.Entries.{IsOrdered}
use shelter_server_hpc.Wrapper.CApi.{c_api-IsLawful}
use shelter_server_hpc.Server.State.{Libraries, State}
use shelter_server_hpc.Server.Messages.{convert_json_to_cjson}
use shelter_server_hpc.Server.TcpMessages.{Moment, about, handle_json}
use shelter_server_hpc.Server.Broadcast.{Puts}
use shelter_server_hpc.Server.Writes.{get-Puts}
use shelter_server_hpc.Server.TcpUpdate.{stock_json, update_entries, Updates, handle_json-update}

module _ (L : Libraries) (N : CJson.IsLawful L.cjson) (W : IsOrdered L.database) where
  open L use {database, json, cjson, undef}

  -- The loaders read the same where the stock and the way the database opens are the same.
  loads-same :
      (d d' : database.Db)
      → database.opens_read_only d ≡ true
      → database.opens_read_only d' ≡ true
      → database.get d' (codes "food") ≡ database.get d (codes "food")
      → database.get d' (codes "medicine") ≡ database.get d (codes "medicine")
      → (get_food_supply cjson (c_api database) d' ≡ get_food_supply cjson (c_api database) d)
        × (get_medicine_supply cjson (c_api database) d'
            ≡ get_medicine_supply cjson (c_api database) d)
  unfolding get_food_supply get_medicine_supply load_json
  loads-same d d' o o' f m = (rw (o, o', f) refl, rw (o, o', m) refl)

  -- If a TCP client sends an update, the stock is valid and loaded, no sum passes the largest `int`,
  -- and every write succeeds, then after the message both loaders read max(0, amount + requested) in
  -- every field, whatever the server has written behind the stock.
  pub handle_json-stock :
      (t : Moment) (fd : ℤ) (j m : json.Json) (bytes : Bytes) (s : State database.Db)
      (d d' d'' : database.Db) (f : FoodSupply) (k : MedicineSupply) (tree : Option cjson.Json)
      → json.find j (codes "message") ≡ some m
      → json.get_text m ≡ some (codes "update")
      → convert_json_to_cjson L j ≡ ok tree
      → get_food_supply cjson (c_api database) s.db ≡ loaded f
      → get_medicine_supply cjson (c_api database) s.db ≡ loaded k
      → IsFood f
      → IsMedicine k
      → FoodFits cjson tree f
      → MedicineFits cjson tree k
      → Commits cjson
          (c_api database)
          s.db
          d'
          food_key
          (food_to_json cjson (update_food cjson undef tree f))
      → Commits cjson
          (c_api database)
          d'
          d''
          medicine_key
          (medicine_to_json cjson (update_medicine cjson undef tree k))
      → database.opens d'' ≡ true
      → ((x : database.Db) → database.opens_read_only x ≡ true)
      → json.dump (stock_json L (food_after cjson tree f) (medicine_after cjson tree k))
        ≡ some bytes
      → Puts database d''
          (update_entries L s t.now (about "Update request from TCP client " t) bytes)
          d
      → let s' = (handle_json L t fd j s).1 in
        (get_food_supply cjson (c_api database) s'.db ≡ loaded (food_after cjson tree f))
        × (get_medicine_supply cjson (c_api database) s'.db ≡ loaded (medicine_after cjson tree k))
  unfolding equal
  handle_json-stock t fd j m bytes s d d' d'' f k tree fm um c lf lk vf vk ff fk c₁ c₂ o r b p =
      let (updates, food, medicine) =
        update_supplies_from_json_lem cjson N (c_api database) (c_api-IsLawful database W) undef
          s.db d' d'' f k tree vf vk ff fk c₁ c₂ (r d') (r d'') in
      let u : Updates L s j = record {
        food = f;
        medicine = k;
        tree = tree;
        new_food = food_after cjson tree f;
        new_medicine = medicine_after cjson tree k;
        db = d'';
        loads_food = lf;
        loads_medicine = lk;
        converts = c;
        updates = updates;
      } in
      let entries : List (Bytes × Bytes) =
        update_entries L s t.now (about "Update request from TCP client " t) bytes in
      let same =
        loads-same d'' d (r d'') (r d)
          (get-Puts database W d'' d (codes "food") entries (refl, (refl, (refl, (refl, tt)))) p)
          (get-Puts database W d'' d (codes "medicine") entries (refl, (refl, (refl, (refl, tt))))
            p) in
      rw (handle_json-update L t fd j m bytes s d u fm um b o p) (same.0 ∙ food, same.1 ∙ medicine)
