-- ===== src/Server/TcpUpdate.antt =====
-- An update of the stock by a TCP client: from the message to the keys of the database.
use shelter_server_hpc.Prelude.{
  ◌≡◌, refl, ap, ◌∙◌, ℤ, true, Option, some, List, [], ◌∷◌, ◌++◌, Bytes, codes, equal, append_assoc,
}
use shelter_server_hpc.Stdio.{print_int}
use shelter_server_hpc.Supplies.Stock.{FoodSupply, MedicineSupply, loaded}
use shelter_server_hpc.Supplies.Store.{done}
use shelter_server_hpc.Supplies.Load.{get_food_supply, get_medicine_supply}
use shelter_server_hpc.Supplies.Update.{update_supplies_from_json}
use shelter_server_hpc.Nlohmann.{string_of}
use shelter_server_hpc.Exec.{Result, ok, caught, try_or, modify, ends, pure}
use shelter_server_hpc.Exec.Steps.{bind_ok, then_ok}
use shelter_server_hpc.Wrapper.{c_api}
use shelter_server_hpc.Server.State.{
  Libraries, State, log_event, increment, get_next_id, next_supplies_id, key_of,
  supplies_key_prefix, latest_supplies_key, last_supplies_id_key, last_event_key,
}
use shelter_server_hpc.Server.Messages.{
  load_food, load_medicine, food_json, medicine_json, supplies_to_json, convert_json_to_cjson,
  update_supplies, pointer,
}
use shelter_server_hpc.Server.TcpMessages.{
  Moment, about, request_of, store_update, handle_update, handle_request, dispatch, handle_json,
}
use shelter_server_hpc.Server.Broadcast.{Puts, put_step, open_step, dump_step}

module _ (L : Libraries) where
  open L use {database, json, cjson, undef}

  -- The stock as the server writes it.
  abbrev pub stock_json : FoodSupply → MedicineSupply → json.Json
  stock_json f m =
      json.set (json.set json.null (codes "food") (food_json L f)) (codes "medicine")
        (medicine_json L m)

  -- What an update writes, for the identifier that is next.
  abbrev pub update_entries : State database.Db → Bytes → Bytes → Bytes → List (Bytes × Bytes)
  update_entries s now line bytes =
      let id = print_int s.supplies_id_gen in
      (key_of supplies_key_prefix id now, bytes)
      ∷ (latest_supplies_key, bytes)
      ∷ (last_supplies_id_key, id)
      ∷ (last_event_key, line)
      ∷ []

  abbrev pub update_line : State database.Db → Bytes → Bytes
  update_line s now =
      codes "Supplies update written to RocksDB with key: "
      ++ key_of supplies_key_prefix (print_int s.supplies_id_gen) now

  store_update_lem :
      (now line bytes : Bytes) (f : FoodSupply) (m : MedicineSupply) (s : State database.Db)
      (d : database.Db)
      → json.dump (stock_json f m) ≡ some bytes
      → database.opens s.db ≡ true
      → Puts database s.db (update_entries s now line bytes) d
      → store_update L now line f m s ≡ (
        ok tt,
        record s {
          db = d;
          supplies_id_gen = increment s.supplies_id_gen;
          log = s.log ++ (update_line s now ∷ []);
        },
      )
  unfolding store_update try_or next_supplies_id get_next_id log_event modify supplies_to_json ends
  store_update_lem now line bytes f m s d j o (d₁, p₁, (d₂, p₂, (d₃, p₃, (d₄, p₄, e)))) =
      let s₀ : State database.Db = record s { supplies_id_gen = increment s.supplies_id_gen } in
      let after : database.Db → Result (Unit {0}) × State database.Db =
        λ x. (ok tt, record s₀ { db = x; log = s.log ++ (update_line s now ∷ []) }) in
      ap (caught tt) (
        bind_ok _ _ s s₀ (print_int s.supplies_id_gen) refl
        ∙ bind_ok _ _ s₀ s₀ (stock_json f m) refl
        ∙ bind_ok _ _ s₀ s₀ bytes (dump_step L (stock_json f m) bytes s₀ j)
        ∙ then_ok _ _ s₀ s₀ tt (open_step L s₀ o)
        ∙ then_ok _ _ s₀ (record s₀ { db = d₁ }) tt (put_step L _ _ s₀ d₁ p₁)
        ∙ then_ok _ _ _ (record s₀ { db = d₂ }) tt (put_step L _ _ (record s₀ { db = d₁ }) d₂ p₂)
        ∙ then_ok _ _ _ (record s₀ { db = d₃ }) tt (put_step L _ _ (record s₀ { db = d₂ }) d₃ p₃)
        ∙ then_ok _ _ _ (record s₀ { db = d₄ }) tt (put_step L _ _ (record s₀ { db = d₃ }) d₄ p₄)
        ∙ ap after e)

  -- The stock is loaded, the message converted, and the update of the stock ends.
  pub record Updates (s : State database.Db) (j : json.Json) : Type 0 where
    pub food : FoodSupply
    pub medicine : MedicineSupply
    pub tree : Option cjson.Json
    pub new_food : FoodSupply
    pub new_medicine : MedicineSupply
    pub db : database.Db
    pub loads_food : get_food_supply cjson (c_api database) s.db ≡ loaded food
    pub loads_medicine : get_medicine_supply cjson (c_api database) s.db ≡ loaded medicine
    pub converts : convert_json_to_cjson L j ≡ ok tree
    pub updates :
        update_supplies_from_json cjson (c_api database) undef s.db food medicine tree
        ≡ done (new_food, new_medicine, db)

  pub update_supplies_lem :
      (s s₁ : State database.Db) (j : json.Json) (u : Updates s j)
      → s₁.db ≡ s.db
      → update_supplies L u.food u.medicine u.tree s₁
        ≡ (ok (u.new_food, u.new_medicine), record s₁ { db = u.db })
  unfolding update_supplies
  update_supplies_lem s s₁ j u e = rw (e, u.updates) refl

  handle_update_lem :
      (t : Moment) (j : json.Json) (bytes : Bytes) (s : State database.Db) (d : database.Db)
      (u : Updates s j)
      → json.dump (stock_json u.new_food u.new_medicine) ≡ some bytes
      → database.opens u.db ≡ true
      → Puts database u.db
          (update_entries s t.now (about "Update request from TCP client " t) bytes)
          d
      → handle_update L t j (some u.food) (some u.medicine) s ≡ (
        ok tt,
        record s {
          db = d;
          supplies_id_gen = increment s.supplies_id_gen;
          log = s.log ++ (about "Update request from TCP client " t ∷ update_line s t.now ∷ []);
        },
      )
  unfolding handle_update log_event modify ends
  handle_update_lem t j bytes s d u b o p =
      let line : Bytes = about "Update request from TCP client " t in
      let s₁ : State database.Db = record s { log = s.log ++ (line ∷ []) } in
      let s₂ : State database.Db = record s₁ { db = u.db } in
      then_ok _ _ s s₁ tt refl
      ∙ bind_ok _ _ s₁ s₁ u.tree (ap (λ (r : Result (Option cjson.Json)). (r, s₁)) u.converts)
      ∙ bind_ok _ _ s₁ s₂ (u.new_food, u.new_medicine) (update_supplies_lem s s₁ j u refl)
      ∙ store_update_lem t.now line bytes u.new_food u.new_medicine s₂ d b o p
      ∙ simp append_assoc refl

  pub loads :
      (s : State database.Db) (j : json.Json) (u : Updates s j)
      → (load_food L s ≡ (ok (some u.food), s)) × (load_medicine L s ≡ (ok (some u.medicine), s))
  unfolding load_food load_medicine
  loads s j u = (rw (u.loads_food, pointer) refl, rw (u.loads_medicine, pointer) refl)

  -- A message of any TCP client, authenticated or not, whose member `message` is the text "update",
  -- updates the stock, if the stock is loaded, the message converted, and every write of the update and
  -- of the server succeeds: the new stock is stored under a key with the next identifier and as the
  -- latest one, with the identifier and the event; nothing is sent, and the connection stays.
  pub handle_json-update :
      (t : Moment) (fd : ℤ) (j m : json.Json) (bytes : Bytes) (s : State database.Db)
      (d : database.Db) (u : Updates s j)
      → json.find j (codes "message") ≡ some m
      → json.get_text m ≡ some (codes "update")
      → json.dump (stock_json u.new_food u.new_medicine) ≡ some bytes
      → database.opens u.db ≡ true
      → Puts database u.db
          (update_entries s t.now (about "Update request from TCP client " t) bytes)
          d
      → handle_json L t fd j s ≡ (
        ok true,
        record s {
          db = d;
          supplies_id_gen = increment s.supplies_id_gen;
          log = s.log ++ (about "Update request from TCP client " t ∷ update_line s t.now ∷ []);
        },
      )
  unfolding handle_json dispatch handle_request request_of equal ends pure
  handle_json-update t fd j m bytes s d u found_message is_update b o p =
      let (food_loads, medicine_loads) = loads s j u in
      let value : string_of json m ≡ ok (codes "update") = rw (is_update, string_of) refl in
      rw (found_message, handle_json)
        (bind_ok _ _ s s (codes "update") (ap (λ (r : Result Bytes). (r, s)) value)
          ∙ then_ok _ _ s _ tt (
              bind_ok _ _ s s (some u.food) food_loads
              ∙ bind_ok _ _ s s (some u.medicine) medicine_loads
              ∙ handle_update_lem t j bytes s d u b o p))
