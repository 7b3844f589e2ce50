-- ===== src/Server/UdpUpdate.antt =====
-- An update of the stock by a datagram, with the host name that the code takes for the admin's, and
-- with another one.
use text.Mathlib.TextEquality.{eq_iff}
use shelter_server_hpc.Prelude.{
  ◌≡◌, refl, ap, ◌∙◌, arith, true, false, Option, some, List, [], ◌∷◌, ◌++◌, Bytes, codes, equal,
  append_assoc,
}
use shelter_server_hpc.Stdio.{print_int}
use shelter_server_hpc.CJson
use shelter_server_hpc.Supplies.Stock.{FoodSupply, MedicineSupply, food_key, medicine_key}
use shelter_server_hpc.Supplies.Transaction.{update_supplies_from_json-get_ne}
use shelter_server_hpc.Nlohmann.{string_of}
use shelter_server_hpc.Exec.{Result, ok, caught, try_or, modify, ends, pure}
use shelter_server_hpc.Exec.Steps.{bind_ok, then_ok}
use shelter_server_hpc.Wrapper.{c_api}
use shelter_server_hpc.Wrapper.Entries.{IsOrdered}
use shelter_server_hpc.Wrapper.CApi.{c_api-IsLawful}
use shelter_server_hpc.Server.Writes.{get-Puts}
use shelter_server_hpc.Server.State.{
  Libraries, State, log_event, increment, get_next_id, next_supplies_id, key_of,
  supplies_key_prefix, latest_supplies_key, last_supplies_id_key, last_event_key,
}
use shelter_server_hpc.Server.Messages.{supplies_to_json, load_food, load_medicine}
use shelter_server_hpc.Server.UdpMessages.{
  Datagram, request_of, update_pointers, store_update, handle_update, handle_request,
  handle_members, handle_json,
}
use shelter_server_hpc.Server.Broadcast.{Puts, put_step, open_step, dump_step}
use shelter_server_hpc.Server.TcpUpdate.{
  stock_json, update_line, Updates, update_supplies_lem, loads,
}

module _ (L : Libraries) where
  open L use {database, json, cjson}

  -- What such an update writes, for the identifier that is next.
  abbrev pub update_entries : State database.Db → Bytes → Bytes → Bytes → List (Bytes × Bytes)
  update_entries s now line bytes =
      let id = print_int s.supplies_id_gen in
      (last_supplies_id_key, id)
      ∷ (key_of supplies_key_prefix id now, bytes)
      ∷ (last_event_key, line)
      ∷ []

  abbrev pub admin_line : Datagram → Bytes
  admin_line d = codes "Update request from authenticated UDP client " ++ d.client_ip

  abbrev pub refused_line : Datagram → Bytes
  refused_line d = codes "Update request from not authenticated UDP client " ++ d.client_ip

  store_update_lem :
      (now line bytes : Bytes) (f : FoodSupply) (m : MedicineSupply) (s : State database.Db)
      (d : database.Db)
      → json.dump (stock_json L f m) ≡ some bytes
      → database.opens s.db ≡ true
      → Puts database s.db (update_entries s now line bytes) d
      → store_update L now line f m s ≡ (
        ok tt,
        record s {
          db = d;
          supplies_id_gen = increment s.supplies_id_gen;
          log = s.log ++ (update_line L s now ∷ []);
        },
      )
  unfolding store_update try_or next_supplies_id get_next_id log_event modify supplies_to_json ends
  store_update_lem now line bytes f m s d j o (d₁, p₁, (d₂, p₂, (d₃, p₃, e))) =
      let s₀ : State database.Db = record s { supplies_id_gen = increment s.supplies_id_gen } in
      let after : database.Db → Result (Unit {0}) × State database.Db =
        λ x. (ok tt, record s₀ { db = x; log = s.log ++ (update_line L s now ∷ []) }) in
      ap (caught tt) (
        bind_ok _ _ s s₀ (print_int s.supplies_id_gen) refl
        ∙ bind_ok _ _ s₀ s₀ (stock_json L f m) refl
        ∙ bind_ok _ _ s₀ s₀ bytes (dump_step L (stock_json L f m) bytes s₀ j)
        ∙ then_ok _ _ s₀ s₀ tt (open_step L s₀ o)
        ∙ then_ok _ _ s₀ (record s₀ { db = d₁ }) tt (put_step L _ _ s₀ d₁ p₁)
        ∙ then_ok _ _ _ (record s₀ { db = d₂ }) tt (put_step L _ _ (record s₀ { db = d₁ }) d₂ p₂)
        ∙ then_ok _ _ _ (record s₀ { db = d₃ }) tt (put_step L _ _ (record s₀ { db = d₂ }) d₃ p₃)
        ∙ ap after e)

  update_pointers_lem :
      (s : State database.Db) (j : json.Json) (u : Updates L s j)
      → update_pointers L (some u.food) (some u.medicine) j s
        ≡ (ok (u.new_food, u.new_medicine), record s { db = u.db })
  unfolding update_pointers ends
  update_pointers_lem s j u =
      bind_ok _ _ s s u.tree (ap (λ (r : Result (Option cjson.Json)). (r, s)) u.converts)
      ∙ update_supplies_lem L s s j u refl

  handle_update_lem :
      (t : Datagram) (j : json.Json) (bytes : Bytes) (s : State database.Db) (d : database.Db)
      (u : Updates L s j)
      → json.dump (stock_json L u.new_food u.new_medicine) ≡ some bytes
      → database.opens u.db ≡ true
      → Puts database u.db (update_entries s t.now (admin_line t) bytes) d
      → handle_update L t j (codes "ubuntu") (some u.food) (some u.medicine) s ≡ (
        ok tt,
        record s {
          db = d;
          supplies_id_gen = increment s.supplies_id_gen;
          log = s.log ++ (admin_line t ∷ update_line L s t.now ∷ []);
        },
      )
  unfolding handle_update log_event modify equal
  handle_update_lem t j bytes s d u b o p =
      let s₁ : State database.Db = record s { db = u.db } in
      let s₂ : State database.Db = record s₁ { log = s.log ++ (admin_line t ∷ []) } in
      bind_ok _ _ s s₁ (u.new_food, u.new_medicine) (update_pointers_lem s j u)
      ∙ then_ok _ _ s₁ s₂ tt refl
      ∙ store_update_lem t.now (admin_line t) bytes u.new_food u.new_medicine s₂ d b o p
      ∙ simp append_assoc refl

  handle_json_update :
      (t : Datagram) (j m h : json.Json) (bytes : Bytes) (s : State database.Db) (d : database.Db)
      (u : Updates L s j)
      → json.find j (codes "message") ≡ some m
      → json.find j (codes "hostname") ≡ some h
      → json.get_text m ≡ some (codes "update")
      → json.get_text h ≡ some (codes "ubuntu")
      → json.dump (stock_json L u.new_food u.new_medicine) ≡ some bytes
      → database.opens u.db ≡ true
      → Puts database u.db (update_entries s t.now (admin_line t) bytes) d
      → handle_json L t j s ≡ (
        ok true,
        record s {
          db = d;
          supplies_id_gen = increment s.supplies_id_gen;
          log = s.log ++ (admin_line t ∷ update_line L s t.now ∷ []);
        },
      )
  unfolding handle_json handle_members handle_request request_of equal ends pure
  handle_json_update t j m h bytes s d u found_message found_host is_update is_admin b o p =
      let (food_loads, medicine_loads) = loads L s j u in
      let value : string_of json m ≡ ok (codes "update") = rw (is_update, string_of) refl in
      let host : string_of json h ≡ ok (codes "ubuntu") = rw (is_admin, string_of) refl in
      rw (found_message, handle_json)
        (rw (found_host, handle_json)
          (bind_ok _ _ s s (codes "update") (ap (λ (r : Result Bytes). (r, s)) value)
            ∙ bind_ok _ _ s s (codes "ubuntu") (ap (λ (r : Result Bytes). (r, s)) host)
            ∙ then_ok _ _ s _ tt (
                bind_ok _ _ s s (some u.food) food_loads
                ∙ bind_ok _ _ s s (some u.medicine) medicine_loads
                ∙ handle_update_lem t j bytes s d u b o p)))

  -- A datagram whose member `hostname` is a text other than "ubuntu" does not update the stock: it only
  -- adds a line to the log, if both loaders return.
  pub handle_json-refused :
      (t : Datagram) (j m h : json.Json) (host : Bytes) (food : Option FoodSupply)
      (medicine : Option MedicineSupply) (s : State database.Db)
      → json.find j (codes "message") ≡ some m
      → json.find j (codes "hostname") ≡ some h
      → json.get_text m ≡ some (codes "update")
      → json.get_text h ≡ some host
      → equal host (codes "ubuntu") ≡ false
      → load_food L s ≡ (ok food, s)
      → load_medicine L s ≡ (ok medicine, s)
      → handle_json L t j s ≡ (ok true, record s { log = s.log ++ (refused_line t ∷ []) })
  unfolding handle_json handle_members handle_request handle_update request_of equal ends pure
      log_event modify
  handle_json-refused t j m h host food medicine s found_message found_host is_update is_host other
        f g =
      let value : string_of json m ≡ ok (codes "update") = rw (is_update, string_of) refl in
      let name : string_of json h ≡ ok host = rw (is_host, string_of) refl in
      rw (found_message, handle_json)
        (rw (found_host, handle_json)
          (bind_ok _ _ s s (codes "update") (ap (λ (r : Result Bytes). (r, s)) value)
            ∙ bind_ok _ _ s s host (ap (λ (r : Result Bytes). (r, s)) name)
            ∙ then_ok _ _ s _ tt
                (bind_ok _ _ s s food f ∙ bind_ok _ _ s s medicine g ∙ rw other refl)))

module _ (L : Libraries) (N : CJson.IsLawful L.cjson) (W : IsOrdered L.database) where
  open L use {database, json, cjson, undef}

  -- An update of the stock by the admin's datagram is stored under a key with the next identifier, with
  -- the identifier and the event, if the stock is loaded, the message converted and all writes succeed.
  -- Unlike the update of a TCP client it leaves the latest stock of the REST interface as it was.
  pub handle_json-update_latest :
      (t : Datagram) (j m h : json.Json) (bytes : Bytes) (s : State database.Db) (d : database.Db)
      (u : Updates L s j)
      → json.find j (codes "message") ≡ some m
      → json.find j (codes "hostname") ≡ some h
      → json.get_text m ≡ some (codes "update")
      → json.get_text h ≡ some (codes "ubuntu")
      → json.dump (stock_json L u.new_food u.new_medicine) ≡ some bytes
      → database.opens u.db ≡ true
      → Puts database u.db (update_entries L s t.now (admin_line L t) bytes) d
      → (handle_json L t j s ≡ (
        ok true,
        record s {
          db = d;
          supplies_id_gen = increment s.supplies_id_gen;
          log = s.log ++ (admin_line L t ∷ update_line L s t.now ∷ []);
        },
      ))
        × (database.get d latest_supplies_key ≡ database.get s.db latest_supplies_key)
  unfolding equal
  handle_json-update_latest t j m h bytes s d u fm fh um uh b o p = (
    handle_json_update L t j m h bytes s d u fm fh um uh b o p,
    get-Puts database W u.db d latest_supplies_key (update_entries L s t.now (admin_line L t) bytes)
          (refl, (refl, (refl, tt))) p
        ∙ update_supplies_from_json-get_ne cjson N (c_api database) (c_api-IsLawful database W)
            undef s.db u.db u.food u.new_food u.medicine u.new_medicine u.tree "latestSupplies"
            (λ e. ground (arith, eq_iff "latestSupplies" food_key))
            (λ e. ground (arith, eq_iff "latestSupplies" medicine_key)) u.updates,
  )
