-- ===== src/Supplies/Transaction.antt =====
-- `update_supplies_from_json` as a whole: the two structs and the two keys of the database.
use shelter_server_hpc.Prelude.{
  ◌≡◌, ◌≢◌, refl, sym, ◌∙◌, ap, ℤ, arith, true, String, Option, ◌⊎◌, inl, inr, Option-cases,
  Bool-cases,
}
use text.Mathlib.TextEquality.{eq_iff}
use shelter_server_hpc.CJson.{CJson, IsLawful}
use shelter_server_hpc.RocksDb
use shelter_server_hpc.RocksDb.{RocksDb, refused, written}
use shelter_server_hpc.Supplies.Stock.{
  FoodSupply, MedicineSupply, IsFood, IsMedicine, loaded, food_key, medicine_key,
}
use shelter_server_hpc.Supplies.Load.{
  food_of_json, medicine_of_json, get_food_supply, get_medicine_supply,
}
use shelter_server_hpc.Supplies.Store
use shelter_server_hpc.Supplies.Store.{
  Run, done, crashes, ◌>>=◌, store_json, food_to_json, medicine_to_json, update_food_supply_in_db,
  update_medicine_supply_in_db,
}
use shelter_server_hpc.Supplies.Update.{update_food, update_medicine, update_supplies_from_json}
use shelter_server_hpc.Supplies.Arithmetic.{FoodFits, MedicineFits, food_after, medicine_after}
use shelter_server_hpc.Supplies.Bounds.{
  update_food_lem, update_medicine_lem, update_food-IsFood, update_medicine-IsMedicine,
}
use shelter_server_hpc.Supplies.RoundTrip.{
  Commits, store_json-Commits, load_json-Commits, load_json-Commits_ne, food_of_json-food_to_json,
  medicine_of_json-medicine_to_json,
}

pub food_key-ne-medicine_key : food_key ≢ medicine_key
food_key-ne-medicine_key = ground (arith, eq_iff food_key medicine_key)

module _ (C : CJson) (L : IsLawful C) (R : RocksDb) (D : RocksDb.IsLawful R) where
  -- If the stock is valid, no sum exceeds the largest `int`, the database opens and both writes
  -- succeed, the update ends
  -- with max(0, amount + requested) in every field, and both loaders then read exactly these structs.
  pub update_supplies_from_json_lem :
      (undef : ℤ) (d d' d'' : R.Db) (f : FoodSupply) (m : MedicineSupply) (json : Option C.Json)
      → IsFood f
      → IsMedicine m
      → FoodFits C json f
      → MedicineFits C json m
      → Commits C R d d' food_key (food_to_json C (update_food C undef json f))
      → Commits C R d' d'' medicine_key (medicine_to_json C (update_medicine C undef json m))
      → R.opens_read_only d' ≡ true
      → R.opens_read_only d'' ≡ true
      → (update_supplies_from_json C R undef d f m json
          ≡ done (food_after C json f, medicine_after C json m, d''))
        × (get_food_supply C R d'' ≡ loaded (food_after C json f))
        × (get_medicine_supply C R d'' ≡ loaded (medicine_after C json m))
  unfolding update_supplies_from_json update_food_supply_in_db update_medicine_supply_in_db
  update_supplies_from_json_lem undef d d' d'' f m json v w ff mf c₁ c₂ o₁ o₂ = (
    rw (
      store_json-Commits C L R D d d' food_key _ c₁,
      store_json-Commits C L R D d' d'' medicine_key _ c₂,
      update_food_lem C undef json f v ff,
      update_medicine_lem C undef json m w mf,
    ),
    unfold get_food_supply in
        (load_json-Commits_ne C L R D (food_of_json C) d' d'' medicine_key food_key _ c₂
            (o₂ ∙ sym o₁) food_key-ne-medicine_key
          ∙ load_json-Commits C L R D (food_of_json C) d d' food_key _ c₁ o₁
          ∙ food_of_json-food_to_json C L _ (update_food-IsFood C undef json f v ff)
          ∙ ap loaded (update_food_lem C undef json f v ff)),
    unfold get_medicine_supply in
        (load_json-Commits C L R D (medicine_of_json C) d' d'' medicine_key _ c₂ o₂
          ∙ medicine_of_json-medicine_to_json C L _ (update_medicine-IsMedicine C undef json m w mf)
          ∙ ap loaded (update_medicine_lem C undef json m w mf)),
  )

  written_cases : (w : RocksDb.Written R.Db) → (w ≡ refused) ⊎ ((d : R.Db) × (w ≡ written d))
  written_cases refused = inl refl
  written_cases (written d) = inr (d, refl)

  -- A write that ends has changed nothing, or has committed.
  store_json_cases :
      (d d' : R.Db) (key : String) (json : C.Json)
      → store_json C R d key json ≡ done d'
      → (d ≡ d') ⊎ Commits C R d d' key json
  unfolding store_json
  store_json_cases d d' key json e = elim (Bool-cases (R.opens d)) [
    | inr n ↦ inl (ground arith)
    | inl y ↦ elim (Option-cases (C.print_unformatted json)) [
      | inl n ↦ ground arith
      | inr (text, p) ↦ elim (written_cases (R.put d key text)) [
        | inl n ↦ inl (ground arith)
        | inr (d₁, w) ↦
            let same : d₁ ≡ d' = ground arith in
            inr (record { opens = y; text = text; printed = p; put = w ∙ ap written same })
      ]
    ]
  ]

  store_json-get_ne :
      (d d' : R.Db) (key other : String) (json : C.Json)
      → other ≢ key
      → store_json C R d key json ≡ done d'
      → R.get d' other ≡ R.get d other
  store_json-get_ne d d' key other json ne e = elim (store_json_cases d d' key json e) [
    | inl same ↦ rw same
    | inr c ↦ D.get-put_ne d d' key other c.text c.put ne
  ]

  run-eq-done :
      {A B : Type 0} (r : Run A) (g : A → Run B) {b : B}
      → Store.◌>>=◌ r g ≡ done b
      → (a : A) × (r ≡ done a) × (g a ≡ done b)
  run-eq-done (done a) g e = (a, refl, e)
  run-eq-done crashes g e = cc

  -- Whatever fails on the way, an update that ends has left every key of the database other than the
  -- two of the stock as it was.
  pub update_supplies_from_json-get_ne :
      (undef : ℤ) (d d'' : R.Db) (f f' : FoodSupply) (m m' : MedicineSupply) (json : Option C.Json)
      (other : String)
      → other ≢ food_key
      → other ≢ medicine_key
      → update_supplies_from_json C R undef d f m json ≡ done (f', m', d'')
      → R.get d'' other ≡ R.get d other
  unfolding update_supplies_from_json update_food_supply_in_db update_medicine_supply_in_db
  update_supplies_from_json-get_ne undef d d'' f f' m m' json other nf nm e =
      let (d', first, rest) =
        run-eq-done (update_food_supply_in_db C R d (update_food C undef json f)) _ e in
      let (d₂, second, last) =
        run-eq-done (update_medicine_supply_in_db C R d' (update_medicine C undef json m)) _ rest in
      let same : d₂ ≡ d'' = ground arith in
      rw (← same) (
        store_json-get_ne d' d₂ medicine_key other _ nm second
        ∙ store_json-get_ne d d' food_key other _ nf first)
