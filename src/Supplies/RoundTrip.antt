-- ===== src/Supplies/RoundTrip.antt =====
-- The writers of lib/suppliesData/src/supplies_module.c, followed by its loaders.
use shelter_server_hpc.Prelude.{
  ◌≡◌, ◌≢◌, refl, ◌∙◌, ap, ℤ, IsInt, arith, true, false, String, Option, none, some, Bytes,
}
use shelter_server_hpc.CJson.{CJson, IsLawful, add_number_to_object, same_key}
use shelter_server_hpc.RocksDb
use shelter_server_hpc.RocksDb.{RocksDb, found, written}
use shelter_server_hpc.Supplies.Stock.{
  FoodSupply, MedicineSupply, IsFood, IsMedicine, Loaded, loaded, food_key,
}
use shelter_server_hpc.Supplies.Load.{
  read_int, food_of_json, medicine_of_json, load_json, get_food_supply,
}
use shelter_server_hpc.Supplies.Store.{
  done, store_json, food_to_json, medicine_to_json, update_food_supply_in_db,
}

module _ (C : CJson) (L : IsLawful C) where
  open C use {Json, get_object_item, create_number, add_item_to_object, create_object, valueint}

  -- The number `n` is the member `key` of an object.
  abbrev HasInt : Json → String → ℤ → Type 0
  HasInt o key n = get_object_item (some o) key ≡ some (create_number n)

  abbrev Lacks : Json → String → Type 0
  Lacks o key = get_object_item (some o) key ≡ none

  read_int-HasInt :
      (o : Json) (key : String) (n : ℤ)
      → IsInt n
      → HasInt o key n
      → read_int C (some o) key ≡ loaded n
  unfolding read_int
  read_int-HasInt o key n i h = rw (h, read_int) (ap loaded (L.valueint-create_number n i))

  Lacks-add :
      (o x : Json) (k j : String)
      → same_key k j ≡ false
      → Lacks o j
      → Lacks (add_item_to_object o k x) j
  Lacks-add o x k j ne h = L.get-add_ne o x k j ne ∙ h

  keeps_add :
      (o x : Json) (k j : String) (n : ℤ)
      → same_key k j ≡ false
      → HasInt o j n
      → HasInt (add_item_to_object o k x) j n
  keeps_add o x k j n ne h = L.get-add_ne o x k j ne ∙ h

  gets_add : (o : Json) (k : String) (n : ℤ) → Lacks o k → HasInt (add_number_to_object C o k n) k n
  gets_add o k n h = L.get-add_self o (create_number n) k h

  -- Each member of the object that is stored for the food is the field of that name.
  food_to_json-meat : (f : FoodSupply) → HasInt (food_to_json C f) "meat" f.meat
  unfolding food_to_json same_key
  food_to_json-meat f = keeps_add _ _ "water" "meat" _ refl (
      keeps_add _ _ "fruits" "meat" _ refl (
        keeps_add _ _ "vegetables" "meat" _ refl
          (gets_add _ "meat" _ (L.get-create_object "meat"))))

  food_to_json-vegetables : (f : FoodSupply) → HasInt (food_to_json C f) "vegetables" f.vegetables
  unfolding food_to_json same_key
  food_to_json-vegetables f = keeps_add _ _ "water" "vegetables" _ refl (
      keeps_add _ _ "fruits" "vegetables" _ refl (
        gets_add _ "vegetables" _
          (Lacks-add _ _ "meat" "vegetables" refl (L.get-create_object "vegetables"))))

  food_to_json-fruits : (f : FoodSupply) → HasInt (food_to_json C f) "fruits" f.fruits
  unfolding food_to_json same_key
  food_to_json-fruits f = keeps_add _ _ "water" "fruits" _ refl (
      gets_add _ "fruits" _ (
        Lacks-add _ _ "vegetables" "fruits" refl
          (Lacks-add _ _ "meat" "fruits" refl (L.get-create_object "fruits"))))

  food_to_json-water : (f : FoodSupply) → HasInt (food_to_json C f) "water" f.water
  unfolding food_to_json same_key
  food_to_json-water f = gets_add _ "water" _ (
      Lacks-add _ _ "fruits" "water" refl (
        Lacks-add _ _ "vegetables" "water" refl
          (Lacks-add _ _ "meat" "water" refl (L.get-create_object "water"))))

  pub food_of_json-food_to_json :
      (f : FoodSupply) → IsFood f → food_of_json C (some (food_to_json C f)) ≡ loaded f
  unfolding food_of_json
  food_of_json-food_to_json f v =
      let meat_read =
        read_int-HasInt (food_to_json C f) "meat" f.meat v.meat.0 (food_to_json-meat f) in
      let vegetables_read =
        read_int-HasInt (food_to_json C f) "vegetables" f.vegetables v.vegetables.0
          (food_to_json-vegetables f) in
      let fruits_read =
        read_int-HasInt (food_to_json C f) "fruits" f.fruits v.fruits.0 (food_to_json-fruits f) in
      let water_read =
        read_int-HasInt (food_to_json C f) "water" f.water v.water.0 (food_to_json-water f) in
      rw (meat_read, vegetables_read, fruits_read, water_read)

  -- Each member of the object that is stored for the medicine is the field of that name.
  medicine_to_json-antibiotics :
      (m : MedicineSupply) → HasInt (medicine_to_json C m) "antibiotics" m.antibiotics
  unfolding medicine_to_json same_key
  medicine_to_json-antibiotics m = keeps_add _ _ "bandages" "antibiotics" _ refl (
      keeps_add _ _ "analgesics" "antibiotics" _ refl
        (gets_add _ "antibiotics" _ (L.get-create_object "antibiotics")))

  medicine_to_json-analgesics :
      (m : MedicineSupply) → HasInt (medicine_to_json C m) "analgesics" m.analgesics
  unfolding medicine_to_json same_key
  medicine_to_json-analgesics m = keeps_add _ _ "bandages" "analgesics" _ refl (
      gets_add _ "analgesics" _
        (Lacks-add _ _ "antibiotics" "analgesics" refl (L.get-create_object "analgesics")))

  medicine_to_json-bandages :
      (m : MedicineSupply) → HasInt (medicine_to_json C m) "bandages" m.bandages
  unfolding medicine_to_json same_key
  medicine_to_json-bandages m = gets_add _ "bandages" _ (
      Lacks-add _ _ "analgesics" "bandages" refl
        (Lacks-add _ _ "antibiotics" "bandages" refl (L.get-create_object "bandages")))

  pub medicine_of_json-medicine_to_json :
      (m : MedicineSupply)
      → IsMedicine m
      → medicine_of_json C (some (medicine_to_json C m)) ≡ loaded m
  unfolding medicine_of_json
  medicine_of_json-medicine_to_json m v =
      let antibiotics_read =
        read_int-HasInt (medicine_to_json C m) "antibiotics" m.antibiotics v.antibiotics.0
          (medicine_to_json-antibiotics m) in
      let analgesics_read =
        read_int-HasInt (medicine_to_json C m) "analgesics" m.analgesics v.analgesics.0
          (medicine_to_json-analgesics m) in
      let bandages_read =
        read_int-HasInt (medicine_to_json C m) "bandages" m.bandages v.bandages.0
          (medicine_to_json-bandages m) in
      rw (antibiotics_read, analgesics_read, bandages_read)

-- The environment of one write: the database opens, the tree is printed, and the write succeeds.
pub record Commits (C : CJson) (R : RocksDb) (d d' : R.Db) (key : String) (json : C.Json)
    : Type 0 where
  pub opens : R.opens d ≡ true
  pub text : Bytes
  pub printed : C.print_unformatted json ≡ some text
  pub put : R.put d key text ≡ written d'

module _ (C : CJson) (L : IsLawful C) (R : RocksDb) (D : RocksDb.IsLawful R) where
  pub store_json-Commits :
      (d d' : R.Db) (key : String) (json : C.Json)
      → Commits C R d d' key json
      → store_json C R d key json ≡ done d'
  unfolding store_json
  store_json-Commits d d' key json c = ground (arith, c.opens, c.printed, c.put)

  -- A reader of the committed key gets the tree that was written.
  pub load_json-Commits :
      {A : Type 0} (read : Option C.Json → Loaded A) (d d' : R.Db) (key : String) (json : C.Json)
      → Commits C R d d' key json
      → R.opens_read_only d' ≡ true
      → load_json C R d' key read ≡ read (some json)
  unfolding load_json
  load_json-Commits read d d' key json c o =
      rw (o, D.get-put_self d d' key c.text c.put, L.parse-print_unformatted json c.text c.printed)

  -- A reader of another key gets what it got before.
  pub load_json-Commits_ne :
      {A : Type 0} (read : Option C.Json → Loaded A) (d d' : R.Db) (key other : String)
      (json : C.Json)
      → Commits C R d d' key json
      → R.opens_read_only d' ≡ R.opens_read_only d
      → other ≢ key
      → load_json C R d' other read ≡ load_json C R d other read
  unfolding load_json
  load_json-Commits_ne read d d' key other json c o ne =
      rw (o, D.get-put_ne d d' key other c.text c.put ne)

  -- If the database opens and the write succeeds, valid food that is stored is read back unchanged.
  pub get_food_supply-update_food_supply_in_db :
      (d d' : R.Db) (f : FoodSupply)
      → IsFood f
      → Commits C R d d' food_key (food_to_json C f)
      → R.opens_read_only d' ≡ true
      → (update_food_supply_in_db C R d f ≡ done d') × (get_food_supply C R d' ≡ loaded f)
  unfolding update_food_supply_in_db get_food_supply
  get_food_supply-update_food_supply_in_db d d' f v c o = (
    store_json-Commits d d' food_key (food_to_json C f) c,
    load_json-Commits (food_of_json C) d d' food_key (food_to_json C f) c o
        ∙ food_of_json-food_to_json C L f v,
  )
