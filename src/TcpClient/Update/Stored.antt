-- ===== src/TcpClient/Update/Stored.antt =====
-- An update from the keyboard of the client to the stock of the server.
use shelter_server_hpc.Prelude.{
  ◌+ℤ◌, ◌≡◌, refl, sym, ap, subst, ◌∙◌, arith, ℤ, pos, IsInt, true, Option, none, some, Bytes,
  if◌then◌else◌, [], ◌∷◌, ◌++◌, inl, inr,
}
use shelter_server_hpc.CJson.{CJson, IsLawful, add_number_to_object}
use shelter_server_hpc.Supplies.Stock.{FoodSupply, MedicineSupply, IsAmount, IsFood, IsMedicine}
use shelter_server_hpc.Supplies.Update.{update_food, update_medicine}
use shelter_server_hpc.Supplies.Arithmetic.{
  Fits, clamped_sum, clamped_sum_zero, requested, food_after, medicine_after,
}
use shelter_server_hpc.Supplies.Bounds.{update_food_lem, update_medicine_lem}
use shelter_server_hpc.TcpClient.Session.{Client, returns, sent}
use shelter_server_hpc.TcpClient.Menu.{menu_round, message_json, update_json}
use shelter_server_hpc.TcpClient.Update.{
  Item, meat, vegetables, fruits, water, antibiotics, analgesics, bandages, Section, section_of,
  section_name, item_name, amount,
}
use shelter_server_hpc.TcpClient.Update.Request.{
  decide_item, is_item, is_item_refl, is_item_ne, message_json-get, requested-same, requested-other,
}
use shelter_server_hpc.TcpClient.Update.Menu.{typed, menu_round_update}

amount-IsAmount :
    (j : Item) (f : FoodSupply) (m : MedicineSupply)
    → IsFood f
    → IsMedicine m
    → IsAmount (amount j f m)
amount-IsAmount meat f m v w = v.meat
amount-IsAmount vegetables f m v w = v.vegetables
amount-IsAmount fruits f m v w = v.fruits
amount-IsAmount water f m v w = v.water
amount-IsAmount antibiotics f m v w = w.antibiotics
amount-IsAmount analgesics f m v w = w.analgesics
amount-IsAmount bandages f m v w = w.bandages

amount-Fits_zero : (x : ℤ) → IsAmount x → Fits x (pos 0)
unfolding ◌+ℤ◌
amount-Fits_zero x h = ground arith

module _ (C : CJson) (json : Option C.Json) (f : FoodSupply) (m : MedicineSupply) (v : IsFood f)
    (w : IsMedicine m) where
  -- The updates change each amount by what the message asks for it.
  amount-update :
      (undef : ℤ)
      → ((j : Item)
          → Fits (amount j f m) (requested C json (section_name (section_of j)) (item_name j)))
      → (j : Item)
      → amount j (update_food C undef json f) (update_medicine C undef json m)
        ≡ clamped_sum (amount j f m) (requested C json (section_name (section_of j)) (item_name j))
  amount-update undef fits j =
      rw
        (
          update_food_lem C undef json f v (record {
            meat = fits meat;
            vegetables = fits vegetables;
            fruits = fits fruits;
            water = fits water;
          }),
          update_medicine_lem C undef json m w (record {
            antibiotics = fits antibiotics;
            analgesics = fits analgesics;
            bandages = fits bandages;
          }),
        )
        (after j)
    where
      after :
          (j : Item)
          → amount j (food_after C json f) (medicine_after C json m)
            ≡ clamped_sum
                (amount j f m)
                (requested C json (section_name (section_of j)) (item_name j))
      after meat = refl
      after vegetables = refl
      after fruits = refl
      after water = refl
      after antibiotics = refl
      after analgesics = refl
      after bandages = refl

module _ (C : CJson) (L : IsLawful C) (f : FoodSupply) (m : MedicineSupply) (v : IsFood f)
    (w : IsMedicine m) (base : C.Json)
    (empty : (s : Section) → C.get_object_item (some base) (section_name s) ≡ none) where
  abbrev message_for : Item → ℤ → C.Json
  message_for i n =
      C.add_item_to_object base (section_name (section_of i))
        (add_number_to_object C C.create_object (item_name i) n)

  requested-Fits :
      (i j : Item) (n : ℤ)
      → IsInt n
      → Fits (amount i f m) n
      → Fits
          (amount j f m)
          (requested C (some (message_for i n)) (section_name (section_of j)) (item_name j))
  requested-Fits i j n range fits = elim (decide_item j i) [
    | inl same ↦
        subst
          (λ k.
            Fits (amount k f m)
              (requested C (some (message_for i n)) (section_name (section_of k)) (item_name k)))
          (sym same)
          (subst (Fits (amount i f m)) (sym (requested-same C L base empty n range i)) fits)
    | inr apart ↦
        subst (Fits (amount j f m)) (sym (requested-other C L base empty n range i j apart))
          (amount-Fits_zero _ (amount-IsAmount j f m v w))
  ]

  -- What the update makes of the printed message for one supply.
  pub update-message_for :
      (i : Item) (n : ℤ) (text : Bytes) (undef : ℤ)
      → IsInt n
      → C.print (message_for i n) ≡ some text
      → Fits (amount i f m) n
      → (j : Item)
      → amount j
          (update_food C undef (C.parse (some text)) f)
          (update_medicine C undef (C.parse (some text)) m)
        ≡ (if is_item i j then clamped_sum (amount j f m) n else amount j f m)
  update-message_for i n text undef range p fits j =
      let parsed = L.parse-print _ text p in
      let new = amount-update C _ f m v w undef (λ k. requested-Fits i k n range fits) j in
      elim (decide_item i j) [
        | inl same ↦
            rw (parsed, subst (λ k. is_item i k ≡ true) same (is_item_refl i))
              (new
                ∙ ap (clamped_sum (amount j f m)) (
                    subst
                      (λ k.
                        requested C (some (message_for i n)) (section_name (section_of k))
                          (item_name k)
                        ≡ n)
                      same (requested-same C L base empty n range i)))
        | inr apart ↦
            rw (parsed, is_item_ne i j apart)
              (new
                ∙ ap (clamped_sum (amount j f m))
                    (requested-other C L base empty n range i j (λ e. apart (sym e)))
                ∙ clamped_sum_zero _ (amount-IsAmount j f m v w))
      ]

module _ (C : CJson) (L : IsLawful C) (f : FoodSupply) (m : MedicineSupply) (v : IsFood f)
    (w : IsMedicine m) where
  -- If the user of an authenticated client types an amount for a supply, one message is sent, and
  -- `update_supplies_from_json` on the tree that cJSON parses from it, with valid stock and no sum
  -- beyond the largest `int`, adds the amount to that supply, at least 0 stays, and leaves every
  -- other supply as it was.
  pub menu_round-update_supplies :
      (c : Client) (i j : Item) (n : ℤ) (rest text : Bytes) (undef : ℤ)
      → c.authenticated ≡ true
      → IsInt n
      → c.stdin ≡ typed i n rest
      → C.print (update_json C (section_name (section_of i)) (item_name i) n) ≡ some text
      → Fits (amount i f m) n
      → (menu_round C c
          ≡ (returns tt, record c { stdin = rest; events = c.events ++ (sent text ∷ []) }))
        × (amount j
              (update_food C undef (C.parse (some text)) f)
              (update_medicine C undef (C.parse (some text)) m)
            ≡ (if is_item i j then clamped_sum (amount j f m) n else amount j f m))
  menu_round-update_supplies c i j n rest text undef known range e p fits = (
    menu_round_update C c i n rest text known range e p,
    update-message_for C L f m v w (message_json C "update") (message_json-get C L "update") i n
        text undef range p fits j,
  )
