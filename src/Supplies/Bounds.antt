-- ===== src/Supplies/Bounds.antt =====
-- What `update_supplies_from_json` does to the two structs, and the amounts that it keeps.
use shelter_server_hpc.Prelude.{
  ◌≡◌, refl, ◌↔◌, ◌≤◌, ℤ, pos, ◌+ℤ◌, ◌≤ℤ◌, pos_part, int_max, arith, Option,
}
use shelter_server_hpc.CJson.{CJson}
use shelter_server_hpc.Supplies.Stock.{FoodSupply, MedicineSupply, IsAmount, IsFood, IsMedicine}
use shelter_server_hpc.Supplies.Update.{
  add_clamped, cast_int, add_food, add_medicine, update_food, update_medicine,
}
use shelter_server_hpc.Supplies.Arithmetic.{
  clamped_sum-IsAmount, food_after, medicine_after, FoodFits, MedicineFits, section_field,
}

-- Adding to an amount gives an amount again exactly if the sum does not exceed the largest `int`, on
-- a machine that turns a double beyond the range of `int` into a negative number.
pub add_clamped-IsAmount_iff :
    (undef x v : ℤ)
    → (pos 0 ≤ℤ undef → ⊥)
    → IsAmount (add_clamped undef x v) ↔ (pos_part (x +ℤ v) ≤ int_max)
unfolding add_clamped cast_int
add_clamped-IsAmount_iff undef x v neg = (λ h. ground arith, λ h. ground arith)

module _ (C : CJson) (undef : ℤ) (json : Option C.Json) where
  -- If the stored food is valid and no sum exceeds the largest `int`, each food amount afterwards
  -- is max(0, amount + requested), where a missing or ill-typed member requests 0.
  pub update_food_lem :
      (f : FoodSupply)
      → IsFood f
      → FoodFits C json f
      → update_food C undef json f ≡ food_after C json f
  unfolding update_food add_food
  update_food_lem f v h = λ i. record {
    meat =
        section_field C (λ s. s.meat) (λ o. add_food C undef o f) f undef json "food" "meat"
          (λ _. refl) v.meat h.meat i;
    vegetables =
        section_field C (λ s. s.vegetables) (λ o. add_food C undef o f) f undef json "food"
          "vegetables" (λ _. refl) v.vegetables h.vegetables i;
    fruits =
        section_field C (λ s. s.fruits) (λ o. add_food C undef o f) f undef json "food" "fruits"
          (λ _. refl) v.fruits h.fruits i;
    water =
        section_field C (λ s. s.water) (λ o. add_food C undef o f) f undef json "food" "water"
          (λ _. refl) v.water h.water i;
  }

  -- The same of the medicine.
  pub update_medicine_lem :
      (m : MedicineSupply)
      → IsMedicine m
      → MedicineFits C json m
      → update_medicine C undef json m ≡ medicine_after C json m
  unfolding update_medicine add_medicine
  update_medicine_lem m v h = λ i. record {
    antibiotics =
        section_field C (λ s. s.antibiotics) (λ o. add_medicine C undef o m) m undef json "medicine"
          "antibiotics" (λ _. refl) v.antibiotics h.antibiotics i;
    analgesics =
        section_field C (λ s. s.analgesics) (λ o. add_medicine C undef o m) m undef json "medicine"
          "analgesics" (λ _. refl) v.analgesics h.analgesics i;
    bandages =
        section_field C (λ s. s.bandages) (λ o. add_medicine C undef o m) m undef json "medicine"
          "bandages" (λ _. refl) v.bandages h.bandages i;
  }

  -- An update keeps the food valid.
  pub update_food-IsFood :
      (f : FoodSupply) → IsFood f → FoodFits C json f → IsFood (update_food C undef json f)
  update_food-IsFood f v h = rw (update_food_lem f v h) (record {
    meat = clamped_sum-IsAmount _ _ h.meat;
    vegetables = clamped_sum-IsAmount _ _ h.vegetables;
    fruits = clamped_sum-IsAmount _ _ h.fruits;
    water = clamped_sum-IsAmount _ _ h.water;
  })

  pub update_medicine-IsMedicine :
      (m : MedicineSupply)
      → IsMedicine m
      → MedicineFits C json m
      → IsMedicine (update_medicine C undef json m)
  update_medicine-IsMedicine m v h = rw (update_medicine_lem m v h) (record {
    antibiotics = clamped_sum-IsAmount _ _ h.antibiotics;
    analgesics = clamped_sum-IsAmount _ _ h.analgesics;
    bandages = clamped_sum-IsAmount _ _ h.bandages;
  })
