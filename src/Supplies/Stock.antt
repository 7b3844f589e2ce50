-- ===== src/Supplies/Stock.antt =====
-- The structs of lib/suppliesData/include/supplies_module.h, the keys and the default values.
use shelter_server_hpc.Prelude.{ℤ, pos, IsInt, ◌≤ℤ◌, String}

pub record FoodSupply : Type 0 where
  pub meat : ℤ
  pub vegetables : ℤ
  pub fruits : ℤ
  pub water : ℤ

pub record MedicineSupply : Type 0 where
  pub antibiotics : ℤ
  pub analgesics : ℤ
  pub bandages : ℤ

abbrev pub food_key : String
food_key = "food"

abbrev pub medicine_key : String
medicine_key = "medicine"

-- What a loader gives: the struct, NULL, or no value because a NULL pointer is read.
pub data Loaded (A : Type 0) : Type 0 where
  loaded : A → Loaded A
  null : Loaded A
  crashes : Loaded A

-- A field's value that the program may hold: an amount that is an `int` and not negative.
abbrev pub IsAmount : ℤ → Type 0
IsAmount z = IsInt z × (pos 0 ≤ℤ z)

pub record IsFood (f : FoodSupply) : Type 0 where
  pub meat : IsAmount f.meat
  pub vegetables : IsAmount f.vegetables
  pub fruits : IsAmount f.fruits
  pub water : IsAmount f.water

pub record IsMedicine (m : MedicineSupply) : Type 0 where
  pub antibiotics : IsAmount m.antibiotics
  pub analgesics : IsAmount m.analgesics
  pub bandages : IsAmount m.bandages

abbrev pub no_food : FoodSupply
no_food = record { meat = pos 0; vegetables = pos 0; fruits = pos 0; water = pos 0 }

abbrev pub no_medicine : MedicineSupply
no_medicine = record { antibiotics = pos 0; analgesics = pos 0; bandages = pos 0 }
