-- ===== src/TcpClient/Update.antt =====
-- The menu of updates from the keyboard to the stock: the supplies that it offers.
pub mod Request
pub mod Menu
pub mod Stored
use shelter_server_hpc.Prelude.{ℤ, Bytes, codes, String}
use shelter_server_hpc.Supplies.Stock.{FoodSupply, MedicineSupply}

-- The supplies of a shelter.
pub data Item : Type 0 where
  meat vegetables fruits water antibiotics analgesics bandages : Item

pub data Section : Type 0 where
  food medicine : Section

abbrev pub section_of : Item → Section
section_of meat = food
section_of vegetables = food
section_of fruits = food
section_of water = food
section_of antibiotics = medicine
section_of analgesics = medicine
section_of bandages = medicine

abbrev pub section_name : Section → String
section_name food = "food"
section_name medicine = "medicine"

abbrev pub item_name : Item → String
item_name meat = "meat"
item_name vegetables = "vegetables"
item_name fruits = "fruits"
item_name water = "water"
item_name antibiotics = "antibiotics"
item_name analgesics = "analgesics"
item_name bandages = "bandages"

-- What the user types to choose the section, and the supply in it.
abbrev pub section_line : Section → Bytes
section_line food = codes "1\n"
section_line medicine = codes "2\n"

abbrev pub item_line : Item → Bytes
item_line meat = codes "1\n"
item_line vegetables = codes "2\n"
item_line fruits = codes "3\n"
item_line water = codes "4\n"
item_line antibiotics = codes "1\n"
item_line analgesics = codes "2\n"
item_line bandages = codes "3\n"

-- The stock of a supply.
abbrev pub amount : Item → FoodSupply → MedicineSupply → ℤ
amount meat f m = f.meat
amount vegetables f m = f.vegetables
amount fruits f m = f.fruits
amount water f m = f.water
amount antibiotics f m = m.antibiotics
amount analgesics f m = m.analgesics
amount bandages f m = m.bandages
