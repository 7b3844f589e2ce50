-- ===== src/Supplies/Arithmetic.antt =====
-- The arithmetic of `update_supplies_from_json`, against a description of each amount by itself.
use shelter_server_hpc.Prelude.{
  ◌≤◌, ◌≡◌, ℤ, pos, pos_part, ◌+ℤ◌, int_max, arith, true, false, String, Option, none, some,
  if◌then◌else◌, Bool-cases, Option-cases, inl, inr, sym, subst,
}
use shelter_server_hpc.CJson.{CJson}
use shelter_server_hpc.Supplies.Stock.{FoodSupply, MedicineSupply, IsAmount}
use shelter_server_hpc.Supplies.Update.{cast_int, add_clamped, update_field}

-- max(0, x + v)
unfoldable pub clamped_sum : ℤ → ℤ → ℤ
clamped_sum x v = pos (pos_part (x +ℤ v))

-- x + v does not exceed the largest `int`.
abbrev pub Fits : ℤ → ℤ → Type 0
Fits x v = pos_part (x +ℤ v) ≤ int_max

pub add_clamped-clamped_sum : (undef x v : ℤ) → Fits x v → add_clamped undef x v ≡ clamped_sum x v
unfolding add_clamped clamped_sum ◌+ℤ◌ cast_int
add_clamped-clamped_sum undef x v h = ground arith

pub clamped_sum-IsAmount : (x v : ℤ) → Fits x v → IsAmount (clamped_sum x v)
unfolding clamped_sum
clamped_sum-IsAmount x v h = omega arith

pub clamped_sum_zero : (x : ℤ) → IsAmount x → clamped_sum x (pos 0) ≡ x
unfolding clamped_sum ◌+ℤ◌
clamped_sum_zero x h = ground arith

module _ (C : CJson) where
  open C use {Json, get_object_item, is_object, is_number, valueint}

  -- What the member `key` of an object asks to add: 0 unless it is there and is a number.
  unfoldable pub amount_in : Json → String → ℤ
  amount_in object key = elim (get_object_item (some object) key) [
    | none ↦ pos 0
    | some item ↦ if is_number item then valueint item else pos 0
  ]

  -- What a message asks to add to `key` of `section`: 0 unless the section is an object.
  unfoldable pub requested : Option Json → String → String → ℤ
  unfolding amount_in
  requested json section key = elim (get_object_item json section) [
    | none ↦ pos 0
    | some object ↦ if is_object object then amount_in object key else pos 0
  ]

  pub update_field_lem :
      (undef : ℤ) (object : Json) (key : String) (x : ℤ)
      → IsAmount x
      → Fits x (amount_in object key)
      → update_field C undef object key x ≡ clamped_sum x (amount_in object key)
  unfolding update_field amount_in
  update_field_lem undef object key x a h =
      ground (arith, clamped_sum_zero x a, add_clamped-clamped_sum undef x (amount_in object key) h)

  -- Every food amount of a message is added, at least 0 stays.
  abbrev pub food_after : Option Json → FoodSupply → FoodSupply
  food_after json f = record {
    meat = clamped_sum f.meat (requested json "food" "meat");
    vegetables = clamped_sum f.vegetables (requested json "food" "vegetables");
    fruits = clamped_sum f.fruits (requested json "food" "fruits");
    water = clamped_sum f.water (requested json "food" "water");
  }

  abbrev pub medicine_after : Option Json → MedicineSupply → MedicineSupply
  medicine_after json m = record {
    antibiotics = clamped_sum m.antibiotics (requested json "medicine" "antibiotics");
    analgesics = clamped_sum m.analgesics (requested json "medicine" "analgesics");
    bandages = clamped_sum m.bandages (requested json "medicine" "bandages");
  }

  -- No amount of the message takes the stock past the largest `int`.
  pub record FoodFits (json : Option Json) (f : FoodSupply) : Type 0 where
    pub meat : Fits f.meat (requested json "food" "meat")
    pub vegetables : Fits f.vegetables (requested json "food" "vegetables")
    pub fruits : Fits f.fruits (requested json "food" "fruits")
    pub water : Fits f.water (requested json "food" "water")

  pub record MedicineFits (json : Option Json) (m : MedicineSupply) : Type 0 where
    pub antibiotics : Fits m.antibiotics (requested json "medicine" "antibiotics")
    pub analgesics : Fits m.analgesics (requested json "medicine" "analgesics")
    pub bandages : Fits m.bandages (requested json "medicine" "bandages")

  pub requested-none :
      (json : Option Json) (section key : String)
      → get_object_item json section ≡ none
      → requested json section key ≡ pos 0
  unfolding requested
  requested-none json section key e = rw (e, requested)

  pub requested_object :
      (json : Option Json) (section key : String) (object : Json)
      → get_object_item json section ≡ some object
      → is_object object ≡ true
      → requested json section key ≡ amount_in object key
  unfolding requested
  requested_object json section key object e y = ground arith

  pub requested_other :
      (json : Option Json) (section key : String) (object : Json)
      → get_object_item json section ≡ some object
      → is_object object ≡ false
      → requested json section key ≡ pos 0
  unfolding requested
  requested_other json section key object e n = ground arith

  -- One field of a struct as the code computes it, under a section that may be missing or no object.
  pub section_field :
      {S : Type 0} (proj : S → ℤ) (new : Json → S) (w : S) (undef : ℤ) (json : Option Json)
      (section key : String)
      → ((object : Json) → proj (new object) ≡ update_field C undef object key (proj w))
      → IsAmount (proj w)
      → Fits (proj w) (requested json section key)
      → proj (elim (get_object_item json section) [
        | none ↦ w
        | some object ↦ if is_object object then new object else w
      ])
        ≡ clamped_sum (proj w) (requested json section key)
  section_field proj new w undef json section key e a h =
      elim (Option-cases (get_object_item json section)) [
        | inl missing ↦
            rw (missing, requested-none json section key missing) (sym (clamped_sum_zero _ a))
        | inr (object, there) ↦ elim (Bool-cases (is_object object)) [
          | inl y ↦
              let r = requested_object json section key object there y in
              rw (there, y, r, e object)
                (update_field_lem undef object key (proj w) a (subst (Fits (proj w)) r h))
          | inr n ↦
              rw (there, n, requested_other json section key object there n)
                (sym (clamped_sum_zero _ a))
        ]
      ]
