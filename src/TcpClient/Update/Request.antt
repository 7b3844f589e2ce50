-- ===== src/TcpClient/Update/Request.antt =====
-- What the message of an update asks the server to add.
use mathlib.Core.Bool.{false≢true}
use shelter_server_hpc.Prelude.{
  ◌≡◌, ◌≢◌, refl, sym, ap, subst, ◌∙◌, ℤ, pos, IsInt, Bool, true, false, String, none, some, Bytes,
  codes, equal, equal_iff, equal_refl, ◌⊎◌, map, if◌then◌else◌, Bool-cases, inl, inr,
}
use shelter_server_hpc.CJson.{CJson, IsLawful, lower, same_key, add_number_to_object}
use shelter_server_hpc.Supplies.Arithmetic.{requested, amount_in, requested-none, requested_object}
use shelter_server_hpc.TcpClient.Menu.{message_json}
use shelter_server_hpc.UdpClient.Menu as Udp
use shelter_server_hpc.TcpClient.Update.{
  Item, meat, vegetables, fruits, water, antibiotics, analgesics, bandages, Section, food, medicine,
  section_of, section_name, item_name,
}

-- The supply that a name in lower case stands for.
abbrev item_of : Bytes → Item
item_of name =
    if equal name (codes "meat")
    then meat
    else if equal name (codes "vegetables")
    then vegetables
    else if equal name (codes "fruits")
    then fruits
    else if equal name (codes "water")
    then water
    else if equal name (codes "antibiotics")
    then antibiotics
    else if equal name (codes "analgesics")
    then analgesics
    else bandages

item_of-name : (i : Item) → item_of (map lower (codes (item_name i))) ≡ i
unfolding equal
item_of-name meat = refl
item_of-name vegetables = refl
item_of-name fruits = refl
item_of-name water = refl
item_of-name antibiotics = refl
item_of-name analgesics = refl
item_of-name bandages = refl

lower_keys : (k j : String) → same_key k j ≡ true → map lower (codes k) ≡ map lower (codes j)
unfolding same_key
lower_keys k j e = (equal_iff (map lower (codes k)) (map lower (codes j))).0 e

-- No two supplies share a name.
same_item : (i j : Item) → same_key (item_name i) (item_name j) ≡ true → i ≡ j
same_item i j e =
    sym (item_of-name i) ∙ ap item_of (lower_keys (item_name i) (item_name j) e) ∙ item_of-name j

-- Two supplies are the same or not.
pub decide_item : (i j : Item) → (i ≡ j) ⊎ (i ≢ j)
unfolding same_key
decide_item i j = elim (Bool-cases (same_key (item_name i) (item_name j))) [
  | inl e ↦ inl (same_item i j e)
  | inr e ↦ inr (λ same. false≢true (
      sym e
      ∙ ap (λ k. same_key (item_name i) (item_name k)) (sym same)
      ∙ equal_refl (map lower (codes (item_name i)))))
]

-- Whether a supply is the given one.
pub is_item : Item → Item → Bool
unfolding same_key
is_item i j = same_key (item_name i) (item_name j)

pub is_item_refl : (i : Item) → is_item i i ≡ true
unfolding is_item same_key
is_item_refl i = equal_refl (map lower (codes (item_name i)))

pub is_item_ne : (i j : Item) → i ≢ j → is_item i j ≡ false
unfolding is_item
is_item_ne i j ne = elim (Bool-cases (same_key (item_name i) (item_name j))) [
  | inl e ↦ absurd (ne (same_item i j e))
  | inr e ↦ e
]

abbrev named_section : Bytes → Section
named_section name = if equal name (codes "food") then food else medicine

named_section-name : (s : Section) → named_section (map lower (codes (section_name s))) ≡ s
unfolding equal
named_section-name food = refl
named_section-name medicine = refl

same_section : (s t : Section) → same_key (section_name s) (section_name t) ≡ true → s ≡ t
same_section s t e =
    sym (named_section-name s)
    ∙ ap named_section (lower_keys (section_name s) (section_name t) e)
    ∙ named_section-name t

message-section : (s : Section) → same_key "message" (section_name s) ≡ false
unfolding same_key equal
message-section food = refl
message-section medicine = refl

hostname-section : (s : Section) → same_key "hostname" (section_name s) ≡ false
unfolding same_key equal
hostname-section food = refl
hostname-section medicine = refl

module _ (C : CJson) (L : IsLawful C) where
  -- A message of the TCP client has no section of its own.
  pub message_json-get :
      (message : String) (s : Section)
      → C.get_object_item (some (message_json C message)) (section_name s) ≡ none
  message_json-get message s =
      L.get-add_ne C.create_object _ "message" (section_name s) (message-section s)
      ∙ L.get-create_object (section_name s)

  -- Nor has one of the UDP client.
  pub hostname_json-get :
      (hostname : Bytes) (message : String) (s : Section)
      → C.get_object_item (some (Udp.message_json C hostname message)) (section_name s) ≡ none
  hostname_json-get hostname message s =
      L.get-add_ne _ _ "message" (section_name s) (message-section s)
      ∙ L.get-add_ne C.create_object _ "hostname" (section_name s) (hostname-section s)
      ∙ L.get-create_object (section_name s)

-- A tree without sections, to which the section of one supply is added.
module _ (C : CJson) (L : IsLawful C) (base : C.Json)
    (empty : (s : Section) → C.get_object_item (some base) (section_name s) ≡ none) (v : ℤ)
    (range : IsInt v) where
  amount_in-same :
      (key : String) → amount_in C (add_number_to_object C C.create_object key v) key ≡ v
  unfolding amount_in
  amount_in-same key =
      rw
        (
          L.get-add_self C.create_object (C.create_number v) key (L.get-create_object key),
          amount_in,
          L.is_number-create_number v,
        )
        (L.valueint-create_number v range)

  amount_in-other :
      (key other : String)
      → same_key key other ≡ false
      → amount_in C (add_number_to_object C C.create_object key v) other ≡ pos 0
  unfolding amount_in
  amount_in-other key other ne =
      rw
        (
          L.get-add_ne C.create_object (C.create_number v) key other ne,
          amount_in,
          L.get-create_object other,
        )
        refl

  abbrev message_for : Item → C.Json
  message_for i =
      C.add_item_to_object base (section_name (section_of i))
        (add_number_to_object C C.create_object (item_name i) v)

  requested-section :
      (i : Item) (key : String)
      → requested C (some (message_for i)) (section_name (section_of i)) key
        ≡ amount_in C (add_number_to_object C C.create_object (item_name i) v) key
  requested-section i key =
      requested_object C _ (section_name (section_of i)) key _
        (L.get-add_self _ _ (section_name (section_of i)) (empty (section_of i)))
        (L.is_object-add C.create_object _ (item_name i) ∙ L.is_object-create_object)

  -- The message for a supply asks for its amount, and for nothing else.
  pub requested-same :
      (i : Item)
      → requested C (some (message_for i)) (section_name (section_of i)) (item_name i) ≡ v
  requested-same i = requested-section i (item_name i) ∙ amount_in-same (item_name i)

  pub requested-other :
      (i j : Item)
      → j ≢ i
      → requested C (some (message_for i)) (section_name (section_of j)) (item_name j) ≡ pos 0
  requested-other i j ne =
      elim (Bool-cases (same_key (section_name (section_of i)) (section_name (section_of j)))) [
        | inr apart ↦ requested-none C _ _ (item_name j) (
            L.get-add_ne _ _ (section_name (section_of i)) (section_name (section_of j)) apart
            ∙ empty (section_of j))
        | inl same ↦ elim (Bool-cases (same_key (item_name i) (item_name j))) [
          | inl e ↦ absurd (ne (sym (same_item i j e)))
          | inr apart ↦
              subst (λ s. requested C (some (message_for i)) (section_name s) (item_name j) ≡ pos 0)
                (same_section (section_of i) (section_of j) same)
                (requested-section i (item_name j)
                  ∙ amount_in-other (item_name i) (item_name j) apart)
        ]
      ]
