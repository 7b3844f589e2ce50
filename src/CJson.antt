-- ===== src/CJson.antt =====
-- What the program uses of the JSON library lib/cJSON: a record of operations over an unknown type
-- of trees, and the documented behaviour that the theorems rely on.
pub mod Trees
use shelter_server_hpc.Prelude.{
  ℕ, ℤ, ◌≡◌, Bool, true, false, String, Option, none, some, Bytes, codes, equal, map, IsInt, ◌+◌,
  leb, if◌then◌else◌, ◌&&◌,
}

-- The operations. A pointer that may be NULL is an `Option`.
pub record CJson : Type 1 where
  pub Json : Type 0
  pub parse : Option Bytes → Option Json
  pub print : Json → Option Bytes
  pub print_unformatted : Json → Option Bytes
  pub create_object : Json
  pub create_number : ℤ → Json
  pub create_string : Bytes → Json
  pub add_item_to_object : Json → String → Json → Json
  pub get_object_item : Option Json → String → Option Json
  pub delete_item_from_object : Json → String → Json
  pub is_object : Json → Bool
  pub is_number : Json → Bool
  pub is_string : Json → Bool
  pub is_array : Json → Bool
  pub is_null : Json → Bool
  pub valueint : Json → ℤ
  pub valuestring : Json → Option Bytes
  pub get_array_size : Json → ℕ
  pub get_array_item : Json → ℕ → Option Json

-- `tolower` on one byte
abbrev pub lower : ℕ → ℕ
lower c = if leb b'A' c && leb c b'Z' then c + 32 else c

-- The library compares the names of members without regard to case.
unfoldable pub same_key : String → String → Bool
unfolding equal
same_key k j = equal (map lower (codes k)) (map lower (codes j))

module _ (C : CJson) where
  open C use {
    Json, create_number, create_string, add_item_to_object, get_object_item, parse, print,
    print_unformatted, create_object, is_object, is_number, is_string, valueint, valuestring,
  }

  -- `cJSON_AddNumberToObject` and `cJSON_AddStringToObject`: create the item and add it.
  abbrev pub add_number_to_object : Json → String → ℤ → Json
  add_number_to_object o k n = add_item_to_object o k (create_number n)

  abbrev pub add_string_to_object : Json → String → Bytes → Json
  add_string_to_object o k s = add_item_to_object o k (create_string s)

  -- The documented behaviour: a lookup finds the first member of that name, NULL has no members, a
  -- number keeps an `int`, and what is printed is parsed to the same tree.
  pub record IsLawful : Type 0 where
    pub get_null : (k : String) → get_object_item none k ≡ none
    pub get-create_object : (k : String) → get_object_item (some create_object) k ≡ none
    pub get-add_self :
        (o x : Json) (k : String)
        → get_object_item (some o) k ≡ none
        → get_object_item (some (add_item_to_object o k x)) k ≡ some x
    pub get-add_ne :
        (o x : Json) (k j : String)
        → same_key k j ≡ false
        → get_object_item (some (add_item_to_object o k x)) j ≡ get_object_item (some o) j
    pub is_object-create_object : is_object create_object ≡ true
    pub is_object-add :
        (o x : Json) (k : String) → is_object (add_item_to_object o k x) ≡ is_object o
    pub is_number-create_number : (n : ℤ) → is_number (create_number n) ≡ true
    pub valueint-create_number : (n : ℤ) → IsInt n → valueint (create_number n) ≡ n
    pub is_string-create_string : (s : Bytes) → is_string (create_string s) ≡ true
    pub valuestring-create_string : (s : Bytes) → valuestring (create_string s) ≡ some s
    pub parse_null : parse none ≡ none
    pub parse-print : (j : Json) (t : Bytes) → print j ≡ some t → parse (some t) ≡ some j
    pub parse-print_unformatted :
        (j : Json) (t : Bytes) → print_unformatted j ≡ some t → parse (some t) ≡ some j
