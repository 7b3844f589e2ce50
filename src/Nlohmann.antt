-- ===== src/Nlohmann.antt =====
-- What the server uses of the JSON library nlohmann/json: a record of operations over an unknown type
-- of values, and the documented behaviour that the theorems rely on.
pub mod Trees
use shelter_server_hpc.Prelude.{
  ◌≡◌, ℤ, Bool, true, false, String, Option, none, some, List, [], ◌∷◌, Bytes, codes, equal,
  if◌then◌else◌,
}
use shelter_server_hpc.Exec.{Result, ok, throws}

-- `parse` and `dump` are `none` where the library throws: at a text that is no JSON, and at a string
-- that is no UTF-8. `find` is `none` at the end of an object, and at a value that is no object.
-- `members` are the values from `begin()` to `end()`, and `is_empty` says that there are none; `set` is `j[key] = value` on an object or null.
pub record Nlohmann : Type 1 where
  pub Json : Type 0
  pub null : Json
  pub text : Bytes → Json
  pub number : ℤ → Json
  pub array : List Json → Json
  pub set : Json → Bytes → Json → Json
  pub find : Json → Bytes → Option Json
  pub get_text : Json → Option Bytes
  pub members : Json → List Json
  pub is_empty : Json → Bool
  pub parse : Bytes → Option Json
  pub dump : Json → Option Bytes

module _ (J : Nlohmann) where
  open J use {Json, null, text, number, array, set, find, get_text, members, is_empty, parse, dump}

  -- The conversion of a value to `std::string`.
  abbrev pub string_of : Json → Result Bytes
  string_of j = elim (get_text j) [ none ↦ throws | some t ↦ ok t ]

  -- `j == text`
  abbrev pub is_text : Json → Bytes → Bool
  is_text j t = elim (get_text j) [ none ↦ false | some s ↦ equal s t ]

  -- `{{"message", name}}`
  abbrev pub message : String → Json
  message name = set null (codes "message") (text (codes name))

  pub record IsLawful : Type 0 where
    pub find-null : (k : Bytes) → find null k ≡ none
    pub find-set_self : (j x : Json) (k : Bytes) → find (set j k x) k ≡ some x
    pub find-set_ne : (j x : Json) (k l : Bytes) → equal k l ≡ false → find (set j k x) l ≡ find j l
    pub is_empty-null : is_empty null ≡ true
    pub is_empty-find : (j x : Json) (k : Bytes) → find j k ≡ some x → is_empty j ≡ false
    pub get_text-text : (t : Bytes) → get_text (text t) ≡ some t
    pub members-single : (k : Bytes) (x : Json) → members (set null k x) ≡ x ∷ []
    pub parse-dump : (j : Json) (t : Bytes) → dump j ≡ some t → parse t ≡ some j
