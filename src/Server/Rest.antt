-- ===== src/Server/Rest.antt =====
-- `handleRestAlerts` and `handleRestSupplies`, over what they use of the library httplib.
use shelter_server_hpc.Prelude.{
  ℕ, Bool, true, false, not, none, some, List, [], ◌∷◌, ◌++◌, Bytes, codes, equal, if◌then◌else◌,
}
use shelter_server_hpc.Nlohmann.{Nlohmann, string_of}
use shelter_server_hpc.Exec.{Result, ok, throws, Exec, pure, ends, ◌>>=◌, ◌>>◌}
use shelter_server_hpc.Wrapper.{Database}
use shelter_server_hpc.Wrapper.Operations.{
  open_wrapper, get_value_by_key, get_json_by_key_substrings,
}
use shelter_server_hpc.Server.State.{alerts_key_prefix, supplies_key_prefix, latest_supplies_key}

-- The parameters of a request in the order of their names.
abbrev pub Params : Type 0
Params = List (Bytes × Bytes)

-- The status, 200 where the handler sets none, and the text. An exception is answered by the library.
pub record Response : Type 0 where
  pub status : ℕ
  pub content : Bytes

-- The first value of a parameter; an empty text if it is not there.
unfoldable pub get_param_value : Bytes → Params → Bytes
get_param_value name [] = []
get_param_value name ((k, v) ∷ params) =
    let rest = get_param_value name params in if equal k name then v else rest

-- More than one parameter, or one that is not `id`.
unfoldable pub has_other_params : Params → Bool
unfolding equal
has_other_params [] = false
has_other_params ((k, v) ∷ []) = not (equal k (codes "id"))
has_other_params (p ∷ q ∷ params) = true

abbrev pub answer : ℕ → Bytes → Response
answer status content = record { status = status; content = content }

abbrev pub bad_request : Response
bad_request = answer 400 (codes "Only 'id' parameter is accepted")

-- The part of a key that is searched for an identifier: there are two underlines in front of it.
abbrev pub supplies_key_part : Bytes → Bytes
supplies_key_part id = supplies_key_prefix ++ (b'_' ∷ (id ++ (b'_' ∷ [])))

module _ (J : Nlohmann) (D : Database) where
  open J use {Json, array, members, parse, dump}

  abbrev pub Handler : Type 0
  Handler = Exec D.Db Response

  abbrev pub dump_or_throw : Json → Result Bytes
  dump_or_throw j = elim (dump j) [ none ↦ throws | some t ↦ ok t ]

  abbrev pub parse_or_throw : Bytes → Result Json
  parse_or_throw t = elim (parse t) [ none ↦ throws | some j ↦ ok j ]

  -- One line for each value.
  unfoldable pub dump_lines : List Json → Exec D.Db Bytes
  dump_lines [] = pure []
  dump_lines (j ∷ js) = do
    line ← ends (dump_or_throw j)
    lines ← dump_lines js
    pure (line ++ (b'\n' ∷ lines))

  unfoldable pub alerts_with : List Bytes → Exec D.Db (List Json)
  unfolding get_json_by_key_substrings
  alerts_with substrings = get_json_by_key_substrings J D substrings

  unfoldable pub find_alerts : Bytes → Handler
  unfolding dump_lines alerts_with
  find_alerts [] = do
    found ← alerts_with (alerts_key_prefix ∷ [])
    lines ← dump_lines found
    pure (answer 200 lines)
  find_alerts (c ∷ cs) = do
    found ← alerts_with (alerts_key_prefix ∷ (b'_' ∷ (c ∷ (cs ++ (b'_' ∷ [])))) ∷ [])
    elim found [
      | [] ↦ pure (answer 404 (codes "ID not found"))
      | j ∷ js ↦ do lines ← dump_lines (j ∷ js); pure (answer 200 lines)
    ]

  -- The database is opened before the parameters are looked at.
  unfoldable pub handle_rest_alerts : Params → Handler
  unfolding open_wrapper get_param_value has_other_params find_alerts
  handle_rest_alerts params =
      open_wrapper D
      >> (if has_other_params params
          then pure bad_request
          else find_alerts (get_param_value (codes "id") params))

  -- Every member of every value is a text, which is parsed.
  unfoldable pub parse_members : List Json → Exec D.Db (List Json)
  parse_members [] = pure []
  parse_members (m ∷ ms) = do
    t ← ends (string_of J m)
    j ← ends (parse_or_throw t)
    js ← parse_members ms
    pure (j ∷ js)

  unfoldable pub parse_all : List Json → Exec D.Db (List Json)
  unfolding parse_members
  parse_all [] = pure []
  parse_all (j ∷ js) = do here ← parse_members (members j); rest ← parse_all js; pure (here ++ rest)

  -- The stocks that were found, as one array.
  unfoldable pub answer_supplies : Bytes → List Json → Handler
  unfolding parse_all
  answer_supplies missing [] = pure (answer 404 missing)
  answer_supplies missing (j ∷ js) = do
    stocks ← parse_all (j ∷ js)
    content ← ends (dump_or_throw (array stocks))
    pure (answer 200 content)

  -- The value is a text and never null; without the key `getValueByKey` throws.
  unfoldable pub latest_supplies : Handler
  unfolding get_value_by_key
  latest_supplies = do
    value ← get_value_by_key D latest_supplies_key
    j ← ends (parse_or_throw value)
    content ← ends (dump_or_throw j)
    pure (answer 200 content)

  unfoldable pub find_supplies : Bytes → Handler
  unfolding answer_supplies latest_supplies get_json_by_key_substrings equal
  find_supplies [] = do
    found ← get_json_by_key_substrings J D (supplies_key_prefix ∷ [])
    answer_supplies (codes "No supplies found") found
  find_supplies (c ∷ cs) = if equal (c ∷ cs) (codes "latest") then latest_supplies else (do
    found ← get_json_by_key_substrings J D (supplies_key_part (c ∷ cs) ∷ [])
    answer_supplies (codes "ID not found") found)

  unfoldable pub handle_rest_supplies : Params → Handler
  unfolding open_wrapper get_param_value has_other_params find_supplies
  handle_rest_supplies params =
      open_wrapper D
      >> (if has_other_params params
          then pure bad_request
          else find_supplies (get_param_value (codes "id") params))
