-- ===== src/Server/RestLaws.antt =====
-- The REST interface: the latest stock, the identifiers of the stock, the status of an answer.
use shelter_server_hpc.Prelude.{
  ◌≡◌, refl, ap, subst, ◌∙◌, arith, ℕ, ℤ, pos, negsuc, ◌<◌, All-append, true, false, some, List, [],
  ◌∷◌, ◌++◌, Bytes, codes, equal, contains, starts_with, Bool-cases, inl, inr, All, ◌==◌,
}
use shelter_server_hpc.Stdio.{print_int, decimal}
use shelter_server_hpc.Stdio.Reading.{decimal_fuel-head}
use shelter_server_hpc.Server.Counts.{print_int-small}
use shelter_server_hpc.RocksDb.{found}
use shelter_server_hpc.Supplies.Stock.{FoodSupply, MedicineSupply}
use shelter_server_hpc.Nlohmann
use shelter_server_hpc.Nlohmann.{Nlohmann, IsLawful, string_of}
use shelter_server_hpc.Exec.{Result, ok, ends, pure}
use shelter_server_hpc.Exec.Steps.{bind_ok, then_ok}
use shelter_server_hpc.Wrapper.{Database}
use shelter_server_hpc.Wrapper.Entries.{IsOrdered, Entries}
use shelter_server_hpc.Wrapper.Operations.{
  open_wrapper, get_value_by_key, contains_all, select_keys, get_json_by_key_substrings,
}
use shelter_server_hpc.Server.State.{
  Libraries, State, key_of, supplies_key_prefix, latest_supplies_key, last_supplies_id_key,
  last_event_key,
}
use shelter_server_hpc.Server.TcpMessages.{Moment, about, handle_json}
use shelter_server_hpc.Server.TcpUpdate.{Updates, handle_json-update, stock_json, update_entries}
use shelter_server_hpc.Server.Broadcast.{Puts}
use shelter_server_hpc.Server.Rest.{
  Params, answer, get_param_value, has_other_params, latest_supplies, find_supplies,
  answer_supplies, supplies_key_part, handle_rest_supplies, parse_or_throw, dump_or_throw,
}

-- The parameters of a request with an identifier.
abbrev pub with_id : Bytes → Params
with_id id = (codes "id", id) ∷ []

module _ (J : Nlohmann) (D : Database) where
  -- A request with an identifier is answered by `find_supplies`.
  handle_rest_supplies_id :
      (id : Bytes) (d : D.Db)
      → D.opens d ≡ true
      → handle_rest_supplies J D (with_id id) d ≡ find_supplies J D id d
  unfolding handle_rest_supplies open_wrapper has_other_params get_param_value equal
  handle_rest_supplies_id id d o = then_ok _ _ d d tt (rw o refl)

module _ (L : Libraries) (W : IsOrdered L.database) (N : Nlohmann.IsLawful L.json) where
  open L use {database, json}

  -- The answer once the four writes of an update are done.
  handle_rest_supplies_latest :
      (s : State database.Db) (now line bytes : Bytes) (f : FoodSupply) (m : MedicineSupply)
      (d₀ d : database.Db)
      → json.dump (stock_json L f m) ≡ some bytes
      → Puts database d₀ (update_entries L s now line bytes) d
      → database.opens d ≡ true
      → handle_rest_supplies json database (with_id (codes "latest")) d ≡ (ok (answer 200 bytes), d)
  unfolding find_supplies latest_supplies get_value_by_key equal ends pure
  handle_rest_supplies_latest s now line bytes f m d₀ d j (d₁, p₁, (d₂, p₂, (d₃, p₃, (d₄, p₄, e))))
        o =
      let id : Bytes = print_int s.supplies_id_gen in
      let there : database.get d latest_supplies_key ≡ found (some bytes) =
        subst (λ (x : database.Db). database.get x latest_supplies_key ≡ found (some bytes)) e
          (W.get-put_ne d₃ d₄ last_event_key latest_supplies_key line p₄ refl
            ∙ W.get-put_ne d₂ d₃ last_supplies_id_key latest_supplies_key id p₃ refl
            ∙ W.get-put_self d₁ d₂ latest_supplies_key bytes p₂) in
      let value : get_value_by_key database latest_supplies_key d ≡ (ok bytes, d) =
        rw (there, get_value_by_key) refl in
      let parses : parse_or_throw json database bytes ≡ ok (stock_json L f m) =
        rw (N.parse-dump (stock_json L f m) bytes j, parse_or_throw) refl in
      let dumps : dump_or_throw json database (stock_json L f m) ≡ ok bytes =
        rw (j, dump_or_throw) refl in
      handle_rest_supplies_id json database (codes "latest") d o
      ∙ bind_ok _ _ d d bytes value
      ∙ bind_ok _ _ d d (stock_json L f m) (ap (λ (r : Result json.Json). (r, d)) parses)
      ∙ bind_ok _ _ d d bytes (ap (λ (r : Result Bytes). (r, d)) dumps)

  -- After a TCP client's update that is stored, as all its writes succeed and the database opens, the
  -- request `/supplies?id=latest` is answered with the new stock, in the very text that was stored.
  pub handle_rest_supplies-handle_json :
      (t : Moment) (fd : ℤ) (j m : json.Json) (bytes : Bytes) (s : State database.Db)
      (d : database.Db) (u : Updates L s j)
      → json.find j (codes "message") ≡ some m
      → json.get_text m ≡ some (codes "update")
      → json.dump (stock_json L u.new_food u.new_medicine) ≡ some bytes
      → database.opens u.db ≡ true
      → Puts database u.db
          (update_entries L s t.now (about "Update request from TCP client " t) bytes)
          d
      → database.opens d ≡ true
      → let s' = (handle_json L t fd j s).1 in
        handle_rest_supplies json database (with_id (codes "latest")) s'.db
        ≡ (ok (answer 200 bytes), s'.db)
  handle_rest_supplies-handle_json t fd j m bytes s d u fm um b o p o' =
      rw (handle_json-update L t fd j m bytes s d u fm um b o p) (
        handle_rest_supplies_latest s t.now (about "Update request from TCP client " t) bytes
          u.new_food u.new_medicine u.db d b p o')

-- What a word begins with is found wherever the word is.
starts_with-append :
    (text a b : Bytes) → starts_with text (a ++ b) ≡ true → starts_with text a ≡ true
unfolding starts_with
starts_with-append text [] b h = ground arith
starts_with-append [] (x ∷ a) b h = cc
starts_with-append (t ∷ text) (x ∷ a) b h = ground (arith, starts_with-append text a b)

contains-append : (text a b : Bytes) → contains text (a ++ b) ≡ true → contains text a ≡ true
unfolding contains
contains-append [] a b h = starts_with-append [] a b h
contains-append (t ∷ text) a b h =
    ground (arith, contains-append text a b, starts_with-append (t ∷ text) a b)

-- No byte is an `s`.
abbrev pub NoS : Bytes → Type 0
NoS text = All (λ (c : ℕ). (c == b's') ≡ false) text

contains-NoS : (text word : Bytes) → NoS text → contains text (b's' ∷ word) ≡ false
unfolding contains starts_with
contains-NoS [] word h = refl
contains-NoS (c ∷ cs) word h = ground (arith, contains-NoS cs word h.1)

small-NoS : (text : Bytes) → All (λ (x : ℕ). x < b'A') text → NoS text
small-NoS [] h = tt
small-NoS (c ∷ cs) h = (ground (arith, h.0), small-NoS cs h.1)

NoS-append : (a b : Bytes) → NoS a → NoS b → NoS (a ++ b)
NoS-append a b = All-append _ a b

abbrev pub double : Bytes
double = codes "supplies__"

underline_first : (z : ℤ) (rest : Bytes) → starts_with (print_int z ++ rest) (b'_' ∷ []) ≡ false
unfolding starts_with print_int decimal
underline_first (pos n) rest =
    let (d, ds, e, low, high) = decimal_fuel-head n n in rw e (ground arith)
underline_first (negsuc n) rest = refl

-- A key of the stock has a digit or a minus behind its prefix, and no `s` after it.
double_missing :
    (z : ℤ) (now : Bytes)
    → NoS now
    → contains (key_of supplies_key_prefix (print_int z) now) double ≡ false
unfolding contains starts_with
double_missing z now h = rw (
  underline_first z (b'_' ∷ now),
  contains-NoS (print_int z ++ (b'_' ∷ now)) (codes "upplies__")
      (NoS-append (print_int z) (b'_' ∷ now) (small-NoS _ (print_int-small z)) (refl, h)),
)

-- The keys that the server writes for the stock, with a time that has no `s`, and all keys without
-- the prefix.
pub data ServerKey : Bytes → Type 0 where
  of_stock :
      (z : ℤ) (now : Bytes) → NoS now → ServerKey (key_of supplies_key_prefix (print_int z) now)
  of_others : (k : Bytes) → contains k supplies_key_prefix ≡ false → ServerKey k

contains-false : (text a b : Bytes) → contains text a ≡ false → contains text (a ++ b) ≡ false
contains-false text a b n = elim (Bool-cases (contains text (a ++ b))) [
  | inl y ↦ ground (arith, contains-append text a b y)
  | inr e ↦ e
]

key_part_missing : (k id : Bytes) → ServerKey k → contains k (supplies_key_part id) ≡ false
key_part_missing _ id (of_stock z now h) =
    contains-false _ double (id ++ (b'_' ∷ [])) (double_missing z now h)
key_part_missing _ id (of_others k h) =
    contains-false k supplies_key_prefix (b'_' ∷ (id ++ (b'_' ∷ []))) h

abbrev pub ServerKeys : Entries → Type 0
ServerKeys = All (λ (e : Bytes × Bytes). ServerKey e.0)

none_selected :
    (J : Nlohmann) (id : Bytes) (es : Entries)
    → ServerKeys es
    → select_keys J (supplies_key_part id ∷ []) es ≡ []
unfolding select_keys contains_all
none_selected J id [] h = refl
none_selected J id ((k, v) ∷ es) h = rw (key_part_missing k id h.0, none_selected J id es h.1)

module _ (J : Nlohmann) (D : Database) where
  -- As long as every key of the database is that of an update, as the server writes it with a time that
  -- has no letter `s`, or has no "supplies_" in it, `/supplies?id=...` answers every identifier but
  -- "latest" with 404, also that of an update which is stored, if the database opens.
  pub handle_rest_supplies-missing :
      (c : ℕ) (cs : Bytes) (d : D.Db)
      → equal (c ∷ cs) (codes "latest") ≡ false
      → ServerKeys (D.entries d)
      → D.opens d ≡ true
      → handle_rest_supplies J D (with_id (c ∷ cs)) d ≡ (ok (answer 404 (codes "ID not found")), d)
  unfolding find_supplies get_json_by_key_substrings answer_supplies pure
  handle_rest_supplies-missing c cs d other keys o =
      handle_rest_supplies_id J D (c ∷ cs) d o
      ∙ rw (other, find_supplies)
          (bind_ok _ _ d d []
            (ap (λ (js : List J.Json). (ok js, d)) (none_selected J (c ∷ cs) (D.entries d) keys)))
