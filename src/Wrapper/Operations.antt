-- ===== src/Wrapper/Operations.antt =====
-- The member functions of `RocksDbWrapper`. A state is the open database.
use shelter_server_hpc.Prelude.{
  ℕ, ◌+◌, Bool, true, false, Option, none, some, List, [], ◌∷◌, Bytes, contains, if◌then◌else◌,
}
use shelter_server_hpc.RocksDb.{failed, found, refused, written}
use shelter_server_hpc.Exec.{ok, throws, Exec}
use shelter_server_hpc.Wrapper.{Database}
use shelter_server_hpc.Wrapper.Entries.{Entries}
use shelter_server_hpc.Nlohmann.{Nlohmann}

-- Whether `text` contains every one of the words, tested until one is missing.
unfoldable pub contains_all : Bytes → List Bytes → Bool
contains_all text [] = true
contains_all text (w ∷ ws) = if contains text w then contains_all text ws else false

unfoldable pub count_values : Bytes → Entries → ℕ
count_values target [] = 0
count_values target ((k, v) ∷ es) = (if contains v target then 1 else 0) + count_values target es

module _ (D : Database) where
  open D use {Db, opens, entries}

  -- The constructor throws if the database does not open; the destructor closes it.
  unfoldable pub open_wrapper : Exec Db (Unit {0})
  open_wrapper d = if opens d then (ok tt, d) else (throws, d)

  unfoldable pub put : Bytes → Bytes → Exec Db (Unit {0})
  put key value d = elim (D.put d key value) [ refused ↦ (throws, d) | written d' ↦ (ok tt, d') ]

  -- The value, or that there is none, for which the code returns false.
  unfoldable pub get : Bytes → Exec Db (Option Bytes)
  get key d = elim (D.get d key) [ failed ↦ (throws, d) | found value ↦ (ok value, d) ]

  unfoldable pub delete_ : Bytes → Exec Db (Unit {0})
  delete_ key d = elim (D.delete d key) [ refused ↦ (throws, d) | written d' ↦ (ok tt, d') ]

  unfoldable pub get_value_by_key : Bytes → Exec Db Bytes
  get_value_by_key key d = elim (D.get d key) [
    | failed ↦ (throws, d)
    | found none ↦ (throws, d)
    | found (some value) ↦ (ok value, d)
  ]

  -- An iterator that fails only prints. The counter is an `int`, taken as large enough.
  unfoldable pub count_occurrences : Bytes → Exec Db ℕ
  unfolding count_values
  count_occurrences target d = (ok (count_values target (entries d)), d)

module _ (J : Nlohmann) where
  open J use {Json, null, text, set}

  unfoldable pub select_keys : List Bytes → Entries → List Json
  unfolding contains_all
  select_keys substrings [] = []
  select_keys substrings ((k, v) ∷ es) =
      let rest = select_keys substrings es in
      if contains_all k substrings then set null k (text v) ∷ rest else rest

  unfoldable pub get_json_by_key_substrings : (D : Database) → List Bytes → Exec D.Db (List Json)
  unfolding select_keys
  get_json_by_key_substrings D substrings d = (ok (select_keys substrings (D.entries d)), d)
