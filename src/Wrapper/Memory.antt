-- ===== src/Wrapper/Memory.antt =====
-- A concrete database in memory, which meets the assumptions of the interface.
use shelter_server_hpc.Prelude.{
  ◌≡◌, sym, ap, subst, true, Option, some, [], ◌∷◌, Bytes, equal, if◌then◌else◌,
}
use shelter_server_hpc.RocksDb.{found, written}
use shelter_server_hpc.Wrapper.{Database}
use shelter_server_hpc.Wrapper.Entries.{
  Entries, find_key, insert_key, IsOrdered, find-insert_self, find-insert_ne,
}

unfoldable pub remove_key : Bytes → Entries → Entries
remove_key k [] = []
remove_key k ((j, w) ∷ es) = if equal j k then es else (j, w) ∷ remove_key k es

abbrev pub ordered : Database
ordered = record {
  Db = Entries;
  opens = λ d. true;
  opens_read_only = λ d. true;
  get = λ d k. found (find_key k d);
  put = λ d k v. written (insert_key k v d);
  delete = λ d k. written (remove_key k d);
  entries = λ d. d;
}

found_injective : (a b : Option Bytes) → found a ≡ found b → a ≡ b
found_injective a b h = cc

written_injective : (a b : Entries) → written a ≡ written b → a ≡ b
written_injective a b h = cc

pub ordered-IsOrdered : IsOrdered ordered
ordered-IsOrdered = record {
  get-entries = λ d k r h. found_injective r _ (sym h);
  entries-put = λ d d' k v h. sym (written_injective _ d' h);
  get-put_self = λ d d' k v h.
      subst (λ (e : Entries). found (find_key k e) ≡ found (some v)) (written_injective _ d' h)
        (ap found (find-insert_self k v d));
  get-put_ne = λ d d' k j v h ne.
      subst (λ (e : Entries). found (find_key j e) ≡ found (find_key j d))
        (written_injective _ d' h) (ap found (find-insert_ne k v j d ne));
}
