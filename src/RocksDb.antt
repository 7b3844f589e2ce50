-- ===== src/RocksDb.antt =====
-- What the program uses of the database RocksDB: a record of operations over an unknown type of
-- databases, each of which may fail, and the documented behaviour that the theorems rely on.
pub mod Memory
use shelter_server_hpc.Prelude.{◌≡◌, ◌≢◌, Bool, String, Option, some, Bytes}

-- The result of `rocksdb_get`: an error, or the value, NULL if there is no such key.
pub data Reply : Type 0 where
  failed : Reply
  found : Option Bytes → Reply

-- The result of `rocksdb_put`: an error, or the changed database.
pub data Written (D : Type 0) : Type 0 where
  refused : Written D
  written : D → Written D

pub record RocksDb : Type 1 where
  pub Db : Type 0
  -- Whether `rocksdb_open` and `rocksdb_open_for_read_only` succeed.
  pub opens : Db → Bool
  pub opens_read_only : Db → Bool
  pub get : Db → String → Reply
  pub put : Db → String → Bytes → Written Db

-- A successful write is read back and leaves the other keys alone.
pub record IsLawful (R : RocksDb) : Type 0 where
  pub get-put_self :
      (d d' : R.Db) (k : String) (v : Bytes)
      → R.put d k v ≡ written d'
      → R.get d' k ≡ found (some v)
  pub get-put_ne :
      (d d' : R.Db) (k j : String) (v : Bytes)
      → R.put d k v ≡ written d'
      → j ≢ k
      → R.get d' j ≡ R.get d j

-- Writes do not fail.
abbrev pub Writes : RocksDb → Type 0
Writes R = (d : R.Db) (k : String) (v : Bytes) → (d' : R.Db) × (R.put d k v ≡ written d')
