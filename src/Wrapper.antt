-- ===== src/Wrapper.antt =====
-- lib/myRocksDbWrapper/src/myRocksDbWrapper.cpp: the class `RocksDbWrapper` of the server, over what
-- it uses of the database, which the C functions of lib/suppliesData open too.
pub mod Operations
pub mod Entries
pub mod Memory
pub mod CApi
use shelter_server_hpc.Prelude.{
  ◌≡◌, ◌≢◌, ℕ, Bool, true, false, String, Option, none, some, List, Bytes, codes,
}
use shelter_server_hpc.RocksDb.{RocksDb, Reply, Written}

-- The operations. `entries` is what an iterator gives from `SeekToFirst` on, until it is no longer
-- valid.
pub record Database : Type 1 where
  pub Db : Type 0
  pub opens : Db → Bool
  pub opens_read_only : Db → Bool
  pub get : Db → Bytes → Reply
  pub put : Db → Bytes → Bytes → Written Db
  pub delete : Db → Bytes → Written Db
  pub entries : Db → List (Bytes × Bytes)

-- The same database through the C interface.
abbrev pub c_api : Database → RocksDb
c_api D = record {
  Db = D.Db;
  opens = D.opens;
  opens_read_only = D.opens_read_only;
  get = λ d k. D.get d (codes k);
  put = λ d k v. D.put d (codes k) v;
}
