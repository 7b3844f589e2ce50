-- ===== src/Server/Start.antt =====
-- The part of `Server::start` before its loop, with `getLastId`.
use shelter_server_hpc.Prelude.{
  ℕ, ℤ, pos, sub_ℕ, int_max, leb, ◌+◌, Bool, true, false, Option, none, some, Bytes, codes,
  if◌then◌else◌,
}
use shelter_server_hpc.Stdio.{skip_spaces, read_sign, read_digits}
use shelter_server_hpc.Supplies.Init.{init_rocksdb_supplies}
use shelter_server_hpc.Exec.{
  Result, ok, throws, exits, crashes, Exec, pure, ends, nothing, modify, catching, ◌>>=◌, ◌>>◌,
}
use shelter_server_hpc.Wrapper.{Database, c_api}
use shelter_server_hpc.Wrapper.Operations.{open_wrapper, put, get_value_by_key}
use shelter_server_hpc.Server.State.{
  Libraries, on_db, log_event, set_id, last_supplies_id_key, last_alert_id_key, last_event_key,
}
use shelter_server_hpc.Server.Messages.{Action}

-- The number of a sign and digits, if it is an `int`.
unfoldable pub signed_int : Bool → ℕ → Option ℤ
signed_int false n = if leb n int_max then some (pos n) else none
signed_int true n = if leb n (int_max + 1) then some (sub_ℕ 0 n) else none

-- `std::stoi`: `none` where it throws.
unfoldable pub stoi : Bytes → Option ℤ
unfolding skip_spaces read_sign read_digits signed_int
stoi text =
    let (minus, after) = read_sign (skip_spaces text) in
    let (n, seen, rest) = read_digits 0 false after in if seen then signed_int minus n else none

module _ (D : Database) where
  abbrev pub stoi_or_throw : Bytes → Result ℤ
  stoi_or_throw text = elim (stoi text) [ none ↦ throws | some z ↦ ok z ]

  unfoldable pub read_id : Bytes → Exec D.Db ℤ
  unfolding get_value_by_key stoi
  read_id key = do value ← get_value_by_key D key; ends (stoi_or_throw value)

  -- The exception handler of `getLastId` writes a first identifier.
  abbrev pub or_new_id : Bytes → Result ℤ × D.Db → Result ℤ × D.Db
  or_new_id key (ok id, d) = (ok id, d)
  or_new_id key (throws, d) = (put D key (codes "0") >> pure (pos 0)) d
  or_new_id key (exits, d) = (exits, d)
  or_new_id key (crashes, d) = (crashes, d)

  unfoldable pub get_last_id : Bytes → Exec D.Db ℤ
  unfolding open_wrapper read_id put
  get_last_id key = open_wrapper D >> (λ d. or_new_id key (read_id key d))

-- Whether every `fork`, every call for the three sockets, and the `open` of the FIFO succeed.
pub record System : Type 0 where
  pub forks : Bool
  pub sockets : Bool
  pub fifo : Bool

module _ (L : Libraries) where
  open L use {database}

  abbrev or_exit : Bool → Action L (Unit {0})
  or_exit works = if works then nothing else ends exits

  abbrev pub server_started : Action L (Unit {0})
  server_started = catching (do
    on_db (open_wrapper database)
    on_db (put database last_event_key (codes "Server just started")))

  unfoldable pub start_up : System → Action L (Unit {0})
  unfolding get_last_id set_id open_wrapper put init_rocksdb_supplies
  start_up y = do
    log_event (codes "Server started")
    last_supplies_id ← on_db (get_last_id database last_supplies_id_key)
    last_alerts_id ← on_db (get_last_id database last_alert_id_key)
    modify (λ s. record s {
      supplies_id_gen = set_id last_supplies_id;
      alerts_id_gen = set_id last_alerts_id;
    })
    or_exit y.forks
    server_started
    modify (λ s. record s { db = init_rocksdb_supplies (c_api database) s.db })
    or_exit y.sockets
    or_exit y.fifo
