-- ===== src/Server/State.antt =====
-- The members of the class `Server`, with what it works on outside: the database, the image files, the
-- log and what is sent. Also `IdGen` of include/utils.hpp.
use shelter_server_hpc.Prelude.{
  ◌+◌, ℤ, pos, negsuc, ◌+ℤ◌, int_max, leb, Bool, List, [], ◌∷◌, ◌++◌, Bytes, codes, if◌then◌else◌,
}
use shelter_server_hpc.Stdio.{print_int}
use shelter_server_hpc.CJson.{CJson}
use shelter_server_hpc.Nlohmann.{Nlohmann}
use shelter_server_hpc.Exec.{ok, Exec, modify}
use shelter_server_hpc.Wrapper.{Database}
use shelter_server_hpc.Wrapper.Entries.{Entries}
use shelter_server_hpc.Alerts.Entry.{EntryAlertsCount}
use shelter_server_hpc.Server.Tables.{UdpClientData, Tables}

-- zlib on a path: whether the file opens, what one `gzwrite` of a text leaves in it, whether that call
-- takes the whole text, and whether `gzclose` succeeds.
pub record Gzip : Type 0 where
  pub gzopen : Bytes → Bool
  pub compressed : Bytes → Bytes
  pub takes_all : Bytes → Bool
  pub gzclose : Bytes → Bool

-- What the server calls. `canny` is `cannyEdgeDetection` with the path of an image and the directory of
-- the result, on the files; `undef` is the `int` that a double beyond the range gives.
pub record Libraries : Type 1 where
  pub json : Nlohmann
  pub cjson : CJson
  pub database : Database
  pub undef : ℤ
  pub gzip : Gzip
  pub canny : Bytes → Bytes → Entries → Entries

-- One call of `send` or `sendto`, with the bytes that it is given.
pub data Sent : Type 0 where
  to_tcp : ℤ → Bytes → Sent
  to_udp : UdpClientData → Bytes → Sent

-- `watched` are the descriptors of clients in `master_fds`, `log` the messages given to `logEvent`.
pub record State (Db : Type 0) : Type 0 where
  pub db : Db
  pub tables : Tables
  pub supplies_id_gen : ℤ
  pub alerts_id_gen : ℤ
  pub emerg_notif_id_gen : ℤ
  pub entry_alerts_count : EntryAlertsCount
  pub server_running : Bool
  pub watched : List ℤ
  pub files : Entries
  pub sent : List Sent
  pub log : List Bytes

-- `counter++` on an `int`: beyond the largest one it wraps around on the usual machines.
unfoldable pub increment : ℤ → ℤ
unfolding ◌+ℤ◌
increment (pos n) = if leb int_max n then negsuc int_max else pos (n + 1)
increment (negsuc n) = negsuc n +ℤ pos 1

-- `IdGen::setId` and `IdGen::getNextId`, on the counter.
unfoldable pub set_id : ℤ → ℤ
unfolding increment
set_id value = increment value

unfoldable pub get_next_id : ℤ → Bytes × ℤ
unfolding increment
get_next_id counter = (print_int counter, increment counter)

abbrev pub admin_user : Bytes
admin_user = codes "ubuntu"

abbrev pub alerts_key_prefix : Bytes
alerts_key_prefix = codes "alert_"

abbrev pub supplies_key_prefix : Bytes
supplies_key_prefix = codes "supplies_"

abbrev pub emergency_notif_key_prefix : Bytes
emergency_notif_key_prefix = codes "emergencyNotification_"

abbrev pub last_alert_id_key : Bytes
last_alert_id_key = codes "last_alert"

abbrev pub last_supplies_id_key : Bytes
last_supplies_id_key = codes "last_supplies"

abbrev pub last_event_key : Bytes
last_event_key = codes "lastEvent"

abbrev pub latest_supplies_key : Bytes
latest_supplies_key = codes "latestSupplies"

-- A key of the database: a prefix, an identifier and the time of `getCurrentTimestamp`.
abbrev pub key_of : Bytes → Bytes → Bytes → Bytes
key_of prefix id now = prefix ++ (id ++ (b'_' ∷ now))

module _ {Db : Type 0} where
  -- A program on the open database, as a program of the server.
  unfoldable pub on_db : {A : Type 0} → Exec Db A → Exec (State Db) A
  on_db m s = let (r, d) = m s.db in (r, record s { db = d })

  unfoldable pub log_event : Bytes → Exec (State Db) (Unit {0})
  unfolding modify
  log_event message = modify (λ s. record s { log = s.log ++ (message ∷ []) })

  unfoldable pub send_bytes : Sent → Exec (State Db) (Unit {0})
  unfolding modify
  send_bytes event = modify (λ s. record s { sent = s.sent ++ (event ∷ []) })

  unfoldable pub next_supplies_id : Exec (State Db) Bytes
  unfolding get_next_id
  next_supplies_id s =
      let (id, counter) = get_next_id s.supplies_id_gen in
      (ok id, record s { supplies_id_gen = counter })

  unfoldable pub next_alert_id : Exec (State Db) Bytes
  unfolding get_next_id
  next_alert_id s =
      let (id, counter) = get_next_id s.alerts_id_gen in
      (ok id, record s { alerts_id_gen = counter })

  unfoldable pub next_emerg_notif_id : Exec (State Db) Bytes
  unfolding get_next_id
  next_emerg_notif_id s =
      let (id, counter) = get_next_id s.emerg_notif_id_gen in
      (ok id, record s { emerg_notif_id_gen = counter })
