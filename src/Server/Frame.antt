-- ===== src/Server/Frame.antt =====
-- What the handlers of the server keep: a predicate on states that their primitive steps keep.
use shelter_server_hpc.Prelude.{◌≡◌, refl, sym, subst, arith, false, Bytes, codes, equal}
use shelter_server_hpc.Exec.{Exec, modify}
use shelter_server_hpc.Exec.Keeps.{Keeps, keeps_rules, Keeps-then}
use shelter_server_hpc.Wrapper.Entries.{Entries}
use shelter_server_hpc.Wrapper.Operations.{open_wrapper, put, get_value_by_key, count_occurrences}
use shelter_server_hpc.Alerts.Entry.{EntryAlertsCount}
use shelter_server_hpc.Server.State.{
  Libraries, State, Sent, on_db, log_event, send_bytes, next_supplies_id, next_alert_id,
  next_emerg_notif_id, key_of, supplies_key_prefix, alerts_key_prefix, emergency_notif_key_prefix,
  last_event_key, latest_supplies_key, last_alert_id_key, last_supplies_id_key,
}

-- A key that is none of the two of the stock.
abbrev pub IsOther : Bytes → Type 0
IsOther k = (equal k (codes "food") ≡ false) × (equal k (codes "medicine") ≡ false)

-- The steps that every handler may take.
pub record Primitives (L : Libraries) (P : State L.database.Db → Type 0) : Type 0 where
  pub put : (k v : Bytes) → IsOther k → Keeps P (on_db (put L.database k v))
  pub log : (message : Bytes) → Keeps P (log_event message)
  pub send : (event : Sent) → Keeps P (send_bytes event)
  pub supplies_id : Keeps P next_supplies_id
  pub alert_id : Keeps P next_alert_id
  pub emerg_notif_id : Keeps P next_emerg_notif_id
  pub files : (files : Entries) → Keeps P (modify (λ s. record s { files = files }))
  pub count :
      (f : EntryAlertsCount → EntryAlertsCount)
      → Keeps P (modify (λ s. record s { entry_alerts_count = f s.entry_alerts_count }))
  pub stop : Keeps P (modify (λ s. record s { server_running = false }))

module _ (L : Libraries) (P : State L.database.Db → Type 0) (prim : Primitives L P) where
  open L use {database, json}

  -- A program that only reads the database.
  on_db-Keeps :
      {A : Type 0} (m : Exec database.Db A) → ((d : database.Db) → (m d).1 ≡ d) → Keeps P (on_db m)
  unfolding on_db
  on_db-Keeps m same = record {
    at = λ s h. subst (λ d. P (record s { db = d })) (sym (same s.db)) h;
  }

  pub open_wrapper-Keeps : Keeps P (on_db (open_wrapper database))
  unfolding open_wrapper
  open_wrapper-Keeps = on_db-Keeps _ (λ d. ground arith)

  pub get_value_by_key-Keeps : (k : Bytes) → Keeps P (on_db (get_value_by_key database k))
  unfolding get_value_by_key
  get_value_by_key-Keeps k = on_db-Keeps _ (λ d. ground arith)

  pub count_occurrences-Keeps : (k : Bytes) → Keeps P (on_db (count_occurrences database k))
  unfolding count_occurrences
  count_occurrences-Keeps k = on_db-Keeps _ (λ d. refl)

  pub put_last_event-Keeps : (v : Bytes) → Keeps P (on_db (put database last_event_key v))
  unfolding equal
  put_last_event-Keeps v = prim.put last_event_key v (refl, refl)

  pub put_latest_supplies-Keeps : (v : Bytes) → Keeps P (on_db (put database latest_supplies_key v))
  unfolding equal
  put_latest_supplies-Keeps v = prim.put latest_supplies_key v (refl, refl)

  pub put_last_alert-Keeps : (v : Bytes) → Keeps P (on_db (put database last_alert_id_key v))
  unfolding equal
  put_last_alert-Keeps v = prim.put last_alert_id_key v (refl, refl)

  pub put_last_supplies-Keeps : (v : Bytes) → Keeps P (on_db (put database last_supplies_id_key v))
  unfolding equal
  put_last_supplies-Keeps v = prim.put last_supplies_id_key v (refl, refl)

  pub put_alert-Keeps :
      (id now v : Bytes) → Keeps P (on_db (put database (key_of alerts_key_prefix id now) v))
  unfolding equal
  put_alert-Keeps id now v = prim.put (key_of alerts_key_prefix id now) v (refl, refl)

  pub put_supplies-Keeps :
      (id now v : Bytes) → Keeps P (on_db (put database (key_of supplies_key_prefix id now) v))
  unfolding equal
  put_supplies-Keeps id now v = prim.put (key_of supplies_key_prefix id now) v (refl, refl)

  pub put_notice-Keeps :
      (id now v : Bytes)
      → Keeps P (on_db (put database (key_of emergency_notif_key_prefix id now) v))
  unfolding equal
  put_notice-Keeps id now v = prim.put (key_of emergency_notif_key_prefix id now) v (refl, refl)

  pub log_event-Keeps : (line : Bytes) → Keeps P (log_event line)
  log_event-Keeps = prim.log

  pub send_bytes-Keeps : (event : Sent) → Keeps P (send_bytes event)
  send_bytes-Keeps = prim.send

  pub next_supplies_id-Keeps : Keeps P next_supplies_id
  next_supplies_id-Keeps = prim.supplies_id

  pub next_alert_id-Keeps : Keeps P next_alert_id
  next_alert_id-Keeps = prim.alert_id

  pub next_emerg_notif_id-Keeps : Keeps P next_emerg_notif_id
  next_emerg_notif_id-Keeps = prim.emerg_notif_id

  pub ruleset frame_rules = (
    keeps_rules, open_wrapper-Keeps, get_value_by_key-Keeps, count_occurrences-Keeps,
    put_last_event-Keeps, put_latest_supplies-Keeps, put_last_alert-Keeps, put_last_supplies-Keeps,
    put_alert-Keeps, put_supplies-Keeps, put_notice-Keeps, log_event-Keeps, send_bytes-Keeps,
    next_supplies_id-Keeps, next_alert_id-Keeps, next_emerg_notif_id-Keeps,
  )
