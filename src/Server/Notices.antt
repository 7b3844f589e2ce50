-- ===== src/Server/Notices.antt =====
-- `checkAlerts`, which reads the FIFO of the sensors, and `handleUnixConn`, which takes the notices of
-- a failure of the electricity. Also `sigintHandler`.
use shelter_server_hpc.Prelude.{ltb, false, [], ◌∷◌, ◌++◌, Bytes, codes, length, if◌then◌else◌}
use shelter_server_hpc.TcpClient.Receive.{c_string}
use shelter_server_hpc.Nlohmann.{message}
use shelter_server_hpc.Exec.{crashes, ends, nothing, modify, catching, ◌>>=◌, ◌>>◌}
use shelter_server_hpc.Wrapper.Operations.{open_wrapper, put}
use shelter_server_hpc.Alerts.Entry.{detect_entry, count_entry}
use shelter_server_hpc.Server.State.{
  Libraries, on_db, log_event, next_alert_id, next_emerg_notif_id, key_of, alerts_key_prefix,
  emergency_notif_key_prefix, last_alert_id_key, last_event_key,
}
use shelter_server_hpc.Server.Messages.{
  Received, recv_fails, received, buffer_size, Action, send_json_to_all_tcp_clients,
  send_to_all_udp_clients,
}

-- What `open` and one `read` of at most 1024 bytes on the FIFO give.
pub data Fifo : Type 0 where
  open_fails read_fails : Fifo
  reads : Bytes → Fifo

-- What `accept` on the UNIX socket gives, and the first `recv` on the new socket.
pub data Accepted : Type 0 where
  accept_fails : Accepted
  accepted : Received → Accepted

module _ (L : Libraries) where
  open L use {json, database}
  open json use {Json, text, set}

  -- The alert is written under a key of its own and as the last event, then the identifier.
  unfoldable pub store_alert : Bytes → Bytes → Action L (Unit {0})
  unfolding next_alert_id open_wrapper put
  store_alert now alert = catching (do
    id ← next_alert_id
    on_db (open_wrapper database)
    on_db (put database (key_of alerts_key_prefix id now) alert)
    on_db (put database last_event_key alert)
    on_db (put database last_alert_id_key id)
    log_event
        (codes "Alert message written to RocksDB with key: " ++ key_of alerts_key_prefix id now))

  abbrev pub alert_json : Bytes → Json
  alert_json alert = set (message json "alert") (codes "alert_description") (text alert)

  unfoldable pub handle_alert : Bytes → Bytes → Action L (Unit {0})
  unfolding store_alert send_json_to_all_tcp_clients send_to_all_udp_clients detect_entry
      count_entry
  handle_alert now alert = do
    log_event alert
    send_json_to_all_tcp_clients L (alert_json alert)
    send_to_all_udp_clients L alert
    log_event (codes "Sent alert notification to all connected clients")
    store_alert now alert
    modify (λ s. record s {
      entry_alerts_count = count_entry (detect_entry alert) s.entry_alerts_count;
    })

  -- The buffer was filled with NULs. If `read` fills it with 1024 bytes and none of them is a NUL, what
  -- is then read as a text runs on behind the buffer.
  unfoldable pub check_alerts : Bytes → Fifo → Action L (Unit {0})
  unfolding handle_alert c_string
  check_alerts now open_fails = nothing
  check_alerts now read_fails = nothing
  check_alerts now (reads []) = nothing
  check_alerts now (reads (b ∷ bs)) =
      if ltb (length (c_string (b ∷ bs))) buffer_size
      then handle_alert now (c_string (b ∷ bs))
      else ends crashes

  -- `sigintHandler(SIGINT)`; the other processes are sent a signal.
  abbrev pub sigint_handler : Action L (Unit {0})
  sigint_handler = modify (λ s. record s { server_running = false })

  -- `stop`: the signal is handled before `kill` returns.
  abbrev pub stop : Action L (Unit {0})
  stop = sigint_handler

  -- The identifier is not written, so that each start begins with 0.
  unfoldable pub store_notice : Bytes → Bytes → Action L (Unit {0})
  unfolding next_emerg_notif_id open_wrapper put
  store_notice now notice = catching (do
    id ← next_emerg_notif_id
    on_db (open_wrapper database)
    on_db (put database (key_of emergency_notif_key_prefix id now) notice)
    on_db (put database last_event_key notice)
    log_event
        (codes "Message written to RocksDB with key: " ++ key_of emergency_notif_key_prefix id now))

  unfoldable pub handle_notice : Bytes → Bytes → Action L (Unit {0})
  unfolding store_notice send_json_to_all_tcp_clients
  handle_notice now notice = do
    store_notice now notice
    send_json_to_all_tcp_clients L (message json "disconnect")
    log_event notice
    stop

  -- The connection-oriented case, the only one that is used. The NUL behind 1024 bytes is written
  -- outside the buffer.
  unfoldable pub handle_unix_conn : Bytes → Accepted → Action L (Unit {0})
  unfolding handle_notice c_string
  handle_unix_conn now accept_fails = nothing
  handle_unix_conn now (accepted recv_fails) = nothing
  handle_unix_conn now (accepted (received [])) = nothing
  handle_unix_conn now (accepted (received (b ∷ bs))) =
      if ltb (length (b ∷ bs)) buffer_size
      then handle_notice now (c_string (b ∷ bs))
      else ends crashes
