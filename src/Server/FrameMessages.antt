-- ===== src/Server/FrameMessages.antt =====
-- What keeps a predicate: sending, loading, the summary, alerts, notices and images.
use shelter_server_hpc.Prelude.{ℤ, Bool, inl, inr, List, [], ◌∷◌, Bytes, String, Option-cases}
use shelter_server_hpc.Exec.Keeps.{Keeps, Keeps-then}
use shelter_server_hpc.Wrapper.Entries.{Entries, find_key}
use shelter_server_hpc.Alerts.Entry.{detect_entry, count_entry}
use shelter_server_hpc.Server.Tables.{UdpClientData}
use shelter_server_hpc.Server.State.{Libraries, State, to_tcp}
use shelter_server_hpc.Server.Messages.{
  recv_fails, received, send_json_to_tcp_client, send_json_to_udp_client, load_food, load_medicine,
  count_alerts_at, get_last_event, create_json_summary, send_to_fds, send_to_clients,
  send_json_to_all_tcp_clients, send_to_all_udp_clients,
}
use shelter_server_hpc.Server.Images.{send_image_list, send_image, send_file_to_client, deliver}
use shelter_server_hpc.Server.Notices.{
  Fifo, open_fails, read_fails, reads, Accepted, accept_fails, accepted, store_alert, handle_alert,
  check_alerts, store_notice, handle_notice, handle_unix_conn,
}
use shelter_server_hpc.Server.Frame.{
  Primitives, IsOther, open_wrapper-Keeps, get_value_by_key-Keeps, count_occurrences-Keeps,
  put_last_event-Keeps, put_latest_supplies-Keeps, put_last_alert-Keeps, put_last_supplies-Keeps,
  put_alert-Keeps, put_supplies-Keeps, put_notice-Keeps, log_event-Keeps, send_bytes-Keeps,
  next_supplies_id-Keeps, next_alert_id-Keeps, next_emerg_notif_id-Keeps, frame_rules,
}

module _ (L : Libraries) (P : State L.database.Db → Type 0) (prim : Primitives L P) where
  open L use {database, json}

  pub send_json_to_tcp_client-Keeps :
      (fd : ℤ) (j : json.Json) → Keeps P (send_json_to_tcp_client L fd j)
  unfolding send_json_to_tcp_client
  send_json_to_tcp_client-Keeps fd j = search frame_rules

  pub send_json_to_udp_client-Keeps :
      (client : UdpClientData) (j : json.Json) → Keeps P (send_json_to_udp_client L client j)
  unfolding send_json_to_udp_client
  send_json_to_udp_client-Keeps client j = search frame_rules

  send_to_fds-Keeps : (fds : List ℤ) (j : json.Json) → Keeps P (send_to_fds L fds j)
  unfolding send_to_fds
  send_to_fds-Keeps [] j = search frame_rules
  send_to_fds-Keeps (fd ∷ fds) j =
      search (frame_rules, send_json_to_tcp_client-Keeps fd j, send_to_fds-Keeps fds j)

  pub send_json_to_all_tcp_clients-Keeps :
      (j : json.Json) → Keeps P (send_json_to_all_tcp_clients L j)
  unfolding send_json_to_all_tcp_clients
  send_json_to_all_tcp_clients-Keeps j = record {
    at = λ s. (send_to_fds-Keeps s.tables.tcp_clients j).at s;
  }

  send_to_clients-Keeps :
      (clients : List UdpClientData) (bytes : Bytes) → Keeps P (send_to_clients L clients bytes)
  unfolding send_to_clients
  send_to_clients-Keeps [] bytes = search frame_rules
  send_to_clients-Keeps (c ∷ clients) bytes =
      Keeps-then (send_bytes-Keeps L P prim _) (send_to_clients-Keeps clients bytes)

  pub send_to_all_udp_clients-Keeps : (bytes : Bytes) → Keeps P (send_to_all_udp_clients L bytes)
  unfolding send_to_all_udp_clients
  send_to_all_udp_clients-Keeps bytes = record {
    at = λ s. (send_to_clients-Keeps s.tables.udp_clients bytes).at s;
  }

  pub load_food-Keeps : Keeps P (load_food L)
  unfolding load_food
  load_food-Keeps = record { at = λ s h. h }

  pub load_medicine-Keeps : Keeps P (load_medicine L)
  unfolding load_medicine
  load_medicine-Keeps = record { at = λ s h. h }

  pub count_alerts_at-Keeps : (entry : String) → Keeps P (count_alerts_at L entry)
  unfolding count_alerts_at
  count_alerts_at-Keeps entry = search frame_rules

  pub get_last_event-Keeps : Keeps P (get_last_event L)
  unfolding get_last_event
  get_last_event-Keeps = search frame_rules

  pub ruleset message_rules = (
    frame_rules, send_json_to_tcp_client-Keeps, send_json_to_udp_client-Keeps,
    send_json_to_all_tcp_clients-Keeps, send_to_all_udp_clients-Keeps, load_food-Keeps,
    load_medicine-Keeps, count_alerts_at-Keeps, get_last_event-Keeps,
  )

  pub create_json_summary-Keeps : Keeps P (create_json_summary L)
  unfolding create_json_summary
  create_json_summary-Keeps = search message_rules depth 30

  store_alert-Keeps : (now alert : Bytes) → Keeps P (store_alert L now alert)
  unfolding store_alert
  store_alert-Keeps now alert = search message_rules depth 10

  handle_alert-Keeps : (now alert : Bytes) → Keeps P (handle_alert L now alert)
  unfolding handle_alert
  handle_alert-Keeps now alert = Keeps-then (log_event-Keeps L P prim alert) (
      Keeps-then (send_json_to_all_tcp_clients-Keeps _) (
        Keeps-then (send_to_all_udp_clients-Keeps alert) (
          Keeps-then (log_event-Keeps L P prim _) (
            Keeps-then (store_alert-Keeps now alert)
              (prim.count (count_entry (detect_entry alert)))))))

  pub check_alerts-Keeps : (now : Bytes) (f : Fifo) → Keeps P (check_alerts L now f)
  unfolding check_alerts
  check_alerts-Keeps now open_fails = search message_rules
  check_alerts-Keeps now read_fails = search message_rules
  check_alerts-Keeps now (reads []) = search message_rules
  check_alerts-Keeps now (reads (b ∷ bs)) = search (message_rules, handle_alert-Keeps)

  store_notice-Keeps : (now notice : Bytes) → Keeps P (store_notice L now notice)
  unfolding store_notice
  store_notice-Keeps now notice = search message_rules depth 30

  handle_notice-Keeps : (now notice : Bytes) → Keeps P (handle_notice L now notice)
  unfolding handle_notice
  handle_notice-Keeps now notice = Keeps-then (store_notice-Keeps now notice) (
      Keeps-then (send_json_to_all_tcp_clients-Keeps _)
        (Keeps-then (log_event-Keeps L P prim notice) prim.stop))

  pub handle_unix_conn-Keeps : (now : Bytes) (a : Accepted) → Keeps P (handle_unix_conn L now a)
  unfolding handle_unix_conn
  handle_unix_conn-Keeps now accept_fails = search message_rules
  handle_unix_conn-Keeps now (accepted recv_fails) = search message_rules
  handle_unix_conn-Keeps now (accepted (received [])) = search message_rules
  handle_unix_conn-Keeps now (accepted (received (b ∷ bs))) =
      search (message_rules, handle_notice-Keeps)

  pub send_image_list-Keeps :
      (fd : ℤ) (directory : List (Bool × Bytes)) → Keeps P (send_image_list L fd directory)
  unfolding send_image_list
  send_image_list-Keeps fd directory = search message_rules

  send_file_to_client-Keeps : (fd : ℤ) (path : Bytes) → Keeps P (send_file_to_client L fd path)
  unfolding send_file_to_client
  send_file_to_client-Keeps fd path = record {
    at = λ s h. elim (Option-cases (find_key path s.files)) [
      | inl missing ↦ rw (missing, send_file_to_client) h
      | inr (contents, there) ↦
          rw (there, send_file_to_client) ((send_bytes-Keeps L P prim (to_tcp fd contents)).at s h)
    ];
  }

  deliver-Keeps : (fd : ℤ) (zip : Bytes) (files : Entries) → Keeps P (deliver L fd zip files)
  unfolding deliver
  deliver-Keeps fd zip files = Keeps-then (prim.files files) (
      Keeps-then (send_json_to_tcp_client-Keeps fd _)
        (Keeps-then (send_json_to_tcp_client-Keeps fd _) (send_file_to_client-Keeps fd zip)))

  pub send_image-Keeps : (fd : ℤ) (name : Bytes) → Keeps P (send_image L fd name)
  unfolding send_image
  send_image-Keeps fd name = record { at = λ s. (deliver-Keeps fd _ _).at s }
