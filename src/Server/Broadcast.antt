-- ===== src/Server/Broadcast.antt =====
-- What an alert of the sensors does: messages to all clients, and three keys of the database.
use shelter_server_hpc.Prelude.{
  ◌≡◌, refl, ap, ◌∙◌, ℕ, ℤ, ◌+◌, Bool, true, not, ◌&&◌, contains, if◌then◌else◌, Bool-cases, inl,
  inr, some, List, [], ◌∷◌, ◌++◌, map, Bytes, codes, append-nil, append_assoc,
}
use shelter_server_hpc.Stdio.{print_int}
use shelter_server_hpc.RocksDb.{written}
use shelter_server_hpc.Exec.{Result, ok, try_or, modify, ends, nothing, caught}
use shelter_server_hpc.Exec.Steps.{bind_ok, then_ok}
use shelter_server_hpc.Wrapper.{Database}
use shelter_server_hpc.Wrapper.Operations.{open_wrapper, put}
use shelter_server_hpc.Alerts.Entry.{EntryAlertsCount, detect_entry, count_entry}
use shelter_server_hpc.Server.Tables.{UdpClientData}
use shelter_server_hpc.Server.State.{
  Libraries, State, Sent, to_tcp, to_udp, on_db, log_event, send_bytes, increment, get_next_id,
  next_alert_id, key_of, alerts_key_prefix, last_event_key, last_alert_id_key,
}
use shelter_server_hpc.Server.Messages.{
  dump_or_throw, send_json_to_tcp_client, send_to_fds, send_to_clients,
  send_json_to_all_tcp_clients, send_to_all_udp_clients,
}
use shelter_server_hpc.Server.Notices.{store_alert, handle_alert, alert_json}

-- Successive writes, all of which succeed.
abbrev pub Puts : (D : Database) → D.Db → List (Bytes × Bytes) → D.Db → Type 0
Puts D d [] d' = d ≡ d'
Puts D d ((k, v) ∷ kvs) d' = (d₁ : D.Db) × (D.put d k v ≡ written d₁) × Puts D d₁ kvs d'

-- One more, if the test holds.
abbrev pub raise_if : Bool → ℕ → ℕ
raise_if test n = if test then n + 1 else n

-- The counters after an alert: the first of the names NORTH, SOUTH, EAST and WEST that is in the text
-- raises its counter.
abbrev pub counters_after : Bytes → EntryAlertsCount → EntryAlertsCount
counters_after alert c =
    let n = contains alert (codes "NORTH") in
    let s = contains alert (codes "SOUTH") in
    let e = contains alert (codes "EAST") in
    let w = contains alert (codes "WEST") in
    record {
      north = raise_if n c.north;
      south = raise_if (not n && s) c.south;
      east = raise_if (not n && (not s && e)) c.east;
      west = raise_if (not n && (not s && (not e && w))) c.west;
    }

count_entry-detect_entry :
    (alert : Bytes) (c : EntryAlertsCount)
    → count_entry (detect_entry alert) c ≡ counters_after alert c
unfolding count_entry detect_entry
count_entry-detect_entry alert c = elim (Bool-cases (contains alert (codes "NORTH"))) [
  | inl n ↦ rw n refl
  | inr n ↦ elim (Bool-cases (contains alert (codes "SOUTH"))) [
    | inl s ↦ rw (n, s) refl
    | inr s ↦ elim (Bool-cases (contains alert (codes "EAST"))) [
      | inl e ↦ rw (n, s, e) refl
      | inr e ↦ elim (Bool-cases (contains alert (codes "WEST"))) [
        | inl w ↦ rw (n, s, e, w) refl
        | inr w ↦ rw (n, s, e, w) refl
      ]
    ]
  ]
]

module _ (L : Libraries) where
  open L use {database, json}

  pub put_step :
      (k v : Bytes) (s : State database.Db) (d : database.Db)
      → database.put s.db k v ≡ written d
      → on_db (put database k v) s ≡ (ok tt, record s { db = d })
  unfolding put on_db
  put_step k v s d e = rw (e, put) refl

  pub open_step :
      (s : State database.Db)
      → database.opens s.db ≡ true
      → on_db (open_wrapper database) s ≡ (ok tt, s)
  unfolding open_wrapper on_db
  open_step s e = rw e refl

  pub dump_step :
      (j : json.Json) (t : Bytes) (s : State database.Db)
      → json.dump j ≡ some t
      → ends (dump_or_throw L j) s ≡ (ok t, s)
  unfolding ends
  dump_step j t s e = rw (e, dump_or_throw) refl

  pub send_step :
      (fd : ℤ) (j : json.Json) (t : Bytes) (s : State database.Db)
      → json.dump j ≡ some t
      → send_json_to_tcp_client L fd j s ≡ (ok tt, record s { sent = s.sent ++ (to_tcp fd t ∷ []) })
  unfolding send_json_to_tcp_client send_bytes modify
  send_step fd j t s e = bind_ok _ _ s s t (dump_step j t s e)

  abbrev pub tcp_messages : Bytes → List ℤ → List Sent
  tcp_messages t fds = map (λ fd. to_tcp fd t) fds

  abbrev pub udp_messages : Bytes → List UdpClientData → List Sent
  udp_messages t clients = map (λ client. to_udp client t) clients

  pub send_to_fds_lem :
      (fds : List ℤ) (j : json.Json) (t : Bytes) (s : State database.Db)
      → json.dump j ≡ some t
      → send_to_fds L fds j s ≡ (ok tt, record s { sent = s.sent ++ tcp_messages t fds })
  unfolding send_to_fds nothing
  send_to_fds_lem [] j t s e = simp append-nil refl
  send_to_fds_lem (fd ∷ fds) j t s e =
      then_ok _ _ s _ tt (send_step fd j t s e)
      ∙ send_to_fds_lem fds j t (record s { sent = s.sent ++ (to_tcp fd t ∷ []) }) e
      ∙ simp append_assoc refl

  send_to_clients_lem :
      (clients : List UdpClientData) (t : Bytes) (s : State database.Db)
      → send_to_clients L clients t s
        ≡ (ok tt, record s { sent = s.sent ++ udp_messages t clients })
  unfolding send_to_clients nothing send_bytes modify
  send_to_clients_lem [] t s = simp append-nil refl
  send_to_clients_lem (c ∷ clients) t s =
      then_ok _ _ s _ tt refl
      ∙ send_to_clients_lem clients t (record s { sent = s.sent ++ (to_udp c t ∷ []) })
      ∙ simp append_assoc refl

  -- What an alert writes, for the identifier that is next.
  abbrev pub alert_entries : State database.Db → Bytes → Bytes → List (Bytes × Bytes)
  alert_entries s now alert =
      let id = print_int s.alerts_id_gen in
      (key_of alerts_key_prefix id now, alert)
      ∷ (last_event_key, alert)
      ∷ (last_alert_id_key, id)
      ∷ []

  abbrev pub alert_line : State database.Db → Bytes → Bytes
  alert_line s now =
      codes "Alert message written to RocksDB with key: "
      ++ key_of alerts_key_prefix (print_int s.alerts_id_gen) now

  store_alert_lem :
      (now alert : Bytes) (s : State database.Db) (d : database.Db)
      → database.opens s.db ≡ true
      → Puts database s.db (alert_entries s now alert) d
      → store_alert L now alert s ≡ (
        ok tt,
        record s {
          db = d;
          alerts_id_gen = increment s.alerts_id_gen;
          log = s.log ++ (alert_line s now ∷ []);
        },
      )
  unfolding store_alert try_or next_alert_id get_next_id log_event modify
  store_alert_lem now alert s d o (d₁, p₁, (d₂, p₂, (d₃, p₃, e))) =
      let s₀ : State database.Db = record s { alerts_id_gen = increment s.alerts_id_gen } in
      let after : database.Db → Result (Unit {0}) × State database.Db =
        λ x. (ok tt, record s₀ { db = x; log = s.log ++ (alert_line s now ∷ []) }) in
      ap (caught tt) (
        bind_ok _ _ s s₀ (print_int s.alerts_id_gen) refl
        ∙ then_ok _ _ s₀ s₀ tt (open_step s₀ o)
        ∙ then_ok _ _ s₀ (record s₀ { db = d₁ }) tt (put_step _ _ s₀ d₁ p₁)
        ∙ then_ok _ _ _ (record s₀ { db = d₂ }) tt (put_step _ _ (record s₀ { db = d₁ }) d₂ p₂)
        ∙ then_ok _ _ _ (record s₀ { db = d₃ }) tt (put_step _ _ (record s₀ { db = d₂ }) d₃ p₃)
        ∙ ap after e)

  -- If the database opens and takes the three writes, and the JSON object with the message "alert" and
  -- the alert's text as its description can be dumped, that object is sent to every listed TCP client
  -- and the text to every listed UDP client, in the order of the lists; the text is stored under a key
  -- with the next identifier and as the last event, and the identifier is stored and counted up. The
  -- counter of the first of NORTH, SOUTH, EAST and WEST that the text has in it goes up by one, and no
  -- other one.
  pub handle_alert_lem :
      (now alert t : Bytes) (s : State database.Db) (d : database.Db)
      → json.dump (
          json.set
            (json.set json.null (codes "message") (json.text (codes "alert")))
            (codes "alert_description")
            (json.text alert))
        ≡ some t
      → database.opens s.db ≡ true
      → Puts database s.db (alert_entries s now alert) d
      → handle_alert L now alert s ≡ (
        ok tt,
        record s {
          db = d;
          alerts_id_gen = increment s.alerts_id_gen;
          entry_alerts_count = counters_after alert s.entry_alerts_count;
          sent =
              s.sent
              ++ (tcp_messages t s.tables.tcp_clients ++ udp_messages alert s.tables.udp_clients);
          log =
              s.log
              ++ (alert
                  ∷ codes "Sent alert notification to all connected clients"
                  ∷ alert_line s now
                  ∷ []);
        },
      )
  unfolding handle_alert log_event modify send_json_to_all_tcp_clients send_to_all_udp_clients
  handle_alert_lem now alert t s d j o p =
      let s₁ : State database.Db = record s { log = s.log ++ (alert ∷ []) } in
      let s₂ : State database.Db = record s₁ {
        sent = s.sent ++ tcp_messages t s.tables.tcp_clients;
      } in
      let s₃ : State database.Db = record s₂ {
        sent = s₂.sent ++ udp_messages alert s.tables.udp_clients;
      } in
      let s₄ : State database.Db = record s₃ {
        log = s₁.log ++ (codes "Sent alert notification to all connected clients" ∷ []);
      } in
      then_ok _ _ s s₁ tt refl
      ∙ then_ok _ _ s₁ s₂ tt (send_to_fds_lem s.tables.tcp_clients (alert_json L alert) t s₁ j)
      ∙ then_ok _ _ s₂ s₃ tt (send_to_clients_lem s.tables.udp_clients alert s₂)
      ∙ then_ok _ _ s₃ s₄ tt refl
      ∙ then_ok _ _ s₄ _ tt (store_alert_lem now alert s₄ d o p)
      ∙ simp (append_assoc, count_entry-detect_entry alert s.entry_alerts_count) refl
