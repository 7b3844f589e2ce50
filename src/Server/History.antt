-- ===== src/Server/History.antt =====
-- A run of alerts: what the database has of them at the end.
use shelter_server_hpc.Prelude.{
  ◌≡◌, refl, sym, ap, subst, ◌∙◌, arith, ℕ, ◌+◌, ◌<◌, ◌≤◌, pos, int_max, IsInt, length, true, some,
  List, [], ◌∷◌, Bytes, equal,
}
use shelter_server_hpc.Stdio.{print_int}
use shelter_server_hpc.RocksDb.{found, written}
use shelter_server_hpc.Exec.{Result}
use shelter_server_hpc.Wrapper.Entries.{IsOrdered}
use shelter_server_hpc.Server.State.{
  Libraries, State, key_of, alerts_key_prefix, increment, last_event_key, last_alert_id_key,
}
use shelter_server_hpc.Server.Notices.{handle_alert, alert_json}
use shelter_server_hpc.Server.Broadcast.{Puts, alert_entries, handle_alert_lem}
use shelter_server_hpc.Server.Writes.{get-Puts}
use shelter_server_hpc.Server.Keys.{alert_keys-ne}

abbrev pub alert_key : ℕ → Bytes → Bytes
alert_key n now = key_of alerts_key_prefix (print_int (pos n)) now

module _ (L : Libraries) where
  open L use {database}

  -- The state after one alert.
  abbrev after : Bytes → Bytes → State database.Db → State database.Db
  after now alert s = (handle_alert L now alert s).1

  -- The state after a run of alerts, each with its time.
  abbrev pub after_alerts : List (Bytes × Bytes) → State database.Db → State database.Db
  after_alerts [] s = s
  after_alerts ((now, alert) ∷ alerts) s = after_alerts alerts (after now alert s)

  -- The object that is sent for an alert can be dumped: `dump` throws at a text that is not UTF-8.
  abbrev pub Dumped : Bytes → Type 0
  Dumped alert = (t : Bytes) × (L.json.dump (alert_json L alert) ≡ some t)

  abbrev pub AllDumped : List (Bytes × Bytes) → Type 0
  AllDumped [] = Unit
  AllDumped ((now, alert) ∷ alerts) = Dumped alert × AllDumped alerts

  -- Every alert of a run is found under its key, the first one with the identifier `n`.
  abbrev pub AllStored : database.Db → ℕ → List (Bytes × Bytes) → Type 0
  AllStored d n [] = Unit
  AllStored d n ((now, alert) ∷ alerts) =
      (database.get d (alert_key n now) ≡ found (some alert)) × AllStored d (n + 1) alerts

module _ (L : Libraries) (W : IsOrdered L.database)
    (opens : (d : L.database.Db) → L.database.opens d ≡ true)
    (writes : (d : L.database.Db) (k v : Bytes)
      → (d' : L.database.Db) × (L.database.put d k v ≡ written d')) where
  open L use {database}

  all-Puts :
      (d : database.Db) (kvs : List (Bytes × Bytes)) → (d' : database.Db) × Puts database d kvs d'
  all-Puts d [] = (d, refl)
  all-Puts d ((k, v) ∷ kvs) =
      let (d₁, p) = writes d k v in let (d', q) = all-Puts d₁ kvs in (d', (d₁, p, q))

  increment-small : (n : ℕ) → n < int_max → increment (pos n) ≡ pos (n + 1)
  unfolding increment
  increment-small n h = ground arith

  pos_injective : (a b : ℕ) → pos a ≡ pos b → a ≡ b
  pos_injective a b q = cc

  -- One alert is stored, and no earlier one is lost.
  abbrev Stores : Bytes → Bytes → State database.Db → ℕ → State database.Db → Type 0
  Stores now alert s n s' =
      (s'.alerts_id_gen ≡ pos (n + 1))
      × (database.get s'.db (alert_key n now) ≡ found (some alert))
      × ((m : ℕ) (time : Bytes)
          → m < n
          → database.get s'.db (alert_key m time) ≡ database.get s.db (alert_key m time))

  after-Stores :
      (now alert : Bytes) (s : State database.Db) (n : ℕ)
      → s.alerts_id_gen ≡ pos n
      → n < int_max
      → Dumped L alert
      → Stores now alert s n (after L now alert s)
  unfolding equal
  after-Stores now alert s n e h (t, j) =
      let (d, p) = all-Puts s.db (alert_entries L s now alert) in
      let (d₁, p₁, rest) = p in
      let id : Bytes = print_int s.alerts_id_gen in
      let own : Bytes = key_of alerts_key_prefix id now in
      let stored : database.get d own ≡ found (some alert) =
        get-Puts database W d₁ d own ((last_event_key, alert) ∷ (last_alert_id_key, id) ∷ [])
          (refl, (refl, tt)) rest
        ∙ W.get-put_self s.db d₁ own alert p₁ in
      subst (λ (r : Result Unit × State database.Db). Stores now alert s n r.1)
        (sym (handle_alert_lem L now alert t s d j (opens s.db) p))
        (
          ap increment e ∙ increment-small n h,
          subst
              (λ z.
                database.get d (key_of alerts_key_prefix (print_int z) now) ≡ found (some alert))
              e stored,
          λ m time before.
              get-Puts database W s.db d (alert_key m time) (alert_entries L s now alert)
                (
                  alert_keys-ne s.alerts_id_gen (pos m) now time
                      (subst IsInt (sym e) (omega arith, omega arith)) (omega arith, omega arith)
                      (λ q. omega (arith, before, pos_injective n m (sym e ∙ q))),
                  (refl, (refl, tt)),
                )
                p,
        )

  earlier_kept :
      (alerts : List (Bytes × Bytes)) (s : State database.Db) (n m : ℕ) (time : Bytes)
      → s.alerts_id_gen ≡ pos n
      → n + length alerts ≤ int_max
      → m < n
      → AllDumped L alerts
      → database.get (after_alerts L alerts s).db (alert_key m time)
        ≡ database.get s.db (alert_key m time)
  earlier_kept [] s n m time e h b u = refl
  earlier_kept ((now, alert) ∷ alerts) s n m time e h b u =
      let (next, stored, kept) = after-Stores now alert s n e (omega arith) u.0 in
      earlier_kept alerts (after L now alert s) (n + 1) m time next (omega arith) (omega arith) u.1
      ∙ kept m time b

  -- If the database opens and takes every write, and the JSON object of each alert of the run can be
  -- dumped, then after the run the database has every one of its alerts under its own key, with
  -- successive identifiers, as long as the identifiers do not pass the largest `int`.
  pub after_alerts-AllStored :
      (alerts : List (Bytes × Bytes)) (s : State database.Db) (n : ℕ)
      → s.alerts_id_gen ≡ pos n
      → n + length alerts ≤ int_max
      → AllDumped L alerts
      → AllStored L (after_alerts L alerts s).db n alerts
  after_alerts-AllStored [] s n e h u = tt
  after_alerts-AllStored ((now, alert) ∷ alerts) s n e h u =
      let (next, stored, kept) = after-Stores now alert s n e (omega arith) u.0 in
      (
        earlier_kept alerts (after L now alert s) (n + 1) n now next (omega arith) (omega arith) u.1
            ∙ stored,
        after_alerts-AllStored alerts (after L now alert s) (n + 1) next (omega arith) u.1,
      )
