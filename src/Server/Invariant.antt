-- ===== src/Server/Invariant.antt =====
-- An invariant of the whole server: the tables of clients and the descriptors that the main loop
-- watches, through every round of the loop.
use shelter_server_hpc.Prelude.{
  ◌≡◌, refl, ◌∙◌, arith, ℤ, inl, inr, Bool, true, false, [], Option, Bytes, Bool-cases, ltb, length,
  if◌then◌else◌,
}
use shelter_server_hpc.Supplies.Stock.{FoodSupply, MedicineSupply}
use shelter_server_hpc.Supplies.Store.{Run, done, crashes}
use shelter_server_hpc.Exec.{Exec, Result, ok, and_then, modify, when, ends, nothing, ◌>>◌}
use shelter_server_hpc.Exec.Keeps.{Keeps, Keeps-then, Keeps-when}
use shelter_server_hpc.Server.Tables.{
  UdpClientData, max_connections, add_tcp_client, remv_tcp_client, add_udp_client,
}
use shelter_server_hpc.Server.Reachable.{
  no_clients, WellFormed, add_tcp_client-WellFormed, remv_tcp_client-WellFormed,
  add_udp_client-WellFormed,
}
use shelter_server_hpc.Server.Listing.{
  connected_line, NewClient, accept_fails, new_client, PeerAddress, accept_tcp_conn,
  list_tcp_client, unlist_tcp_client, list_udp_client, drop_tcp_client, fd_isset, fd_set,
  fits_fd_set,
}
use shelter_server_hpc.Server.State.{
  Libraries, State, on_db, log_event, send_bytes, next_supplies_id, next_alert_id,
  next_emerg_notif_id,
}
use shelter_server_hpc.Server.Messages.{update_supplies, stored}
use shelter_server_hpc.Server.Frame.{Primitives}
use shelter_server_hpc.Server.FrameLoop.{handle_ready-Keeps}
use shelter_server_hpc.Server.Loop.{
  Ready, tcp_ready, udp_ready, unix_ready, fifo_ready, client_ready, handle_ready,
}
use shelter_server_hpc.Server.Watched.{
  AllWatched, AllWatched-erase_fd, fresh_among, add_tcp_client-AllWatched,
  add_udp_client-tcp_clients,
}

-- The tables are well formed, and every listed TCP client is watched by the main loop.
abbrev pub Sound : {Db : Type 0} → State Db → Type 0
Sound s = WellFormed s.tables × AllWatched s.tables.tcp_clients s.watched

module _ (L : Libraries) where
  open L use {database}

  Sound-primitives : Primitives L Sound
  unfolding on_db log_event send_bytes next_supplies_id next_alert_id next_emerg_notif_id modify
  Sound-primitives = record {
    put = λ k v o. record { at = λ s h. h };
    log = λ line. record { at = λ s h. h };
    send = λ event. record { at = λ s h. h };
    supplies_id = record { at = λ s h. h };
    alert_id = record { at = λ s h. h };
    emerg_notif_id = record { at = λ s h. h };
    files = λ files. record { at = λ s h. h };
    count = λ f. record { at = λ s h. h };
    stop = record { at = λ s h. h };
  }

  stored-Sound :
      (s : State database.Db) (r : Run (FoodSupply × MedicineSupply × database.Db))
      → Sound s
      → Sound (stored L s r).1
  stored-Sound s (done (f, m, d)) h = h
  stored-Sound s crashes h = h

  update_supplies-Sound :
      (f : FoodSupply) (m : MedicineSupply) (c : Option L.cjson.Json)
      → Keeps Sound (update_supplies L f m c)
  unfolding update_supplies
  update_supplies-Sound f m c = record { at = λ s h. stored-Sound s _ h }

  logged-Sound :
      (b : Bool) (line : Bytes) → Keeps Sound (when b (log_event {Db = database.Db} line))
  logged-Sound b line = Keeps-when b (Sound-primitives.log line)

  list_udp_client-Sound : (c : UdpClientData) → Keeps Sound (list_udp_client {Db = database.Db} c)
  unfolding list_udp_client modify
  list_udp_client-Sound c = record { at = λ s. (Keeps-then listed (logged-Sound _ _)).at s }
    where
      listed :
          Keeps {S = State database.Db} Sound
            (modify (λ s. record s { tables = add_udp_client c s.tables }))
      listed = record {
        at = λ s h. (
          add_udp_client-WellFormed s.tables c h.0,
          rw (add_udp_client-tcp_clients s.tables c) h.1,
        );
      }

  drop_tcp_client-Sound : (fd : ℤ) → Keeps Sound (drop_tcp_client {Db = database.Db} fd)
  unfolding drop_tcp_client unlist_tcp_client modify ◌>>◌ remv_tcp_client
  drop_tcp_client-Sound fd = record {
    at = λ s h. (logged-Sound _ _).at _ (
      remv_tcp_client-WellFormed s.tables fd h.0,
      AllWatched-erase_fd s.tables.tcp_clients fd s.watched h.0.tcp_distinct h.1,
    );
  }

  others :
      (r : Ready)
      → ((c : NewClient) → r ≡ tcp_ready c → ⊥)
      → (s : State database.Db) → Sound s
      → Sound (handle_ready L r s).1
  others r n s h =
      (handle_ready-Keeps L Sound Sound-primitives r (λ c e. absurd (n c e)) list_udp_client-Sound
          drop_tcp_client-Sound (λ _. update_supplies-Sound)).at
        s h

  -- What listing a client does to the parts of the invariant.
  list_tcp_client_lem :
      (fd : ℤ) (s : State database.Db)
      → let r = list_tcp_client fd s in
        (r.0 ≡ ok tt) × (r.1.tables ≡ add_tcp_client fd s.tables) × (r.1.watched ≡ s.watched)
  unfolding list_tcp_client ◌>>◌ modify when log_event nothing
  list_tcp_client_lem fd s = elim (Bool-cases (ltb (length s.tables.tcp_clients) max_connections)) [
    | inl room ↦ rw room (refl, refl, refl)
    | inr full ↦ rw full (refl, refl, refl)
  ]

  -- `accept` gives a descriptor that was not open.
  abbrev pub Fresh : Ready → State database.Db → Type 0
  Fresh (tcp_ready (new_client fd address)) s = fd_isset fd s.watched ≡ false
  Fresh r s = Unit

  and_then_ok :
      {A B : Type 0} (f : A → Exec (State database.Db) B) (a : A) (p : Result A × State database.Db)
      → p.0 ≡ ok a
      → and_then f p ≡ f a p.1
  and_then_ok f a (r, s) e = rw e refl

  -- An accepted connection that fits the set is logged, listed and watched.
  accept_tcp_conn_lem :
      (fd : ℤ) (address : PeerAddress) (s : State database.Db)
      → let s' = (list_tcp_client fd (log_event (connected_line address) s).1).1 in
        accept_tcp_conn (new_client fd address) s ≡ (
          if fits_fd_set fd
          then (ok tt, record s' { watched = fd_set fd s'.watched })
          else (Result.crashes, s'))
  unfolding accept_tcp_conn ◌>>◌ log_event modify ends
  accept_tcp_conn_lem fd address s =
      let s₁ = (log_event (connected_line address) s).1 in
      and_then_ok _ tt _ (list_tcp_client_lem fd s₁).0
      ∙ fits (fits_fd_set fd) (list_tcp_client fd s₁).1
    where
      fits :
          (b : Bool) (s' : State database.Db)
          → (if b
                then modify (λ s. record s { watched = fd_set fd s.watched })
                else ends Result.crashes)
              s'
            ≡ (if b
                then (ok tt, record s' { watched = fd_set fd s'.watched })
                else (Result.crashes, s'))
      fits true s' = refl
      fits false s' = refl

  accept_tcp_conn-Sound :
      (c : NewClient) (s : State database.Db)
      → Fresh (tcp_ready c) s
      → (accept_tcp_conn c s).0 ≡ ok tt
      → Sound s
      → Sound (accept_tcp_conn c s).1
  unfolding accept_tcp_conn nothing log_event
  accept_tcp_conn-Sound accept_fails s f e h = h
  accept_tcp_conn-Sound (new_client fd address) s f e h =
      let s₁ : State database.Db = (log_event (connected_line address) s).1 in
      let (returned, tables, watched) = list_tcp_client_lem fd s₁ in
      elim (Bool-cases (fits_fd_set fd)) [
        | inr n ↦ ground (arith, accept_tcp_conn_lem fd address s)
        | inl y ↦
            rw (accept_tcp_conn_lem fd address s, y, tables, watched, log_event)
              (
                add_tcp_client-WellFormed s.tables fd
                    (fresh_among s.tables.tcp_clients fd s.watched f h.1) h.0,
                add_tcp_client-AllWatched s.tables fd s.watched h.1,
              )
      ]

  -- What the server reaches from its start, as long as every handler ends without an exception.
  pub data Reach : State database.Db → Type 0 where
    begins : (s : State database.Db) → s.tables ≡ no_clients → s.watched ≡ [] → Reach s
    handles :
        (s : State database.Db) (r : Ready)
        → Reach s
        → Fresh r s
        → (handle_ready L r s).0 ≡ ok tt
        → Reach (handle_ready L r s).1

  handle_ready-Sound :
      (r : Ready) (s : State database.Db)
      → Fresh r s
      → (handle_ready L r s).0 ≡ ok tt
      → Sound s
      → Sound (handle_ready L r s).1
  unfolding handle_ready
  handle_ready-Sound (tcp_ready c) s f e h = accept_tcp_conn-Sound c s f e h
  handle_ready-Sound (udp_ready d r) s f e h = others (udp_ready d r) (λ c e. cc) s h
  handle_ready-Sound (unix_ready now a) s f e h = others (unix_ready now a) (λ c e. cc) s h
  handle_ready-Sound (fifo_ready now a) s f e h = others (fifo_ready now a) (λ c e. cc) s h
  handle_ready-Sound (client_ready fd t r) s f e h = others (client_ready fd t r) (λ c e. cc) s h

  -- However long the server runs, it lists at most ten clients of each kind, no descriptor twice, and
  -- no two UDP clients that its comparison takes for the same, and it watches every TCP client that it
  -- lists, if `accept` gives no descriptor that is still open and every handler returns.
  pub Reach-Sound : (s : State database.Db) → Reach s → Sound s
  Reach-Sound _ (begins s t w) = rw t (
    record { tcp_few = omega arith; udp_few = omega arith; tcp_distinct = tt; udp_distinct = tt },
    tt,
  )
  Reach-Sound _ (handles s r h f e) = handle_ready-Sound r s f e (Reach-Sound s h)
