-- ===== src/Server/NoticeRound.antt =====
-- A failure notice, from the UNIX socket to the end of the main loop.
use shelter_server_hpc.Prelude.{
  ◌≡◌, refl, ap, sym, ◌∙◌, ℕ, some, ℤ, ◌<◌, ◌⊎◌, inl, inr, Bool-cases, true, false, List, [], ◌∷◌,
  ◌++◌, Bytes, codes, length, lt→ltb,
}
use shelter_server_hpc.Nlohmann.{message}
use shelter_server_hpc.Stdio.{print_int}
use shelter_server_hpc.TcpClient.Receive.{c_string}
use shelter_server_hpc.Exec.{Result, ok, throws, caught, try_or, modify, nothing, ◌>>◌}
use shelter_server_hpc.Exec.Steps.{bind_ok, then_ok, and_then_ok, then_returns, then_throws}
use shelter_server_hpc.Wrapper.Operations.{open_wrapper, put}
use shelter_server_hpc.Server.State.{
  Libraries, State, on_db, log_event, increment, get_next_id, next_emerg_notif_id, key_of,
  emergency_notif_key_prefix, last_event_key,
}
use shelter_server_hpc.Server.Messages.{received, buffer_size, send_json_to_all_tcp_clients}
use shelter_server_hpc.Server.Notices.{accepted, store_notice, handle_notice, handle_unix_conn}
use shelter_server_hpc.Server.Loop.{
  Ready, Round, Loop, stopped, selects, unix_ready, handle_ready, handle_all, run_loop,
}
use shelter_server_hpc.Server.Broadcast.{tcp_messages, send_to_fds_lem, open_step}
use shelter_server_hpc.Server.StockKept.{written_cases}
use shelter_server_hpc.Server.Stops.{turned_off, is_notice, has_notice, run_loop-notice}

has_notice-append :
    (before : List Ready) (notice : Ready) (rs : List Ready)
    → is_notice notice ≡ true
    → has_notice (before ++ (notice ∷ rs)) ≡ true
has_notice-append [] notice rs e = rw e refl
has_notice-append (r ∷ before) notice rs e = elim (Bool-cases (is_notice r)) [
  | inl y ↦ rw y refl
  | inr n ↦ rw n (has_notice-append before notice rs e)
]

module _ (L : Libraries) where
  open L use {database, json}

  -- A write succeeds, or throws and changes nothing.
  put_cases :
      (k v : Bytes) (s : State database.Db)
      → (on_db (put database k v) s ≡ (throws, s))
        ⊎ ((d : database.Db) × (on_db (put database k v) s ≡ (ok tt, record s { db = d })))
  unfolding put on_db
  put_cases k v s = elim (written_cases (database.put s.db k v)) [
    | inl e ↦ inl (rw (e, put) refl)
    | inr (d, e) ↦ inr (d, rw (e, put) refl)
  ]

  -- Storing a notice changes the database, the counter and the log at most.
  abbrev OnlyStored : State database.Db → Result Unit × State database.Db → Type 0
  OnlyStored s r =
      (d : database.Db) × (i : ℤ) × (lines : List Bytes) × (r
        ≡ (ok tt, record s { db = d; emerg_notif_id_gen = i; log = lines }))

  store_notice-OnlyStored :
      (now notice : Bytes) (s : State database.Db) → OnlyStored s (store_notice L now notice s)
  unfolding store_notice try_or next_emerg_notif_id get_next_id log_event modify open_wrapper on_db
  store_notice-OnlyStored now notice s =
      let i : ℤ = increment s.emerg_notif_id_gen in
      let id : Bytes = print_int s.emerg_notif_id_gen in
      let key : Bytes = key_of emergency_notif_key_prefix id now in
      let line : Bytes = codes "Message written to RocksDB with key: " ++ key in
      let s₀ : State database.Db = record s { emerg_notif_id_gen = i } in
      elim (Bool-cases (database.opens s.db)) [
        | inr n ↦ (
          s.db,
          i,
          s.log,
          ap (caught tt) (bind_ok _ _ s s₀ id refl ∙ then_throws _ _ s₀ s₀ (rw n refl)),
        )
        | inl y ↦ elim (put_cases key notice s₀) [
          | inl e ↦ (
            s.db,
            i,
            s.log,
            ap (caught tt) (
                bind_ok _ _ s s₀ id refl
                ∙ then_ok _ _ s₀ s₀ tt (open_step L s₀ y)
                ∙ then_throws _ _ s₀ s₀ e),
          )
          | inr (d, e) ↦
              let s₁ : State database.Db = record s₀ { db = d } in
              elim (put_cases last_event_key notice s₁) [
                | inl f ↦ (
                  d,
                  i,
                  s.log,
                  ap (caught tt) (
                      bind_ok _ _ s s₀ id refl
                      ∙ then_ok _ _ s₀ s₀ tt (open_step L s₀ y)
                      ∙ then_ok _ _ s₀ s₁ tt e
                      ∙ then_throws _ _ s₁ s₁ f),
                )
                | inr (d₂, f) ↦ (
                  d₂,
                  i,
                  s.log ++ (line ∷ []),
                  ap (caught tt) (
                      bind_ok _ _ s s₀ id refl
                      ∙ then_ok _ _ s₀ s₀ tt (open_step L s₀ y)
                      ∙ then_ok _ _ s₀ s₁ tt e
                      ∙ then_ok _ _ s₁ (record s₁ { db = d₂ }) tt f),
                )
              ]
        ]
      ]

  -- What a notice does to the clients and to the loop.
  abbrev Ended : Bytes → State database.Db → Result Unit × State database.Db → Type 0
  Ended t s r =
      (s' : State database.Db) × (r ≡ (ok tt, s'))
      × (s'.sent ≡ s.sent ++ tcp_messages L t s.tables.tcp_clients)
      × (s'.server_running ≡ false)

  handle_notice-Ended :
      (now notice t : Bytes) (s : State database.Db)
      → json.dump (message json "disconnect") ≡ some t
      → Ended t s (handle_notice L now notice s)
  unfolding handle_notice send_json_to_all_tcp_clients log_event modify
  handle_notice-Ended now notice t s e =
      let (d, i, lines, stored) = store_notice-OnlyStored now notice s in
      let s₁ : State database.Db = record s { db = d; emerg_notif_id_gen = i; log = lines } in
      let s₂ : State database.Db = record s₁ {
        sent = s.sent ++ tcp_messages L t s.tables.tcp_clients;
      } in
      let s₃ : State database.Db = record s₂ { log = lines ++ (notice ∷ []) } in
      (
        record s₃ { server_running = false },
        then_ok _ _ s s₁ tt stored
            ∙ then_ok _ _ s₁ s₂ tt
                (send_to_fds_lem L s.tables.tcp_clients (message json "disconnect") t s₁ e)
            ∙ then_ok _ _ s₂ s₃ tt refl,
        refl,
        refl,
      )

  -- A round whose handlers return is handled in two parts.
  handle_all-append :
      (before rest : List Ready) (s : State database.Db)
      → (handle_all L (before ++ rest) s).0 ≡ ok tt
      → handle_all L (before ++ rest) s ≡ handle_all L rest (handle_all L before s).1
  unfolding handle_all nothing
  handle_all-append [] rest s e = refl
  handle_all-append (r ∷ before) rest s e =
      let m = handle_ready L r in
      let (a, first, p) = then_returns m (handle_all L (before ++ rest)) s tt e in
      let s₁ : State database.Db = (m s).1 in
      let q : (m >> handle_all L before) s ≡ handle_all L before s₁ =
        unfold ◌>>◌ in and_then_ok (λ _. handle_all L before) a (m s) first in
      let returns : (handle_all L (before ++ rest) s₁).0 ≡ ok tt =
        sym (ap (λ (x : Result Unit × State database.Db). x.0) p) ∙ e in
      p
      ∙ handle_all-append before rest s₁ returns
      ∙ ap (λ (x : Result Unit × State database.Db). handle_all L rest x.1) (sym q)

  -- The running server gets a failure notice of less than 1024 bytes in a round of `select`, before or
  -- behind any other descriptors of the round, and the handlers of all of them return. If the message
  -- "disconnect" can be dumped, whether or not the notice can be stored, the notice sends that message
  -- to every TCP client that is listed when its turn comes, in the order of the list, and nothing else,
  -- and it stops the server. The descriptors behind it are handled all the same; then the loop ends,
  -- without another call of `select`, and sends no more.
  pub run_loop-disconnect :
      (now : Bytes) (b : ℕ) (bs t : Bytes) (before rs : List Ready) (rounds : List Round)
      (s : State database.Db)
      → length (b ∷ bs) < buffer_size
      → s.server_running ≡ true
      → json.dump (message json "disconnect") ≡ some t
      → let notice = unix_ready now (accepted (received (b ∷ bs))) in
        let s₀ = (handle_all L before s).1 in
        let s₁ = (handle_ready L notice s₀).1 in
        (handle_all L (before ++ (notice ∷ rs)) s).0 ≡ ok tt
        → let r = run_loop L (selects (before ++ (notice ∷ rs)) ∷ rounds) s in
          (s₁.sent ≡ s₀.sent ++ tcp_messages L t s₀.tables.tcp_clients)
          × (s₁.server_running ≡ false)
          × (r.0 ≡ ok stopped)
          × (r.1.sent ≡ (handle_all L rs s₁).1.sent)
  unfolding handle_all handle_ready handle_unix_conn turned_off
  run_loop-disconnect now b bs t before rs rounds s short running e returns =
      let notice : Ready = unix_ready now (accepted (received (b ∷ bs))) in
      let s₀ : State database.Db = (handle_all L before s).1 in
      let (s', runs, sent, off) = handle_notice-Ended now (c_string (b ∷ bs)) t s₀ e in
      let handled : handle_ready L notice s₀ ≡ (ok tt, s') = rw (lt→ltb _ _ short) runs in
      let s₁ : State database.Db = (handle_ready L notice s₀).1 in
      let same : s₁ ≡ s' = ap (λ (r : Result Unit × State database.Db). r.1) handled in
      let all : handle_all L (before ++ (notice ∷ rs)) s ≡ handle_all L rs s₁ =
        handle_all-append before (notice ∷ rs) s returns
        ∙ then_ok _ _ s₀ s' tt handled
        ∙ ap (handle_all L rs) (sym same) in
      let ends : run_loop L (selects (before ++ (notice ∷ rs)) ∷ rounds) s
          ≡ turned_off L (handle_all L rs s₁).1 =
        run_loop-notice L (before ++ (notice ∷ rs)) rounds s
          (has_notice-append before notice rs refl) running returns
        ∙ ap (λ (r : Result Unit × State database.Db). turned_off L r.1) all in
      (
        ap (λ (u : State database.Db). u.sent) same ∙ sent,
        ap (λ (u : State database.Db). u.server_running) same ∙ off,
        ap (λ (r : Result Loop × State database.Db). r.0) ends,
        ap (λ (r : Result Loop × State database.Db). r.1.sent) ends,
      )
