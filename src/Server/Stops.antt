-- ===== src/Server/Stops.antt =====
-- Notices of a failure of the electricity, and the main loop of `Server::start`.
use shelter_server_hpc.Prelude.{
  ◌≡◌, refl, ◌∙◌, arith, Bool, true, false, Option, ◌||◌, ltb, List, [], ◌∷◌, ◌++◌, Bytes, codes,
  length, Bool-cases, inl, inr,
}
use shelter_server_hpc.TcpClient.Receive.{c_string}
use shelter_server_hpc.Exec.{Result, ok, pure, modify, ◌>>◌}
use shelter_server_hpc.Exec.Keeps.{Keeps, Keeps-nothing, Keeps-then}
use shelter_server_hpc.Exec.Steps.{and_then_ok, Leads, Leads-then, Leads-then_first, Leads-crashes}
use shelter_server_hpc.Server.State.{
  Libraries, State, on_db, log_event, send_bytes, next_supplies_id, next_alert_id,
  next_emerg_notif_id,
}
use shelter_server_hpc.Server.Messages.{received, buffer_size}
use shelter_server_hpc.Server.Notices.{accepted, handle_unix_conn, handle_notice, stop}
use shelter_server_hpc.Server.Messages.{update_supplies, stored}
use shelter_server_hpc.Supplies.Stock.{FoodSupply, MedicineSupply}
use shelter_server_hpc.Supplies.Store.{Run, done, crashes}
use shelter_server_hpc.Wrapper.Operations.{put}
use shelter_server_hpc.Server.Frame.{Primitives}
use shelter_server_hpc.Server.FrameLists.{
  ListPrimitives, accept_tcp_conn-Keeps, list_udp_client-Keeps, drop_tcp_client-Keeps,
}
use shelter_server_hpc.Server.FrameLoop.{handle_ready-Keeps}
use shelter_server_hpc.Server.Loop.{
  Ready, unix_ready, Round, selects, select_fails, Loop, stopped, handle_ready, handle_all,
  run_loop,
}

-- A connection on the UNIX socket with a message.
abbrev pub is_notice : Ready → Bool
is_notice (unix_ready now (accepted (received (b ∷ bs)))) = true
is_notice _ = false

abbrev pub has_notice : List Ready → Bool
has_notice [] = false
has_notice (r ∷ rs) = is_notice r || has_notice rs

module _ (L : Libraries) where
  open L use {database}

  abbrev pub IsStopped : State database.Db → Type 0
  IsStopped s = s.server_running ≡ false

  stop-Leads : Leads IsStopped (stop L)
  unfolding modify
  stop-Leads = record { at = λ s a e. refl }

  handle_notice-Leads : (now notice : Bytes) → Leads IsStopped (handle_notice L now notice)
  unfolding handle_notice
  handle_notice-Leads now notice = Leads-then _ (Leads-then _ (Leads-then _ stop-Leads))

  handle_ready-Leads : (r : Ready) → is_notice r ≡ true → Leads IsStopped (handle_ready L r)
  unfolding handle_ready handle_unix_conn
  handle_ready-Leads (unix_ready now (accepted (received (b ∷ bs)))) e =
      elim (Bool-cases (ltb (length (b ∷ bs)) buffer_size)) [
        | inl short ↦ rw short (handle_notice-Leads now (c_string (b ∷ bs)))
        | inr long ↦ rw long Leads-crashes
      ]
  handle_ready-Leads r e = cc

  IsStopped-primitives : Primitives L IsStopped
  unfolding put on_db log_event send_bytes next_supplies_id next_alert_id next_emerg_notif_id modify
  IsStopped-primitives = record {
    put = λ k v o. record { at = λ s h. h };
    log = λ line. record { at = λ s h. h };
    send = λ event. record { at = λ s h. h };
    supplies_id = record { at = λ s h. h };
    alert_id = record { at = λ s h. h };
    emerg_notif_id = record { at = λ s h. h };
    files = λ files. record { at = λ s h. h };
    count = λ f. record { at = λ s h. h };
    stop = record { at = λ s h. refl };
  }

  IsStopped-lists : ListPrimitives IsStopped
  unfolding log_event modify
  IsStopped-lists = record {
    log = λ line. record { at = λ s h. h };
    tables = λ f. record { at = λ s h. h };
    watched = λ f. record { at = λ s h. h };
  }

  stored-IsStopped :
      (s : State database.Db) (r : Run (FoodSupply × MedicineSupply × database.Db))
      → IsStopped s
      → IsStopped (stored L s r).1
  stored-IsStopped s (done (f, m, d)) h = h
  stored-IsStopped s crashes h = h

  update_supplies-IsStopped :
      (f : FoodSupply) (m : MedicineSupply) (c : Option L.cjson.Json)
      → Keeps IsStopped (update_supplies L f m c)
  unfolding update_supplies
  update_supplies-IsStopped f m c = record { at = λ s h. stored-IsStopped s _ h }

  handle_ready-IsStopped : (r : Ready) → Keeps IsStopped (handle_ready L r)
  handle_ready-IsStopped r =
      handle_ready-Keeps L IsStopped IsStopped-primitives r
        (λ c _. accept_tcp_conn-Keeps IsStopped IsStopped-lists c)
        (list_udp_client-Keeps IsStopped IsStopped-lists)
        (drop_tcp_client-Keeps IsStopped IsStopped-lists) (λ _. update_supplies-IsStopped)

  handle_all-IsStopped : (rs : List Ready) → Keeps IsStopped (handle_all L rs)
  unfolding handle_all
  handle_all-IsStopped [] = Keeps-nothing
  handle_all-IsStopped (r ∷ rs) = Keeps-then (handle_ready-IsStopped r) (handle_all-IsStopped rs)

  handle_all-Leads : (rs : List Ready) → has_notice rs ≡ true → Leads IsStopped (handle_all L rs)
  unfolding handle_all
  handle_all-Leads [] e = cc
  handle_all-Leads (r ∷ rs) e = elim (Bool-cases (is_notice r)) [
    | inl here ↦ Leads-then_first (handle_ready-Leads r here) (handle_all-IsStopped rs)
    | inr there ↦ Leads-then (handle_ready L r) (handle_all-Leads rs (ground (arith, there)))
  ]

  -- The end of `start`.
  unfoldable pub turned_off : State database.Db → Result Loop × State database.Db
  turned_off s = (ok stopped, record s { log = s.log ++ (codes "Server turned off" ∷ []) })

  pub run_loop_stopped :
      (rounds : List Round) (s : State database.Db)
      → IsStopped s
      → run_loop L rounds s ≡ turned_off s
  unfolding run_loop turned_off log_event modify pure ◌>>◌
  run_loop_stopped [] s h = simp (h, run_loop) refl
  run_loop_stopped (select_fails ∷ rounds) s h = simp (h, run_loop) refl
  run_loop_stopped (selects rs ∷ rounds) s h = simp (h, run_loop) refl

  -- If the running server gets a message on the UNIX socket in some round, and what it handles in that
  -- round ends without an exception, the loop ends right after the round, whatever descriptors `select`
  -- would have reported later: of those nothing is handled.
  pub run_loop-notice :
      (rs : List Ready) (rounds : List Round) (s : State database.Db)
      → has_notice rs ≡ true
      → s.server_running ≡ true
      → (handle_all L rs s).0 ≡ ok tt
      → run_loop L (selects rs ∷ rounds) s ≡ turned_off (handle_all L rs s).1
  unfolding run_loop
  run_loop-notice rs rounds s n running e =
      simp (running, run_loop)
        (unfold ◌>>◌ in
          and_then_ok (λ _. run_loop L rounds) tt (handle_all L rs s) e
          ∙ run_loop_stopped rounds (handle_all L rs s).1 ((handle_all-Leads rs n).at s tt e))
