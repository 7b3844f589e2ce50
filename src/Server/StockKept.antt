-- ===== src/Server/StockKept.antt =====
-- Which handlers of src/server/server.cpp may change the stock.
use shelter_server_hpc.Prelude.{◌≡◌, refl, ◌∙◌, ◌⊎◌, inl, inr, false, Bytes, codes}
use shelter_server_hpc.RocksDb.{Reply, Written, refused, written}
use shelter_server_hpc.Exec.{modify}
use shelter_server_hpc.Exec.Keeps.{Keeps}
use shelter_server_hpc.Wrapper.Entries.{IsOrdered}
use shelter_server_hpc.Wrapper.Operations.{put}
use shelter_server_hpc.Server.State.{
  Libraries, State, on_db, log_event, send_bytes, next_supplies_id, next_alert_id,
  next_emerg_notif_id,
}
use shelter_server_hpc.Server.Frame.{Primitives, IsOther}
use shelter_server_hpc.Server.FrameLists.{
  ListPrimitives, accept_tcp_conn-Keeps, list_udp_client-Keeps, drop_tcp_client-Keeps,
}
use shelter_server_hpc.Server.FrameLoop.{asks, handle_ready-Keeps}
use shelter_server_hpc.Server.Loop.{Ready, handle_ready}

pub written_cases : {D : Type 0} (w : Written D) → (w ≡ refused) ⊎ ((d : D) × (w ≡ written d))
written_cases refused = inl refl
written_cases (written d) = inr (d, refl)

module _ (L : Libraries) (W : IsOrdered L.database) where
  open L use {database}

  module _ (food medicine : Reply) where
    -- What the database answers for the two keys.
    abbrev StockIs : State database.Db → Type 0
    StockIs s =
        (database.get s.db (codes "food") ≡ food)
        × (database.get s.db (codes "medicine") ≡ medicine)

    put-StockIs : (k v : Bytes) → IsOther k → Keeps StockIs (on_db (put database k v))
    unfolding put on_db
    put-StockIs k v o = record {
      at = λ s h. elim (written_cases (database.put s.db k v)) [
        | inl e ↦ rw (e, put) h
        | inr (d, e) ↦
            rw (e, put)
              (
                W.get-put_ne s.db d k (codes "food") v e o.0 ∙ h.0,
                W.get-put_ne s.db d k (codes "medicine") v e o.1 ∙ h.1,
              )
      ];
    }

    stock_primitives : Primitives L StockIs
    unfolding log_event send_bytes next_supplies_id next_alert_id next_emerg_notif_id modify
    stock_primitives = record {
      put = put-StockIs;
      log = λ line. record { at = λ s h. h };
      send = λ event. record { at = λ s h. h };
      supplies_id = record { at = λ s h. h };
      alert_id = record { at = λ s h. h };
      emerg_notif_id = record { at = λ s h. h };
      files = λ files. record { at = λ s h. h };
      count = λ f. record { at = λ s h. h };
      stop = record { at = λ s h. h };
    }

    stock_lists : ListPrimitives StockIs
    unfolding log_event modify
    stock_lists = record {
      log = λ line. record { at = λ s h. h };
      tables = λ f. record { at = λ s h. h };
      watched = λ f. record { at = λ s h. h };
    }

  -- Whatever the server handles, an alert, a notice, a connection or a message, the two values of the
  -- stock in the database stay as they are, however the handling ends, unless it is a TCP message that
  -- asks for an update, or a datagram that asks for one with the host name of the admin.
  pub handle_ready-stock :
      (r : Ready) (s : State database.Db)
      → asks L r ≡ false
      → let s' = (handle_ready L r s).1 in
        (database.get s'.db (codes "food") ≡ database.get s.db (codes "food"))
        × (database.get s'.db (codes "medicine") ≡ database.get s.db (codes "medicine"))
  handle_ready-stock r s e =
      let food = database.get s.db (codes "food") in
      let medicine = database.get s.db (codes "medicine") in
      let lists = stock_lists food medicine in
      (handle_ready-Keeps L (StockIs food medicine) (stock_primitives food medicine) r
          (λ c _. accept_tcp_conn-Keeps _ lists c) (list_udp_client-Keeps _ lists)
          (drop_tcp_client-Keeps _ lists) (λ a. cc)).at
        s (refl, refl)
