-- ===== src/Server/Restart.antt =====
-- The identifier of the last alert, `getLastId` of src/server/server.cpp, over a restart.
use shelter_server_hpc.Prelude.{
  ◌≡◌, refl, ap, subst, ◌∙◌, arith, ℕ, suc, ℤ, pos, negsuc, IsInt, int_max, ◌+◌, true, false, some,
  [], Bytes, append-nil, le→leb,
}
use shelter_server_hpc.Stdio.{decimal, print_int, skip_spaces, read_sign, read_digits}
use shelter_server_hpc.Stdio.Reading.{skip_spaces-decimal, read_digits-decimal_fuel}
use shelter_server_hpc.RocksDb.{found}
use shelter_server_hpc.Exec.{ok, ends}
use shelter_server_hpc.Exec.Steps.{bind_ok, then_ok}
use shelter_server_hpc.Wrapper.{Database}
use shelter_server_hpc.Wrapper.Entries.{IsOrdered}
use shelter_server_hpc.Wrapper.Operations.{open_wrapper, get_value_by_key}
use shelter_server_hpc.Server.State.{Libraries, State, increment, set_id, last_alert_id_key}
use shelter_server_hpc.Server.Start.{
  stoi, signed_int, stoi_or_throw, read_id, or_new_id, get_last_id,
}
use shelter_server_hpc.Server.Notices.{alert_json, handle_alert}
use shelter_server_hpc.Server.Broadcast.{handle_alert_lem, Puts, alert_entries}

read_decimal : (n : ℕ) → read_digits 0 false (decimal n) ≡ (n, true, [])
unfolding decimal read_digits
read_decimal n =
    subst (λ (bs : Bytes). read_digits 0 false bs ≡ (n, true, [])) (append-nil (decimal n))
      (read_digits-decimal_fuel n n false [] (omega arith))

spaces_decimal :
    (n : ℕ) → (skip_spaces (decimal n) ≡ decimal n) × (read_sign (decimal n) ≡ (false, decimal n))
spaces_decimal n =
    subst (λ (bs : Bytes). (skip_spaces bs ≡ bs) × (read_sign bs ≡ (false, bs)))
      (append-nil (decimal n)) (skip_spaces-decimal n [])

-- A printed `int` is read back by `stoi`.
pub stoi-print_int : (z : ℤ) → IsInt z → stoi (print_int z) ≡ some z
unfolding print_int stoi signed_int
stoi-print_int (pos n) v =
    rw ((spaces_decimal n).0, (spaces_decimal n).1, read_decimal n, le→leb n int_max v.0)
stoi-print_int (negsuc n) v =
    rw (read_decimal (suc n), le→leb (suc n) (int_max + 1) v.1) (ground arith)

module _ (D : Database) where
  -- An identifier that is there is read.
  get_last_id_stored :
      (d : D.Db) (k : Bytes) (z : ℤ)
      → IsInt z
      → D.opens d ≡ true
      → D.get d k ≡ found (some (print_int z))
      → get_last_id D k d ≡ (ok z, d)
  unfolding get_last_id read_id open_wrapper get_value_by_key ends
  get_last_id_stored d k z v o e =
      let reads : read_id D k d ≡ (ok z, d) =
        bind_ok _ _ d d (print_int z) (rw (e, get_value_by_key) refl)
        ∙ rw (stoi-print_int z v, stoi_or_throw) refl in
      then_ok _ _ d d tt (rw o refl) ∙ ap (or_new_id D k) reads

module _ (L : Libraries) (W : IsOrdered L.database) where
  open L use {database}

  -- What is read again once the three writes of an alert are done.
  get_last_id_alert :
      (s : State database.Db) (now alert : Bytes) (d : database.Db)
      → IsInt s.alerts_id_gen
      → Puts database s.db (alert_entries L s now alert) d
      → database.opens d ≡ true
      → (get_last_id database last_alert_id_key d ≡ (ok s.alerts_id_gen, d))
        × (set_id s.alerts_id_gen ≡ increment s.alerts_id_gen)
  unfolding set_id
  get_last_id_alert s now alert d v (d₁, p₁, (d₂, p₂, (d₃, p₃, e))) o = (
    get_last_id_stored database d last_alert_id_key s.alerts_id_gen v o (
        subst
          (λ (x : database.Db).
            database.get x last_alert_id_key ≡ found (some (print_int s.alerts_id_gen)))
          e (W.get-put_self d₂ d₃ last_alert_id_key (print_int s.alerts_id_gen) p₃)),
    refl,
  )

  -- If an alert is handled and stored, as the database opens and takes its writes, and the server is
  -- then started again on the database, `getLastId` gives the alert's identifier, if it is an `int`, and
  -- the counter is set to what it was in the server that handled the alert.
  pub get_last_id-handle_alert :
      (now alert t : Bytes) (s : State database.Db) (d : database.Db)
      → IsInt s.alerts_id_gen
      → L.json.dump (alert_json L alert) ≡ some t
      → database.opens s.db ≡ true
      → Puts database s.db (alert_entries L s now alert) d
      → database.opens d ≡ true
      → let s' = (handle_alert L now alert s).1 in
        (get_last_id database last_alert_id_key s'.db ≡ (ok s.alerts_id_gen, s'.db))
        × (set_id s.alerts_id_gen ≡ s'.alerts_id_gen)
  get_last_id-handle_alert now alert t s d v j o p o' =
      rw (handle_alert_lem L now alert t s d j o p) (get_last_id_alert s now alert d v p o')
