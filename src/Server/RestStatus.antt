-- ===== src/Server/RestStatus.antt =====
-- Every way in which `handleRestAlerts` answers.
use shelter_server_hpc.Prelude.{
  ◌≡◌, refl, ap, subst, All, contains, equal, ◌&&◌, ◌||◌, ◌∙◌, arith, ℕ, Bool, true, false, some,
  List, [], ◌∷◌, ◌++◌, Bytes, codes, if◌then◌else◌, Bool-cases, inl, inr,
}
use shelter_server_hpc.Nlohmann.{Nlohmann}
use shelter_server_hpc.Exec.{ok, ends, pure}
use shelter_server_hpc.Exec.Steps.{bind_ok, then_ok}
use shelter_server_hpc.Wrapper.{Database}
use shelter_server_hpc.Wrapper.Entries.{Entries}
use shelter_server_hpc.Wrapper.Operations.{
  open_wrapper, contains_all, select_keys, get_json_by_key_substrings,
}
use shelter_server_hpc.Server.State.{alerts_key_prefix}
use shelter_server_hpc.Server.Rest.{
  Params, answer, bad_request, get_param_value, has_other_params, handle_rest_alerts, find_alerts,
  dump_lines, alerts_with, dump_or_throw,
}

-- Whether some key is that of an alert with the identifier.
abbrev pub has_alert : Bytes → Entries → Bool
has_alert id [] = false
has_alert id ((k, v) ∷ es) =
    (contains k (codes "alert_") && contains k (b'_' ∷ (id ++ (b'_' ∷ [])))) || has_alert id es

-- The status of the answer: 400 for two parameters or more and for one that is not `id`, 404 for an
-- identifier that no alert's key has, 200 otherwise.
abbrev pub expected_status : Params → Entries → ℕ
expected_status [] es = 200
expected_status ((k, []) ∷ []) es = if equal k (codes "id") then 200 else 400
expected_status ((k, c ∷ cs) ∷ []) es =
    if equal k (codes "id") then if has_alert (c ∷ cs) es then 200 else 404 else 400
expected_status (p ∷ q ∷ params) es = 400

-- Whether some key has all the words.
unfoldable any_key : List Bytes → Entries → Bool
any_key words [] = false
any_key words ((k, v) ∷ es) = if contains_all k words then true else any_key words es

-- The words that an alert's key has for an identifier.
abbrev alert_words : Bytes → List Bytes
alert_words id = alerts_key_prefix ∷ (b'_' ∷ (id ++ (b'_' ∷ []))) ∷ []

any_key-has_alert : (id : Bytes) (es : Entries) → any_key (alert_words id) es ≡ has_alert id es
unfolding any_key contains_all
any_key-has_alert id [] = refl
any_key-has_alert id ((k, v) ∷ es) = elim (Bool-cases (contains k alerts_key_prefix)) [
  | inr n ↦ rw n (any_key-has_alert id es)
  | inl y ↦ elim (Bool-cases (contains k (b'_' ∷ (id ++ (b'_' ∷ []))))) [
    | inr n ↦ rw (y, n) (any_key-has_alert id es)
    | inl z ↦ rw (y, z) refl
  ]
]

module _ (J : Nlohmann) (D : Database) where
  -- A value can be dumped: `dump` throws at a text that is not UTF-8.
  abbrev Dumps : J.Json → Type 0
  Dumps j = (t : Bytes) × (J.dump j ≡ some t)

  -- Every entry can be dumped as the object that has the value under its key.
  abbrev pub AllDump : Entries → Type 0
  AllDump [] = Unit
  AllDump ((k, v) ∷ es) = Dumps (J.set J.null k (J.text v)) × AllDump es

  select_keys-AllDump :
      (words : List Bytes) (es : Entries) → AllDump es → All Dumps (select_keys J words es)
  unfolding select_keys
  select_keys-AllDump words [] u = tt
  select_keys-AllDump words ((k, v) ∷ es) u = elim (Bool-cases (contains_all k words)) [
    | inl here ↦ rw here (u.0, select_keys-AllDump words es u.1)
    | inr there ↦ rw there (select_keys-AllDump words es u.1)
  ]

  dump_lines_lem :
      (js : List J.Json) (d : D.Db) → All Dumps js → (t : Bytes) × (dump_lines J D js d ≡ (ok t, d))
  unfolding dump_lines pure ends
  dump_lines_lem [] d u = ([], refl)
  dump_lines_lem (j ∷ js) d ((line, e), u) =
      let (lines, f) = dump_lines_lem js d u in
      (
        line ++ (b'\n' ∷ lines),
        bind_ok _ _ d d line (rw (e, dump_or_throw) refl) ∙ bind_ok _ _ d d lines f,
      )

  -- Something is selected exactly if some key has the words.
  select_keys_none :
      (words : List Bytes) (es : Entries) → any_key words es ≡ false → select_keys J words es ≡ []
  unfolding select_keys any_key
  select_keys_none words [] n = refl
  select_keys_none words ((k, v) ∷ es) n = ground (arith, select_keys_none words es)

  select_keys_some :
      (words : List Bytes) (es : Entries)
      → any_key words es ≡ true
      → (j : J.Json) × (js : List J.Json) × (select_keys J words es ≡ j ∷ js)
  unfolding select_keys any_key
  select_keys_some words [] y = cc
  select_keys_some words ((k, v) ∷ es) y = elim (Bool-cases (contains_all k words)) [
    | inl here ↦ (J.set J.null k (J.text v), select_keys J words es, rw here refl)
    | inr there ↦
        let (j, js, e) = select_keys_some words es (ground (arith, there)) in
        (j, js, rw (there, e) refl)
  ]

  find_alerts_all :
      (d : D.Db)
      → AllDump (D.entries d)
      → (t : Bytes) × (find_alerts J D [] d ≡ (ok (answer 200 t), d))
  unfolding find_alerts alerts_with get_json_by_key_substrings pure
  find_alerts_all d u =
      let js : List J.Json = select_keys J (alerts_key_prefix ∷ []) (D.entries d) in
      let (t, e) =
        dump_lines_lem js d (select_keys-AllDump (alerts_key_prefix ∷ []) (D.entries d) u) in
      (t, bind_ok _ _ d d js refl ∙ bind_ok _ _ d d t e)

  find_alerts_id :
      (c : ℕ) (cs : Bytes) (d : D.Db)
      → AllDump (D.entries d)
      → (t : Bytes) × (find_alerts J D (c ∷ cs) d
          ≡ (ok (answer (if has_alert (c ∷ cs) (D.entries d) then 200 else 404) t), d))
  unfolding find_alerts alerts_with get_json_by_key_substrings pure
  find_alerts_id c cs d u =
      let words : List Bytes = alert_words (c ∷ cs) in
      let same = any_key-has_alert (c ∷ cs) (D.entries d) in
      elim (Bool-cases (any_key words (D.entries d))) [
        | inr n ↦ (
          codes "ID not found",
          rw (← same, n)
              (bind_ok _ _ d d []
                (ap (λ (js : List J.Json). (ok js, d)) (select_keys_none words (D.entries d) n))),
        )
        | inl y ↦
            let (j, js, e) = select_keys_some words (D.entries d) y in
            let (t, f) =
              dump_lines_lem (j ∷ js) d
                (subst (All Dumps) e (select_keys-AllDump words (D.entries d) u)) in
            (
              t,
              rw (← same, y)
                  (bind_ok _ _ d d (j ∷ js) (ap (λ (ks : List J.Json). (ok ks, d)) e)
                    ∙ bind_ok _ _ d d t f),
            )
      ]

  -- If the database opens and each of its entries can be dumped as an object, `/alerts` answers: with
  -- 400 for two parameters or more and for one that is not `id`, with 404 for an identifier that the key
  -- of no alert has, and with 200 otherwise, that is without a parameter, with an `id` that is empty,
  -- and with one that is in the key of an alert. The database stays as it is.
  pub handle_rest_alerts-status :
      (params : Params) (d : D.Db)
      → AllDump (D.entries d)
      → D.opens d ≡ true
      → (t : Bytes) × (handle_rest_alerts J D params d
          ≡ (ok (answer (expected_status params (D.entries d)) t), d))
  unfolding handle_rest_alerts open_wrapper pure has_other_params get_param_value
  handle_rest_alerts-status [] d u o =
      let (t, e) = find_alerts_all d u in (t, then_ok _ _ d d tt (rw o refl) ∙ e)
  handle_rest_alerts-status ((k, []) ∷ []) d u o = elim (Bool-cases (equal k (codes "id"))) [
    | inl y ↦ let (t, e) = find_alerts_all d u in (t, then_ok _ _ d d tt (rw o refl) ∙ rw y e)
    | inr n ↦ (bad_request.content, then_ok _ _ d d tt (rw o refl) ∙ rw n refl)
  ]
  handle_rest_alerts-status ((k, c ∷ cs) ∷ []) d u o = elim (Bool-cases (equal k (codes "id"))) [
    | inl y ↦ let (t, e) = find_alerts_id c cs d u in (t, then_ok _ _ d d tt (rw o refl) ∙ rw y e)
    | inr n ↦ (bad_request.content, then_ok _ _ d d tt (rw o refl) ∙ rw n refl)
  ]
  handle_rest_alerts-status (p ∷ q ∷ params) d u o =
      (bad_request.content, then_ok _ _ d d tt (rw o refl))
