-- ===== src/Server/Keys.antt =====
-- The keys under which src/server/server.cpp stores what happens, and the identifiers in them.
use mathlib.Core.Option.{some-injective}
use shelter_server_hpc.Prelude.{
  ◌≡◌, ◌≢◌, refl, sym, ap, ◌∙◌, ℤ, IsInt, false, Option, some, ◌∷◌, ◌++◌, Bytes, equal, equal_iff,
  Bool-cases, inl, inr,
}
use shelter_server_hpc.Stdio.{print_int, scanf_int}
use shelter_server_hpc.Stdio.Reading.{scanf_int-print_int}
use shelter_server_hpc.Server.State.{key_of, alerts_key_prefix}

-- What stands before the time tells two identifiers apart.
ids-ne :
    (a b : ℤ) (t u : Bytes)
    → IsInt a
    → IsInt b
    → a ≢ b
    → equal (print_int a ++ (b'_' ∷ t)) (print_int b ++ (b'_' ∷ u)) ≡ false
ids-ne a b t u v w ne =
    elim (Bool-cases (equal (print_int a ++ (b'_' ∷ t)) (print_int b ++ (b'_' ∷ u)))) [
      | inr n ↦ n
      | inl e ↦
          let same : print_int a ++ (b'_' ∷ t) ≡ print_int b ++ (b'_' ∷ u) =
            (equal_iff (print_int a ++ (b'_' ∷ t)) (print_int b ++ (b'_' ∷ u))).0 e in
          let read : (some a, b'_' ∷ t) ≡ (some b, b'_' ∷ u) =
            sym (scanf_int-print_int a b'_' t v refl)
            ∙ ap scanf_int same
            ∙ scanf_int-print_int b b'_' u w refl in
          absurd (ne (some-injective a b (ap (λ (p : Option ℤ × Bytes). p.0) read)))
    ]

-- Alerts with different identifiers have different keys, whatever the times.
pub alert_keys-ne :
    (a b : ℤ) (t u : Bytes)
    → IsInt a
    → IsInt b
    → a ≢ b
    → equal (key_of alerts_key_prefix (print_int a) t) (key_of alerts_key_prefix (print_int b) u)
      ≡ false
unfolding equal
alert_keys-ne a b t u v w ne = ids-ne a b t u v w ne
