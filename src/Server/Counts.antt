-- ===== src/Server/Counts.antt =====
-- What the summary counts as alerts: `countOccurrences` of the wrapper, after an alert is stored.
use shelter_server_hpc.Prelude.{
  ◌≡◌, refl, ap, subst, ◌∙◌, arith, ℕ, zero, suc, ◌+◌, ◌≤◌, ◌<◌, ◌/◌, ◌%◌, ltb, All-append, ℤ, pos,
  negsuc, true, false, Option, none, some, [], ◌∷◌, Bytes, equal, contains, starts_with,
  if◌then◌else◌, Option-cases, Bool-cases, inl, inr, All,
}
use shelter_server_hpc.Stdio.{print_int, decimal, decimal_fuel}
use shelter_server_hpc.Wrapper.Entries.{
  Entries, find_key, replace_key, place_key, before, insert_key, insert_new, insert_old, IsOrdered,
  find-insert_ne,
}
use shelter_server_hpc.Wrapper.Operations.{count_values}
use shelter_server_hpc.Server.State.{
  Libraries, State, key_of, alerts_key_prefix, last_event_key, last_alert_id_key,
}
use shelter_server_hpc.Server.Notices.{alert_json, handle_alert}
use shelter_server_hpc.Server.Broadcast.{handle_alert_lem, Puts, alert_entries}

-- 1 if there is a value with that word in it.
abbrev pub occurs : Bytes → Option Bytes → ℕ
occurs target none = 0
occurs target (some v) = if contains v target then 1 else 0

count-replace :
    (t k v : Bytes) (es : Entries) {old : Bytes}
    → find_key k es ≡ some old
    → count_values t (replace_key k v es) + occurs t (some old)
      ≡ count_values t es + occurs t (some v)
unfolding count_values replace_key find_key
count-replace t k v [] e = cc
count-replace t k v ((j, w) ∷ es) {old = old} e = elim (Bool-cases (equal j k)) [
  | inl same ↦ let h : w ≡ old = ground (arith, same) in rw (same, h) (omega arith)
  | inr other ↦ rw other (omega (arith, count-replace t k v es {old = old} (ground (arith, other))))
]

count-place :
    (t k v : Bytes) (es : Entries)
    → count_values t (place_key k v es) ≡ count_values t es + occurs t (some v)
unfolding count_values place_key
count-place t k v [] = omega arith
count-place t k v ((j, w) ∷ es) = elim (Bool-cases (before k j)) [
  | inl here ↦ rw here (omega arith)
  | inr later ↦ rw later (omega (arith, count-place t k v es))
]

-- A write takes the old value out of the count and puts the new one in.
pub count-insert :
    (t k v : Bytes) (es : Entries)
    → count_values t (insert_key k v es) + occurs t (find_key k es)
      ≡ count_values t es + occurs t (some v)
count-insert t k v es = elim (Option-cases (find_key k es)) [
  | inl e ↦ rw (insert_new k v es e, e, count-place t k v es) (omega arith)
  | inr (old, e) ↦ rw (insert_old k v es e, e) (count-replace t k v es e)
]

-- A text of smaller bytes does not contain the word.
contains-smaller :
    (c : ℕ) (cs text : Bytes) → All (λ (x : ℕ). x < c) text → contains text (c ∷ cs) ≡ false
unfolding contains starts_with
contains-smaller c cs [] h = refl
contains-smaller c cs (x ∷ xs) h = ground (arith, contains-smaller c cs xs h.1)

decimal_fuel-small : (f n : ℕ) → All (λ (x : ℕ). x < b'A') (decimal_fuel f n)
unfolding decimal_fuel
decimal_fuel-small zero n = (omega arith, tt)
decimal_fuel-small (suc f) n = elim (Bool-cases (ltb n 10)) [
  | inl one ↦ rw one (ground arith, tt)
  | inr more ↦ rw more (
      All-append (λ (x : ℕ). x < b'A') (decimal_fuel f (n / 10)) ((b'0' + n % 10) ∷ [])
        (decimal_fuel-small f (n / 10)) (omega arith, tt))
]

pub print_int-small : (z : ℤ) → All (λ (x : ℕ). x < b'A') (print_int z)
unfolding print_int decimal
print_int-small (pos n) = decimal_fuel-small n n
print_int-small (negsuc n) = (omega arith, decimal_fuel-small (suc n) (suc n))

All-below :
    (c : ℕ) (text : Bytes) → b'A' ≤ c → All (λ (x : ℕ). x < b'A') text → All (λ (x : ℕ). x < c) text
All-below c [] h a = tt
All-below c (x ∷ xs) h a = (omega (arith, a.0), All-below c xs h a.1)

-- The three writes of an alert, on the entries.
three_counts :
    (word key id alert : Bytes) (es : Entries)
    → contains alert word ≡ true
    → contains id word ≡ false
    → find_key key es ≡ none
    → find_key last_event_key (insert_key key alert es) ≡ find_key last_event_key es
    → find_key last_alert_id_key (insert_key last_event_key alert (insert_key key alert es))
      ≡ find_key last_alert_id_key es
    → occurs word (find_key last_alert_id_key es) ≡ 0
    → count_values word (
          insert_key last_alert_id_key id
            (insert_key last_event_key alert (insert_key key alert es)))
        + occurs word (find_key last_event_key es)
      ≡ count_values word es + 2
three_counts word key id alert es has no_id new f₁ f₂ old =
    let one : occurs word (some alert) ≡ 1 = rw has refl in
    let zero_id : occurs word (some id) ≡ 0 = rw no_id refl in
    let was : occurs word (find_key key es) ≡ 0 = rw new refl in
    let c₁ = count-insert word key alert es in
    let c₂ = count-insert word last_event_key alert (insert_key key alert es) in
    let c₃ =
      count-insert word last_alert_id_key id
        (insert_key last_event_key alert (insert_key key alert es)) in
    let g₁ = ap (occurs word) f₁ in let g₂ = ap (occurs word) f₂ in omega arith

module _ (L : Libraries) (W : IsOrdered L.database) where
  open L use {database}

  -- The count once the three writes of an alert are done.
  count_values_alert :
      (s : State database.Db) (now alert : Bytes) (d : database.Db) (c : ℕ) (cs : Bytes)
      → b'A' ≤ c
      → contains alert (c ∷ cs) ≡ true
      → Puts database s.db (alert_entries L s now alert) d
      → find_key (key_of alerts_key_prefix (print_int s.alerts_id_gen) now) (database.entries s.db)
        ≡ none
      → occurs (c ∷ cs) (find_key last_alert_id_key (database.entries s.db)) ≡ 0
      → count_values (c ∷ cs) (database.entries d)
          + occurs (c ∷ cs) (find_key last_event_key (database.entries s.db))
        ≡ count_values (c ∷ cs) (database.entries s.db) + 2
  unfolding equal
  count_values_alert s now alert d c cs letter has (d₁, p₁, (d₂, p₂, (d₃, p₃, e))) new old =
      let word : Bytes = c ∷ cs in
      let id : Bytes = print_int s.alerts_id_gen in
      let key : Bytes = key_of alerts_key_prefix id now in
      let e₀ : Entries = database.entries s.db in
      let e₁ : Entries = insert_key key alert e₀ in
      let e₂ : Entries = insert_key last_event_key alert e₁ in
      let e₃ : Entries = insert_key last_alert_id_key id e₂ in
      let q₁ : database.entries d₁ ≡ e₁ = W.entries-put s.db d₁ key alert p₁ in
      let q₂ : database.entries d₂ ≡ e₂ =
        W.entries-put d₁ d₂ last_event_key alert p₂ ∙ ap (insert_key last_event_key alert) q₁ in
      let q₃ : database.entries d ≡ e₃ =
        subst (λ (x : database.Db). database.entries x ≡ e₃) e
          (W.entries-put d₂ d₃ last_alert_id_key id p₃ ∙ ap (insert_key last_alert_id_key id) q₂) in
      let f₁ : find_key last_event_key e₁ ≡ find_key last_event_key e₀ =
        find-insert_ne key alert last_event_key e₀ refl in
      let f₂ : find_key last_alert_id_key e₂ ≡ find_key last_alert_id_key e₀ =
        find-insert_ne last_event_key alert last_alert_id_key e₁ refl
        ∙ find-insert_ne key alert last_alert_id_key e₀ refl in
      let none_in_id : contains id word ≡ false =
        contains-smaller c cs id (All-below c id letter (print_int-small s.alerts_id_gen)) in
      rw q₃ (three_counts word key id alert e₀ has none_in_id new f₁ f₂ old)

  -- An alert that is handled and stored, with a word that begins with a letter, as the names of the
  -- entries do, raises the number of values with that word by 2, and by 1 if the last event had the
  -- word, if the alert's key is new and the stored identifier of the alert before does not have the word.
  pub count_values-handle_alert :
      (now alert t : Bytes) (s : State database.Db) (d : database.Db) (c : ℕ) (cs : Bytes)
      → b'A' ≤ c
      → contains alert (c ∷ cs) ≡ true
      → L.json.dump (alert_json L alert) ≡ some t
      → database.opens s.db ≡ true
      → Puts database s.db (alert_entries L s now alert) d
      → find_key (key_of alerts_key_prefix (print_int s.alerts_id_gen) now) (database.entries s.db)
        ≡ none
      → occurs (c ∷ cs) (find_key last_alert_id_key (database.entries s.db)) ≡ 0
      → let s' = (handle_alert L now alert s).1 in
        count_values (c ∷ cs) (database.entries s'.db)
          + occurs (c ∷ cs) (find_key last_event_key (database.entries s.db))
        ≡ count_values (c ∷ cs) (database.entries s.db) + 2
  count_values-handle_alert now alert t s d c cs letter has j o p new old =
      rw (handle_alert_lem L now alert t s d j o p)
        (count_values_alert s now alert d c cs letter has p new old)
