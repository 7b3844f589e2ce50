-- ===== src/Wrapper/Entries.antt =====
-- Lists of keys and values in the order of the keys, byte by byte, which is the order in which an
-- iterator of the database gives them, and the documented behaviour of the database.
use shelter_server_hpc.Prelude.{
  ◌≡◌, Bool, true, false, Option, none, some, List, [], ◌∷◌, Bytes, ltb, ◌==◌, equal, ◌||◌, ◌&&◌,
  if◌then◌else◌, refl, ap, ◌∙◌, arith, Bool-cases, Option-cases, inl, inr, equal_iff, equal_refl,
}
use shelter_server_hpc.RocksDb.{found, written}
use shelter_server_hpc.Wrapper.{Database}

abbrev pub Entries : Type 0
Entries = List (Bytes × Bytes)

unfoldable pub find_key : Bytes → Entries → Option Bytes
find_key k [] = none
find_key k ((j, v) ∷ es) = if equal j k then some v else find_key k es

-- Whether `a` comes before `b`.
unfoldable pub before : Bytes → Bytes → Bool
before [] [] = false
before [] (y ∷ ys) = true
before (x ∷ xs) [] = false
before (x ∷ xs) (y ∷ ys) = ltb x y || ((x == y) && before xs ys)

unfoldable pub replace_key : Bytes → Bytes → Entries → Entries
replace_key k v [] = []
replace_key k v ((j, w) ∷ es) = if equal j k then (j, v) ∷ es else (j, w) ∷ replace_key k v es

unfoldable pub place_key : Bytes → Bytes → Entries → Entries
unfolding before
place_key k v [] = (k, v) ∷ []
place_key k v ((j, w) ∷ es) =
    let rest = place_key k v es in if before k j then (k, v) ∷ ((j, w) ∷ es) else (j, w) ∷ rest

-- A key that is there gets the new value; a new key goes to its place.
unfoldable pub insert_key : Bytes → Bytes → Entries → Entries
unfolding find_key replace_key place_key
insert_key k v es = elim (find_key k es) [ none ↦ place_key k v es | some old ↦ replace_key k v es ]

-- `get` gives what the iterator shows, and a write that succeeds changes that key only.
pub record IsOrdered (D : Database) : Type 0 where
  pub get-entries :
      (d : D.Db) (k : Bytes) (r : Option Bytes) → D.get d k ≡ found r → r ≡ find_key k (D.entries d)
  pub entries-put :
      (d d' : D.Db) (k v : Bytes)
      → D.put d k v ≡ written d'
      → D.entries d' ≡ insert_key k v (D.entries d)
  pub get-put_self :
      (d d' : D.Db) (k v : Bytes) → D.put d k v ≡ written d' → D.get d' k ≡ found (some v)
  pub get-put_ne :
      (d d' : D.Db) (k j v : Bytes)
      → D.put d k v ≡ written d'
      → equal k j ≡ false
      → D.get d' j ≡ D.get d j

find-replace_self :
    (k v : Bytes) (es : Entries) {old : Bytes}
    → find_key k es ≡ some old
    → find_key k (replace_key k v es) ≡ some v
unfolding find_key replace_key
find-replace_self k v [] h = cc
find-replace_self k v ((j, w) ∷ es) {old = old} h =
    ground (arith, find-replace_self k v es {old = old})

find-replace_ne :
    (k v i : Bytes) (es : Entries)
    → equal k i ≡ false
    → find_key i (replace_key k v es) ≡ find_key i es
unfolding find_key replace_key
find-replace_ne k v i [] h = refl
find-replace_ne k v i ((j, w) ∷ es) h = ground (arith, equal_iff j k, find-replace_ne k v i es h)

find-place_self :
    (k v : Bytes) (es : Entries) → find_key k es ≡ none → find_key k (place_key k v es) ≡ some v
unfolding find_key place_key
find-place_self k v [] h = rw (equal_refl k)
find-place_self k v ((j, w) ∷ es) h = elim (Bool-cases (before k j)) [
  | inl e ↦ rw e (rw (equal_refl k))
  | inr n ↦ rw n (elim (Bool-cases (equal j k)) [
    | inl same ↦ ground arith
    | inr other ↦ rw other (find-place_self k v es (ground (arith, other)))
  ])
]

find-place_ne :
    (k v i : Bytes) (es : Entries)
    → equal k i ≡ false
    → find_key i (place_key k v es) ≡ find_key i es
unfolding find_key place_key
find-place_ne k v i [] h = rw h
find-place_ne k v i ((j, w) ∷ es) h = elim (Bool-cases (before k j)) [
  | inl e ↦ rw (e, h)
  | inr n ↦ rw (n, find-place_ne k v i es h)
]

pub insert_new :
    (k v : Bytes) (es : Entries) → find_key k es ≡ none → insert_key k v es ≡ place_key k v es
unfolding insert_key
insert_new k v es h = rw (h, insert_key)

pub insert_old :
    (k v : Bytes) (es : Entries) {old : Bytes}
    → find_key k es ≡ some old
    → insert_key k v es ≡ replace_key k v es
unfolding insert_key
insert_old k v es h = rw (h, insert_key)

pub find-insert_self : (k v : Bytes) (es : Entries) → find_key k (insert_key k v es) ≡ some v
find-insert_self k v es = elim (Option-cases (find_key k es)) [
  | inl new ↦ ap (find_key k) (insert_new k v es new) ∙ find-place_self k v es new
  | inr (old, e) ↦ ap (find_key k) (insert_old k v es e) ∙ find-replace_self k v es e
]

pub find-insert_ne :
    (k v i : Bytes) (es : Entries)
    → equal k i ≡ false
    → find_key i (insert_key k v es) ≡ find_key i es
find-insert_ne k v i es h = elim (Option-cases (find_key k es)) [
  | inl new ↦ ap (find_key i) (insert_new k v es new) ∙ find-place_ne k v i es h
  | inr (old, e) ↦ ap (find_key i) (insert_old k v es e) ∙ find-replace_ne k v i es h
]
