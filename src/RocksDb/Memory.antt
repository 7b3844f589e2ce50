-- ===== src/RocksDb/Memory.antt =====
-- A concrete database in memory, which meets the assumptions of the interface.
use text.Mathlib.Text.{◌==◌}
use text.Mathlib.TextEquality.{eq_iff}
use shelter_server_hpc.Prelude.{
  ◌≡◌, ◌≢◌, refl, sym, ap, subst, true, String, Option, none, some, List, [], ◌∷◌, Bytes,
  if◌then◌else◌, Bool-cases, inl, inr,
}
use shelter_server_hpc.RocksDb.{RocksDb, IsLawful, Writes, found, Written, refused, written}

-- The pairs written, the last first.
abbrev pub Pairs : Type 0
Pairs = List (String × Bytes)

pub find : Pairs → String → Option Bytes
find [] k = none
find ((j, v) ∷ ps) k = if j == k then some v else find ps k

abbrev pub memory : RocksDb
memory = record {
  Db = Pairs;
  opens = λ d. true;
  opens_read_only = λ d. true;
  get = λ d k. found (find d k);
  put = λ d k v. written ((k, v) ∷ d);
}

find-put_self : (d : Pairs) (k : String) (v : Bytes) → find ((k, v) ∷ d) k ≡ some v
unfolding find
find-put_self d k v = rw ((eq_iff k k).1 refl)

find-put_ne : (d : Pairs) (k j : String) (v : Bytes) → j ≢ k → find ((k, v) ∷ d) j ≡ find d j
unfolding find
find-put_ne d k j v ne = elim (Bool-cases (k == j)) [
  | inl e ↦ absurd (ne (sym ((eq_iff k j).0 e)))
  | inr e ↦ rw e
]

written_injective : {D : Type 0} (d d' : D) → written d ≡ written d' → d ≡ d'
written_injective d d' h = ap (contents d) h
  where
    contents : {D : Type 0} → D → Written D → D
    contents d (written e) = e
    contents d refused = d

pub memory-IsLawful : IsLawful memory
memory-IsLawful = record {
  get-put_self = λ d d' k v h.
      subst (λ e. found (find e k) ≡ found (some v)) (written_injective _ d' h)
        (ap found (find-put_self d k v));
  get-put_ne = λ d d' k j v h ne.
      subst (λ e. found (find e j) ≡ found (find d j)) (written_injective _ d' h)
        (ap found (find-put_ne d k j v ne));
}

-- No write fails.
pub memory-Writes : Writes memory
memory-Writes d k v = ((k, v) ∷ d, refl)

pub get-empty : (k : String) → memory.get [] k ≡ found none
unfolding find
get-empty k = refl
