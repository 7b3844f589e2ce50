-- ===== src/Wrapper/CApi.antt =====
-- The database through the C interface, as lib/suppliesData calls it.
use Prim.Native.Char.{code}
use text.Mathlib.TextEquality.{Char-path}
use shelter_server_hpc.Prelude.{
  ◌≡◌, ◌≢◌, refl, sym, false, String, codes, equal, equal_iff, Bool-cases, inl, inr,
}
use shelter_server_hpc.RocksDb
use shelter_server_hpc.Wrapper.{Database, c_api}
use shelter_server_hpc.Wrapper.Entries.{IsOrdered}

codes_injective : (a b : String) → codes a ≡ codes b → a ≡ b
codes_injective String.[] String.[] e = refl
codes_injective String.[] (String.◌∷◌ c t) e = cc
codes_injective (String.◌∷◌ c s) String.[] e = cc
codes_injective (String.◌∷◌ c s) (String.◌∷◌ d t) e =
    let heads : code c ≡ code d = cc in
    let tails : codes s ≡ codes t = cc in rw (Char-path c d heads, codes_injective s t tails) refl

codes-ne : (a b : String) → a ≢ b → equal (codes a) (codes b) ≡ false
codes-ne a b ne = elim (Bool-cases (equal (codes a) (codes b))) [
  | inl e ↦ absurd (ne (codes_injective a b ((equal_iff (codes a) (codes b)).0 e)))
  | inr n ↦ n
]

pub c_api-IsLawful : (D : Database) → IsOrdered D → RocksDb.IsLawful (c_api D)
c_api-IsLawful D W = record {
  get-put_self = λ d d' k v h. W.get-put_self d d' (codes k) v h;
  get-put_ne =
      λ d d' k j v h ne. W.get-put_ne d d' (codes k) (codes j) v h (codes-ne k j (λ e. ne (sym e)));
}
