-- ===== src/Server/Writes.antt =====
-- Successive writes of the server, and the other keys of the database.
use shelter_server_hpc.Prelude.{◌≡◌, sym, ap, ◌∙◌, false, List, [], ◌∷◌, Bytes, equal, All}
use shelter_server_hpc.Wrapper.{Database}
use shelter_server_hpc.Wrapper.Entries.{IsOrdered}
use shelter_server_hpc.Server.Broadcast.{Puts}

-- No entry has that key.
abbrev pub NotWritten : Bytes → List (Bytes × Bytes) → Type 0
NotWritten k = All (λ (e : Bytes × Bytes). equal e.0 k ≡ false)

module _ (D : Database) (W : IsOrdered D) where
  pub get-Puts :
      (d d' : D.Db) (k : Bytes) (kvs : List (Bytes × Bytes))
      → NotWritten k kvs
      → Puts D d kvs d'
      → D.get d' k ≡ D.get d k
  get-Puts d d' k [] n e = ap (λ (x : D.Db). D.get x k) (sym e)
  get-Puts d d' k ((j, v) ∷ kvs) n (d₁, p, rest) =
      get-Puts d₁ d' k kvs n.1 rest ∙ W.get-put_ne d d₁ j k v p n.0
