-- ===== src/TcpClient/Listens.antt =====
-- The rounds of the child's loop, `handle_server_messages` of src/clients/tcp_client.c.
use shelter_server_hpc.Prelude.{
  ℕ, suc, ◌≤◌, ◌<◌, ◌≡◌, ◌≢◌, ◌⊎◌, ap, refl, arith, List, [], ◌∷◌, length, inl, inr,
}
use shelter_server_hpc.CJson.{CJson}
use shelter_server_hpc.TcpClient.Session.{
  Client, Recv, Result, returns, again, leaves, crashes, blocks, out_of_fuel, exits, Run, and_then,
  next_recv,
}

-- What `recv` gives first, if it gives anything.
pub recv_cases :
    (c : Client)
    → (next_recv c ≡ (blocks, c))
      ⊎ ((r : Recv) × (rest : List Recv) × (c.incoming ≡ r ∷ rest)
          × (next_recv c ≡ (returns r, record c { incoming = rest })))
unfolding next_recv
recv_cases c = by_list c.incoming refl
  where
    by_list :
        (l : List Recv)
        → c.incoming ≡ l
        → (next_recv c ≡ (blocks, c))
          ⊎ ((r : Recv) × (rest : List Recv) × (c.incoming ≡ r ∷ rest)
              × (next_recv c ≡ (returns r, record c { incoming = rest })))
    by_list [] e = inl (simp (e, next_recv))
    by_list (r ∷ rest) e = inr (r, rest, e, simp (e, next_recv))

pub rest_lem :
    (r : Recv) (rest l : List Recv) (fuel : ℕ)
    → l ≡ r ∷ rest
    → length l < suc fuel
    → length rest < fuel
rest_lem r rest l fuel e h = omega (arith, ap (λ (x : List Recv). length x) e)

pub then_ends :
    (k : ℕ) (more : Run (Unit {0})) (o : Result (Unit {0}) × Client)
    → (length o.1.incoming ≤ k) × (o.0 ≢ out_of_fuel)
    → ((c : Client) → length c.incoming ≤ k → (more c).0 ≢ out_of_fuel)
    → (and_then (λ _. more) o).0 ≢ out_of_fuel
then_ends k more (returns _, c) h m = m c h.0
then_ends k more (again, c) h m = λ q. cc
then_ends k more (leaves, c) h m = λ q. cc
then_ends k more (crashes, c) h m = λ q. cc
then_ends k more (blocks, c) h m = λ q. cc
then_ends k more (out_of_fuel, c) h m = absurd (h.1 refl)
then_ends k more (exits s, c) h m = λ q. cc
