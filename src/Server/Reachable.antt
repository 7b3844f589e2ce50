-- ===== src/Server/Reachable.antt =====
-- The tables that the server can reach, and what holds of them.
use shelter_server_hpc.Prelude.{
  ◌≤◌, ◌≡◌, arith, ℤ, Bool, false, List, [], ◌∷◌, ◌++◌, ltb, ◌+◌, ltb→lt, length, length-append,
  All, Bool-cases, inl, inr,
}
use shelter_server_hpc.Server.Tables.{
  same_fd, UdpClientData, Tables, max_connections, add_tcp_client, erase_fd, remv_tcp_client,
  same_peer, exists_in, udp_client_exists, add_udp_client,
}

-- No two members of a list are the same, by a Boolean test.
module _ {A : Type 0} (same : A → A → Bool) where
  abbrev pub Distinct : List A → Type 0
  Distinct [] = Unit
  Distinct (x ∷ xs) = All (λ (y : A). same x y ≡ false) xs × Distinct xs

  Distinct-snoc :
      (xs : List A) (z : A)
      → Distinct xs
      → All (λ (y : A). same y z ≡ false) xs
      → Distinct (xs ++ (z ∷ []))
  Distinct-snoc [] z d h = (tt, tt)
  Distinct-snoc (x ∷ xs) z d h = (All-snoc xs d.0, Distinct-snoc xs z d.1 h.1)
    where
      All-snoc :
          (ys : List A)
          → All (λ (y : A). same x y ≡ false) ys
          → All (λ (y : A). same x y ≡ false) (ys ++ (z ∷ []))
      All-snoc [] k = (h.0, tt)
      All-snoc (y ∷ ys) k = (k.0, All-snoc ys k.1)

length-snoc : {A : Type 0} (xs : List A) (z : A) → length (xs ++ (z ∷ [])) ≡ length xs + 1
length-snoc xs z = length-append xs (z ∷ [])

-- One step of the server: a connection is accepted, whose descriptor no listed client has, one is
-- lost, or a datagram comes from a client.
pub data Step : Tables → Tables → Type 0 where
  accepted :
      (t : Tables) (fd : ℤ)
      → All (λ (y : ℤ). same_fd y fd ≡ false) t.tcp_clients
      → Step t (add_tcp_client fd t)
  lost : (t : Tables) (fd : ℤ) → Step t (remv_tcp_client fd t)
  datagram : (t : Tables) (client : UdpClientData) → Step t (add_udp_client client t)

abbrev pub no_clients : Tables
no_clients = record { tcp_clients = []; udp_clients = [] }

pub data Reachable : Tables → Type 0 where
  start : Reachable no_clients
  next : (t t' : Tables) → Reachable t → Step t t' → Reachable t'

abbrev pub same_client : UdpClientData → UdpClientData → Bool
same_client a b = same_peer a.client_addr b.client_addr

-- At most ten clients of each kind, none of them twice.
pub record WellFormed (t : Tables) : Type 0 where
  pub tcp_few : length t.tcp_clients ≤ max_connections
  pub udp_few : length t.udp_clients ≤ max_connections
  pub tcp_distinct : Distinct same_fd t.tcp_clients
  pub udp_distinct : Distinct same_client t.udp_clients

pub add_tcp_client-WellFormed :
    (t : Tables) (fd : ℤ)
    → All (λ (y : ℤ). same_fd y fd ≡ false) t.tcp_clients
    → WellFormed t
    → WellFormed (add_tcp_client fd t)
unfolding add_tcp_client
add_tcp_client-WellFormed t fd fresh w =
    elim (Bool-cases (ltb (length t.tcp_clients) max_connections)) [
      | inr full ↦ rw full w
      | inl room ↦ rw room (record {
        tcp_few = omega (arith, length-snoc t.tcp_clients fd, ltb→lt _ _ room);
        udp_few = w.udp_few;
        tcp_distinct = Distinct-snoc same_fd t.tcp_clients fd w.tcp_distinct fresh;
        udp_distinct = w.udp_distinct;
      })
    ]

All-erase_fd : (P : ℤ → Type 0) (fd : ℤ) (xs : List ℤ) → All P xs → All P (erase_fd fd xs)
unfolding erase_fd
All-erase_fd P fd [] h = tt
All-erase_fd P fd (x ∷ xs) h = elim (Bool-cases (same_fd x fd)) [
  | inl e ↦ rw e h.1
  | inr n ↦ rw n (h.0, All-erase_fd P fd xs h.1)
]

Distinct-erase_fd : (fd : ℤ) (xs : List ℤ) → Distinct same_fd xs → Distinct same_fd (erase_fd fd xs)
unfolding erase_fd
Distinct-erase_fd fd [] h = tt
Distinct-erase_fd fd (x ∷ xs) h = elim (Bool-cases (same_fd x fd)) [
  | inl e ↦ rw e h.1
  | inr n ↦ rw n (All-erase_fd _ fd xs h.0, Distinct-erase_fd fd xs h.1)
]

length-erase_fd : (fd : ℤ) (xs : List ℤ) → length (erase_fd fd xs) ≤ length xs
unfolding erase_fd
length-erase_fd fd [] = omega arith
length-erase_fd fd (x ∷ xs) = elim (Bool-cases (same_fd x fd)) [
  | inl e ↦ rw e (omega arith)
  | inr n ↦ rw n (omega (arith, length-erase_fd fd xs))
]

pub remv_tcp_client-WellFormed :
    (t : Tables) (fd : ℤ) → WellFormed t → WellFormed (remv_tcp_client fd t)
unfolding remv_tcp_client
remv_tcp_client-WellFormed t fd w = record {
  tcp_few = omega (arith, length-erase_fd fd t.tcp_clients, w.tcp_few);
  udp_few = w.udp_few;
  tcp_distinct = Distinct-erase_fd fd t.tcp_clients w.tcp_distinct;
  udp_distinct = w.udp_distinct;
}

exists_in-false :
    (xs : List UdpClientData) (client : UdpClientData)
    → exists_in xs client ≡ false
    → All (λ (y : UdpClientData). same_client y client ≡ false) xs
unfolding exists_in
exists_in-false [] client h = tt
exists_in-false (x ∷ xs) client h = elim (Bool-cases (same_client x client)) [
  | inl e ↦ ground arith
  | inr n ↦ (n, exists_in-false xs client (ground arith))
]

pub add_udp_client-WellFormed :
    (t : Tables) (client : UdpClientData) → WellFormed t → WellFormed (add_udp_client client t)
unfolding add_udp_client udp_client_exists
add_udp_client-WellFormed t client w = elim (Bool-cases (exists_in t.udp_clients client)) [
  | inl known ↦ rw known w
  | inr new ↦ elim (Bool-cases (ltb (length t.udp_clients) max_connections)) [
    | inr full ↦ rw (new, full) w
    | inl room ↦
        rw (new, room)
          (record {
            tcp_few = w.tcp_few;
            udp_few = omega (arith, length-snoc t.udp_clients client, ltb→lt _ _ room);
            tcp_distinct = w.tcp_distinct;
            udp_distinct =
                Distinct-snoc same_client t.udp_clients client w.udp_distinct
                  (exists_in-false t.udp_clients client new);
          })
  ]
]

Step-WellFormed : (t t' : Tables) → Step t t' → WellFormed t → WellFormed t'
Step-WellFormed _ _ (accepted t fd fresh) w = add_tcp_client-WellFormed t fd fresh w
Step-WellFormed _ _ (lost t fd) w = remv_tcp_client-WellFormed t fd w
Step-WellFormed _ _ (datagram t client) w = add_udp_client-WellFormed t client w

-- Whatever connections and datagrams come and go, the server lists at most ten TCP clients and ten UDP
-- clients, no descriptor twice, and no two UDP clients that its comparison takes for the same.
pub Reachable-WellFormed : (t : Tables) → Reachable t → WellFormed t
Reachable-WellFormed _ start = record {
  tcp_few = omega arith;
  udp_few = omega arith;
  tcp_distinct = tt;
  udp_distinct = tt;
}
Reachable-WellFormed _ (next t t' r s) = Step-WellFormed t t' s (Reachable-WellFormed t r)
