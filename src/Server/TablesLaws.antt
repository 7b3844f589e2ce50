-- ===== src/Server/TablesLaws.antt =====
-- What one operation on the tables does after another.
use shelter_server_hpc.Prelude.{
  ◌≡◌, refl, ◌<◌, ℤ, pos, negsuc, true, false, List, [], ◌∷◌, ◌++◌, ltb, lt→ltb, ==_iff, length,
  All, Bool-cases, inl, inr,
}
use shelter_server_hpc.Server.Tables.{
  same_fd, UdpClientData, Tables, max_connections, add_tcp_client, erase_fd, remv_tcp_client,
  same_peer, exists_in, udp_client_exists, add_udp_client,
}

same_fd_refl : (fd : ℤ) → same_fd fd fd ≡ true
same_fd_refl (pos n) = (==_iff n n).1 refl
same_fd_refl (negsuc n) = (==_iff n n).1 refl

erase_fd-snoc :
    (fd : ℤ) (fds : List ℤ)
    → All (λ (y : ℤ). same_fd y fd ≡ false) fds
    → erase_fd fd (fds ++ (fd ∷ [])) ≡ fds
unfolding erase_fd
erase_fd-snoc fd [] h = rw (same_fd_refl fd)
erase_fd-snoc fd (x ∷ fds) h = rw (h.0, erase_fd-snoc fd fds h.1)

-- If the server has room and lists no client of that descriptor, a client that comes and goes leaves
-- the tables as they were.
pub remv_tcp_client-add_tcp_client :
    (t : Tables) (fd : ℤ)
    → length t.tcp_clients < max_connections
    → All (λ (y : ℤ). same_fd y fd ≡ false) t.tcp_clients
    → remv_tcp_client fd (add_tcp_client fd t) ≡ t
unfolding remv_tcp_client add_tcp_client
remv_tcp_client-add_tcp_client t fd room fresh =
    rw (lt→ltb (length t.tcp_clients) max_connections room, erase_fd-snoc fd t.tcp_clients fresh)

exists_in-snoc :
    (xs : List UdpClientData) (client : UdpClientData)
    → exists_in (xs ++ (client ∷ [])) client ≡ true
unfolding exists_in
exists_in-snoc [] client = rw (
  (==_iff client.client_addr.word client.client_addr.word).1 refl,
  (==_iff client.client_addr.sin_port client.client_addr.sin_port).1 refl,
)
exists_in-snoc (x ∷ xs) client = elim (Bool-cases (same_peer x.client_addr client.client_addr)) [
  | inl e ↦ rw e
  | inr n ↦ rw (n, exists_in-snoc xs client)
]

-- A UDP client that sends again changes nothing.
pub add_udp_client-add_udp_client :
    (t : Tables) (client : UdpClientData)
    → add_udp_client client (add_udp_client client t) ≡ add_udp_client client t
unfolding add_udp_client udp_client_exists
add_udp_client-add_udp_client t client = elim (Bool-cases (exists_in t.udp_clients client)) [
  | inl known ↦ rw (known, known)
  | inr new ↦ elim (Bool-cases (ltb (length t.udp_clients) max_connections)) [
    | inr full ↦ rw (new, full, new, full)
    | inl room ↦ rw (new, room, exists_in-snoc t.udp_clients client)
  ]
]
