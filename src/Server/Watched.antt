-- ===== src/Server/Watched.antt =====
-- The set of descriptors that `select` looks at, and the lists of clients.
use shelter_server_hpc.Prelude.{
  ◌≡◌, refl, subst, ap, arith, ℤ, pos, negsuc, inl, inr, true, false, List, [], ◌∷◌, ◌++◌, All,
  All-append, Bool-cases, ltb, length, ==_iff,
}
use shelter_server_hpc.Server.Tables.{
  UdpClientData, Tables, same_fd, max_connections, add_tcp_client, erase_fd, add_udp_client,
}
use shelter_server_hpc.Server.Reachable.{Distinct}
use shelter_server_hpc.Server.Listing.{fd_isset, fd_set, fd_clr}

same_fd-eq : (a b : ℤ) → same_fd a b ≡ true → a ≡ b
same_fd-eq (pos a) (pos b) e = ap pos ((==_iff a b).0 e)
same_fd-eq (negsuc a) (negsuc b) e = ap negsuc ((==_iff a b).0 e)
same_fd-eq (pos a) (negsuc b) e = cc
same_fd-eq (negsuc a) (pos b) e = cc

flip : (a b : ℤ) → same_fd a b ≡ false → same_fd b a ≡ false
flip a b n = elim (Bool-cases (same_fd b a)) [
  | inl e ↦ ground (arith, same_fd-eq b a e)
  | inr e ↦ e
]

-- Every listed client is watched.
abbrev pub AllWatched : List ℤ → List ℤ → Type 0
AllWatched fds watched = All (λ (fd : ℤ). fd_isset fd watched ≡ true) fds

fd_isset-snoc :
    (fd x : ℤ) (xs : List ℤ) → fd_isset fd xs ≡ true → fd_isset fd (xs ++ (x ∷ [])) ≡ true
unfolding fd_isset
fd_isset-snoc fd x [] h = cc
fd_isset-snoc fd x (y ∷ ys) h = ground (arith, fd_isset-snoc fd x ys)

fd_isset-last : (fd : ℤ) (xs : List ℤ) → fd_isset fd (xs ++ (fd ∷ [])) ≡ true
unfolding fd_isset
fd_isset-last (pos n) [] = ground arith
fd_isset-last (negsuc n) [] = ground arith
fd_isset-last fd (y ∷ ys) = ground (arith, fd_isset-last fd ys)

fd_isset-fd_clr :
    (fd x : ℤ) (xs : List ℤ)
    → same_fd fd x ≡ false
    → fd_isset fd xs ≡ true
    → fd_isset fd (fd_clr x xs) ≡ true
unfolding fd_isset fd_clr
fd_isset-fd_clr fd x [] n h = cc
fd_isset-fd_clr fd x (y ∷ ys) n h =
    ground (arith, fd_isset-fd_clr fd x ys n, same_fd-eq y x, same_fd-eq y fd)

fd_set-keeps :
    (x fd : ℤ) (watched : List ℤ)
    → fd_isset x watched ≡ true
    → fd_isset x (fd_set fd watched) ≡ true
unfolding fd_set
fd_set-keeps x fd watched h = ground (arith, fd_isset-snoc x fd watched h)

AllWatched-fd_set :
    (fds : List ℤ) (fd : ℤ) (watched : List ℤ)
    → AllWatched fds watched
    → AllWatched fds (fd_set fd watched)
AllWatched-fd_set [] fd watched h = tt
AllWatched-fd_set (x ∷ fds) fd watched h =
    (fd_set-keeps x fd watched h.0, AllWatched-fd_set fds fd watched h.1)

fd_isset-fd_set : (fd : ℤ) (watched : List ℤ) → fd_isset fd (fd_set fd watched) ≡ true
unfolding fd_set
fd_isset-fd_set fd watched = elim (Bool-cases (fd_isset fd watched)) [
  | inl there ↦ rw (there, there) refl
  | inr new ↦ rw new (fd_isset-last fd watched)
]

-- Once a descriptor is cleared and its first entry erased, all that are left are watched.
pub AllWatched-erase_fd :
    (fds : List ℤ) (fd : ℤ) (watched : List ℤ)
    → Distinct same_fd fds
    → AllWatched fds watched
    → AllWatched (erase_fd fd fds) (fd_clr fd watched)
unfolding erase_fd
AllWatched-erase_fd [] fd watched d h = tt
AllWatched-erase_fd (x ∷ fds) fd watched d h = elim (Bool-cases (same_fd x fd)) [
  | inl e ↦ rw e (
      others fds
        (subst (λ (y : ℤ). All (λ (z : ℤ). same_fd y z ≡ false) fds) (same_fd-eq x fd e) d.0) h.1)
  | inr n ↦ rw n (fd_isset-fd_clr x fd watched n h.0, AllWatched-erase_fd fds fd watched d.1 h.1)
]
  where
    others :
        (ys : List ℤ)
        → All (λ (z : ℤ). same_fd fd z ≡ false) ys
        → AllWatched ys watched
        → AllWatched ys (fd_clr fd watched)
    others [] k w = tt
    others (y ∷ ys) k w = (fd_isset-fd_clr y fd watched (flip fd y k.0) w.0, others ys k.1 w.1)

-- A descriptor that is not watched is none of those that are.
pub fresh_among :
    (fds : List ℤ) (fd : ℤ) (watched : List ℤ)
    → fd_isset fd watched ≡ false
    → AllWatched fds watched
    → All (λ (y : ℤ). same_fd y fd ≡ false) fds
fresh_among [] fd watched n h = tt
fresh_among (x ∷ fds) fd watched n h =
    (ground (arith, same_fd-eq x fd, n, h.0), fresh_among fds fd watched n h.1)

-- The list of TCP clients is what it was, or has one more at the end.
pub add_tcp_client-AllWatched :
    (t : Tables) (fd : ℤ) (watched : List ℤ)
    → AllWatched t.tcp_clients watched
    → AllWatched (add_tcp_client fd t).tcp_clients (fd_set fd watched)
unfolding add_tcp_client
add_tcp_client-AllWatched t fd watched h =
    let before = AllWatched-fd_set t.tcp_clients fd watched h in
    elim (Bool-cases (ltb (length t.tcp_clients) max_connections)) [
      | inl room ↦
          rw room (All-append _ t.tcp_clients (fd ∷ []) before (fd_isset-fd_set fd watched, tt))
      | inr full ↦ rw full before
    ]

pub add_udp_client-tcp_clients :
    (t : Tables) (c : UdpClientData) → (add_udp_client c t).tcp_clients ≡ t.tcp_clients
unfolding add_udp_client
add_udp_client-tcp_clients t c = ground arith
