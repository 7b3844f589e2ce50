-- ===== src/Server/Listing.antt =====
-- The functions on the tables of clients, with the lines that they write to the log, and
-- `acceptTcpConn`.
use shelter_server_hpc.Prelude.{
  ◌+◌, ℤ, pos, negsuc, Bool, true, false, ltb, List, [], ◌∷◌, ◌++◌, Bytes, codes, length,
  if◌then◌else◌,
}
use shelter_server_hpc.Stdio.{decimal}
use shelter_server_hpc.Exec.{crashes, Exec, ends, nothing, modify, when, ◌>>◌}
use shelter_server_hpc.Server.Tables.{
  same_fd, UdpClientData, max_connections, add_tcp_client, remv_tcp_client, udp_client_exists,
  add_udp_client,
}
use shelter_server_hpc.Server.State.{State, log_event}

-- Membership in a set of descriptors, `FD_SET` and `FD_CLR`.
unfoldable pub fd_isset : ℤ → List ℤ → Bool
fd_isset fd [] = false
fd_isset fd (x ∷ xs) = if same_fd x fd then true else fd_isset fd xs

unfoldable pub fd_set : ℤ → List ℤ → List ℤ
unfolding fd_isset
fd_set fd xs = if fd_isset fd xs then xs else xs ++ (fd ∷ [])

unfoldable pub fd_clr : ℤ → List ℤ → List ℤ
fd_clr fd [] = []
fd_clr fd (x ∷ xs) = let rest = fd_clr fd xs in if same_fd x fd then rest else x ∷ rest

-- `FD_SETSIZE`: `FD_SET` of a larger descriptor writes outside the set.
abbrev pub fits_fd_set : ℤ → Bool
fits_fd_set (pos n) = ltb n 1024
fits_fd_set (negsuc n) = false

-- The address of a new client: an IPv4 address inside IPv6, one of IPv6, one of IPv4.
pub data PeerAddress : Type 0 where
  v4_mapped v6 v4 : Bytes → PeerAddress

unfoldable pub connected_line : PeerAddress → Bytes
connected_line (v4_mapped ip) = codes "New TCP IPv4 client connected from IP: " ++ ip
connected_line (v6 ip) = codes "New TCP IPv6 client connected from IP: " ++ ip
connected_line (v4 ip) = codes "New IPv4 client connected from IP: " ++ ip

-- What `accept` gives on the TCP socket.
pub data NewClient : Type 0 where
  accept_fails : NewClient
  new_client : ℤ → PeerAddress → NewClient

module _ {Db : Type 0} where
  -- A client beyond the limit is not listed, and nothing is logged.
  unfoldable pub list_tcp_client : ℤ → Exec (State Db) (Unit {0})
  unfolding add_tcp_client decimal
  list_tcp_client fd s =
      let n = length s.tables.tcp_clients in
      (do
        modify (λ s. record s { tables = add_tcp_client fd s.tables })
        when (ltb n max_connections)
            (log_event (codes "Added TCP client. Total connected: " ++ decimal (n + 1))))
        s

  unfoldable pub unlist_tcp_client : ℤ → Exec (State Db) (Unit {0})
  unfolding remv_tcp_client decimal fd_isset
  unlist_tcp_client fd s =
      let n = length (remv_tcp_client fd s.tables).tcp_clients in
      (do
        modify (λ s. record s { tables = remv_tcp_client fd s.tables })
        when (fd_isset fd s.tables.tcp_clients)
            (log_event (codes "TCP client disconnected. Total connected: " ++ decimal n)))
        s

  unfoldable pub list_udp_client : UdpClientData → Exec (State Db) (Unit {0})
  unfolding add_udp_client udp_client_exists decimal
  list_udp_client client s =
      let n = length s.tables.udp_clients in
      (do
        modify (λ s. record s { tables = add_udp_client client s.tables })
        when (if udp_client_exists client s.tables then false else ltb n max_connections)
            (log_event (codes "Added UDP client. Total cached: " ++ decimal (n + 1))))
        s

  -- `acceptTcpConn`, and what the main loop does with its result: the descriptor is watched, also if
  -- it is not listed.
  unfoldable pub accept_tcp_conn : NewClient → Exec (State Db) (Unit {0})
  unfolding list_tcp_client connected_line fd_set
  accept_tcp_conn accept_fails = nothing
  accept_tcp_conn (new_client fd address) = do
    log_event (connected_line address)
    list_tcp_client fd
    if fits_fd_set fd
        then modify (λ s. record s { watched = fd_set fd s.watched })
        else ends crashes

  -- `close`, `FD_CLR` and `remvTcpClient`
  unfoldable pub drop_tcp_client : ℤ → Exec (State Db) (Unit {0})
  unfolding unlist_tcp_client fd_clr
  drop_tcp_client fd = do
    modify (λ s. record s { watched = fd_clr fd s.watched })
    unlist_tcp_client fd
