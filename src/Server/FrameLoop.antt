-- ===== src/Server/FrameLoop.antt =====
-- What the handling of one descriptor keeps.
use shelter_server_hpc.Prelude.{◌≡◌, refl, ℤ, Bool, true, false}
use shelter_server_hpc.Exec.Keeps.{Keeps, Keeps-then, Keeps-bind, Keeps-nothing, Keeps-if}
use shelter_server_hpc.Server.Tables.{UdpClientData}
use shelter_server_hpc.Server.Listing.{NewClient, accept_tcp_conn, list_udp_client, drop_tcp_client}
use shelter_server_hpc.Server.State.{Libraries, State}
use shelter_server_hpc.Server.Messages.{Received, Peername, getpeername_fails, peer}
use shelter_server_hpc.Server.Frame.{Primitives, log_event-Keeps}
use shelter_server_hpc.Server.FrameMessages.{check_alerts-Keeps, handle_unix_conn-Keeps}
use shelter_server_hpc.Server.Asks.{tcp_asks_update, udp_asks_update, UpdateKeeps}
use shelter_server_hpc.Server.FrameTcp.{check_tcp_clients_msgs-Keeps}
use shelter_server_hpc.Server.FrameUdp.{check_udp_clients_msgs-Keeps}
use shelter_server_hpc.Server.TcpMessages.{Moment}
use shelter_server_hpc.Server.Loop.{
  Ready, tcp_ready, udp_ready, unix_ready, fifo_ready, client_ready, handle_tcp_conn_at,
  serve_tcp_conn, handle_udp_conn, handle_ready,
}

-- Whether what is handled is a request for an update: of a TCP client, whoever it is, or of a UDP
-- client with the name of the admin.
abbrev pub asks : Libraries → Ready → Bool
asks L (udp_ready d r) = udp_asks_update L r
asks L (client_ready fd t r) = tcp_asks_update L r
asks L _ = false

module _ (L : Libraries) (P : State L.database.Db → Type 0) (prim : Primitives L P) where
  handle_tcp_conn_at-Keeps :
      (p : Peername) (fd : ℤ) (t : Moment) (r : Received)
      → Keeps P (drop_tcp_client fd)
      → (tcp_asks_update L r ≡ true → UpdateKeeps L P)
      → Keeps P (handle_tcp_conn_at L p fd t r)
  unfolding handle_tcp_conn_at serve_tcp_conn
  handle_tcp_conn_at-Keeps getpeername_fails fd t r d k = d
  handle_tcp_conn_at-Keeps (peer ip) fd t r d k =
      Keeps-bind _ (check_tcp_clients_msgs-Keeps L P prim t fd r k)
        λ alive. Keeps-if alive Keeps-nothing (Keeps-then (log_event-Keeps L P prim _) d)

  -- Everything but an accepted connection.
  pub handle_ready-Keeps :
      (r : Ready)
      → ((c : NewClient) → r ≡ tcp_ready c → Keeps P (accept_tcp_conn c))
      → ((client : UdpClientData) → Keeps P (list_udp_client client))
      → ((fd : ℤ) → Keeps P (drop_tcp_client fd))
      → (asks L r ≡ true → UpdateKeeps L P)
      → Keeps P (handle_ready L r)
  unfolding handle_ready handle_udp_conn
  handle_ready-Keeps (tcp_ready c) a l d k = a c refl
  handle_ready-Keeps (udp_ready u r) a l d k =
      Keeps-bind _ (check_udp_clients_msgs-Keeps L P prim u r (l u.client) k) (λ _. Keeps-nothing)
  handle_ready-Keeps (unix_ready now c) a l d k = handle_unix_conn-Keeps L P prim now c
  handle_ready-Keeps (fifo_ready now f) a l d k = check_alerts-Keeps L P prim now f
  handle_ready-Keeps (client_ready fd t r) a l d k =
      handle_tcp_conn_at-Keeps t.peername fd t r (d fd) k
