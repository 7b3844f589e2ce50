-- ===== src/Server/Loop.antt =====
-- The main loop of `Server::start`, with `handleTcpConn` and `handleUdpConn`.
use shelter_server_hpc.Prelude.{ℤ, true, false, List, [], ◌∷◌, ◌++◌, Bytes, codes, if◌then◌else◌}
use shelter_server_hpc.Exec.{ok, exits, pure, nothing, ◌>>=◌, ◌>>◌}
use shelter_server_hpc.Server.State.{Libraries, log_event}
use shelter_server_hpc.Server.Messages.{Received, Peername, getpeername_fails, peer, Action}
use shelter_server_hpc.Server.Listing.{NewClient, accept_tcp_conn, drop_tcp_client}
use shelter_server_hpc.Server.TcpMessages.{Moment, check_tcp_clients_msgs}
use shelter_server_hpc.Server.UdpMessages.{Datagram, check_udp_clients_msgs}
use shelter_server_hpc.Server.Notices.{Fifo, Accepted, check_alerts, handle_unix_conn}

-- A descriptor that `select` reports, with what the system gives when it is handled.
pub data Ready : Type 0 where
  tcp_ready : NewClient → Ready
  udp_ready : Datagram → Received → Ready
  unix_ready : Bytes → Accepted → Ready
  fifo_ready : Bytes → Fifo → Ready
  client_ready : ℤ → Moment → Received → Ready

-- One call of `select`: an error, as when a signal comes, or the descriptors in order.
pub data Round : Type 0 where
  select_fails : Round
  selects : List Ready → Round

-- How the loop ends: `SERVER_RUNNING` is false, or `select` waits.
pub data Loop : Type 0 where
  stopped waits : Loop

module _ (L : Libraries) where
  -- The connection is dropped when `checkTcpClientsMsgs` gives false.
  unfoldable pub serve_tcp_conn : ℤ → Bytes → Moment → Received → Action L (Unit {0})
  unfolding check_tcp_clients_msgs drop_tcp_client
  serve_tcp_conn fd ip t r = do
    alive ← check_tcp_clients_msgs L t fd r
    if alive
        then nothing
        else (do log_event (codes "TCP client disconnected from IP: " ++ ip); drop_tcp_client fd)

  -- `handleTcpConn`, by what `getpeername` gives.
  unfoldable pub handle_tcp_conn_at : Peername → ℤ → Moment → Received → Action L (Unit {0})
  unfolding serve_tcp_conn drop_tcp_client
  handle_tcp_conn_at getpeername_fails fd t r = drop_tcp_client fd
  handle_tcp_conn_at (peer ip) fd t r = serve_tcp_conn fd ip t r

  abbrev pub handle_tcp_conn : ℤ → Moment → Received → Action L (Unit {0})
  handle_tcp_conn fd t r = handle_tcp_conn_at t.peername fd t r

  unfoldable pub handle_udp_conn : Datagram → Received → Action L (Unit {0})
  unfolding check_udp_clients_msgs
  handle_udp_conn d r = do _ ← check_udp_clients_msgs L d r; nothing

  unfoldable pub handle_ready : Ready → Action L (Unit {0})
  unfolding accept_tcp_conn handle_udp_conn handle_unix_conn check_alerts handle_tcp_conn_at
  handle_ready (tcp_ready c) = accept_tcp_conn c
  handle_ready (udp_ready d r) = handle_udp_conn d r
  handle_ready (unix_ready now a) = handle_unix_conn L now a
  handle_ready (fifo_ready now f) = check_alerts L now f
  handle_ready (client_ready fd t r) = handle_tcp_conn fd t r

  -- The descriptors of one round, all of them, also once the server has been stopped.
  unfoldable pub handle_all : List Ready → Action L (Unit {0})
  unfolding handle_ready
  handle_all [] = nothing
  handle_all (r ∷ rs) = handle_ready r >> handle_all rs

  -- `while (SERVER_RUNNING)`, for the results of `select` in order.
  unfoldable pub run_loop : List Round → Action L Loop
  unfolding handle_all
  run_loop [] s = elim s.server_running [
    | true ↦ (ok waits, s)
    | false ↦ (log_event (codes "Server turned off") >> pure stopped) s
  ]
  run_loop (select_fails ∷ rounds) s = elim s.server_running [
    | true ↦ (exits, s)
    | false ↦ (log_event (codes "Server turned off") >> pure stopped) s
  ]
  run_loop (selects rs ∷ rounds) s = elim s.server_running [
    | true ↦ (handle_all rs >> run_loop rounds) s
    | false ↦ (log_event (codes "Server turned off") >> pure stopped) s
  ]
