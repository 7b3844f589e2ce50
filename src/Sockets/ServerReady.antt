-- ===== src/Sockets/ServerReady.antt =====
-- The sockets of the class `SocketSetup` of the server, once they are made.
use shelter_server_hpc.Prelude.{ℤ, Bool, Bytes}
use shelter_server_hpc.Posix.{sock_dgram, History, Kernel, Ensures}
use shelter_server_hpc.Sockets.Setup.{set_unix_socket, set_tcp_socket, set_udp_socket}
use shelter_server_hpc.Sockets.ServerSetup.{
  server_unix_socket, server_tcp_socket, server_udp_socket,
}
use shelter_server_hpc.Sockets.Ready.{
  SockState, listening, IsIn, inet6_port, unix_state, tcp_sockets-listening, udp_sockets-bound,
  set_unix_socket-unix_state,
}

module _ (answer : Kernel) where
  -- Whatever the system answers, the server's UNIX socket listens on its path, cut to 107 bytes, if it
  -- is connection-oriented, and is bound to it otherwise, its TCP socket listens and its UDP socket is
  -- bound, both at any local address and the low 16 bits of the port; or the server exits when a call
  -- has failed.
  pub server_sockets-ready :
      (path : Bytes) (port max : ℤ) (oriented : Bool) (h : History)
      → Ensures
          (IsIn (unix_state answer path oriented))
          (server_unix_socket answer path max oriented h)
        × Ensures (IsIn (listening (inet6_port port))) (server_tcp_socket answer port max h)
        × Ensures
            (IsIn (SockState.bound sock_dgram (inet6_port port)))
            (server_udp_socket answer port h)
  unfolding server_unix_socket server_tcp_socket server_udp_socket set_unix_socket set_tcp_socket
      set_udp_socket
  server_sockets-ready path port max oriented h = (
    set_unix_socket-unix_state answer path max oriented h,
    (tcp_sockets-listening answer port max h).2,
    (udp_sockets-bound answer port h).2,
  )
