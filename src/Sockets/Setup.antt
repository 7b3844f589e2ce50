-- ===== src/Sockets/Setup.antt =====
-- lib/socketSetup/src/socket_setup.c: each function makes its calls in order and exits on the first
-- that fails. The address argument only gives storage: every field that is used is assigned.
use shelter_server_hpc.Prelude.{ℕ, zero, suc, ℤ, pos, Bool, Bytes, [], ◌∷◌, if◌then◌else◌}
use shelter_server_hpc.Posix.{
  af_unix, af_inet, af_inet6, sock_stream, sock_dgram, so_reuseaddr, so_reuseport, any_inet,
  any_inet6, unix_path, socket, setsockopt, bind, listen, getsockname, inet_ntop, Kernel, Program,
  ◌>>=◌, ◌>>◌, pure, exit_failure, perform, perform_or_exit, is_minus_one, uint16, htons,
}

-- `strncpy` into `sun_path[108]`, with a NUL at the end: at most 107 bytes of the path.
abbrev pub sun_path : ℕ → Bytes → Bytes
sun_path zero path = []
sun_path (suc n) [] = []
sun_path (suc n) (b ∷ path) = b ∷ sun_path n path

module _ (answer : Kernel) where
  unfoldable pub set_tcp_ipv4_socket : ℤ → ℤ → Program ℤ
  set_tcp_ipv4_socket port max_connections = do
    fd ← perform_or_exit answer (socket af_inet sock_stream (pos 0))
    _ ← perform answer (setsockopt fd so_reuseport 1)
    _ ← perform_or_exit answer (bind fd (any_inet (htons (uint16 port))))
    _ ← perform_or_exit answer (listen fd max_connections)
    pure fd

  unfoldable pub set_tcp_ipv6_socket : ℤ → ℤ → Program ℤ
  set_tcp_ipv6_socket port max_connections = do
    fd ← perform_or_exit answer (socket af_inet6 sock_stream (pos 0))
    _ ← perform answer (setsockopt fd so_reuseport 1)
    _ ← perform_or_exit answer (bind fd (any_inet6 (htons (uint16 port))))
    _ ← perform_or_exit answer (listen fd max_connections)
    pure fd

  unfoldable pub set_udp_ipv4_socket : ℤ → Program ℤ
  set_udp_ipv4_socket port = do
    fd ← perform_or_exit answer (socket af_inet sock_dgram (pos 0))
    _ ← perform_or_exit answer (setsockopt fd so_reuseport 1)
    _ ← perform_or_exit answer (bind fd (any_inet (htons (uint16 port))))
    pure fd

  unfoldable pub set_udp_ipv6_socket : ℤ → Program ℤ
  set_udp_ipv6_socket port = do
    fd ← perform_or_exit answer (socket af_inet6 sock_dgram (pos 0))
    _ ← perform_or_exit answer (setsockopt fd so_reuseport 1)
    _ ← perform_or_exit answer (bind fd (any_inet6 (htons (uint16 port))))
    pure fd

  unfoldable pub set_unix_socket : Bytes → ℤ → Bool → Program ℤ
  set_unix_socket path max_connections connection_oriented = do
    fd ←
        perform_or_exit answer
          (socket af_unix (if connection_oriented then sock_stream else sock_dgram) (pos 0))
    _ ← perform_or_exit answer (bind fd (unix_path (sun_path 107 path)))
    if connection_oriented
        then (perform_or_exit answer (listen fd max_connections) >> pure fd)
        else pure fd

  -- `inet_ntop` gives NULL, here -1, on an error.
  unfoldable pub set_tcp_socket : ℤ → ℤ → Program ℤ
  set_tcp_socket port max_connections = do
    sd ← perform_or_exit answer (socket af_inet6 sock_stream (pos 0))
    _ ← perform_or_exit answer (setsockopt sd so_reuseaddr 1)
    _ ← perform_or_exit answer (bind sd (any_inet6 (htons (uint16 port))))
    _ ← perform_or_exit answer (getsockname sd)
    text ← perform answer (inet_ntop sd)
    if is_minus_one text
        then exit_failure
        else (perform_or_exit answer (listen sd max_connections) >> pure sd)

  unfoldable pub set_udp_socket : ℤ → Program ℤ
  set_udp_socket port = do
    fd ← perform_or_exit answer (socket af_inet6 sock_dgram (pos 0))
    _ ← perform_or_exit answer (setsockopt fd so_reuseport 0)
    _ ← perform_or_exit answer (bind fd (any_inet6 (htons (uint16 port))))
    pure fd
