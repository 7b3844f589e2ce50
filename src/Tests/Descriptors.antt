-- ===== src/Tests/Descriptors.antt =====
-- The theorems on sockets, at concrete inputs.
use shelter_server_hpc.Prelude.{pos, [], ◌∷◌, some}
use shelter_server_hpc.Posix.{af_inet, sock_stream, resolved, Ensures}
use shelter_server_hpc.Sockets.Setup.{set_tcp_ipv4_socket, set_tcp_ipv6_socket, set_tcp_socket}
use shelter_server_hpc.Sockets.Ready.{listening, IsIn, inet_port, inet6_port, tcp_sockets-listening}
use shelter_server_hpc.TcpClient.Connect.{Resolver}
use shelter_server_hpc.Tests.Data.{kernel}

tcp_sockets-listening_example :
    Ensures
      (IsIn (listening (inet_port (pos 8080))))
      (set_tcp_ipv4_socket kernel (pos 8080) (pos 5) [])
    × Ensures
        (IsIn (listening (inet6_port (pos 8080))))
        (set_tcp_ipv6_socket kernel (pos 8080) (pos 5) [])
    × Ensures
        (IsIn (listening (inet6_port (pos 8080))))
        (set_tcp_socket kernel (pos 8080) (pos 5) [])
tcp_sockets-listening_example = tcp_sockets-listening kernel (pos 8080) (pos 5) []

-- Two addresses, of which the first refuses.
abbrev two_addresses : Resolver
two_addresses server port = some (
    record {
      ai_family = af_inet;
      ai_socktype = sock_stream;
      ai_protocol = pos 6;
      ai_addr = resolved 0;
    }
    ∷ record {
      ai_family = af_inet;
      ai_socktype = sock_stream;
      ai_protocol = pos 6;
      ai_addr = resolved 1;
    }
    ∷ [])
