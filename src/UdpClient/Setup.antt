-- ===== src/UdpClient/Setup.antt =====
-- `establish_connection` and `set_server_addr`: the socket and the address of the server.
use shelter_server_hpc.Prelude.{ℕ, ℤ, pos, Bool, Option, none, some, Bytes, if◌then◌else◌}
use shelter_server_hpc.Posix.{
  af_inet, af_inet6, sock_dgram, socket, Kernel, Program, ◌>>=◌, pure, perform_or_exit, uint16,
  htons,
}

-- The global variable that is set: the family, the port in network byte order, and the text that
-- `inet_pton` reads.
pub record ServerAddr : Type 0 where
  pub is_v6 : Bool
  pub sin_port : ℕ
  pub address : Bytes

-- `inet_pton` reads a NULL pointer if no address was given.
unfoldable pub set_server_addr : ℤ → Bool → Option Bytes → Option ServerAddr
unfolding uint16 htons
set_server_addr port ipv6 none = none
set_server_addr port ipv6 (some ip_address) =
    some (record { is_v6 = ipv6; sin_port = htons (uint16 port); address = ip_address })

-- The socket, and the address unless a NULL pointer was read.
unfoldable pub establish_connection :
    Kernel → ℤ → Bool → Option Bytes → Program (ℤ × Option ServerAddr)
unfolding set_server_addr
establish_connection answer port ipv6 ip_address = do
  sockfd ← perform_or_exit answer (socket (if ipv6 then af_inet6 else af_inet) sock_dgram (pos 0))
  pure (sockfd, set_server_addr port ipv6 ip_address)
