-- ===== src/Server/Tables.antt =====
-- `addTcpClient`, `remvTcpClient`, `udpClientExists` and `addUdpClient`: the lists of clients.
use shelter_server_hpc.Prelude.{
  ℕ, ℤ, pos, negsuc, Bool, false, ◌&&◌, ◌||◌, List, [], ◌∷◌, ◌++◌, Bytes, ltb, if◌then◌else◌, ◌==◌,
  length,
}

abbrev pub same_fd : ℤ → ℤ → Bool
same_fd (pos a) (pos b) = a == b
same_fd (negsuc a) (negsuc b) = a == b
same_fd _ _ = false

-- The bytes of a `sockaddr_storage` that the code looks at: the port, and the word behind it, which is
-- the address of an IPv4 client and the flow label of an IPv6 client, whose address comes after.
pub record Peer : Type 0 where
  pub sin_port : ℕ
  pub word : ℕ
  pub sin6_addr : Bytes

pub record UdpClientData : Type 0 where
  pub sockfd : ℤ
  pub client_addr : Peer

pub record Tables : Type 0 where
  pub tcp_clients : List ℤ
  pub udp_clients : List UdpClientData

abbrev pub max_connections : ℕ
max_connections = 10

unfoldable pub add_tcp_client : ℤ → Tables → Tables
add_tcp_client client_fd t =
    if ltb (length t.tcp_clients) max_connections
    then record t { tcp_clients = t.tcp_clients ++ (client_fd ∷ []) }
    else t

-- `erase` of the first element that `find` gives.
unfoldable pub erase_fd : ℤ → List ℤ → List ℤ
erase_fd client_fd [] = []
erase_fd client_fd (fd ∷ fds) = if same_fd fd client_fd then fds else fd ∷ erase_fd client_fd fds

unfoldable pub remv_tcp_client : ℤ → Tables → Tables
unfolding erase_fd
remv_tcp_client client_fd t = record t { tcp_clients = erase_fd client_fd t.tcp_clients }

-- Both addresses are read as IPv4 addresses.
abbrev pub same_peer : Peer → Peer → Bool
same_peer a b = (a.word == b.word) && (a.sin_port == b.sin_port)

unfoldable pub exists_in : List UdpClientData → UdpClientData → Bool
exists_in [] client = false
exists_in (existing ∷ rest) client =
    same_peer existing.client_addr client.client_addr || exists_in rest client

unfoldable pub udp_client_exists : UdpClientData → Tables → Bool
unfolding exists_in
udp_client_exists client t = exists_in t.udp_clients client

unfoldable pub add_udp_client : UdpClientData → Tables → Tables
unfolding udp_client_exists
add_udp_client client t =
    if udp_client_exists client t
    then t
    else if ltb (length t.udp_clients) max_connections
    then record t { udp_clients = t.udp_clients ++ (client ∷ []) }
    else t
