-- ===== src/TcpClient/Connect.antt =====
-- `do_connect` and `establish_connection`: the addresses that `getaddrinfo` finds, tried in order.
use shelter_server_hpc.Prelude.{
  ℕ, zero, suc, ℤ, Option, none, some, List, [], ◌∷◌, Bytes, if◌then◌else◌,
}
use shelter_server_hpc.Posix.{
  Domain, SockType, Address, socket, connect, close, Kernel, Program, ◌>>=◌, ◌>>◌, pure,
  exit_failure, perform, is_minus_one,
}
use shelter_server_hpc.Stdio.{print_int}

-- One entry of the list of `getaddrinfo`.
pub record AddrInfo : Type 0 where
  pub ai_family : Domain
  pub ai_socktype : SockType
  pub ai_protocol : ℤ
  pub ai_addr : Address

-- What `getaddrinfo` answers for a server and a port: a list, or an error.
abbrev pub Resolver : Type 0
Resolver = Bytes → Bytes → Option (List AddrInfo)

-- `snprintf(port_str, 6, "%d", port)` keeps five characters.
unfoldable pub first : ℕ → Bytes → Bytes
first zero bs = []
first (suc n) [] = []
first (suc n) (b ∷ bs) = b ∷ first n bs

unfoldable pub port_str : ℤ → Bytes
unfolding first
port_str port = first 5 (print_int port)

module _ (answer : Kernel) where
  -- After `connect`: the loop ends, or the socket is closed and the next address is tried.
  abbrev pub after_connect : Program ℤ → ℤ → ℤ → Program ℤ
  after_connect next sfd r =
      if is_minus_one r then (do perform answer (close sfd); next) else pure sfd

  abbrev pub after_socket : Program ℤ → AddrInfo → ℤ → Program ℤ
  after_socket next rp sfd =
      if is_minus_one sfd
      then next
      else (perform answer (connect sfd rp.ai_addr) >>= after_connect next sfd)

  -- The loop over the list.
  unfoldable pub try_addresses : List AddrInfo → Program ℤ
  try_addresses [] = exit_failure
  try_addresses (rp ∷ rps) =
      perform answer (socket rp.ai_family rp.ai_socktype rp.ai_protocol)
      >>= after_socket (try_addresses rps) rp

  -- An error of `getaddrinfo` ends the program.
  abbrev pub after_getaddrinfo : Option (List AddrInfo) → Program ℤ
  after_getaddrinfo none = exit_failure
  after_getaddrinfo (some result) = try_addresses result

  unfoldable pub do_connect : Resolver → Bytes → Bytes → Program ℤ
  unfolding try_addresses
  do_connect getaddrinfo server port = after_getaddrinfo (getaddrinfo server port)

  unfoldable pub establish_connection : Resolver → Bytes → ℤ → Program ℤ
  unfolding do_connect port_str
  establish_connection getaddrinfo ip_address port =
      do_connect getaddrinfo ip_address (port_str port)
