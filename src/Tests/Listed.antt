-- ===== src/Tests/Listed.antt =====
-- The theorems on the server's tables, at concrete inputs.
use shelter_server_hpc.Prelude.{◌≡◌, refl, pos, [], ◌∷◌}
use shelter_server_hpc.Server.Tables.{
  UdpClientData, Tables, add_tcp_client, add_udp_client, udp_client_exists, exists_in,
}
use shelter_server_hpc.Server.Reachable.{no_clients}

-- Two IPv6 clients of one port, with different addresses and no flow label.
abbrev first_v6 : UdpClientData
first_v6 = record {
  sockfd = pos 4;
  client_addr = record { sin_port = 5000; word = 0; sin6_addr = 1 ∷ [] };
}

abbrev second_v6 : UdpClientData
second_v6 = record {
  sockfd = pos 4;
  client_addr = record { sin_port = 5000; word = 0; sin6_addr = 2 ∷ [] };
}

abbrev one_client : Tables
one_client = add_tcp_client (pos 7) no_clients

-- The second of the two is taken for the first, and is not listed.
second_v6_dropped :
    add_udp_client second_v6 (add_udp_client first_v6 no_clients)
    ≡ add_udp_client first_v6 no_clients
unfolding add_udp_client udp_client_exists exists_in
second_v6_dropped = refl
