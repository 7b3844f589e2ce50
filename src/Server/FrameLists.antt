-- ===== src/Server/FrameLists.antt =====
-- What the functions on the lists of clients keep: a predicate that does not look at the lists.
use shelter_server_hpc.Prelude.{ℤ, Bool, List, Bytes}
use shelter_server_hpc.Exec.{when, modify, crashes}
use shelter_server_hpc.Exec.Keeps.{
  Keeps, Keeps-then, Keeps-when, Keeps-nothing, Keeps-if, Keeps-ends,
}
use shelter_server_hpc.Server.Tables.{
  UdpClientData, Tables, add_tcp_client, remv_tcp_client, add_udp_client,
}
use shelter_server_hpc.Server.Listing.{
  NewClient, accept_fails, new_client, accept_tcp_conn, list_tcp_client, unlist_tcp_client,
  list_udp_client, drop_tcp_client, fd_clr, fd_set, fits_fd_set,
}
use shelter_server_hpc.Server.State.{State, log_event}

pub record ListPrimitives {Db : Type 0} (P : State Db → Type 0) : Type 0 where
  pub log : (line : Bytes) → Keeps P (log_event line)
  pub tables : (f : Tables → Tables) → Keeps P (modify (λ s. record s { tables = f s.tables }))
  pub watched : (f : List ℤ → List ℤ) → Keeps P (modify (λ s. record s { watched = f s.watched }))

module _ {Db : Type 0} (P : State Db → Type 0) (prim : ListPrimitives P) where
  logged-Keeps : (b : Bool) (line : Bytes) → Keeps P (when b (log_event line))
  logged-Keeps b line = Keeps-when b (prim.log line)

  pub list_udp_client-Keeps : (c : UdpClientData) → Keeps P (list_udp_client c)
  unfolding list_udp_client
  list_udp_client-Keeps c = record {
    at = λ s. (Keeps-then (prim.tables (add_udp_client c)) (logged-Keeps _ _)).at s;
  }

  list_tcp_client-Keeps : (fd : ℤ) → Keeps P (list_tcp_client fd)
  unfolding list_tcp_client
  list_tcp_client-Keeps fd = record {
    at = λ s. (Keeps-then (prim.tables (add_tcp_client fd)) (logged-Keeps _ _)).at s;
  }

  unlist_tcp_client-Keeps : (fd : ℤ) → Keeps P (unlist_tcp_client fd)
  unfolding unlist_tcp_client
  unlist_tcp_client-Keeps fd = record {
    at = λ s. (Keeps-then (prim.tables (remv_tcp_client fd)) (logged-Keeps _ _)).at s;
  }

  pub drop_tcp_client-Keeps : (fd : ℤ) → Keeps P (drop_tcp_client fd)
  unfolding drop_tcp_client
  drop_tcp_client-Keeps fd = Keeps-then (prim.watched (fd_clr fd)) (unlist_tcp_client-Keeps fd)

  pub accept_tcp_conn-Keeps : (c : NewClient) → Keeps P (accept_tcp_conn c)
  unfolding accept_tcp_conn
  accept_tcp_conn-Keeps accept_fails = Keeps-nothing
  accept_tcp_conn-Keeps (new_client fd address) = Keeps-then (prim.log _) (
      Keeps-then (list_tcp_client-Keeps fd)
        (Keeps-if (fits_fd_set fd) (prim.watched (fd_set fd)) (Keeps-ends crashes)))
