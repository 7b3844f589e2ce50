-- ===== src/UdpClient/Receive.antt =====
-- `receive_and_handle_json`, and the loop of the child.
use shelter_server_hpc.Prelude.{
  ℕ, zero, suc, leb, true, false, none, some, Bytes, if◌then◌else◌, length,
}
use shelter_server_hpc.CJson.{CJson}
use shelter_server_hpc.TcpClient.Session
use shelter_server_hpc.TcpClient.Session.{
  says, shows, socket_closed, Recv, recv_error, recv_closed, recv_bytes, Client, Result, returns,
  crashes, out_of_fuel, Run, ◌>>=◌, ◌>>◌, ends, emit, next_recv,
}
use shelter_server_hpc.TcpClient.Receive.{c_string}
use shelter_server_hpc.UdpClient.Menu.{buffer_size}

module _ (C : CJson) where
  -- What is printed of the text of a datagram.
  unfoldable pub handle_received_json : Bytes → Run (Unit {0})
  handle_received_json text = elim (C.parse (some text)) [
    | none ↦ emit (shows "Received message from server" (some text))
    | some json ↦ emit (shows "Received JSON from server" (C.print json))
  ]

  -- The NUL is written behind the bytes: outside the buffer if they fill it.
  unfoldable pub handle_datagram : Recv → Run (Unit {0})
  unfolding handle_received_json c_string
  handle_datagram recv_error = emit (says "recvfrom")
  handle_datagram recv_closed = emit (says "No data received from server")
  handle_datagram (recv_bytes bs) =
      if leb buffer_size (length bs) then ends crashes else handle_received_json (c_string bs)

  unfoldable pub receive_and_handle_json : Run (Unit {0})
  unfolding handle_datagram next_recv
  receive_and_handle_json = do r ← next_recv; handle_datagram r

  -- The loop of the child, on fuel.
  unfoldable pub handle_server_messages : ℕ → Run (Unit {0})
  unfolding receive_and_handle_json
  handle_server_messages zero c = (out_of_fuel, c)
  handle_server_messages (suc fuel) c =
      let more = handle_server_messages fuel in
      elim c.connected [
        | true ↦ Session.and_then (λ _. more) (receive_and_handle_json c)
        | false ↦ emit socket_closed c
      ]
