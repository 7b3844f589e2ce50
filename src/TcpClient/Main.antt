-- ===== src/TcpClient/Main.antt =====
-- `authenticate`, `handle_server_messages`, and what `main` does once it is connected.
use shelter_server_hpc.Prelude.{
  ℕ, zero, suc, Bool, true, false, Option, none, some, Bytes, codes, if◌then◌else◌,
}
use shelter_server_hpc.CJson.{CJson, add_string_to_object}
use shelter_server_hpc.Clients.Args.{Args}
use shelter_server_hpc.Clients.OsRelease.{OsId, no_os_id, dangling, exits, StaleRead, get_os_id}
use shelter_server_hpc.Clients.Utf8.{encode_utf8}
use shelter_server_hpc.TcpClient.Session
use shelter_server_hpc.TcpClient.Session.{
  Client, Result, Fork, fork_fails, in_parent, in_child, returns, crashes, out_of_fuel, Run, ◌>>=◌,
  ◌>>◌, ends, disconnect, send_json,
}
use shelter_server_hpc.TcpClient.Receive.{receive_json}
use shelter_server_hpc.TcpClient.Menu.{handle_user_input, set_disconnected}

-- The default address, if the command line gives none.
unfoldable pub server_address : Args → Bytes
server_address args = elim args.ip_address [
  | some address ↦ address
  | none ↦ if args.ipv6 then codes "::1" else codes "127.0.0.1"
]

-- `handle_sigint`, which ends the process.
unfoldable pub handle_sigint : Run (Unit {0})
unfolding set_disconnected
handle_sigint = do set_disconnected; ends (Session.exits 0)

module _ (C : CJson) where
  open C use {Json, create_object}

  abbrev pub authentication_json : Bytes → Json
  authentication_json hostname =
      add_string_to_object C
        (add_string_to_object C create_object "message" (codes "authenticateme")) "hostname"
        hostname

  -- `encode_utf8` reads the name, which is NULL if the file names none, through the pointer.
  unfoldable pub send_hostname : StaleRead → OsId → Run (Unit {0})
  unfolding send_json encode_utf8
  send_hostname stale exits = ends (Session.exits 1)
  send_hostname stale no_os_id = ends crashes
  send_hostname stale (dangling text) = elim (stale text) [
    | none ↦ ends crashes
    | some hostname ↦ send_json C (authentication_json (encode_utf8 hostname))
  ]

  -- On the contents of /etc/os-release.
  unfoldable pub authenticate : StaleRead → Option Bytes → Run (Unit {0})
  unfolding send_hostname get_os_id
  authenticate stale os_release = send_hostname stale (get_os_id os_release)

  -- The loop of the child, on fuel.
  unfoldable pub handle_server_messages : ℕ → Run (Unit {0})
  unfolding receive_json
  handle_server_messages zero c = (out_of_fuel, c)
  handle_server_messages (suc fuel) c =
      let more = handle_server_messages fuel in
      elim c.connected [
        | true ↦ Session.and_then (λ _. more) (receive_json C c)
        | false ↦ disconnect c
      ]

  abbrev assume_authenticated : Run (Unit {0})
  assume_authenticated c = (returns tt, record c { authenticated = true })

  -- `main` from the first test of `authenticated` to `fork`.
  unfoldable pub start : StaleRead → Option Bytes → Run (Unit {0})
  unfolding authenticate
  start stale os_release c =
      if c.authenticated
      then (returns tt, c)
      else (do authenticate stale os_release; assume_authenticated) c

  abbrev as_child : Run (Unit {0})
  as_child c = (returns tt, record c { is_parent = false; has_child = false })

  abbrev as_parent : Run (Unit {0})
  as_parent c = (returns tt, record c { is_parent = true; has_child = true })

  -- `redirect_output_to_parent`, whose failure ends the child.
  abbrev redirect_output_to_parent : Bool → Run (Unit {0})
  redirect_output_to_parent true = ends (returns tt)
  redirect_output_to_parent false = ends (Session.exits 1)

  -- The process after `fork`: the child handles the server, the parent the user.
  unfoldable pub run_process : ℕ → Fork → Run (Unit {0})
  unfolding handle_server_messages handle_user_input
  run_process fuel fork_fails = ends (Session.exits 1)
  run_process fuel in_parent = do as_parent; handle_user_input C fuel
  run_process fuel (in_child redirected) = do
    as_child
    redirect_output_to_parent redirected
    handle_server_messages fuel
