-- ===== src/UdpClient/Main.antt =====
-- `main` of the UDP client, and the functions of which it has copies of its own: those of the TCP client
-- in Clients, word for word.
use shelter_server_hpc.Prelude.{ℕ, ℤ, Bool, true, false, List, Option, none, some, Bytes}
use shelter_server_hpc.CJson.{CJson}
use shelter_server_hpc.Clients.Args as Args
use shelter_server_hpc.Clients.Args.{Opt, Parsed, parsed, exits, SharedPort}
use shelter_server_hpc.Clients.OsRelease as OsRelease
use shelter_server_hpc.Clients.OsRelease.{OsId, no_os_id, dangling, StaleRead}
use shelter_server_hpc.Clients.Utf8 as Utf8
use shelter_server_hpc.TcpClient.Session
use shelter_server_hpc.TcpClient.Session.{
  Client, Result, Fork, fork_fails, in_parent, in_child, returns, crashes, Run, ◌>>=◌, ◌>>◌, ends,
}
use shelter_server_hpc.TcpClient.Menu.{set_disconnected}
use shelter_server_hpc.UdpClient.Menu.{handle_user_input}
use shelter_server_hpc.UdpClient.Receive.{handle_server_messages}

unfoldable pub parse_command_line_args : List Opt → Parsed Args.Args
parse_command_line_args = Args.parse_command_line_args

unfoldable pub get_port_whith_shared_mem : SharedPort → ℤ
get_port_whith_shared_mem = Args.get_port_whith_shared_mem

-- The port, the family and the address of the command line.
unfoldable pub get_port : SharedPort → List Opt → Parsed (ℤ × Bool × Option Bytes)
unfolding parse_command_line_args
get_port shared opts = elim (parse_command_line_args opts) [
  | exits ↦ exits
  | parsed args ↦ elim (Args.get_port shared args.port) [
    | exits ↦ exits
    | parsed port ↦ parsed (port, args.ipv6, args.ip_address)
  ]
]

unfoldable pub get_os_id : Option Bytes → OsId
get_os_id = OsRelease.get_os_id

unfoldable pub extract_value : Bytes → Option Bytes
extract_value = OsRelease.extract_value

unfoldable pub encode_utf8 : Bytes → Bytes
encode_utf8 = Utf8.encode_utf8

-- `handle_sigint`, which ends the process.
unfoldable pub handle_sigint : Run (Unit {0})
unfolding set_disconnected
handle_sigint = do set_disconnected; ends (Session.exits 0)

module _ (C : CJson) where
  -- The parent reads the host's name before its loop, through the pointer, also one that is NULL.
  unfoldable pub with_hostname : StaleRead → ℕ → OsId → Run (Unit {0})
  unfolding handle_user_input encode_utf8
  with_hostname stale fuel OsRelease.exits = ends (Session.exits 1)
  with_hostname stale fuel no_os_id = ends crashes
  with_hostname stale fuel (dangling text) = elim (stale text) [
    | none ↦ ends crashes
    | some hostname ↦ handle_user_input C (encode_utf8 hostname) fuel
  ]

  abbrev as_child : Run (Unit {0})
  as_child c = (returns tt, record c { is_parent = false; has_child = false })

  abbrev as_parent : Run (Unit {0})
  as_parent c = (returns tt, record c { is_parent = true; has_child = true })

  -- `redirect_output_to_parent`, whose failure ends the child.
  abbrev redirect_output_to_parent : Bool → Run (Unit {0})
  redirect_output_to_parent true = ends (returns tt)
  redirect_output_to_parent false = ends (Session.exits 1)

  -- The process after `fork`, on the contents of /etc/os-release.
  unfoldable pub run_process : StaleRead → ℕ → Option Bytes → Fork → Run (Unit {0})
  unfolding handle_server_messages with_hostname get_os_id
  run_process stale fuel os_release fork_fails = ends (Session.exits 1)
  run_process stale fuel os_release in_parent = do
    as_parent
    with_hostname stale fuel (get_os_id os_release)
  run_process stale fuel os_release (in_child redirected) = do
    as_child
    redirect_output_to_parent redirected
    handle_server_messages C fuel
