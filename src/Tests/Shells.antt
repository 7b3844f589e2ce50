-- ===== src/Tests/Shells.antt =====
-- The theorems on the command line and the host's name, at concrete inputs.
use shelter_server_hpc.Prelude.{
  ◌+◌, ◌*◌, ◌≤◌, ◌<◌, ◌≡◌, refl, ◌↔◌, ◌⊎◌, arith, pos, minus_one, true, false, [], ◌∷◌, ◌++◌, some,
  Bytes, codes, contains, length,
}
use shelter_server_hpc.Posix.{is_minus_one}
use shelter_server_hpc.Clients.Args.{
  port_opt, address_opt, type_opt, Args, parsed, exits, parse_command_line_args, shared_port,
  get_port,
}
use shelter_server_hpc.Clients.OsRelease.{dangling, get_os_id}
use shelter_server_hpc.Clients.Utf8.{encode_utf8, buffer_size}
use shelter_server_hpc.Clients.ArgsLaws.{parse_command_line_args_conflict, get_port_lem}
use shelter_server_hpc.Clients.Hostname.{id_line, unlines, get_os_id-id_line}
use shelter_server_hpc.Clients.Utf8Laws.{encode_utf8_fits, total_width}
use shelter_server_hpc.Tests.Data.{name_line-IsOther, ubuntu-IsValue}

parse_command_line_args_conflict_example :
    parse_command_line_args
      (port_opt (codes "8080") ∷ address_opt (codes "::1") ∷ type_opt (codes "v6") ∷ [])
    ≡ exits
parse_command_line_args_conflict_example =
    parse_command_line_args_conflict (port_opt (codes "8080") ∷ []) [] [] (codes "::1") (codes "v6")

abbrev loopback : Args
loopback = record {
  port = minus_one;
  ipv6 = true;
  ip_address = some (codes "::1");
  address_flag = true;
}

parse_loopback : parse_command_line_args (address_opt (codes "::1") ∷ []) ≡ parsed loopback
unfolding parse_command_line_args contains
parse_loopback = refl

port_from_memory : get_port (shared_port (pos 4000)) minus_one ≡ parsed (pos 4000)
unfolding get_port
port_from_memory = refl

get_port_lem_example :
    (is_minus_one (pos 4000) ≡ false)
    × ((pos 4000 ≡ minus_one)
        ⊎ (is_minus_one minus_one ≡ true) × (shared_port (pos 4000) ≡ shared_port (pos 4000)))
get_port_lem_example = get_port_lem (shared_port (pos 4000)) minus_one (pos 4000) port_from_memory

get_os_id-id_line_example :
    get_os_id (
      some (
        unlines (codes "NAME=\"Ubuntu\"" ∷ [])
        ++ (id_line (codes "ubuntu") ++ (b'\n' ∷ codes "VERSION=22\n"))))
    ≡ dangling (codes "ubuntu")
get_os_id-id_line_example =
    get_os_id-id_line (codes "NAME=\"Ubuntu\"" ∷ []) (codes "ubuntu") (codes "VERSION=22\n")
      (name_line-IsOther, tt) ubuntu-IsValue

abbrev euro : Bytes
euro = 0xE2 ∷ 0x82 ∷ 0xAC ∷ []

encode_utf8_fits_example :
    (length (encode_utf8 euro) + 1 ≤ buffer_size euro) ↔ (total_width euro ≤ length euro * 2)
encode_utf8_fits_example = encode_utf8_fits euro (omega arith)

-- A lone three-byte lead makes the code write 4 bytes into a buffer of 3.
overflow : buffer_size (0xE2 ∷ []) < length (encode_utf8 (0xE2 ∷ [])) + 1
unfolding encode_utf8
overflow = omega arith
