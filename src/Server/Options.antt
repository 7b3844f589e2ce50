-- ===== src/Server/Options.antt =====
-- `parse_command_line_arguments` of src/server/main.cpp.
use shelter_server_hpc.Prelude.{
  ℤ, pos, Option, none, some, List, [], ◌∷◌, Bytes, codes, equal, if◌then◌else◌,
}
use shelter_server_hpc.Stdio.{atoi}

-- What successive calls of `getopt(argc, argv, "p:")` give: `-p` with its argument, and the entry
-- `argv[optind]` behind it, if `optind < argc`; or `?`.
pub data Opt : Type 0 where
  port_opt : Bytes → Option Bytes → Opt
  unknown_opt : Opt

pub record Ports : Type 0 where
  pub tcp_port : ℤ
  pub udp_port : ℤ

-- The function returns, or calls `exit(EXIT_FAILURE)`.
pub data Parsed : Type 0 where
  parsed : Ports → Parsed
  exits : Parsed

unfoldable pub parse_options : Ports → List Opt → Parsed
unfolding equal
parse_options p [] = parsed p
parse_options p (unknown_opt ∷ opts) = exits
parse_options p (port_opt arg none ∷ opts) = exits
parse_options p (port_opt arg (some number) ∷ opts) =
    let tcp = parse_options (record p { tcp_port = atoi number }) opts in
    let udp = parse_options (record p { udp_port = atoi number }) opts in
    if equal arg (codes "tcp") then tcp else if equal arg (codes "udp") then udp else exits

abbrev pub default_ports : Ports
default_ports = record { tcp_port = pos 5005; udp_port = pos 5005 }

-- The ports that `main` starts the server with.
unfoldable pub parse_command_line_arguments : List Opt → Parsed
unfolding parse_options
parse_command_line_arguments opts = parse_options default_ports opts
