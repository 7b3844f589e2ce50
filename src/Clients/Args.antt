-- ===== src/Clients/Args.antt =====
-- The command line and the port of a client.
use shelter_server_hpc.Prelude.{
  ℤ, minus_one, Bool, true, false, List, [], ◌∷◌, Option, none, some, Bytes, codes, equal, contains,
  if◌then◌else◌,
}
use shelter_server_hpc.Posix.{is_minus_one}
use shelter_server_hpc.Stdio.{atoi}

-- What successive calls of `getopt(argc, argv, "p:a:t:")` give: an option with its argument, or `?`.
pub data Opt : Type 0 where
  port_opt : Bytes → Opt
  address_opt : Bytes → Opt
  type_opt : Bytes → Opt
  unknown_opt : Opt

-- The variables that the function sets, and its local flag.
pub record Args : Type 0 where
  pub port : ℤ
  pub ipv6 : Bool
  pub ip_address : Option Bytes
  pub address_flag : Bool

-- The function returns, or calls `exit(EXIT_FAILURE)`.
pub data Parsed (A : Type 0) : Type 0 where
  parsed : A → Parsed A
  exits : Parsed A

unfoldable pub parse_options : Args → List Opt → Parsed Args
parse_options a [] = parsed a
parse_options a (port_opt arg ∷ opts) = parse_options (record a { port = atoi arg }) opts
parse_options a (address_opt arg ∷ opts) =
    parse_options
      (record a { ipv6 = contains arg (codes "::"); ip_address = some arg; address_flag = true })
      opts
parse_options a (type_opt arg ∷ opts) =
    let v4 = parse_options (record a { ipv6 = false }) opts in
    let v6 = parse_options (record a { ipv6 = true }) opts in
    if a.address_flag
    then exits
    else if equal arg (codes "v4")
    then v4
    else if equal arg (codes "v6")
    then v6
    else exits
parse_options a (unknown_opt ∷ opts) = exits

-- `ip_address` is a global variable that starts as NULL.
abbrev pub default_args : Args
default_args = record { port = minus_one; ipv6 = false; ip_address = none; address_flag = false }

unfoldable pub parse_command_line_args : List Opt → Parsed Args
unfolding parse_options
parse_command_line_args opts = parse_options default_args opts

-- What the system does at the shared memory: `shm_open` or `mmap` fails, or the region holds a port.
pub data SharedPort : Type 0 where
  shm_open_fails mmap_fails : SharedPort
  shared_port : ℤ → SharedPort

-- The port of `get_port_whith_shared_mem`, -1 on an error.
unfoldable pub get_port_whith_shared_mem : SharedPort → ℤ
get_port_whith_shared_mem shm_open_fails = minus_one
get_port_whith_shared_mem mmap_fails = minus_one
get_port_whith_shared_mem (shared_port port) = port

-- `get_port`: a port of -1 is replaced by that of the shared memory.
unfoldable pub get_port : SharedPort → ℤ → Parsed ℤ
unfolding get_port_whith_shared_mem
get_port shared port =
    if is_minus_one port
    then (let found = get_port_whith_shared_mem shared in
        if is_minus_one found then exits else parsed found)
    else parsed port
