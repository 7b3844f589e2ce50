-- ===== src/Server/OptionsLaws.antt =====
-- The ports of the server's command line.
use shelter_server_hpc.Prelude.{
  ◌≡◌, refl, ℤ, Bool, true, false, ◌||◌, ◌&&◌, none, some, List, [], ◌∷◌, Bytes, codes, equal,
  equal_iff, pos, if◌then◌else◌, Bool-cases, inl, inr,
}
use shelter_server_hpc.Stdio.{atoi}
use shelter_server_hpc.Server.Options.{
  Opt, port_opt, unknown_opt, Ports, parsed, exits, default_ports, parse_options,
  parse_command_line_arguments,
}

-- An option that the program takes: `-p` with a protocol that is one of the two, and a number behind it.
abbrev pub accepted : List Opt → Bool
accepted [] = true
accepted (unknown_opt ∷ opts) = false
accepted (port_opt p none ∷ opts) = false
accepted (port_opt p (some number) ∷ opts) =
    (equal p (codes "tcp") || equal p (codes "udp")) && accepted opts

-- The number of the last option of one protocol, or the port that there was before.
abbrev pub last_port : Bytes → ℤ → List Opt → ℤ
last_port protocol port [] = port
last_port protocol port (port_opt p (some number) ∷ opts) =
    last_port protocol (if equal p protocol then atoi number else port) opts
last_port protocol port (_ ∷ opts) = last_port protocol port opts

tcp_not_udp : (q : Bytes) → equal q (codes "tcp") ≡ true → equal q (codes "udp") ≡ false
unfolding equal
tcp_not_udp q e = rw ((equal_iff q (codes "tcp")).0 e) refl

parse_options_lem :
    (opts : List Opt) (p : Ports)
    → parse_options p opts ≡ (
        if accepted opts
        then parsed (record {
          tcp_port = last_port (codes "tcp") p.tcp_port opts;
          udp_port = last_port (codes "udp") p.udp_port opts;
        })
        else exits)
unfolding parse_options
parse_options_lem [] p = refl
parse_options_lem (unknown_opt ∷ opts) p = refl
parse_options_lem (port_opt q none ∷ opts) p = refl
parse_options_lem (port_opt q (some number) ∷ opts) p = elim (Bool-cases (equal q (codes "tcp"))) [
  | inl tcp ↦
      rw (tcp, tcp_not_udp q tcp, parse_options_lem opts (record p { tcp_port = atoi number })) refl
  | inr other ↦ elim (Bool-cases (equal q (codes "udp"))) [
    | inl udp ↦ rw (other, udp, parse_options_lem opts (record p { udp_port = atoi number })) refl
    | inr unknown ↦ rw (other, unknown) refl
  ]
]

-- For every list of options, the program starts exactly if each of them is a `-p` that has the protocol
-- "tcp" or "udp" and a number behind it; then each port is the last number of its protocol, or 5005
-- if there is none. Otherwise it exits.
pub parse_command_line_arguments_lem :
    (opts : List Opt)
    → parse_command_line_arguments opts ≡ (
        if accepted opts
        then parsed (record {
          tcp_port = last_port (codes "tcp") (pos 5005) opts;
          udp_port = last_port (codes "udp") (pos 5005) opts;
        })
        else exits)
unfolding parse_command_line_arguments
parse_command_line_arguments_lem opts = parse_options_lem opts default_ports
