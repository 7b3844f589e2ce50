-- ===== src/Clients/ArgsLaws.antt =====
-- What the command line determines.
use shelter_server_hpc.Prelude.{
  ◌≡◌, refl, arith, ℤ, true, false, List, [], ◌∷◌, ◌++◌, none, some, Bytes, codes, equal, contains,
  if◌then◌else◌, Bool-cases, inl, inr, ◌⊎◌, subst,
}
use shelter_server_hpc.Posix.{is_minus_one}
use shelter_server_hpc.Clients.Args.{
  Opt, port_opt, address_opt, type_opt, unknown_opt, Args, Parsed, parsed, exits, parse_options,
  default_args, parse_command_line_args, SharedPort, shm_open_fails, mmap_fails, shared_port,
  get_port_whith_shared_mem, get_port,
}

type_after_address :
    (mid post : List Opt) (t : Bytes) (a : Args)
    → a.address_flag ≡ true
    → parse_options a (mid ++ (type_opt t ∷ post)) ≡ exits
unfolding parse_options
type_after_address [] post t a h = rw (h, parse_options)
type_after_address (port_opt p ∷ mid) post t a h = type_after_address mid post t _ h
type_after_address (address_opt p ∷ mid) post t a h = type_after_address mid post t _ refl
type_after_address (type_opt p ∷ mid) post t a h = rw (h, parse_options)
type_after_address (unknown_opt ∷ mid) post t a h = refl

parse_options_conflict :
    (pre mid post : List Opt) (address t : Bytes) (a : Args)
    → parse_options a (pre ++ (address_opt address ∷ mid ++ (type_opt t ∷ post))) ≡ exits
unfolding parse_options
parse_options_conflict [] mid post address t a = type_after_address mid post t _ refl
parse_options_conflict (port_opt p ∷ pre) mid post address t a =
    parse_options_conflict pre mid post address t _
parse_options_conflict (address_opt p ∷ pre) mid post address t a =
    parse_options_conflict pre mid post address t _
parse_options_conflict (type_opt p ∷ pre) mid post address t a = ground (
  arith,
  parse_options_conflict pre mid post address t (record a { ipv6 = false }),
  parse_options_conflict pre mid post address t (record a { ipv6 = true }),
)
parse_options_conflict (unknown_opt ∷ pre) mid post address t a = refl

-- A `-t` anywhere behind a `-a` ends the program, whatever stands before, between and behind them.
pub parse_command_line_args_conflict :
    (pre mid post : List Opt) (address t : Bytes)
    → parse_command_line_args (pre ++ (address_opt address ∷ mid ++ (type_opt t ∷ post))) ≡ exits
unfolding parse_command_line_args
parse_command_line_args_conflict pre mid post address t =
    parse_options_conflict pre mid post address t default_args

-- There is no address, or the family agrees with it.
abbrev Agrees : Args → Type 0
Agrees a =
    (a.address_flag ≡ false) × (a.ip_address ≡ none)
    ⊎ ((address : Bytes) × (a.address_flag ≡ true)
        × (a.ip_address ≡ some address)
        × (a.ipv6 ≡ contains address (codes "::")))

abbrev AgreesIf : Parsed Args → Type 0
AgreesIf (parsed a) = Agrees a
AgreesIf exits = Unit

Agrees-AgreesIf : (r : Parsed Args) {a : Args} → AgreesIf r → r ≡ parsed a → Agrees a
Agrees-AgreesIf r h e = subst AgreesIf e h

type_opt-AgreesIf :
    (a : Args) (t : Bytes) (v4 v6 : Parsed Args)
    → (a.address_flag ≡ false → AgreesIf v4 × AgreesIf v6)
    → AgreesIf (
        if a.address_flag
        then exits
        else if equal t (codes "v4")
        then v4
        else if equal t (codes "v6")
        then v6
        else exits)
type_opt-AgreesIf a t v4 v6 h = elim (Bool-cases a.address_flag) [
  | inl y ↦ rw y tt
  | inr n ↦ elim (Bool-cases (equal t (codes "v4"))) [
    | inl y₄ ↦ rw (n, y₄) (h n).0
    | inr n₄ ↦ elim (Bool-cases (equal t (codes "v6"))) [
      | inl y₆ ↦ rw (n, n₄, y₆) (h n).1
      | inr n₆ ↦ rw (n, n₄, n₆) tt
    ]
  ]
]

parse_options-Agrees : (opts : List Opt) (a : Args) → Agrees a → AgreesIf (parse_options a opts)
unfolding parse_options
parse_options-Agrees [] a h = h
parse_options-Agrees (port_opt p ∷ opts) a h = parse_options-Agrees opts _ h
parse_options-Agrees (address_opt p ∷ opts) a h =
    parse_options-Agrees opts _ (inr (p, refl, refl, refl))
parse_options-Agrees (type_opt p ∷ opts) a h = type_opt-AgreesIf a p _ _ λ off.
    let none_yet = no_address a h off in
    (
      parse_options-Agrees opts _ (inl (off, none_yet)),
      parse_options-Agrees opts _ (inl (off, none_yet)),
    )
  where
    no_address : (a : Args) → Agrees a → a.address_flag ≡ false → a.ip_address ≡ none
    no_address a h off = ground arith
parse_options-Agrees (unknown_opt ∷ opts) a h = tt

-- If the program accepts its options and has an address, the address family is IPv6 exactly if the
-- address contains "::".
pub parse_command_line_args_family :
    (opts : List Opt) (a : Args) (address : Bytes)
    → parse_command_line_args opts ≡ parsed a
    → a.ip_address ≡ some address
    → a.ipv6 ≡ contains address (codes "::")
unfolding parse_command_line_args
parse_command_line_args_family opts a address e s =
    let agrees =
      Agrees-AgreesIf (parse_options default_args opts)
        (parse_options-Agrees opts default_args (inl (refl, refl))) e in
    ground arith

-- A port that the program goes on with is never -1: it is the one of the command line if that is not
-- -1, and else that of the shared memory.
pub get_port_lem :
    (shared : SharedPort) (port p : ℤ)
    → get_port shared port ≡ parsed p
    → (is_minus_one p ≡ false)
      × ((p ≡ port) ⊎ (is_minus_one port ≡ true) × (shared ≡ shared_port p))
unfolding get_port get_port_whith_shared_mem
get_port_lem shm_open_fails port p e = ground arith
get_port_lem mmap_fails port p e = ground arith
get_port_lem (shared_port q) port p e = ground arith
