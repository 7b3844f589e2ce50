-- ===== src/Stdio.antt =====
-- Standard input as the bytes still to come, and the functions of <stdio.h> and <stdlib.h> that the
-- clients read with.
pub mod Reading
use shelter_server_hpc.Prelude.{
  ℕ, zero, suc, ◌+◌, ◌-◌, ◌*◌, ◌/◌, ◌%◌, ◌^◌, ℤ, pos, negsuc, Bool, true, false, ◌&&◌, ◌||◌, Option,
  none, some, List, [], ◌∷◌, ◌++◌, Bytes, if◌then◌else◌, ltb, leb, ◌==◌,
}

-- A line of at most `n` bytes, with its newline, and what follows it.
unfoldable pub read_line : ℕ → Bytes → Bytes × Bytes
read_line zero bs = ([], bs)
read_line (suc n) [] = ([], [])
read_line (suc n) (c ∷ cs) =
    let (line, rest) = read_line n cs in if c == b'\n' then (c ∷ [], cs) else (c ∷ line, rest)

-- `fgets(line, size, stdin)`: NULL at the end of the input.
unfoldable pub fgets : ℕ → Bytes → Option (Bytes × Bytes)
unfolding read_line
fgets size [] = none
fgets size (c ∷ cs) = some (read_line (size - 1) (c ∷ cs))

-- `getchar()`, whose result the clients drop.
abbrev pub getchar : Bytes → Bytes
getchar [] = []
getchar (c ∷ cs) = cs

-- `isspace` and `isdigit`
abbrev pub is_space : ℕ → Bool
is_space c = (c == b' ') || (leb 9 c && leb c 13)

abbrev pub is_digit : ℕ → Bool
is_digit c = leb b'0' c && leb c b'9'

unfoldable pub skip_spaces : Bytes → Bytes
skip_spaces [] = []
skip_spaces (c ∷ cs) = if is_space c then skip_spaces cs else c ∷ cs

-- The value of the digits in front, continued from `acc`, whether there are any, and the rest.
unfoldable pub read_digits : ℕ → Bool → Bytes → ℕ × Bool × Bytes
read_digits acc seen [] = (acc, seen, [])
read_digits acc seen (c ∷ cs) =
    let more = read_digits (acc * 10 + (c - b'0')) true cs in
    if is_digit c then more else (acc, seen, c ∷ cs)

-- An optional sign: whether it is a minus, and the rest.
unfoldable pub read_sign : Bytes → Bool × Bytes
read_sign [] = (false, [])
read_sign (c ∷ cs) =
    if c == b'-' then (true, cs) else if c == b'+' then (false, cs) else (false, c ∷ cs)

-- The 64-bit number of that sign and magnitude, held to the range of `long`, as the bit pattern of
-- its low 32 bits.
unfoldable pub low_word : Bool → ℕ → ℕ
low_word true n = (2 ^ 64 - (if leb n (2 ^ 63) then n else 2 ^ 63)) % 2 ^ 32
low_word false n = (if ltb n (2 ^ 63) then n else 2 ^ 63 - 1) % 2 ^ 32

-- `(int)` of a `long`: the low 32 bits in two's complement.
unfoldable pub to_int : Bool → ℕ → ℤ
unfolding low_word
to_int minus n =
    let w = low_word minus n in if ltb w (2 ^ 31) then pos w else negsuc (2 ^ 32 - w - 1)

-- `scanf("%d", &value)`: the value if the result is 1, and the input that is left. A sign with no
-- digit behind it is gone.
unfoldable pub scanf_int : Bytes → Option ℤ × Bytes
unfolding skip_spaces read_digits read_sign to_int
scanf_int bs =
    let (minus, after) = read_sign (skip_spaces bs) in
    let (n, seen, rest) = read_digits 0 false after in
    if seen then (some (to_int minus n), rest) else (none, rest)

-- `atoi(text)`
unfoldable pub atoi : Bytes → ℤ
unfolding skip_spaces read_digits read_sign to_int
atoi text =
    let (minus, after) = read_sign (skip_spaces text) in
    let (n, seen, rest) = read_digits 0 false after in to_int minus n

-- `%d` of a number that is not negative; each round drops a digit, so the number is fuel enough.
unfoldable pub decimal_fuel : ℕ → ℕ → Bytes
decimal_fuel zero n = (b'0' + n % 10) ∷ []
decimal_fuel (suc fuel) n =
    let rest = decimal_fuel fuel (n / 10) in
    if ltb n 10 then (b'0' + n) ∷ [] else rest ++ ((b'0' + n % 10) ∷ [])

unfoldable pub decimal : ℕ → Bytes
unfolding decimal_fuel
decimal n = decimal_fuel n n

-- `%d`
unfoldable pub print_int : ℤ → Bytes
unfolding decimal
print_int (pos n) = decimal n
print_int (negsuc n) = b'-' ∷ decimal (suc n)
