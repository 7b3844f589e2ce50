-- ===== src/Stdio/Reading.antt =====
-- Facts about the readers: nothing is added to the input, numbers are `int`s, and a printed number
-- is read back.
use shelter_server_hpc.Prelude.{
  ℕ, zero, suc, ◌+◌, ◌-◌, ◌*◌, ◌/◌, ◌%◌, ◌^◌, ◌≤◌, ◌<◌, ◌≡◌, refl, arith, ℤ, pos, negsuc, IsInt,
  Bool, true, false, some, [], ◌∷◌, ◌++◌, Bytes, ltb, ltb→lt, length, Bool-cases, inl, inr,
  append_assoc, ◌∙◌,
}
use shelter_server_hpc.Stdio.{
  read_line, fgets, getchar, is_digit, skip_spaces, read_digits, read_sign, low_word, to_int,
  scanf_int, decimal_fuel, decimal, print_int,
}

read_line-shrinks : (n : ℕ) (bs : Bytes) → length (read_line n bs).1 ≤ length bs
unfolding read_line
read_line-shrinks zero bs = omega arith
read_line-shrinks (suc n) [] = omega arith
read_line-shrinks (suc n) (c ∷ cs) = ground (arith, read_line-shrinks n cs)

-- A successful `fgets` with room for a byte takes one at least.
pub fgets-shrinks :
    (n : ℕ) (bs line rest : Bytes)
    → fgets (suc (suc n)) bs ≡ some (line, rest)
    → length rest < length bs
unfolding fgets read_line
fgets-shrinks n [] line rest e = ground arith
fgets-shrinks n (c ∷ cs) line rest e = ground (arith, read_line-shrinks n cs)

pub getchar-shrinks : (bs : Bytes) → length (getchar bs) ≤ length bs
getchar-shrinks [] = omega arith
getchar-shrinks (c ∷ cs) = omega arith

skip_spaces-shrinks : (bs : Bytes) → length (skip_spaces bs) ≤ length bs
unfolding skip_spaces
skip_spaces-shrinks [] = omega arith
skip_spaces-shrinks (c ∷ cs) = ground (arith, skip_spaces-shrinks cs)

read_digits-shrinks :
    (acc : ℕ) (seen : Bool) (bs : Bytes) → length (read_digits acc seen bs).2 ≤ length bs
unfolding read_digits
read_digits-shrinks acc seen [] = omega arith
read_digits-shrinks acc seen (c ∷ cs) =
    ground (arith, read_digits-shrinks (acc * 10 + (c - b'0')) true cs)

read_sign-shrinks : (bs : Bytes) → length (read_sign bs).1 ≤ length bs
unfolding read_sign
read_sign-shrinks [] = omega arith
read_sign-shrinks (c ∷ cs) = ground arith

pub scanf_int-shrinks : (bs : Bytes) → length (scanf_int bs).1 ≤ length bs
unfolding scanf_int
scanf_int-shrinks bs = ground (
  arith,
  skip_spaces-shrinks bs,
  read_sign-shrinks (skip_spaces bs),
  read_digits-shrinks 0 false (read_sign (skip_spaces bs)).1,
)

low_word-lt : (minus : Bool) (n : ℕ) → low_word minus n < 2 ^ 32
unfolding low_word
low_word-lt true n = omega arith
low_word-lt false n = omega arith

-- Every number that is read is an `int`.
pub to_int-IsInt : (minus : Bool) (n : ℕ) → IsInt (to_int minus n)
unfolding to_int
to_int-IsInt minus n = ground (arith, low_word-lt minus n)

pub scanf_int-IsInt : (bs rest : Bytes) (v : ℤ) → scanf_int bs ≡ (some v, rest) → IsInt v
unfolding scanf_int
scanf_int-IsInt bs rest v e =
    let (minus, after) = read_sign (skip_spaces bs) in
    ground (arith, to_int-IsInt minus (read_digits 0 false after).0)

-- A digit of a decimal number is read as that digit.
read_digits-digit :
    (acc d n : ℕ) (seen : Bool) (r : Bytes)
    → d < 10
    → acc * 10 + d ≡ n
    → read_digits acc seen ((b'0' + d) ∷ r) ≡ read_digits n true r
unfolding read_digits
read_digits-digit acc d n seen r h e =
    let value : acc * 10 + (b'0' + d - b'0') ≡ n = omega arith in
    let digit : is_digit (b'0' + d) ≡ true = ground arith in rw (digit, value)

pub read_digits-decimal_fuel :
    (f n : ℕ) (seen : Bool) (r : Bytes)
    → n ≤ f
    → read_digits 0 seen (decimal_fuel f n ++ r) ≡ read_digits n true r
unfolding decimal_fuel
read_digits-decimal_fuel zero n seen r h =
    read_digits-digit 0 (n % 10) n seen r (omega arith) (omega arith)
read_digits-decimal_fuel (suc f) n seen r h = elim (Bool-cases (ltb n 10)) [
  | inl one ↦ rw one (read_digits-digit 0 n n seen r (ltb→lt n 10 one) (omega arith))
  | inr more ↦ rw more (
      rw append_assoc (
        read_digits-decimal_fuel f (n / 10) seen ((b'0' + n % 10) ∷ r) (ground arith)
        ∙ read_digits-digit (n / 10) (n % 10) n true r (omega arith) (omega arith)))
]

-- A decimal number begins with a digit.
pub decimal_fuel-head :
    (f n : ℕ) → (d : ℕ) × (ds : Bytes) × (decimal_fuel f n ≡ d ∷ ds) × (b'0' ≤ d) × (d ≤ b'9')
unfolding decimal_fuel
decimal_fuel-head zero n = (b'0' + n % 10, [], refl, omega arith, omega arith)
decimal_fuel-head (suc f) n = elim (Bool-cases (ltb n 10)) [
  | inl one ↦ (b'0' + n, [], rw one, omega arith, ground arith)
  | inr more ↦
      let (d, ds, e, low, high) = decimal_fuel-head f (n / 10) in
      (d, ds ++ ((b'0' + n % 10) ∷ []), rw (more, e), low, high)
]

read_digits-stop :
    (n c : ℕ) (rest : Bytes)
    → is_digit c ≡ false
    → read_digits n true (c ∷ rest) ≡ (n, true, c ∷ rest)
unfolding read_digits
read_digits-stop n c rest stop = rw stop

pub skip_spaces-decimal :
    (n : ℕ) (r : Bytes)
    → (skip_spaces (decimal n ++ r) ≡ decimal n ++ r)
      × (read_sign (decimal n ++ r) ≡ (false, decimal n ++ r))
unfolding decimal skip_spaces read_sign
skip_spaces-decimal n r =
    let (d, ds, e, low, high) = decimal_fuel-head n n in rw e (ground arith, ground arith)

read_digits-decimal :
    (n c : ℕ) (rest : Bytes)
    → is_digit c ≡ false
    → read_digits 0 false (decimal n ++ (c ∷ rest)) ≡ (n, true, c ∷ rest)
unfolding decimal
read_digits-decimal n c rest stop =
    read_digits-decimal_fuel n n false (c ∷ rest) (omega arith) ∙ read_digits-stop n c rest stop

pub to_int-pos : (n : ℕ) → n ≤ 2147483647 → to_int false n ≡ pos n
unfolding to_int low_word
to_int-pos n h = ground arith

to_int-negsuc : (n : ℕ) → n ≤ 2147483647 → to_int true (suc n) ≡ negsuc n
unfolding to_int low_word
to_int-negsuc n h = ground arith

scanf_int-decimal :
    (m c : ℕ) (rest : Bytes)
    → is_digit c ≡ false
    → scanf_int (decimal m ++ (c ∷ rest)) ≡ (some (to_int false m), c ∷ rest)
unfolding scanf_int
scanf_int-decimal m c rest stop =
    let (spaces, sign) = skip_spaces-decimal m (c ∷ rest) in
    rw (spaces, sign, read_digits-decimal m c rest stop)

scanf_int_minus :
    (m c : ℕ) (rest : Bytes)
    → is_digit c ≡ false
    → scanf_int (b'-' ∷ (decimal m ++ (c ∷ rest))) ≡ (some (to_int true m), c ∷ rest)
unfolding scanf_int
scanf_int_minus m c rest stop = rw (read_digits-decimal m c rest stop)

-- A printed `int` is read back, if no digit follows.
pub scanf_int-print_int :
    (z : ℤ) (c : ℕ) (rest : Bytes)
    → IsInt z
    → is_digit c ≡ false
    → scanf_int (print_int z ++ (c ∷ rest)) ≡ (some z, c ∷ rest)
unfolding print_int
scanf_int-print_int (pos n) c rest v stop = scanf_int-decimal n c rest stop ∙ rw (to_int-pos n v.0)
scanf_int-print_int (negsuc n) c rest v stop =
    scanf_int_minus (suc n) c rest stop ∙ rw (to_int-negsuc n (omega arith))
