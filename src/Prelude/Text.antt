-- ===== src/Prelude/Text.antt =====
-- C strings as lists of bytes (without the terminating NUL), and the functions of <string.h> that
-- the program calls.
use Prim.Native.Nat.{ℕ}
use Prim.Native.Char.{code}
use Prim.Native.String.{String}
use mathlib.Core.Path.{◌≡◌, refl}
use mathlib.Core.Logic.{◌↔◌}
use mathlib.Core.Bool.{Bool, true, false, ◌&&◌, ◌||◌}
use mathlib.Core.List.{List, [], ◌∷◌}
use native.Mathlib.Omega.{arith}
use shelter_server_hpc.Prelude.Tests.{◌==◌, ==_iff}

abbrev pub Bytes : Type 0
Bytes = List ℕ

-- The bytes of an ASCII literal.
abbrev pub codes : String → Bytes
codes String.[] = []
codes (String.◌∷◌ c s) = code c ∷ codes s

-- `strcmp(a, b) == 0`
unfoldable pub equal : Bytes → Bytes → Bool
equal [] [] = true
equal (x ∷ xs) (y ∷ ys) = (x == y) && equal xs ys
equal _ _ = false

-- Whether `text` begins with `prefix`: `strncmp(text, prefix, strlen(prefix)) == 0`
unfoldable pub starts_with : Bytes → Bytes → Bool
starts_with text [] = true
starts_with [] (p ∷ ps) = false
starts_with (t ∷ ts) (p ∷ ps) = (t == p) && starts_with ts ps

-- `strstr(text, word) != NULL`
unfoldable pub contains : Bytes → Bytes → Bool
unfolding starts_with
contains [] word = starts_with [] word
contains (t ∷ ts) word = starts_with (t ∷ ts) word || contains ts word

pub equal_iff : (a b : Bytes) → (equal a b ≡ true) ↔ (a ≡ b)
unfolding equal
equal_iff [] [] = ground arith
equal_iff [] (y ∷ ys) = ground arith
equal_iff (x ∷ xs) [] = ground arith
equal_iff (x ∷ xs) (y ∷ ys) = ground (arith, equal_iff xs ys, ==_iff x y)

pub equal_refl : (a : Bytes) → equal a a ≡ true
equal_refl a = (equal_iff a a).1 refl
