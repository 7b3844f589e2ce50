-- ===== src/Clients/Utf8.antt =====
-- `encode_utf8`. A `char` is signed: the shifts work on the sign-extended `int`.
use Prim.Native.Nat.{bit_and, bit_or}
use shelter_server_hpc.Prelude.{
  ℕ, ◌+◌, ◌-◌, ◌/◌, ◌^◌, ◌*◌, [], ◌∷◌, ◌++◌, Bytes, if◌then◌else◌, ltb, ◌==◌, length,
}

-- The 32-bit pattern of a `char` that is promoted to `int`.
unfoldable pub promote : ℕ → ℕ
promote c = if ltb c 128 then c else c + (2 ^ 32 - 256)

-- `x >> k` on an `int`, arithmetic: the sign comes in from the left.
unfoldable pub shift_right : ℕ → ℕ → ℕ
shift_right x k = if ltb x (2 ^ 31) then x / 2 ^ k else x / 2 ^ k + (2 ^ 32 - 2 ^ 32 / 2 ^ k)

-- What one byte of the input adds to the output.
unfoldable pub encode_byte : ℕ → Bytes
unfolding promote shift_right
encode_byte c =
    let x = promote c in
    if bit_and x 0x80 == 0
    then c ∷ []
    else if bit_and x 0xE0 == 0xC0
    then bit_or 0xC0 (bit_and (shift_right x 6) 0x1F) ∷ bit_or 0x80 (bit_and x 0x3F) ∷ []
    else if bit_and x 0xF0 == 0xE0
    then bit_or 0xE0 (bit_and (shift_right x 12) 0x0F)
      ∷ bit_or 0x80 (bit_and x 0x3F)
      ∷ bit_or 0x80 (bit_and x 0x3F)
      ∷ []
    else []

unfoldable pub encode_utf8 : Bytes → Bytes
unfolding encode_byte
encode_utf8 [] = []
encode_utf8 (c ∷ cs) = encode_byte c ++ encode_utf8 cs

-- The size of the buffer that `malloc` is asked for.
abbrev pub buffer_size : Bytes → ℕ
buffer_size input = length input * 2 + 1
