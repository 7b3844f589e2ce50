-- ===== src/Clients/Utf8Laws.antt =====
-- How long the output of `encode_utf8` is, and when it fits the buffer.
use shelter_server_hpc.Prelude.{
  ℕ, zero, suc, ◌+◌, ◌*◌, ◌≤◌, ◌<◌, ◌≡◌, ◌↔◌, refl, arith, Bool, true, ◌&&◌, [], ◌∷◌, Bytes,
  if◌then◌else◌, ltb, ◌==◌, ==_iff, length, length-append, All, equal, equal_iff,
}
use shelter_server_hpc.Clients.Utf8.{encode_byte, encode_utf8, buffer_size}

all_bytes : ℕ → (ℕ → Bool) → Bool
all_bytes zero p = true
all_bytes (suc n) p = p n && all_bytes n p

all_bytes_lem : (n : ℕ) (p : ℕ → Bool) (x : ℕ) → all_bytes n p ≡ true → x < n → p x ≡ true
unfolding all_bytes
all_bytes_lem zero p x h lt = absurd (omega arith)
all_bytes_lem (suc n) p x h lt = ground (arith, all_bytes_lem n p x)

-- The number of bytes that a byte adds: ASCII one, a two-byte lead two, a three-byte lead three, and
-- any other byte none.
abbrev pub width : ℕ → ℕ
width c =
    if ltb c 0x80
    then 1
    else if ltb c 0xC0
    then 0
    else if ltb c 0xE0
    then 2
    else if ltb c 0xF0
    then 3
    else 0

abbrev pub total_width : Bytes → ℕ
total_width [] = 0
total_width (c ∷ cs) = width c + total_width cs

abbrev pub AreBytes : Bytes → Type 0
AreBytes = All (λ (c : ℕ). c < 256)

width_table : all_bytes 256 (λ c. length (encode_byte c) == width c) ≡ true
unfolding all_bytes encode_byte
width_table = refl

length-encode_byte : (c : ℕ) → c < 256 → length (encode_byte c) ≡ width c
length-encode_byte c h =
    (==_iff _ (width c)).0
      (all_bytes_lem 256 (λ c. length (encode_byte c) == width c) c width_table h)

-- The output has as many bytes as the bytes of the input add.
length-encode_utf8 : (bs : Bytes) → AreBytes bs → length (encode_utf8 bs) ≡ total_width bs
unfolding encode_utf8
length-encode_utf8 [] h = refl
length-encode_utf8 (c ∷ cs) h = omega (
  arith,
  length-append (encode_byte c) (encode_utf8 cs),
  length-encode_byte c h.0,
  length-encode_utf8 cs h.1,
)

ascii_table : all_bytes 128 (λ c. equal (encode_byte c) (c ∷ [])) ≡ true
unfolding all_bytes encode_byte equal
ascii_table = refl

encode_byte_ascii : (c : ℕ) → c < 128 → encode_byte c ≡ c ∷ []
encode_byte_ascii c h =
    (equal_iff _ _).0 (all_bytes_lem 128 (λ c. equal (encode_byte c) (c ∷ [])) c ascii_table h)

-- ASCII text is encoded as itself.
pub encode_utf8_ascii : (bs : Bytes) → All (λ (c : ℕ). c < 128) bs → encode_utf8 bs ≡ bs
unfolding encode_utf8
encode_utf8_ascii [] h = refl
encode_utf8_ascii (c ∷ cs) h = rw (encode_byte_ascii c h.0, encode_utf8_ascii cs h.1)

-- The output for a list of bytes and its NUL fit the buffer exactly if what the bytes add by
-- themselves, 1, 2, 3 or 0 bytes, comes to at most twice their number.
pub encode_utf8_fits :
    (bs : Bytes)
    → AreBytes bs
    → (length (encode_utf8 bs) + 1 ≤ buffer_size bs) ↔ (total_width bs ≤ length bs * 2)
encode_utf8_fits bs h =
    (λ f. omega (arith, length-encode_utf8 bs h), λ f. omega (arith, length-encode_utf8 bs h))
