-- ===== src/Clients/Hostname.antt =====
-- What `get_os_id` finds in a file with an `ID=` line.
use shelter_server_hpc.Prelude.{
  ℕ, zero, suc, ◌+◌, ◌≤◌, ◌<◌, ◌≡◌, ◌≢◌, refl, ◌∙◌, ap, arith, true, false, List, [], ◌∷◌, ◌++◌,
  none, some, Bytes, codes, starts_with, ◌==◌, length, length-append, All, append_assoc, Bool-cases,
  inl, inr, sym, Option-cases,
}
use shelter_server_hpc.Stdio.{fgets, read_line}
use shelter_server_hpc.Stdio.Reading.{fgets-shrinks}
use shelter_server_hpc.Clients.OsRelease.{
  split_at, skip_delimiters, strtok, extract_value, line_size, get_os_id_loop, dangling, get_os_id,
}

-- A text with no byte `d`.
abbrev pub Without : ℕ → Bytes → Type 0
Without d = All (λ (c : ℕ). c == d ≡ false)

split_at-Without : (d : ℕ) (v r : Bytes) → Without d v → split_at d (v ++ (d ∷ r)) ≡ (v, r)
unfolding split_at
split_at-Without d [] r h = ground arith
split_at-Without d (c ∷ v) r h = rw (h.0, split_at-Without d v r h.1)

split_at_end : (d : ℕ) (v : Bytes) → Without d v → split_at d v ≡ (v, [])
unfolding split_at
split_at_end d [] h = refl
split_at_end d (c ∷ v) h = rw (h.0, split_at_end d v h.1)

-- A line of the file: no newline inside, and short enough for the buffer with its newline.
pub record IsLine (v : Bytes) : Type 0 where
  pub no_newline : Without b'\n' v
  pub short : length v + 1 < line_size

read_line-line :
    (n : ℕ) (v r : Bytes)
    → Without b'\n' v
    → length v < n
    → read_line n (v ++ (b'\n' ∷ r)) ≡ (v ++ (b'\n' ∷ []), r)
unfolding read_line
read_line-line zero v r h lt = absurd (omega arith)
read_line-line (suc n) [] r h lt = refl
read_line-line (suc n) (c ∷ v) r h lt = rw (h.0, read_line-line n v r h.1 (omega arith))

fgets-IsLine :
    (v r : Bytes) → IsLine v → fgets line_size (v ++ (b'\n' ∷ r)) ≡ some (v ++ (b'\n' ∷ []), r)
unfolding fgets
fgets-IsLine [] r h = ap some (read_line-line 1023 [] r h.no_newline (omega arith))
fgets-IsLine (c ∷ v) r h = ap some (read_line-line 1023 (c ∷ v) r h.no_newline (ground arith))

-- The value of an `ID=` line: not empty, with no `=` in it.
pub record IsValue (v : Bytes) : Type 0 where
  pub nonempty : v ≢ []
  pub no_equals : Without b'=' v
  pub no_newline : Without b'\n' v
  pub short : length v + 4 < line_size

abbrev pub id_line : Bytes → Bytes
id_line v = b'I' ∷ b'D' ∷ b'=' ∷ v

Without-newline : (v : Bytes) → Without b'=' v → Without b'=' (v ++ (b'\n' ∷ []))
Without-newline [] h = (refl, tt)
Without-newline (c ∷ v) h = (h.0, Without-newline v h.1)

strtok-cons :
    (d c : ℕ) (cs : Bytes) → c == d ≡ false → strtok d (c ∷ cs) ≡ some (split_at d (c ∷ cs))
unfolding strtok skip_delimiters
strtok-cons d c cs h = ground arith

strtok_value :
    (v : Bytes)
    → IsValue v
    → (strtok b'=' (v ++ (b'\n' ∷ [])) ≡ some (v ++ (b'\n' ∷ []), []))
      × (strtok b'\n' (v ++ (b'\n' ∷ [])) ≡ some (v, []))
strtok_value [] h = absurd (h.nonempty refl)
strtok_value (c ∷ v) h = (
  strtok-cons b'=' c (v ++ (b'\n' ∷ [])) h.no_equals.0
      ∙ ap some (split_at_end b'=' (c ∷ (v ++ (b'\n' ∷ []))) (Without-newline (c ∷ v) h.no_equals)),
  strtok-cons b'\n' c (v ++ (b'\n' ∷ [])) h.no_newline.0
      ∙ ap some (split_at-Without b'\n' (c ∷ v) [] h.no_newline),
)

extract_value-id_line : (v : Bytes) → IsValue v → extract_value (id_line v ++ (b'\n' ∷ [])) ≡ some v
unfolding extract_value
extract_value-id_line v h = let (whole, value) = strtok_value v h in rw (whole, value)

-- Lines, each with its newline.
abbrev pub unlines : List Bytes → Bytes
unlines [] = []
unlines (l ∷ ls) = l ++ (b'\n' ∷ unlines ls)

-- A line that the loop passes over.
abbrev pub IsOther : Bytes → Type 0
IsOther l = IsLine l × (starts_with (l ++ (b'\n' ∷ [])) (codes "ID=") ≡ false)

id_line-IsLine : (v : Bytes) → IsValue v → IsLine (id_line v)
id_line-IsLine v h = record {
  no_newline = (refl, (refl, (refl, h.no_newline)));
  short = omega (arith, h.short);
}

loop_hit :
    (f : ℕ) (file line rest : Bytes)
    → fgets line_size file ≡ some (line, rest)
    → starts_with line (codes "ID=") ≡ true
    → get_os_id_loop (suc f) file ≡ extract_value line
unfolding get_os_id_loop
loop_hit f file line rest e y = rw (e, get_os_id_loop, y)

loop_miss :
    (f : ℕ) (file line rest : Bytes)
    → fgets line_size file ≡ some (line, rest)
    → starts_with line (codes "ID=") ≡ false
    → get_os_id_loop (suc f) file ≡ get_os_id_loop f rest
unfolding get_os_id_loop
loop_miss f file line rest e n = rw (e, get_os_id_loop, n)

id_line-starts_with : (v : Bytes) → starts_with (id_line v ++ (b'\n' ∷ [])) (codes "ID=") ≡ true
unfolding starts_with
id_line-starts_with v = refl

get_os_id_loop-id_line :
    (ls : List Bytes) (v rest : Bytes) (f : ℕ)
    → All IsOther ls
    → IsValue v
    → length ls < f
    → get_os_id_loop f (unlines ls ++ (id_line v ++ (b'\n' ∷ rest))) ≡ some v
get_os_id_loop-id_line ls v rest zero o h lt = absurd (omega arith)
get_os_id_loop-id_line [] v rest (suc f) o h lt =
    loop_hit f _ _ rest (fgets-IsLine (id_line v) rest (id_line-IsLine v h)) (id_line-starts_with v)
    ∙ extract_value-id_line v h
get_os_id_loop-id_line (l ∷ ls) v rest (suc f) o h lt = rw (append_assoc l) (
    loop_miss f _ _ _ (fgets-IsLine l _ o.0.0) o.0.1
    ∙ get_os_id_loop-id_line ls v rest f o.1 h (omega arith))

length-unlines-ge : (ls : List Bytes) → length ls ≤ length (unlines ls)
length-unlines-ge [] = omega arith
length-unlines-ge (l ∷ ls) =
    omega (arith, length-append l (b'\n' ∷ unlines ls), length-unlines-ge ls)

-- For a file whose first line that begins with `ID=` is `ID=v`, where v is not empty and has no `=`, and
-- the lines up to it fit the buffer, `get_os_id` finds v and returns a pointer to it that dangles, as v
-- stands in the array `line` of the function.
pub get_os_id-id_line :
    (ls : List Bytes) (v rest : Bytes)
    → All IsOther ls
    → IsValue v
    → get_os_id (some (unlines ls ++ (id_line v ++ (b'\n' ∷ rest)))) ≡ dangling v
unfolding get_os_id
get_os_id-id_line ls v rest o h =
    let file : Bytes = unlines ls ++ (id_line v ++ (b'\n' ∷ rest)) in
    let enough : length ls < length file = omega (
      arith,
      length-append (unlines ls) (id_line v ++ (b'\n' ∷ rest)),
      length-append (id_line v) (b'\n' ∷ rest),
      length-unlines-ge ls,
    ) in
    rw (get_os_id_loop-id_line ls v rest (length file) o h enough, get_os_id) refl

get_os_id_loop-nil : (f : ℕ) → get_os_id_loop f [] ≡ none
unfolding get_os_id_loop fgets
get_os_id_loop-nil zero = refl
get_os_id_loop-nil (suc f) = refl

-- Fuel beyond the length of the file changes nothing, so the loop has always come to its end.
pub get_os_id_loop-fuel :
    (f g : ℕ) (file : Bytes)
    → length file ≤ f
    → length file ≤ g
    → get_os_id_loop f file ≡ get_os_id_loop g file
unfolding get_os_id_loop
get_os_id_loop-fuel zero zero file h k = refl
get_os_id_loop-fuel zero (suc g) [] h k = sym (get_os_id_loop-nil (suc g))
get_os_id_loop-fuel zero (suc g) (c ∷ cs) h k = absurd (omega arith)
get_os_id_loop-fuel (suc f) zero [] h k = get_os_id_loop-nil (suc f)
get_os_id_loop-fuel (suc f) zero (c ∷ cs) h k = absurd (omega arith)
get_os_id_loop-fuel (suc f) (suc g) file h k = elim (Option-cases (fgets line_size file)) [
  | inl e ↦ rw (e, get_os_id_loop)
  | inr ((line, rest), e) ↦ elim (Bool-cases (starts_with line (codes "ID="))) [
    | inl y ↦ loop_hit f file line rest e y ∙ sym (loop_hit g file line rest e y)
    | inr n ↦
        let less = fgets-shrinks 1022 file line rest e in
        loop_miss f file line rest e n
        ∙ get_os_id_loop-fuel f g rest (omega arith) (omega arith)
        ∙ sym (loop_miss g file line rest e n)
  ]
]
