-- ===== src/Clients/OsRelease.antt =====
-- `get_os_id` and `extract_value`: the value of the `ID=` line of /etc/os-release.
use shelter_server_hpc.Prelude.{
  ℕ, zero, suc, [], ◌∷◌, Option, none, some, Bytes, codes, starts_with, if◌then◌else◌, ◌==◌, length,
}
use shelter_server_hpc.Stdio.{fgets}

-- The bytes up to a delimiter, and those behind it.
unfoldable pub split_at : ℕ → Bytes → Bytes × Bytes
split_at d [] = ([], [])
split_at d (c ∷ cs) =
    let (token, rest) = split_at d cs in if c == d then ([], cs) else (c ∷ token, rest)

unfoldable pub skip_delimiters : ℕ → Bytes → Bytes
skip_delimiters d [] = []
skip_delimiters d (c ∷ cs) = if c == d then skip_delimiters d cs else c ∷ cs

-- `strtok` with one delimiter: the token and what the next call goes on with, or NULL at the end.
unfoldable pub strtok : ℕ → Bytes → Option (Bytes × Bytes)
unfolding split_at skip_delimiters
strtok d text = elim (skip_delimiters d text) [ [] ↦ none | c ∷ cs ↦ some (split_at d (c ∷ cs)) ]

-- The token that `strtok(token, "\n")` gives, for a token that may be NULL: then it goes on with the
-- text that is left, which is empty.
unfoldable pub extract_value : Bytes → Option Bytes
unfolding strtok
extract_value line = elim (strtok b'=' line) [
  | none ↦ none
  | some (_, rest) ↦ elim (strtok b'=' rest) [
    | none ↦ none
    | some (token, _) ↦ elim (strtok b'\n' token) [ none ↦ none | some (value, _) ↦ some value ]
  ]
]

abbrev pub line_size : ℕ
line_size = 1024

-- The loop over the lines. A line takes a byte at least, so the length of the file is fuel enough.
unfoldable pub get_os_id_loop : ℕ → Bytes → Option Bytes
get_os_id_loop zero file = none
get_os_id_loop (suc fuel) file = elim (fgets line_size file) [
  | none ↦ none
  | some (line, rest) ↦
      let more = get_os_id_loop fuel rest in
      if starts_with line (codes "ID=") then extract_value line else more
]

-- What `get_os_id` returns: NULL, or a pointer into its array `line`, whose lifetime is over when it
-- has returned, with the text that it held there. If the file cannot be opened, the program exits.
pub data OsId : Type 0 where
  no_os_id : OsId
  dangling : Bytes → OsId
  exits : OsId

unfoldable pub get_os_id : Option Bytes → OsId
unfolding get_os_id_loop
get_os_id none = exits
get_os_id (some file) = elim (get_os_id_loop (length file) file) [
  | none ↦ no_os_id
  | some value ↦ dangling value
]

-- What a read through the dangling pointer gives, for the text that was there. C gives it no meaning, so
-- that every result is possible, the text itself as well: none stands for a crash.
abbrev pub StaleRead : Type 0
StaleRead = Bytes → Option Bytes
