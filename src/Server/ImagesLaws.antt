-- ===== src/Server/ImagesLaws.antt =====
-- What a client gets that selects an image.
use shelter_server_hpc.Prelude.{
  ◌≡◌, refl, ◌∙◌, arith, ℕ, ◌≤◌, ℤ, pos, minus_one, int_max, Bool-cases, if◌then◌else◌, false,
  Option, none, some, List, [], ◌∷◌, ◌++◌, Bytes, codes, length, All, ◌==◌, Option-cases, inl, inr,
  append-nil, append_assoc,
}
use shelter_server_hpc.Stdio.Reading.{to_int-pos}
use shelter_server_hpc.Nlohmann.{message}
use shelter_server_hpc.Exec.{ok, modify}
use shelter_server_hpc.Exec.Steps.{then_ok}
use shelter_server_hpc.Wrapper.Entries.{Entries, find_key, insert_key}
use shelter_server_hpc.Server.State.{Libraries, State, Sent, to_tcp, send_bytes}
use shelter_server_hpc.Server.Images.{
  zip_path, before_last_dot, without_extension, get_file_size, send_file_to_client, deliver,
  file_exists, compress_img, make_zip, image_path, convertion_out_path, canny_result, files_after,
  send_image,
}
use shelter_server_hpc.Server.Broadcast.{send_step}

abbrev pub NoDot : Bytes → Type 0
NoDot text = All (λ (c : ℕ). (c == b'.') ≡ false) text

no_last_dot : (text : Bytes) → NoDot text → before_last_dot text ≡ none
unfolding before_last_dot
no_last_dot [] h = refl
no_last_dot (c ∷ cs) h = ground (arith, no_last_dot cs h.1)

before_last_dot-base :
    (base ext : Bytes) → NoDot ext → before_last_dot (base ++ (b'.' ∷ ext)) ≡ some base
unfolding before_last_dot
before_last_dot-base [] ext h = ground (arith, no_last_dot ext h)
before_last_dot-base (c ∷ base) ext h = ground (arith, before_last_dot-base base ext h)

without_extension-base :
    (base ext : Bytes) → NoDot ext → without_extension (base ++ (b'.' ∷ ext)) ≡ base
unfolding without_extension
without_extension-base base ext h = ground (arith, before_last_dot-base base ext h)

-- The archive of an image, for the name without its extension.
abbrev pub zip_of : Bytes → Bytes
zip_of base = zip_path ++ (base ++ codes ".zip")

-- The size that is announced, and the bytes that follow.
abbrev pub announced : Option Bytes → ℤ
announced none = minus_one
announced (some contents) = pos (length contents)

abbrev pub file_sent : ℤ → Option Bytes → List Sent
file_sent fd none = []
file_sent fd (some contents) = to_tcp fd contents ∷ []

-- The size of a file is an `int`.
abbrev pub SizeFits : Option Bytes → Type 0
SizeFits none = Unit
SizeFits (some contents) = length contents ≤ int_max

get_file_size_lem :
    (path : Bytes) (files : Entries)
    → SizeFits (find_key path files)
    → get_file_size path files ≡ announced (find_key path files)
unfolding get_file_size
get_file_size_lem path files h = elim (Option-cases (find_key path files)) [
  | inl e ↦ ground (arith, e)
  | inr (contents, e) ↦ ground (arith, e, to_int-pos (length contents))
]

module _ (L : Libraries) where
  open L use {database, json}

  send_file_lem :
      (fd : ℤ) (path : Bytes) (s : State database.Db)
      → send_file_to_client L fd path s
        ≡ (ok tt, record s { sent = s.sent ++ file_sent fd (find_key path s.files) })
  unfolding send_file_to_client send_bytes modify
  send_file_lem fd path s = elim (Option-cases (find_key path s.files)) [
    | inl e ↦ simp (e, send_file_to_client, append-nil) refl
    | inr (contents, e) ↦ simp (e, send_file_to_client) refl
  ]

  deliver_lem :
      (fd : ℤ) (zip t₁ t₂ : Bytes) (files : Entries) (s : State database.Db)
      → SizeFits (find_key zip files)
      → json.dump (
          json.set
            (message json "file_size")
            (codes "size")
            (json.number (announced (find_key zip files))))
        ≡ some t₁
      → json.dump (message json "zip_ready") ≡ some t₂
      → deliver L fd zip files s ≡ (
        ok tt,
        record s {
          files = files;
          sent = s.sent ++ (to_tcp fd t₁ ∷ to_tcp fd t₂ ∷ file_sent fd (find_key zip files));
        },
      )
  unfolding deliver modify
  deliver_lem fd zip t₁ t₂ files s fits d₁ d₂ =
      let s₁ : State database.Db = record s { files = files } in
      let s₂ : State database.Db = record s₁ { sent = s.sent ++ (to_tcp fd t₁ ∷ []) } in
      let s₃ : State database.Db = record s₂ { sent = s₂.sent ++ (to_tcp fd t₂ ∷ []) } in
      then_ok _ _ s s₁ tt refl
      ∙ then_ok _ _ s₁ s₂ tt (send_step L fd _ t₁ s₁ (rw (get_file_size_lem zip files fits) d₁))
      ∙ then_ok _ _ s₂ s₃ tt (send_step L fd _ t₂ s₂ d₂)
      ∙ send_file_lem fd zip s₃
      ∙ simp append_assoc refl

  -- The files with the archive: those that are there, if it is one of them; otherwise those that the
  -- edge detection leaves, and the compressed edges as the archive, if it gave edges and the archive
  -- can be opened.
  abbrev pub with_archive : Bytes → Bytes → Entries → Entries
  with_archive name archive files = elim (find_key archive files) [
    | some old ↦ files
    | none ↦
        let converted =
          L.canny (codes "../img/inputImg/" ++ name) (codes "../img/outputImg/") files in
        elim (find_key (codes "../img/outputImg/canny.png") converted) [
          | none ↦ converted
          | some edges ↦
              if L.gzip.gzopen archive
              then insert_key archive (L.gzip.compressed edges) converted
              else converted
        ]
  ]

  compress_img_lem :
      (image archive : Bytes) (files : Entries)
      → (compress_img L.gzip image archive files).1 ≡ elim (find_key image files) [
        | none ↦ files
        | some edges ↦
            if L.gzip.gzopen archive
            then insert_key archive (L.gzip.compressed edges) files
            else files
      ]
  unfolding compress_img
  compress_img_lem image archive files = elim (Option-cases (find_key image files)) [
    | inl e ↦ simp (e, compress_img) refl
    | inr (edges, e) ↦ elim (Bool-cases (L.gzip.gzopen archive)) [
      | inr n ↦ simp (e, compress_img, n) refl
      | inl y ↦ elim (Bool-cases (L.gzip.takes_all edges)) [
        | inl all ↦ simp (e, compress_img, y, all) refl
        | inr part ↦ simp (e, compress_img, y, part) refl
      ]
    ]
  ]

  files_after-with_archive :
      (name archive : Bytes) (files : Entries)
      → files_after L name archive files ≡ with_archive name archive files
  unfolding file_exists make_zip
  files_after-with_archive name archive files = elim (Option-cases (find_key archive files)) [
    | inl e ↦
        let converted = L.canny (image_path ++ name) convertion_out_path files in
        rw (e, file_exists, make_zip, with_archive)
          (compress_img_lem (convertion_out_path ++ canny_result) archive converted)
    | inr (old, e) ↦ rw (e, file_exists, with_archive) refl
  ]

  -- If the two messages can be dumped and the size fits an `int`, a client that selects an image
  -- `base.ext`, where ext has no dot, gets three messages: the size of the archive of that base, or -1
  -- if there is none, the announcement, and then the archive as it is, or nothing. If the archive is
  -- there before, no file changes; otherwise it is made of the edges of the image, if the detection
  -- gives them and the archive can be opened.
  pub send_image_lem :
      (fd : ℤ) (base ext t₁ t₂ : Bytes) (s : State database.Db)
      → NoDot ext
      → let files = with_archive (base ++ (b'.' ∷ ext)) (zip_of base) s.files in
        let archive = find_key (zip_of base) files in
        SizeFits archive
        → json.dump
            (json.set (message json "file_size") (codes "size") (json.number (announced archive)))
          ≡ some t₁
        → json.dump (message json "zip_ready") ≡ some t₂
        → send_image L fd (base ++ (b'.' ∷ ext)) s ≡ (
          ok tt,
          record s {
            files = files;
            sent = s.sent ++ (to_tcp fd t₁ ∷ to_tcp fd t₂ ∷ file_sent fd archive);
          },
        )
  unfolding send_image
  send_image_lem fd base ext t₁ t₂ s h fits d₁ d₂ =
      rw
        (
          send_image,
          without_extension-base base ext h,
          files_after-with_archive (base ++ (b'.' ∷ ext)) (zip_of base) s.files,
        )
        (deliver_lem fd (zip_of base) t₁ t₂
          (with_archive (base ++ (b'.' ∷ ext)) (zip_of base) s.files) s fits d₁ d₂)
