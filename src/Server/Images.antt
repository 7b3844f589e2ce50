-- ===== src/Server/Images.antt =====
-- The images of `checkTcpClientsMsgs`: `findAvailableImages`, `fileExists`, `getFileSize` and
-- `compressImg` of src/server/utils.cpp, and `sendFileToClient`. Files are kept by their path; of the
-- directories only the listing of the images is there.
use shelter_server_hpc.Prelude.{
  ℤ, minus_one, Bool, true, false, Option, none, some, List, [], ◌∷◌, ◌++◌, Bytes, codes, length,
  ◌==◌, if◌then◌else◌,
}
use shelter_server_hpc.Stdio.{to_int}
use shelter_server_hpc.Nlohmann.{message}
use shelter_server_hpc.Exec.{ok, modify, ◌>>◌}
use shelter_server_hpc.Wrapper.Entries.{Entries, find_key, insert_key}
use shelter_server_hpc.Server.State.{Gzip, Libraries, send_bytes, to_tcp}
use shelter_server_hpc.Server.Messages.{Action, send_json_to_tcp_client}

abbrev pub image_path : Bytes
image_path = codes "../img/inputImg/"

abbrev pub zip_path : Bytes
zip_path = codes "../img/zipFiles/"

abbrev pub convertion_out_path : Bytes
convertion_out_path = codes "../img/outputImg/"

abbrev pub canny_result : Bytes
canny_result = codes "canny.png"

-- What the iteration over the directory gives, up to its end or to an exception: a name, and whether
-- it is that of a regular file.
unfoldable pub find_available_images : List (Bool × Bytes) → List Bytes
find_available_images [] = []
find_available_images ((is_regular_file, name) ∷ entries) =
    let rest = find_available_images entries in if is_regular_file then name ∷ rest else rest

unfoldable pub nonempty_names : List Bytes → List Bytes
nonempty_names [] = []
nonempty_names ([] ∷ names) = nonempty_names names
nonempty_names ((c ∷ cs) ∷ names) = (c ∷ cs) ∷ nonempty_names names

-- The part before the last dot, if there is one.
unfoldable pub before_last_dot : Bytes → Option Bytes
before_last_dot [] = none
before_last_dot (c ∷ cs) = elim (before_last_dot cs) [
  | some base ↦ some (c ∷ base)
  | none ↦ if c == b'.' then some [] else none
]

-- Without a dot the name stays empty.
unfoldable pub without_extension : Bytes → Bytes
unfolding before_last_dot
without_extension name = elim (before_last_dot name) [ none ↦ [] | some base ↦ base ]

unfoldable pub file_exists : Bytes → Entries → Bool
unfolding find_key
file_exists path files = elim (find_key path files) [ none ↦ false | some contents ↦ true ]

-- `st_size`, a 64-bit number, as an `int`; -1 if there is no such file.
unfoldable pub get_file_size : Bytes → Entries → ℤ
unfolding find_key to_int
get_file_size path files = elim (find_key path files) [
  | none ↦ minus_one
  | some contents ↦ to_int false (length contents)
]

-- The result, which the caller drops, and the files.
unfoldable pub compress_img : Gzip → Bytes → Bytes → Entries → Bool × Entries
unfolding find_key insert_key
compress_img gzip image_path zip_path files = elim (find_key image_path files) [
  | none ↦ (false, files)
  | some contents ↦
      if gzip.gzopen zip_path
      then (let files' = insert_key zip_path (gzip.compressed contents) files in
          if gzip.takes_all contents then (gzip.gzclose contents, files') else (false, files'))
      else (false, files)
]

module _ (L : Libraries) where
  open L use {json, gzip, canny, database}
  open json use {Json, null, text, number, array, set}

  unfoldable pub send_file_to_client : ℤ → Bytes → Action L (Unit {0})
  unfolding find_key
  send_file_to_client client_fd path s = elim (find_key path s.files) [
    | none ↦ (ok tt, s)
    | some contents ↦ send_bytes (to_tcp client_fd contents) s
  ]

  -- `push_back` on a value that begins as null: without a name it stays null.
  unfoldable pub image_list : List Bytes → Json
  image_list [] = null
  image_list (name ∷ names) = array (texts (name ∷ names))
    where
      texts : List Bytes → List Json
      texts [] = []
      texts (t ∷ ts) = text t ∷ texts ts

  -- `request_available_images`
  unfoldable pub send_image_list : ℤ → List (Bool × Bytes) → Action L (Unit {0})
  unfolding find_available_images nonempty_names image_list
  send_image_list client_fd directory =
      let names = nonempty_names (find_available_images directory) in
      let response = set (message json "image_list") (codes "images") (image_list names) in
      send_json_to_tcp_client L client_fd response

  -- The edges of the selected image, compressed.
  unfoldable pub make_zip : Bytes → Bytes → Entries → Entries
  unfolding compress_img
  make_zip selected zip files =
      let converted = canny (image_path ++ selected) convertion_out_path files in
      (compress_img gzip (convertion_out_path ++ canny_result) zip converted).1

  -- The size of the archive, the announcement, and the archive.
  unfoldable pub deliver : ℤ → Bytes → Entries → Action L (Unit {0})
  unfolding get_file_size send_file_to_client
  deliver client_fd zip files = do
    modify (λ s. record s { files = files })
    send_json_to_tcp_client L client_fd
        (set (message json "file_size") (codes "size") (number (get_file_size zip files)))
    send_json_to_tcp_client L client_fd (message json "zip_ready")
    send_file_to_client client_fd zip

  -- The archive of the name without its extension.
  abbrev pub zip_name : Bytes → Bytes
  zip_name selected = zip_path ++ (without_extension selected ++ codes ".zip")

  -- The files once the archive is there or has been made.
  abbrev pub files_after : Bytes → Bytes → Entries → Entries
  files_after selected zip files =
      if file_exists zip files then files else make_zip selected zip files

  -- `image_selection` with the name of the image.
  unfoldable pub send_image : ℤ → Bytes → Action L (Unit {0})
  unfolding without_extension file_exists make_zip deliver
  send_image client_fd selected s =
      deliver client_fd (zip_name selected) (files_after selected (zip_name selected) s.files) s
