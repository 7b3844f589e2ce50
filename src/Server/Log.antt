-- ===== src/Server/Log.antt =====
-- `logEvent` and `createDirectoriesIfNotExists` of src/server/utils.cpp, on a disk
-- with directories and files.
use shelter_server_hpc.Prelude.{
  Bool, true, false, Option, none, some, List, [], ◌∷◌, ◌++◌, Bytes, codes, equal, if◌then◌else◌,
}
use shelter_server_hpc.Wrapper.Entries.{Entries, find_key, insert_key}

pub record Disk : Type 0 where
  pub directories : List Bytes
  pub files : Entries

-- Whether `mkdir`, `create_directories` and `open` succeed at a path.
pub record Permissions : Type 0 where
  pub may_create : Bytes → Bool
  pub may_open : Bytes → Bool

unfoldable pub has_directory : Bytes → List Bytes → Bool
unfolding equal
has_directory path [] = false
has_directory path (d ∷ ds) = if equal d path then true else has_directory path ds

-- The directory is made if it is missing; an error is printed.
unfoldable pub create_directories_if_not_exists : Permissions → Bytes → Disk → Disk
unfolding has_directory
create_directories_if_not_exists p path disk =
    if has_directory path disk.directories
    then disk
    else if p.may_create path
    then record disk { directories = path ∷ disk.directories }
    else disk

-- What a file has, if it is there.
unfoldable pub contents_of : Bytes → Entries → Bytes
unfolding find_key
contents_of path files = elim (find_key path files) [ none ↦ [] | some text ↦ text ]

abbrev pub log_directory : Bytes → Bytes
log_directory home = home ++ codes "/.refuge/"

abbrev pub log_path : Bytes → Bytes
log_path home = log_directory home ++ codes "refuge_lab2.log"

abbrev pub log_line : Bytes → Bytes → Bytes
log_line timestamp message = timestamp ++ (b' ' ∷ (message ++ (b'\n' ∷ [])))

-- The file is opened to append; a line is its time, a blank and the message.
unfoldable pub append_line : Permissions → Bytes → Bytes → Disk → Disk
unfolding contents_of insert_key
append_line p path line disk =
    if p.may_open path
    then record disk { files = insert_key path (contents_of path disk.files ++ line) disk.files }
    else disk

-- Without HOME, or if the directory cannot be made, nothing is written.
unfoldable pub log_event : Permissions → Option Bytes → Bytes → Bytes → Disk → Disk
unfolding has_directory append_line
log_event p none timestamp message disk = disk
log_event p (some home) timestamp message disk =
    let line = log_line timestamp message in
    if has_directory (log_directory home) disk.directories
    then append_line p (log_path home) line disk
    else if p.may_create (log_directory home)
    then append_line p (log_path home) line
        (record disk { directories = log_directory home ∷ disk.directories })
    else disk
