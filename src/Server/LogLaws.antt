-- ===== src/Server/LogLaws.antt =====
-- The log file after calls of `logEvent` of src/server/utils.cpp.
use shelter_server_hpc.Prelude.{
  ◌≡◌, refl, ◌∙◌, ap, true, Option, none, some, List, [], ◌∷◌, ◌++◌, Bytes, Bool-cases, inl, inr,
  append_assoc, append-nil,
}
use shelter_server_hpc.Wrapper.Entries.{find-insert_self}
use shelter_server_hpc.Server.Log.{
  Disk, Permissions, has_directory, contents_of, log_directory, log_path, log_line, append_line,
  log_event,
}

-- The lines of successive calls of `logEvent`, each with its time.
abbrev pub log_events : Permissions → Option Bytes → List (Bytes × Bytes) → Disk → Disk
log_events p home [] disk = disk
log_events p home ((timestamp, message) ∷ lines) disk =
    log_events p home lines (log_event p home timestamp message disk)

abbrev pub lines_of : List (Bytes × Bytes) → Bytes
lines_of [] = []
lines_of ((timestamp, message) ∷ lines) = log_line timestamp message ++ lines_of lines

-- Nothing fails: directories can be made, and files opened.
abbrev pub Permits : Permissions → Type 0
Permits p = ((path : Bytes) → p.may_create path ≡ true) × ((path : Bytes) → p.may_open path ≡ true)

abbrev or_empty : Option Bytes → Bytes
or_empty o = elim o [ none ↦ [] | some text ↦ text ]

append_line_lem :
    (p : Permissions) (path line : Bytes) (disk : Disk)
    → p.may_open path ≡ true
    → contents_of path (append_line p path line disk).files ≡ contents_of path disk.files ++ line
unfolding append_line contents_of
append_line_lem p path line disk o =
    rw o (ap (or_empty) (find-insert_self path (contents_of path disk.files ++ line) disk.files))

log_event_lem :
    (p : Permissions) (home timestamp message : Bytes) (disk : Disk)
    → Permits p
    → contents_of (log_path home) (log_event p (some home) timestamp message disk).files
      ≡ contents_of (log_path home) disk.files ++ log_line timestamp message
unfolding log_event
log_event_lem p home timestamp message disk h =
    elim (Bool-cases (has_directory (log_directory home) disk.directories)) [
      | inl there ↦
          rw there (append_line_lem p (log_path home) (log_line timestamp message) disk (h.1 _))
      | inr new ↦
          rw (new, h.0 (log_directory home))
            (append_line_lem p (log_path home) (log_line timestamp message)
              (record disk { directories = log_directory home ∷ disk.directories }) (h.1 _))
    ]

-- If directories can be made and files opened, successive calls of `logEvent` append their lines to
-- the log file in order, behind what it had.
pub log_events_lem :
    (p : Permissions) (home : Bytes) (lines : List (Bytes × Bytes)) (disk : Disk)
    → Permits p
    → contents_of (log_path home) (log_events p (some home) lines disk).files
      ≡ contents_of (log_path home) disk.files ++ lines_of lines
log_events_lem p home [] disk h = rw append-nil refl
log_events_lem p home ((timestamp, message) ∷ lines) disk h =
    log_events_lem p home lines (log_event p (some home) timestamp message disk) h
    ∙ rw log_event_lem (rw append_assoc refl)
