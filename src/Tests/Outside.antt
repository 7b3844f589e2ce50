-- ===== src/Tests/Outside.antt =====
-- The server's images, command line, log and sockets, at concrete inputs.
use shelter_server_hpc.Prelude.{
  ◌≡◌, refl, arith, pos, List, ◌++◌, if◌then◌else◌, true, some, [], ◌∷◌, Bytes, codes, equal,
}
use shelter_server_hpc.CJson.Trees.Printed.{serialize}
use shelter_server_hpc.Nlohmann.{message}
use shelter_server_hpc.Nlohmann.Trees.{json_trees}
use shelter_server_hpc.Exec.{ok}
use shelter_server_hpc.Wrapper.Entries.{Entries, find_key, insert_key}
use shelter_server_hpc.Server.State.{State, to_tcp}
use shelter_server_hpc.Server.Images.{send_image}
use shelter_server_hpc.Server.ImagesLaws.{
  announced, file_sent, zip_of, with_archive, send_image_lem,
}
use shelter_server_hpc.Server.Options.{Opt, port_opt, parsed, exits, parse_command_line_arguments}
use shelter_server_hpc.Server.OptionsLaws.{accepted, last_port, parse_command_line_arguments_lem}
use shelter_server_hpc.Server.Log.{Disk, Permissions, contents_of, log_path}
use shelter_server_hpc.Server.LogLaws.{log_events, lines_of, log_events_lem}
use shelter_server_hpc.Tests.Served.{libraries, server}

-- An image, which has no archive yet.
abbrev with_image : State Entries
with_image = record (server []) { files = (codes "../img/inputImg/cat.jpg", codes "pixels") ∷ [] }

abbrev zipped : Entries
zipped = with_archive libraries (codes "cat.jpg") (zip_of (codes "cat")) with_image.files

abbrev archive : Bytes
archive = codes "zedges"

archive_made : find_key (zip_of (codes "cat")) zipped ≡ some archive
unfolding find_key equal insert_key
archive_made = refl

send_image_lem_example : send_image libraries (pos 7) (codes "cat.jpg") with_image ≡ (
  ok tt,
  record with_image {
    files = zipped;
    sent =
        to_tcp (pos 7) (
          serialize (
            json_trees.set
              (message json_trees "file_size")
              (codes "size")
              (json_trees.number (announced (find_key (zip_of (codes "cat")) zipped)))))
        ∷ to_tcp (pos 7) (serialize (message json_trees "zip_ready"))
        ∷ file_sent (pos 7) (find_key (zip_of (codes "cat")) zipped);
  },
)
send_image_lem_example =
    send_image_lem libraries (pos 7) (codes "cat") (codes "jpg")
      (serialize (
        json_trees.set (message json_trees "file_size") (codes "size")
          (json_trees.number (announced (find_key (zip_of (codes "cat")) zipped)))))
      (serialize (message json_trees "zip_ready")) with_image (refl, (refl, (refl, tt)))
      (rw archive_made (omega arith)) refl refl

abbrev options : List Opt
options =
    port_opt (codes "tcp") (some (codes "6000")) ∷ port_opt (codes "udp") (some (codes "7000")) ∷ []

parse_command_line_arguments_lem_example : parse_command_line_arguments options ≡ (
    if accepted options
    then parsed (record {
      tcp_port = last_port (codes "tcp") (pos 5005) options;
      udp_port = last_port (codes "udp") (pos 5005) options;
    })
    else exits)
parse_command_line_arguments_lem_example = parse_command_line_arguments_lem options

abbrev anything : Permissions
anything = record { may_create = λ path. true; may_open = λ path. true }

abbrev empty_disk : Disk
empty_disk = record { directories = []; files = [] }

abbrev lines : List (Bytes × Bytes)
lines = (codes "12:00", codes "Server started") ∷ (codes "12:05", codes "Server turned off") ∷ []

log_events_lem_example :
    contents_of
      (log_path (codes "/root"))
      (log_events anything (some (codes "/root")) lines empty_disk).files
    ≡ contents_of (log_path (codes "/root")) [] ++ lines_of lines
log_events_lem_example =
    log_events_lem anything (codes "/root") lines empty_disk ((λ path. refl), (λ path. refl))
