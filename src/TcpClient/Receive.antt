-- ===== src/TcpClient/Receive.antt =====
-- `receive_json`: one message of the server.
use shelter_server_hpc.Prelude.{
  ◌-◌, ℤ, pos, pos_part, leb_ℤ, true, ◌&&◌, String, Option, none, some, [], ◌∷◌, Bytes, codes,
  equal, if◌then◌else◌, ◌==◌, leb, length,
}
use shelter_server_hpc.CJson.{CJson, add_string_to_object}
use shelter_server_hpc.TcpClient.Session.{
  Recv, recv_error, recv_closed, recv_bytes, says, shows, parent_interrupted, returns, crashes,
  exits, Run, ◌>>=◌, ◌>>◌, ends, emit, scan_int, skip_char, next_recv, disconnect, send_json,
}
use shelter_server_hpc.TcpClient.Zip.{receive_zip}

-- The buffer is zeroed, so its text ends at the first NUL.
unfoldable pub c_string : Bytes → Bytes
c_string [] = []
c_string (b ∷ bs) = let rest = c_string bs in if b == 0 then [] else b ∷ rest

-- The values of `message` that the client knows.
pub data Message : Type 0 where
  auth_success auth_failure disconnected image_list file_size zip_ready alert : Message
  summary_response supplies_response unknown : Message

-- The chain of comparisons.
unfoldable pub message_of : Bytes → Message
message_of value =
    if equal value (codes "auth_success")
    then auth_success
    else if equal value (codes "auth_failure")
    then auth_failure
    else if equal value (codes "disconnect")
    then disconnected
    else if equal value (codes "image_list")
    then image_list
    else if equal value (codes "file_size")
    then file_size
    else if equal value (codes "zip_ready")
    then zip_ready
    else if equal value (codes "alert")
    then alert
    else if equal value (codes "summary_response")
    then summary_response
    else if equal value (codes "supplies_response")
    then supplies_response
    else unknown

abbrev set_authenticated : Run (Unit {0})
set_authenticated c = (returns tt, record c { authenticated = true })

abbrev set_zip_size : ℤ → Run (Unit {0})
set_zip_size n c = (returns tt, record c { zip_size_bytes = n })

module _ (C : CJson) where
  open C use {
    Json, parse, print, create_object, get_object_item, is_array, is_string, is_number, valueint,
    valuestring, get_array_size, get_array_item, delete_item_from_object,
  }

  abbrev pub selection_json : Bytes → Json
  selection_json image =
      add_string_to_object C
        (add_string_to_object C create_object "message" (codes "image_selection")) "image" image

  -- The selected item, if there is one and it is a string.
  unfoldable pub select_image : Json → ℤ → Run (Unit {0})
  select_image images choice =
      if leb_ℤ (pos 1) choice && leb_ℤ choice (pos (get_array_size images))
      then elim (get_array_item images (pos_part choice - 1)) [
        | none ↦ emit (says "Invalid selection.")
        | some item ↦
            if is_string item
            then elim (valuestring item) [
              | none ↦ ends crashes
              | some image ↦ send_json C (selection_json image)
            ]
            else emit (says "Invalid selection.")
      ]
      else emit (says "Invalid selection.")

  -- What `scanf` read, if it is a number.
  unfoldable pub read_choice : Json → Option ℤ → Run (Unit {0})
  unfolding select_image
  read_choice images none = emit (says "Error converting input to integer")
  read_choice images (some choice) = do skip_char; select_image images choice

  -- The branch `image_list`; the names that it prints are left out.
  unfoldable pub handle_image_list : Json → Run (Unit {0})
  unfolding read_choice
  handle_image_list json = elim (get_object_item (some json) "images") [
    | none ↦ emit (says "Error: Unable to retrieve image list from JSON.")
    | some images ↦
        if is_array images
        then (scan_int >>= read_choice images)
        else emit (says "Error: Unable to retrieve image list from JSON.")
  ]

  unfoldable pub handle_file_size : Json → Run (Unit {0})
  handle_file_size json = elim (get_object_item (some json) "size") [
    | none ↦ emit (says "Error: Unable to retrieve file size from JSON.")
    | some size ↦
        if is_number size
        then set_zip_size (valueint size)
        else emit (says "Error: Unable to retrieve file size from JSON.")
  ]

  unfoldable pub handle_alert : Json → Run (Unit {0})
  handle_alert json = elim (get_object_item (some json) "alert_description") [
    | none ↦ ends (returns tt)
    | some item ↦
        if is_string item
        then emit (shows "Alert from server" (valuestring item))
        else ends (returns tt)
  ]

  -- The message without its member `message`.
  abbrev pub show_body : String → Json → Run (Unit {0})
  show_body label json = emit (shows label (print (delete_item_from_object json "message")))

  abbrev unknown_message : Json → Run (Unit {0})
  unknown_message json = emit (shows "Unknown message from server" (print json))

  -- The branch of each message. In the child an image list goes on to the last `else`.
  unfoldable pub handle_message : Json → Message → Run (Unit {0})
  unfolding handle_image_list handle_file_size handle_alert
  handle_message json auth_success c =
      (do emit (says "Authentication successful. You can make supplies updates"); set_authenticated)
        c
  handle_message json auth_failure c = emit (says "Authentication failed: Invalid hostname.") c
  handle_message json disconnected c =
      (do
        emit (says "Server closed the connection.. disconnecting")
        emit parent_interrupted
        ends (exits 0))
        c
  handle_message json image_list c =
      if c.is_parent then handle_image_list json c else unknown_message json c
  handle_message json file_size c = handle_file_size json c
  handle_message json zip_ready c = (do emit (says "Server ready to send ZIP"); receive_zip) c
  handle_message json alert c = handle_alert json c
  handle_message json summary_response c = show_body "Summary" json c
  handle_message json supplies_response c = show_body "Supplies status" json c
  handle_message json unknown c = unknown_message json c

  -- A text that is no JSON has no member `message`; a member that is no string has no text to
  -- compare.
  unfoldable pub handle_text : Bytes → Run (Unit {0})
  unfolding handle_message message_of
  handle_text text = elim (parse (some text)) [
    | none ↦ ends (returns tt)
    | some json ↦ elim (get_object_item (some json) "message") [
      | none ↦ ends (returns tt)
      | some message ↦ elim (valuestring message) [
        | none ↦ ends crashes
        | some value ↦ handle_message json (message_of value)
      ]
    ]
  ]

  -- What `recv` gave. The parser reads on behind a buffer that is full and has no NUL.
  unfoldable pub handle_recv : Recv → Run (Unit {0})
  unfolding handle_text c_string
  handle_recv recv_error = emit (says "Error receiving JSON from server")
  handle_recv recv_closed = do
    emit (says "Server closed the connection.. disconnecting")
    disconnect
  handle_recv (recv_bytes bs) =
      if leb 1024 (length (c_string bs)) then ends crashes else handle_text (c_string bs)

  unfoldable pub receive_json : Run (Unit {0})
  unfolding handle_recv next_recv
  receive_json = do r ← next_recv; handle_recv r
