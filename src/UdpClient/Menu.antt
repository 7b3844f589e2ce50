-- ===== src/UdpClient/Menu.antt =====
-- `handle_user_input` and the functions that send. The two families of functions, v4 and v6, differ in
-- the address alone, which is left out.
use shelter_server_hpc.Prelude.{
  ℕ, zero, suc, leb, ℤ, true, false, String, Option, none, some, Bytes, codes, equal, if◌then◌else◌,
  length,
}
use shelter_server_hpc.CJson.{CJson, add_string_to_object, add_number_to_object}
use shelter_server_hpc.TcpClient.Session.{
  says, sent, socket_closed, returns, out_of_fuel, Run, ◌>>=◌, ◌>>◌, ends, emit, read_input,
}
use shelter_server_hpc.TcpClient.Menu.{
  food_choice, medicine_choice, read_amount, invalid_option, set_disconnected, interrupt_child,
  after_round,
}

abbrev pub buffer_size : ℕ
buffer_size = 1024

-- `send_to_server_v4` and `send_to_server_v6`: a message that does not fit the buffer is not sent.
unfoldable pub send_to_server : Bytes → Run (Unit {0})
send_to_server message =
    if leb buffer_size (length message)
    then emit (says "Error: Message exceeds buffer size")
    else emit (sent message)

-- The options of the menu.
pub data Choice : Type 0 where
  status update summary leave other : Choice

unfoldable pub choice_of : Bytes → Choice
choice_of input =
    if equal input (codes "1\n")
    then status
    else if equal input (codes "2\n")
    then update
    else if equal input (codes "3\n")
    then summary
    else if equal input (codes "4\n")
    then leave
    else other

module _ (C : CJson) where
  open C use {Json, create_object, add_item_to_object}

  -- `sendJson_v4` and `sendJson_v6`
  unfoldable pub send_json : Json → Run (Unit {0})
  unfolding send_to_server
  send_json json = elim (C.print json) [
    | none ↦ emit (says "Error: Unable to convert cJSON object to JSON string")
    | some text ↦ send_to_server text
  ]

  module _ (hostname : Bytes) where
    abbrev pub message_json : String → Json
    message_json message =
        add_string_to_object C (add_string_to_object C create_object "hostname" hostname) "message"
          (codes message)

    abbrev pub update_json : String → String → ℤ → Json
    update_json section key value =
        add_item_to_object (message_json "update") section
          (add_number_to_object C create_object key value)

    -- The menu of one section, as in the TCP client.
    unfoldable pub add_amount : String → (Bytes → Option String) → Bytes → ℤ → Run Json
    add_amount section choice input value = elim (choice input) [
      | none ↦ invalid_option
      | some key ↦ ends (returns (update_json section key value))
    ]

    unfoldable pub amount_for : String → (Bytes → Option String) → Bytes → Run Json
    unfolding read_amount add_amount
    amount_for section choice input = do value ← read_amount; add_amount section choice input value

    unfoldable pub update_section : String → (Bytes → Option String) → Run Json
    unfolding amount_for
    update_section section choice = do input ← read_input; amount_for section choice input

    unfoldable pub choose_section : Bytes → Run Json
    unfolding update_section food_choice medicine_choice
    choose_section input =
        if equal input (codes "1\n")
        then update_section "food" food_choice
        else if equal input (codes "2\n")
        then update_section "medicine" medicine_choice
        else invalid_option

    unfoldable pub send_update : Bytes → Run (Unit {0})
    unfolding choose_section send_json
    send_update input = do json ← choose_section input; send_json json

    unfoldable pub update_supplies : Run (Unit {0})
    unfolding send_update
    update_supplies = do input ← read_input; send_update input

    -- One round, after the choice of the user. `disconnect` only closes the socket.
    unfoldable pub process_choice : Choice → Run (Unit {0})
    unfolding update_supplies send_json set_disconnected interrupt_child
    process_choice status c = send_json (message_json "status") c
    process_choice update c = update_supplies c
    process_choice summary c = send_json (message_json "summary") c
    process_choice leave c = (do interrupt_child; set_disconnected; emit socket_closed) c
    process_choice other c = emit (says "Invalid option. Please choose a valid option.") c

    abbrev pub process_input : Bytes → Run (Unit {0})
    process_input input = process_choice (choice_of input)

    unfoldable pub menu_round : Run (Unit {0})
    unfolding process_choice choice_of
    menu_round = do input ← read_input; process_input input

    -- The loop, on fuel.
    unfoldable pub handle_user_input : ℕ → Run (Unit {0})
    unfolding after_round
    handle_user_input zero c = (out_of_fuel, c)
    handle_user_input (suc fuel) c = elim c.connected [
      | true ↦ after_round C (handle_user_input fuel) (menu_round c)
      | false ↦ (returns tt, c)
    ]
