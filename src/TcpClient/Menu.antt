-- ===== src/TcpClient/Menu.antt =====
-- `handle_user_input`: the loop over the menu of the user.
use shelter_server_hpc.Prelude.{
  ℕ, zero, suc, ℤ, true, false, String, Option, none, some, Bytes, codes, equal, if◌then◌else◌,
}
use shelter_server_hpc.CJson.{CJson, add_string_to_object, add_number_to_object}
use shelter_server_hpc.TcpClient.Session.{
  says, child_stopped, child_continued, child_interrupted, Client, Result, returns, again, leaves,
  crashes, blocks, out_of_fuel, exits, Run, ◌>>=◌, ◌>>◌, ends, emit, read_input, scan_int,
  skip_char, disconnect, send_json,
}
use shelter_server_hpc.TcpClient.Receive.{receive_json}

-- The options of the menu.
pub data Choice : Type 0 where
  status update summary image leave other : Choice

-- The chain of comparisons with the line of the user.
unfoldable pub choice_of : Bytes → Choice
choice_of input =
    if equal input (codes "1\n")
    then status
    else if equal input (codes "2\n")
    then update
    else if equal input (codes "3\n")
    then summary
    else if equal input (codes "4\n")
    then image
    else if equal input (codes "5\n")
    then leave
    else other

-- The member that a choice of the food menu names, and of the medicine menu.
unfoldable pub food_choice : Bytes → Option String
food_choice input =
    if equal input (codes "1\n")
    then some "meat"
    else if equal input (codes "2\n")
    then some "vegetables"
    else if equal input (codes "3\n")
    then some "fruits"
    else if equal input (codes "4\n")
    then some "water"
    else none

unfoldable pub medicine_choice : Bytes → Option String
medicine_choice input =
    if equal input (codes "1\n")
    then some "antibiotics"
    else if equal input (codes "2\n")
    then some "analgesics"
    else if equal input (codes "3\n")
    then some "bandages"
    else none

-- An amount; without a number the caller of the loop gets control back.
unfoldable pub amount_or_leave : Option ℤ → Run ℤ
amount_or_leave none = do emit (says "Error converting input to integer"); ends leaves
amount_or_leave (some value) = do skip_char; ends (returns value)

unfoldable pub read_amount : Run ℤ
unfolding amount_or_leave scan_int
read_amount = do value ← scan_int; amount_or_leave value

-- `continue` after a choice that is none of those offered.
abbrev pub invalid_option : {A : Type 0} → Run A
invalid_option = do emit (says "Invalid option."); ends again

unfoldable pub set_disconnected : Run (Unit {0})
set_disconnected c = (returns tt, record c { connected = false })

unfoldable pub interrupt_child : Run (Unit {0})
interrupt_child c = if c.has_child then emit child_interrupted c else (returns tt, c)

module _ (C : CJson) where
  open C use {Json, create_object, add_item_to_object}

  abbrev pub message_json : String → Json
  message_json message = add_string_to_object C create_object "message" (codes message)

  -- `{"message": "update", section: {key: value}}`
  abbrev pub update_json : String → String → ℤ → Json
  update_json section key value =
      add_item_to_object (message_json "update") section
        (add_number_to_object C create_object key value)

  -- The menu of one section: which member, how much, and then the test of the choice.
  unfoldable pub add_amount : String → (Bytes → Option String) → Bytes → ℤ → Run Json
  add_amount section choice input value = elim (choice input) [
    | none ↦ invalid_option
    | some key ↦ ends (returns (update_json section key value))
  ]

  unfoldable pub amount_for : String → (Bytes → Option String) → Bytes → Run Json
  unfolding read_amount add_amount
  amount_for section choice input = do value ← read_amount; add_amount section choice input value

  unfoldable pub update_section : String → (Bytes → Option String) → Run Json
  unfolding amount_for
  update_section section choice = do input ← read_input; amount_for section choice input

  unfoldable pub choose_section : Bytes → Run Json
  unfolding update_section food_choice medicine_choice
  choose_section input =
      if equal input (codes "1\n")
      then update_section "food" food_choice
      else if equal input (codes "2\n")
      then update_section "medicine" medicine_choice
      else invalid_option

  unfoldable pub send_update : Bytes → Run (Unit {0})
  unfolding choose_section send_json
  send_update input = do json ← choose_section input; send_json C json

  unfoldable pub update_supplies : Run (Unit {0})
  unfolding send_update
  update_supplies = do input ← read_input; send_update input

  -- The parent answers the list of images itself while the child is stopped.
  unfoldable pub request_image : Run (Unit {0})
  unfolding receive_json send_json
  request_image = do
    emit child_stopped
    send_json C (message_json "request_available_images")
    receive_json C
    emit child_continued

  -- One round of the loop, after the choice of the user.
  unfoldable pub process_choice : Choice → Run (Unit {0})
  unfolding update_supplies request_image send_json set_disconnected interrupt_child
  process_choice status c = send_json C (message_json "status") c
  process_choice update c =
      if c.authenticated then update_supplies c else emit (says "You are not authenticated.") c
  process_choice summary c = send_json C (message_json "summary") c
  process_choice image c = request_image c
  process_choice leave c = (do interrupt_child; set_disconnected; disconnect) c
  process_choice other c = emit (says "Invalid option. Please choose a valid option.") c

  abbrev pub process_input : Bytes → Run (Unit {0})
  process_input input = process_choice (choice_of input)

  unfoldable pub menu_round : Run (Unit {0})
  unfolding process_choice choice_of
  menu_round = do input ← read_input; process_input input

  -- What a round leaves for the next test of `CONNECTED`.
  unfoldable pub after_round :
      (Client → Result (Unit {0}) × Client)
      → Result (Unit {0}) × Client
      → Result (Unit {0}) × Client
  after_round more (returns _, c) = more c
  after_round more (again, c) = more c
  after_round more (leaves, c) = (returns tt, c)
  after_round more (crashes, c) = (crashes, c)
  after_round more (blocks, c) = (blocks, c)
  after_round more (out_of_fuel, c) = (out_of_fuel, c)
  after_round more (exits result, c) = (exits result, c)

  -- The loop, on fuel.
  unfoldable pub handle_user_input : ℕ → Run (Unit {0})
  unfolding after_round
  handle_user_input zero c = (out_of_fuel, c)
  handle_user_input (suc fuel) c = elim c.connected [
    | true ↦ after_round (handle_user_input fuel) (menu_round c)
    | false ↦ (returns tt, c)
  ]
