-- ===== src/UdpClient/Ends.antt =====
-- The rounds of the two loops of src/clients/udp_client.c.
use shelter_server_hpc.Prelude.{
  ℕ, zero, suc, ◌<◌, ◌≡◌, ◌≢◌, arith, ℤ, String, Option, none, some, Bytes, length, Bool-cases,
  Option-cases, inl, inr,
}
use shelter_server_hpc.CJson.{CJson}
use shelter_server_hpc.Stdio.{fgets}
use shelter_server_hpc.Stdio.Reading.{fgets-shrinks}
use shelter_server_hpc.TcpClient.Session.{Client, leaves, out_of_fuel, read_input}
use shelter_server_hpc.TcpClient.Menu.{
  read_amount, set_disconnected, interrupt_child, food_choice, medicine_choice,
}
use shelter_server_hpc.TcpClient.Tame.{
  Keeps, Tame, then-Tame, read_input-Tame, read_input-some, read_input-none,
}
use shelter_server_hpc.TcpClient.Shrinks.{read_amount-Tame, after_round_ends, after_round-leaves}
use shelter_server_hpc.UdpClient.Menu.{
  send_to_server, send_json, add_amount, amount_for, update_section, choose_section, send_update,
  update_supplies, Choice, status, update, summary, leave, other, choice_of, process_choice,
  menu_round, handle_user_input,
}

module _ (C : CJson) where
  send_json-Tame : (json : C.Json) → Tame (send_json C json)
  unfolding send_json send_to_server
  send_json-Tame json n k c h i = ground arith

  module _ (hostname : Bytes) where
    add_amount-Tame :
        (section : String) (choice : Bytes → Option String) (input : Bytes) (value : ℤ)
        → Tame (add_amount C hostname section choice input value)
    unfolding add_amount
    add_amount-Tame section choice input value n k c h i = ground arith

    update_section-Tame :
        (section : String) (choice : Bytes → Option String)
        → Tame (update_section C hostname section choice)
    unfolding update_section amount_for
    update_section-Tame section choice =
        then-Tame read_input (amount_for C hostname section choice) read_input-Tame λ input.
          then-Tame read_amount (add_amount C hostname section choice input) (read_amount-Tame C)
            (add_amount-Tame section choice input)

    choose_section-Tame : (input : Bytes) → Tame (choose_section C hostname input)
    unfolding choose_section
    choose_section-Tame input n k c h i = ground (
      arith,
      update_section-Tame "food" food_choice n k c h i,
      update_section-Tame "medicine" medicine_choice n k c h i,
    )

    update_supplies-Tame : Tame (update_supplies C hostname)
    unfolding update_supplies send_update
    update_supplies-Tame = then-Tame read_input (send_update C hostname) read_input-Tame λ input.
        then-Tame (choose_section C hostname input) (send_json C) (choose_section-Tame input)
          send_json-Tame

    process_choice-Tame : (choice : Choice) → Tame (process_choice C hostname choice)
    unfolding process_choice
    process_choice-Tame status n k c h i = send_json-Tame _ n k c h i
    process_choice-Tame update n k c h i = update_supplies-Tame n k c h i
    process_choice-Tame summary n k c h i = send_json-Tame _ n k c h i
    process_choice-Tame leave n k c h i = unfold interrupt_child set_disconnected in ground arith
    process_choice-Tame other n k c h i = (h, i, λ q. cc)

    menu_round-some :
        (c : Client) (line rest : Bytes)
        → fgets 1024 c.stdin ≡ some (line, rest)
        → menu_round C hostname c
          ≡ process_choice C hostname (choice_of line) (record c { stdin = rest })
    unfolding menu_round
    menu_round-some c line rest e = rw (read_input-some c line rest e, menu_round)

    menu_round-none :
        (c : Client) → fgets 1024 c.stdin ≡ none → (menu_round C hostname c).0 ≡ leaves
    unfolding menu_round
    menu_round-none c e = rw (read_input-none c e, menu_round)

    -- Fuel above the length of the input is enough for the menu loop of the UDP client.
    pub handle_user_input_halts :
        (fuel : ℕ) (c : Client)
        → length c.stdin < fuel
        → (handle_user_input C hostname fuel c).0 ≢ out_of_fuel
    unfolding handle_user_input
    handle_user_input_halts zero c h = absurd (omega arith)
    handle_user_input_halts (suc fuel) c h = elim (Bool-cases c.connected) [
      | inr off ↦ rw (off, handle_user_input) (λ q. cc)
      | inl on ↦ elim (Option-cases (fgets 1024 c.stdin)) [
        | inl e ↦
            rw (on, handle_user_input)
              (after_round-leaves C (handle_user_input C hostname fuel) (menu_round C hostname c)
                (menu_round-none c e))
        | inr ((line, rest), e) ↦
            let less = fgets-shrinks 1022 c.stdin line rest e in
            let kept : Keeps (length rest) (length c.incoming)
                (process_choice C hostname (choice_of line) (record c { stdin = rest })) =
              process_choice-Tame (choice_of line) (length rest) (length c.incoming)
                (record c { stdin = rest }) (omega arith) (omega arith) in
            rw (on, handle_user_input, menu_round-some c line rest e)
              (after_round_ends C (length rest) _ _ (kept.0, kept.2)
                (λ c' k. handle_user_input_halts fuel c' (omega arith)))
      ]
    ]
