-- ===== src/TcpClient/Shrinks.antt =====
-- The rounds of the menu loop, `handle_user_input` of src/clients/tcp_client.c, and what they leave of
-- the input.
use shelter_server_hpc.Prelude.{
  ℕ, zero, suc, ◌≤◌, ◌<◌, ◌≡◌, ◌≢◌, refl, arith, ℤ, String, Option, none, some, Bytes, [], ◌∷◌,
  ◌++◌, length, Bool-cases, Option-cases, inl, inr,
}
use shelter_server_hpc.CJson.{CJson}
use shelter_server_hpc.Stdio.{fgets}
use shelter_server_hpc.Stdio.Reading.{fgets-shrinks, getchar-shrinks}
use shelter_server_hpc.TcpClient.Session.{
  child_stopped, child_continued, ◌>>◌, Client, Result, returns, again, leaves, crashes, blocks,
  out_of_fuel, exits, emit, read_input, scan_int, send_json,
}
use shelter_server_hpc.TcpClient.Receive.{receive_json}
use shelter_server_hpc.TcpClient.Menu.{
  food_choice, medicine_choice, amount_or_leave, read_amount, add_amount, amount_for, send_update,
  message_json, set_disconnected, interrupt_child, update_section, choose_section, update_supplies,
  request_image, menu_round, after_round, Choice, status, update, summary, image, leave, other,
  process_choice, choice_of, handle_user_input,
}
use shelter_server_hpc.TcpClient.Tame.{
  Keeps, Tame, emit-Tame, read_input-Tame, read_input-none, read_input-some, receive_json-Tame,
  scan_int-Tame, send_json-Tame, then-Tame,
}

module _ (C : CJson) where
  pub read_amount-Tame : Tame read_amount
  unfolding read_amount
  read_amount-Tame = then-Tame scan_int amount_or_leave scan_int-Tame leave-Tame
    where
      leave-Tame : (v : Option ℤ) → Tame (amount_or_leave v)
      leave-Tame none = λ n k c h i. (h, i, λ q. cc)
      leave-Tame (some v) = λ n k c h i. (omega (arith, getchar-shrinks c.stdin), i, λ q. cc)

  add_amount-Tame :
      (section : String) (choice : Bytes → Option String) (input : Bytes) (value : ℤ)
      → Tame (add_amount C section choice input value)
  unfolding add_amount
  add_amount-Tame section choice input value n k c h i = ground arith

  update_section-Tame :
      (section : String) (choice : Bytes → Option String) → Tame (update_section C section choice)
  unfolding update_section
  update_section-Tame section choice =
      then-Tame read_input (amount_for C section choice) read_input-Tame λ input.
        then-Tame read_amount (add_amount C section choice input) read_amount-Tame
          (add_amount-Tame section choice input)

  choose_section-Tame : (input : Bytes) → Tame (choose_section C input)
  unfolding choose_section
  choose_section-Tame input n k c h i = ground (
    arith,
    update_section-Tame "food" food_choice n k c h i,
    update_section-Tame "medicine" medicine_choice n k c h i,
  )

  update_supplies-Tame : Tame (update_supplies C)
  unfolding update_supplies
  update_supplies-Tame = then-Tame read_input (send_update C) read_input-Tame λ input.
      then-Tame (choose_section C input) (send_json C) (choose_section-Tame input)
        (send_json-Tame C)

  request_image-Tame : Tame (request_image C)
  unfolding request_image
  request_image-Tame n k c h i =
      then-Tame (send_json C (message_json C "request_available_images"))
        (λ _. receive_json C >> emit child_continued) (send_json-Tame C _)
        (λ _.
          then-Tame (receive_json C) (λ _. emit child_continued) (receive_json-Tame C)
            (λ _. emit-Tame child_continued))
        n k (record c { events = c.events ++ (child_stopped ∷ []) }) h i

  process_choice-Tame : (choice : Choice) → Tame (process_choice C choice)
  unfolding process_choice
  process_choice-Tame status n k c h i = send_json-Tame C _ n k c h i
  process_choice-Tame update n k c h i = ground (arith, update_supplies-Tame n k c h i)
  process_choice-Tame summary n k c h i = send_json-Tame C _ n k c h i
  process_choice-Tame image n k c h i = request_image-Tame n k c h i
  process_choice-Tame leave n k c h i = unfold interrupt_child set_disconnected in ground arith
  process_choice-Tame other n k c h i = (h, i, λ q. cc)

  pub after_round_ends :
      (n : ℕ) (more : Client → Result (Unit {0}) × Client) (o : Result (Unit {0}) × Client)
      → (length o.1.stdin ≤ n) × (o.0 ≢ out_of_fuel)
      → ((c : Client) → length c.stdin ≤ n → (more c).0 ≢ out_of_fuel)
      → (after_round C more o).0 ≢ out_of_fuel
  unfolding after_round
  after_round_ends n more (returns _, c) k m = m c k.0
  after_round_ends n more (again, c) k m = m c k.0
  after_round_ends n more (out_of_fuel, c) k m = absurd (k.1 refl)
  after_round_ends n more (leaves, c) k m = λ q. cc
  after_round_ends n more (crashes, c) k m = λ q. cc
  after_round_ends n more (blocks, c) k m = λ q. cc
  after_round_ends n more (exits result, c) k m = λ q. cc

  pub menu_round-some :
      (c : Client) (line rest : Bytes)
      → fgets 1024 c.stdin ≡ some (line, rest)
      → menu_round C c ≡ process_choice C (choice_of line) (record c { stdin = rest })
  unfolding menu_round
  menu_round-some c line rest e = rw (read_input-some c line rest e, menu_round)

  menu_round-none : (c : Client) → fgets 1024 c.stdin ≡ none → (menu_round C c).0 ≡ leaves
  unfolding menu_round
  menu_round-none c e = rw (read_input-none c e, menu_round)

  pub after_round-leaves :
      (more : Client → Result (Unit {0}) × Client) (o : Result (Unit {0}) × Client)
      → o.0 ≡ leaves
      → (after_round C more o).0 ≢ out_of_fuel
  unfolding after_round
  after_round-leaves more (r, c) e = rw (e, after_round) (λ q. cc)

  -- Fuel above the length of the input is enough: the menu loop then ends for a reason of its own,
  -- or waits for the server.
  pub handle_user_input_ends :
      (fuel : ℕ) (c : Client) → length c.stdin < fuel → (handle_user_input C fuel c).0 ≢ out_of_fuel
  unfolding handle_user_input
  handle_user_input_ends zero c h = absurd (omega arith)
  handle_user_input_ends (suc fuel) c h = elim (Bool-cases c.connected) [
    | inr off ↦ rw (off, handle_user_input) (λ q. cc)
    | inl on ↦ elim (Option-cases (fgets 1024 c.stdin)) [
      | inl e ↦
          rw (on, handle_user_input)
            (after_round-leaves (handle_user_input C fuel) (menu_round C c) (menu_round-none c e))
      | inr ((line, rest), e) ↦
          let less = fgets-shrinks 1022 c.stdin line rest e in
          let kept : Keeps (length rest) (length c.incoming)
              (process_choice C (choice_of line) (record c { stdin = rest })) =
            process_choice-Tame (choice_of line) (length rest) (length c.incoming)
              (record c { stdin = rest }) (omega arith) (omega arith) in
          rw (on, handle_user_input, menu_round-some c line rest e)
            (after_round_ends (length rest) _ _ (kept.0, kept.2)
              (λ c' k. handle_user_input_ends fuel c' (omega arith)))
    ]
  ]
