-- ===== src/UdpClient/Bounds.antt =====
-- The two buffers of src/clients/udp_client.c: the one that it sends from, and the one that it receives
-- into.
use shelter_server_hpc.Prelude.{
  ℕ, zero, suc, ◌≡◌, ◌≢◌, ◌<◌, arith, ℤ, leb, false, String, Option, none, some, Bytes, codes, [],
  ◌∷◌, equal, length, All, All-append, Bool-cases, Option-cases, inl, inr,
}
use shelter_server_hpc.CJson.{CJson}
use shelter_server_hpc.Stdio.{fgets}
use shelter_server_hpc.TcpClient.Session.{
  Event, sent, says, child_interrupted, socket_closed, Client, Result, returns, again, leaves,
  crashes, blocks, out_of_fuel, exits, Run, and_then, emit, read_input, scan_int,
}
use shelter_server_hpc.TcpClient.Menu.{
  food_choice, medicine_choice, amount_or_leave, read_amount, set_disconnected, interrupt_child,
  after_round,
}
use shelter_server_hpc.UdpClient.Menu.{
  buffer_size, send_to_server, send_json, add_amount, amount_for, update_section, choose_section,
  send_update, update_supplies, process_choice, Choice, status, update, summary, leave, other,
  choice_of, menu_round, handle_user_input,
}

-- A datagram that was sent is shorter than the buffer.
abbrev pub Fits : Event → Type 0
Fits (sent text) = length text < buffer_size
Fits e = Unit

abbrev pub AllFit : Client → Type 0
AllFit c = All Fits c.events

abbrev Keeps : {A : Type 0} → Run A → Type 0
Keeps m = (c : Client) → AllFit c → AllFit (m c).1

AllFit-and_then :
    {A B : Type 0} (f : A → Run B) (o : Result A × Client)
    → AllFit o.1
    → ((a : A) → Keeps (f a))
    → AllFit (and_then f o).1
AllFit-and_then f (returns a, c) h k = k a c h
AllFit-and_then f (again, c) h k = h
AllFit-and_then f (leaves, c) h k = h
AllFit-and_then f (crashes, c) h k = h
AllFit-and_then f (blocks, c) h k = h
AllFit-and_then f (out_of_fuel, c) h k = h
AllFit-and_then f (exits s, c) h k = h

then-Keeps :
    {A B : Type 0} (m : Run A) (f : A → Run B)
    → Keeps m
    → ((a : A) → Keeps (f a))
    → Keeps (λ c. and_then f (m c))
then-Keeps m f t u c h = AllFit-and_then f (m c) (t c h) u

emit-Keeps : (e : Event) → Fits e → Keeps (emit e)
emit-Keeps e fits c h = All-append Fits c.events (e ∷ []) h (fits, tt)

read_input-Keeps : Keeps read_input
unfolding read_input
read_input-Keeps c h = elim (Option-cases (fgets 1024 c.stdin)) [
  | inl e ↦ rw (e, read_input) (emit-Keeps (says "Error reading input") tt c h)
  | inr ((line, rest), e) ↦ rw (e, read_input) h
]

amount_or_leave-Keeps : (o : Option ℤ) → Keeps (amount_or_leave o)
unfolding amount_or_leave
amount_or_leave-Keeps none c h = emit-Keeps (says "Error converting input to integer") tt c h
amount_or_leave-Keeps (some value) c h = h

scan_int-Keeps : Keeps scan_int
unfolding scan_int
scan_int-Keeps c h = h

read_amount-Keeps : Keeps read_amount
unfolding read_amount
read_amount-Keeps = then-Keeps scan_int amount_or_leave scan_int-Keeps amount_or_leave-Keeps

send_to_server-Keeps : (text : Bytes) → Keeps (send_to_server text)
unfolding send_to_server
send_to_server-Keeps text c h = elim (Bool-cases (leb buffer_size (length text))) [
  | inl long ↦ rw long (emit-Keeps (says "Error: Message exceeds buffer size") tt c h)
  | inr short ↦ rw short (emit-Keeps (sent text) (leb-lt buffer_size (length text) short) c h)
]
  where
    leb-lt : (a b : ℕ) → leb a b ≡ false → b < a
    leb-lt a b h = ground arith

returns-ne-crashes : {A : Type 0} {a : A} → returns a ≢ crashes
returns-ne-crashes e = cc

module _ (C : CJson) where
  send_json-Keeps : (json : C.Json) → Keeps (send_json C json)
  unfolding send_json
  send_json-Keeps json c h = elim (Option-cases (C.print json)) [
    | inl e ↦
        rw (e, send_json)
          (emit-Keeps (says "Error: Unable to convert cJSON object to JSON string") tt c h)
    | inr (text, e) ↦ rw (e, send_json) (send_to_server-Keeps text c h)
  ]

  module _ (hostname : Bytes) where
    add_amount-Keeps :
        (section : String) (choice : Bytes → Option String) (input : Bytes) (value : ℤ)
        → Keeps (add_amount C hostname section choice input value)
    unfolding add_amount
    add_amount-Keeps section choice input value c h = elim (Option-cases (choice input)) [
      | inl e ↦ rw (e, add_amount) (emit-Keeps (says "Invalid option.") tt c h)
      | inr (key, e) ↦ rw (e, add_amount) h
    ]

    amount_for-Keeps :
        (section : String) (choice : Bytes → Option String) (input : Bytes)
        → Keeps (amount_for C hostname section choice input)
    unfolding amount_for
    amount_for-Keeps section choice input =
        then-Keeps read_amount (add_amount C hostname section choice input) read_amount-Keeps
          (add_amount-Keeps section choice input)

    update_section-Keeps :
        (section : String) (choice : Bytes → Option String)
        → Keeps (update_section C hostname section choice)
    unfolding update_section
    update_section-Keeps section choice =
        then-Keeps read_input (amount_for C hostname section choice) read_input-Keeps
          (amount_for-Keeps section choice)

    choose_section-Keeps : (input : Bytes) → Keeps (choose_section C hostname input)
    unfolding choose_section
    choose_section-Keeps input c h = elim (Bool-cases (equal input (codes "1\n"))) [
      | inl e ↦ rw e (update_section-Keeps "food" food_choice c h)
      | inr n ↦ elim (Bool-cases (equal input (codes "2\n"))) [
        | inl e ↦ rw (n, e) (update_section-Keeps "medicine" medicine_choice c h)
        | inr o ↦ rw (n, o) (emit-Keeps (says "Invalid option.") tt c h)
      ]
    ]

    send_update-Keeps : (input : Bytes) → Keeps (send_update C hostname input)
    unfolding send_update
    send_update-Keeps input =
        then-Keeps (choose_section C hostname input) (send_json C) (choose_section-Keeps input)
          send_json-Keeps

    update_supplies-Keeps : Keeps (update_supplies C hostname)
    unfolding update_supplies
    update_supplies-Keeps =
        then-Keeps read_input (send_update C hostname) read_input-Keeps send_update-Keeps

    interrupt_child-Keeps : Keeps interrupt_child
    unfolding interrupt_child
    interrupt_child-Keeps c h = elim (Bool-cases c.has_child) [
      | inl e ↦ rw e (emit-Keeps child_interrupted tt c h)
      | inr e ↦ rw e h
    ]

    process_choice-Keeps : (choice : Choice) → Keeps (process_choice C hostname choice)
    unfolding process_choice set_disconnected
    process_choice-Keeps status c h = send_json-Keeps _ c h
    process_choice-Keeps update c h = update_supplies-Keeps c h
    process_choice-Keeps summary c h = send_json-Keeps _ c h
    process_choice-Keeps leave c h =
        AllFit-and_then _ (interrupt_child c) (interrupt_child-Keeps c h)
          (λ _ c' k. emit-Keeps socket_closed tt (record c' { connected = false }) k)
    process_choice-Keeps other c h =
        emit-Keeps (says "Invalid option. Please choose a valid option.") tt c h

    menu_round-Keeps : Keeps (menu_round C hostname)
    unfolding menu_round
    menu_round-Keeps =
        then-Keeps read_input _ read_input-Keeps (λ input. process_choice-Keeps (choice_of input))

    after_round-Keeps :
        (more : Client → Result (Unit {0}) × Client) (o : Result (Unit {0}) × Client)
        → AllFit o.1
        → ((c : Client) → AllFit c → AllFit (more c).1)
        → AllFit (after_round C more o).1
    unfolding after_round
    after_round-Keeps more (returns _, c) h k = k c h
    after_round-Keeps more (again, c) h k = k c h
    after_round-Keeps more (leaves, c) h k = h
    after_round-Keeps more (crashes, c) h k = h
    after_round-Keeps more (blocks, c) h k = h
    after_round-Keeps more (out_of_fuel, c) h k = h
    after_round-Keeps more (exits s, c) h k = h

    -- Whatever the user types, for as many rounds as one likes, every datagram that the menu loop has
    -- sent is shorter than the buffer of 1024 bytes, if those sent before are.
    pub handle_user_input-AllFit :
        (fuel : ℕ) (c : Client) → AllFit c → AllFit (handle_user_input C hostname fuel c).1
    unfolding handle_user_input
    handle_user_input-AllFit zero c h = h
    handle_user_input-AllFit (suc fuel) c h = elim (Bool-cases c.connected) [
      | inr off ↦ rw (off, handle_user_input) h
      | inl on ↦
          rw (on, handle_user_input)
            (after_round-Keeps (handle_user_input C hostname fuel) (menu_round C hostname c)
              (menu_round-Keeps c h) (handle_user_input-AllFit fuel))
    ]
