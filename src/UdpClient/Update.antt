-- ===== src/UdpClient/Update.antt =====
-- An update from the keyboard of the UDP client to the stock of the server.
use shelter_server_hpc.Prelude.{
  ℕ, ◌≡◌, refl, ap, ◌∙◌, ◌<◌, arith, ℤ, IsInt, leb, false, some, Bytes, codes, [], ◌∷◌, ◌++◌, equal,
  if◌then◌else◌, length,
}
use shelter_server_hpc.CJson.{CJson, IsLawful}
use shelter_server_hpc.Stdio.{fgets, print_int}
use shelter_server_hpc.Supplies.Stock.{FoodSupply, MedicineSupply, IsFood, IsMedicine}
use shelter_server_hpc.Supplies.Update.{update_food, update_medicine}
use shelter_server_hpc.Supplies.Arithmetic.{Fits, clamped_sum}
use shelter_server_hpc.TcpClient.Session.{Client, returns, sent}
use shelter_server_hpc.TcpClient.Tame.{read_input-some}
use shelter_server_hpc.TcpClient.Update.{
  Item, Section, food, medicine, section_of, section_name, item_name, section_line, item_line,
  amount,
}
use shelter_server_hpc.TcpClient.Update.Request.{is_item, hostname_json-get}
use shelter_server_hpc.TcpClient.Update.Menu.{
  typed, fgets-section_line, fgets-item_line, fgets-update_line, section_choice, choice-item_line,
  read_amount-print_int,
}
use shelter_server_hpc.TcpClient.Update.Stored.{update-message_for}
use shelter_server_hpc.UdpClient.Menu.{
  update, choice_of, message_json, update_json, add_amount, amount_for, update_section,
  choose_section, send_update, update_supplies, process_choice, menu_round, send_to_server,
  send_json,
}

choice-update_line : choice_of (codes "2\n") ≡ update
unfolding choice_of equal
choice-update_line = refl

leb-false : (a b : ℕ) → b < a → leb a b ≡ false
leb-false a b h = ground arith

send_to_server-sent :
    (c : Client) (text : Bytes)
    → length text < 1024
    → send_to_server text c ≡ (returns tt, record c { events = c.events ++ (sent text ∷ []) })
unfolding send_to_server
send_to_server-sent c text h = rw (leb-false 1024 (length text) h)

module _ (C : CJson) (hostname : Bytes) where
  amount_for-item_line :
      (c : Client) (i : Item) (v : ℤ) (rest : Bytes)
      → IsInt v
      → c.stdin ≡ print_int v ++ (b'\n' ∷ rest)
      → amount_for C hostname
          (section_name (section_of i))
          (section_choice (section_of i))
          (item_line i)
          c
        ≡ (
          returns (update_json C hostname (section_name (section_of i)) (item_name i) v),
          record c { stdin = rest },
        )
  unfolding amount_for add_amount
  amount_for-item_line c i v rest range e =
      rw (read_amount-print_int c v rest range e, add_amount, choice-item_line i) refl

  choose_section-section_line :
      (s : Section)
      → choose_section C hostname (section_line s)
        ≡ update_section C hostname (section_name s) (section_choice s)
  unfolding choose_section equal
  choose_section-section_line food = refl
  choose_section-section_line medicine = refl

  update_section-item_line :
      (c : Client) (i : Item) (v : ℤ) (rest : Bytes)
      → IsInt v
      → c.stdin ≡ item_line i ++ (print_int v ++ (b'\n' ∷ rest))
      → update_section C hostname (section_name (section_of i)) (section_choice (section_of i)) c
        ≡ (
          returns (update_json C hostname (section_name (section_of i)) (item_name i) v),
          record c { stdin = rest },
        )
  unfolding update_section
  update_section-item_line c i v rest range e =
      rw (read_input-some c (item_line i) _ (ap (fgets 1024) e ∙ fgets-item_line i _))
        (amount_for-item_line _ i v rest range refl)

  send_update-section_line :
      (c : Client) (i : Item) (v : ℤ) (rest text : Bytes)
      → IsInt v
      → c.stdin ≡ item_line i ++ (print_int v ++ (b'\n' ∷ rest))
      → C.print (update_json C hostname (section_name (section_of i)) (item_name i) v) ≡ some text
      → length text < 1024
      → send_update C hostname (section_line (section_of i)) c
        ≡ (returns tt, record c { stdin = rest; events = c.events ++ (sent text ∷ []) })
  unfolding send_update
  send_update-section_line c i v rest text range e p short =
      rw
        (
          choose_section-section_line (section_of i),
          update_section-item_line c i v rest range e,
          send_json,
          p,
        )
        (send_to_server-sent _ text short)

  update_supplies_typed :
      (c : Client) (i : Item) (v : ℤ) (rest text : Bytes)
      → IsInt v
      → c.stdin ≡ section_line (section_of i) ++ (item_line i ++ (print_int v ++ (b'\n' ∷ rest)))
      → C.print (update_json C hostname (section_name (section_of i)) (item_name i) v) ≡ some text
      → length text < 1024
      → update_supplies C hostname c
        ≡ (returns tt, record c { stdin = rest; events = c.events ++ (sent text ∷ []) })
  unfolding update_supplies
  update_supplies_typed c i v rest text range e p short =
      rw
        (read_input-some c (section_line (section_of i)) _
          (ap (fgets 1024) e ∙ fgets-section_line (section_of i) _))
        (send_update-section_line _ i v rest text range refl p short)

  menu_round-some :
      (c : Client) (line rest : Bytes)
      → fgets 1024 c.stdin ≡ some (line, rest)
      → menu_round C hostname c
        ≡ process_choice C hostname (choice_of line) (record c { stdin = rest })
  unfolding menu_round
  menu_round-some c line rest e = rw (read_input-some c line rest e, menu_round)

  menu_round_update :
      (c : Client) (i : Item) (v : ℤ) (rest text : Bytes)
      → IsInt v
      → c.stdin ≡ typed i v rest
      → C.print (update_json C hostname (section_name (section_of i)) (item_name i) v) ≡ some text
      → length text < 1024
      → menu_round C hostname c
        ≡ (returns tt, record c { stdin = rest; events = c.events ++ (sent text ∷ []) })
  unfolding process_choice
  menu_round_update c i v rest text range e p short =
      menu_round-some c (codes "2\n") _ (ap (fgets 1024) e ∙ fgets-update_line _)
      ∙ rw choice-update_line (update_supplies_typed _ i v rest text range refl p short)

module _ (C : CJson) (L : IsLawful C) (f : FoodSupply) (m : MedicineSupply) (v : IsFood f)
    (w : IsMedicine m) (hostname : Bytes) where
  -- If the user of the UDP client types an amount for a supply and the printed message fits the
  -- buffer, one datagram is sent, and `update_supplies_from_json` on the tree that cJSON parses from
  -- it, with valid stock and no sum beyond the largest `int`, adds the amount to that supply, at least
  -- 0 stays, and leaves every other supply as it was.
  pub menu_round-update_datagram :
      (c : Client) (i j : Item) (n : ℤ) (rest text : Bytes) (undef : ℤ)
      → IsInt n
      → c.stdin ≡ typed i n rest
      → C.print (update_json C hostname (section_name (section_of i)) (item_name i) n) ≡ some text
      → length text < 1024
      → Fits (amount i f m) n
      → (menu_round C hostname c
          ≡ (returns tt, record c { stdin = rest; events = c.events ++ (sent text ∷ []) }))
        × (amount j
              (update_food C undef (C.parse (some text)) f)
              (update_medicine C undef (C.parse (some text)) m)
            ≡ (if is_item i j then clamped_sum (amount j f m) n else amount j f m))
  menu_round-update_datagram c i j n rest text undef range e p short fits = (
    menu_round_update C hostname c i n rest text range e p short,
    update-message_for C L f m v w (message_json C hostname "update")
        (hostname_json-get C L hostname "update") i n text undef range p fits j,
  )
