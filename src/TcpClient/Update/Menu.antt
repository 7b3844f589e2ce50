-- ===== src/TcpClient/Update/Menu.antt =====
-- A round of the menu in which the user enters an amount, and what the server makes of the message.
use shelter_server_hpc.Prelude.{
  ◌≡◌, refl, ap, ◌∙◌, ℤ, IsInt, true, String, Option, some, Bytes, codes, [], ◌∷◌, ◌++◌, equal,
}
use shelter_server_hpc.CJson.{CJson}
use shelter_server_hpc.Stdio.{fgets, read_line, print_int}
use shelter_server_hpc.Stdio.Reading.{scanf_int-print_int}
use shelter_server_hpc.TcpClient.Session.{Client, returns, sent, scan_int, send_json}
use shelter_server_hpc.TcpClient.Menu.{
  update, choice_of, food_choice, medicine_choice, amount_or_leave, read_amount, add_amount,
  amount_for, update_section, choose_section, send_update, update_supplies, process_choice,
  menu_round, update_json,
}
use shelter_server_hpc.TcpClient.Tame.{read_input-some}
use shelter_server_hpc.TcpClient.Shrinks.{menu_round-some}
use shelter_server_hpc.TcpClient.Update.{
  Item, meat, vegetables, fruits, water, antibiotics, analgesics, bandages, Section, food, medicine,
  section_of, section_name, item_name, section_line, item_line,
}

-- What the user types to add `v` to a supply.
abbrev pub typed : Item → ℤ → Bytes → Bytes
typed i v rest =
    codes "2\n" ++ (section_line (section_of i) ++ (item_line i ++ (print_int v ++ (b'\n' ∷ rest))))

pub fgets-section_line :
    (s : Section) (rest : Bytes) → fgets 1024 (section_line s ++ rest) ≡ some (section_line s, rest)
unfolding fgets read_line
fgets-section_line food rest = refl
fgets-section_line medicine rest = refl

pub fgets-item_line :
    (i : Item) (rest : Bytes) → fgets 1024 (item_line i ++ rest) ≡ some (item_line i, rest)
unfolding fgets read_line
fgets-item_line meat rest = refl
fgets-item_line vegetables rest = refl
fgets-item_line fruits rest = refl
fgets-item_line water rest = refl
fgets-item_line antibiotics rest = refl
fgets-item_line analgesics rest = refl
fgets-item_line bandages rest = refl

pub fgets-update_line : (rest : Bytes) → fgets 1024 (codes "2\n" ++ rest) ≡ some (codes "2\n", rest)
unfolding fgets read_line
fgets-update_line rest = refl

abbrev pub section_choice : Section → Bytes → Option String
section_choice food = food_choice
section_choice medicine = medicine_choice

pub choice-item_line : (i : Item) → section_choice (section_of i) (item_line i) ≡ some (item_name i)
unfolding food_choice medicine_choice equal
choice-item_line meat = refl
choice-item_line vegetables = refl
choice-item_line fruits = refl
choice-item_line water = refl
choice-item_line antibiotics = refl
choice-item_line analgesics = refl
choice-item_line bandages = refl

choice-update_line : choice_of (codes "2\n") ≡ update
unfolding choice_of equal
choice-update_line = refl

pub read_amount-print_int :
    (c : Client) (v : ℤ) (rest : Bytes)
    → IsInt v
    → c.stdin ≡ print_int v ++ (b'\n' ∷ rest)
    → read_amount c ≡ (returns v, record c { stdin = rest })
unfolding read_amount amount_or_leave scan_int
read_amount-print_int c v rest range e = rw (e, scanf_int-print_int v b'\n' rest range refl) refl

module _ (C : CJson) where
  amount_for-item_line :
      (c : Client) (i : Item) (v : ℤ) (rest : Bytes)
      → IsInt v
      → c.stdin ≡ print_int v ++ (b'\n' ∷ rest)
      → amount_for C (section_name (section_of i)) (section_choice (section_of i)) (item_line i) c
        ≡ (
          returns (update_json C (section_name (section_of i)) (item_name i) v),
          record c { stdin = rest },
        )
  unfolding amount_for add_amount
  amount_for-item_line c i v rest range e =
      rw (read_amount-print_int c v rest range e, add_amount, choice-item_line i) refl

  choose_section-section_line :
      (s : Section)
      → choose_section C (section_line s) ≡ update_section C (section_name s) (section_choice s)
  unfolding choose_section equal
  choose_section-section_line food = refl
  choose_section-section_line medicine = refl

  update_section-item_line :
      (c : Client) (i : Item) (v : ℤ) (rest : Bytes)
      → IsInt v
      → c.stdin ≡ item_line i ++ (print_int v ++ (b'\n' ∷ rest))
      → update_section C (section_name (section_of i)) (section_choice (section_of i)) c ≡ (
        returns (update_json C (section_name (section_of i)) (item_name i) v),
        record c { stdin = rest },
      )
  unfolding update_section
  update_section-item_line c i v rest range e =
      rw (read_input-some c (item_line i) _ (ap (fgets 1024) e ∙ fgets-item_line i _))
        (amount_for-item_line _ i v rest range refl)

  send_update-section_line :
      (c : Client) (i : Item) (v : ℤ) (rest text : Bytes)
      → IsInt v
      → c.stdin ≡ item_line i ++ (print_int v ++ (b'\n' ∷ rest))
      → C.print (update_json C (section_name (section_of i)) (item_name i) v) ≡ some text
      → send_update C (section_line (section_of i)) c
        ≡ (returns tt, record c { stdin = rest; events = c.events ++ (sent text ∷ []) })
  unfolding send_update
  send_update-section_line c i v rest text range e p =
      rw
        (
          choose_section-section_line (section_of i),
          update_section-item_line c i v rest range e,
          send_json,
          p,
        )
        refl

  update_supplies_typed :
      (c : Client) (i : Item) (v : ℤ) (rest text : Bytes)
      → IsInt v
      → c.stdin ≡ section_line (section_of i) ++ (item_line i ++ (print_int v ++ (b'\n' ∷ rest)))
      → C.print (update_json C (section_name (section_of i)) (item_name i) v) ≡ some text
      → update_supplies C c
        ≡ (returns tt, record c { stdin = rest; events = c.events ++ (sent text ∷ []) })
  unfolding update_supplies
  update_supplies_typed c i v rest text range e p =
      rw
        (read_input-some c (section_line (section_of i)) _
          (ap (fgets 1024) e ∙ fgets-section_line (section_of i) _))
        (send_update-section_line _ i v rest text range refl p)

  -- An authenticated client whose user types an amount for a supply sends the message for that supply
  -- and amount, once, and goes on with the rest of the input.
  pub menu_round_update :
      (c : Client) (i : Item) (v : ℤ) (rest text : Bytes)
      → c.authenticated ≡ true
      → IsInt v
      → c.stdin ≡ typed i v rest
      → C.print (update_json C (section_name (section_of i)) (item_name i) v) ≡ some text
      → menu_round C c
        ≡ (returns tt, record c { stdin = rest; events = c.events ++ (sent text ∷ []) })
  unfolding process_choice
  menu_round_update c i v rest text known range e p =
      menu_round-some C c (codes "2\n") _ (ap (fgets 1024) e ∙ fgets-update_line _)
      ∙ rw (choice-update_line, known) (update_supplies_typed _ i v rest text range refl p)
