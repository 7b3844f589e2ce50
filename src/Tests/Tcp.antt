-- ===== src/Tests/Tcp.antt =====
-- The theorems on the TCP client, at concrete inputs.
use shelter_server_hpc.Prelude.{
  ◌≡◌, ◌≢◌, refl, arith, pos, negsuc, if◌then◌else◌, some, List, [], ◌∷◌, ◌++◌, Bytes, codes, map,
}
use shelter_server_hpc.CJson.Trees.{trees, trees-IsLawful}
use shelter_server_hpc.CJson.Trees.Printed.{serialize}
use shelter_server_hpc.Supplies.Update.{update_food, update_medicine}
use shelter_server_hpc.Supplies.Arithmetic.{clamped_sum}
use shelter_server_hpc.TcpClient.Session.{
  Client, returns, out_of_fuel, sent, recv_bytes, recv_closed,
}
use shelter_server_hpc.TcpClient.Zip.{receive_zip_loop, complete}
use shelter_server_hpc.TcpClient.ZipLaws.{concat, receive_zip_loop-complete}
use shelter_server_hpc.TcpClient.Menu.{menu_round, handle_user_input, update_json}
use shelter_server_hpc.TcpClient.Shrinks.{handle_user_input_ends}
use shelter_server_hpc.TcpClient.Update.{meat, water, amount}
use shelter_server_hpc.TcpClient.Update.Menu.{typed}
use shelter_server_hpc.TcpClient.Update.Request.{is_item}
use shelter_server_hpc.TcpClient.Update.Stored.{menu_round-update_supplies}
use shelter_server_hpc.Tests.Data.{
  some_food, some_medicine, some_food-IsFood, some_medicine-IsMedicine, process, meat-Fits,
}

abbrev message : Bytes
message = serialize (update_json trees "food" "meat" (negsuc 3))

-- The user takes 4 rations of meat, and the water stays.
menu_round-update_supplies_example :
    (menu_round trees (process (typed meat (negsuc 3) (codes "5\n")) []) ≡ (
      returns tt,
      record (process (typed meat (negsuc 3) (codes "5\n")) []) {
        stdin = codes "5\n";
        events = [] ++ (sent message ∷ []);
      },
    ))
    × (amount water
          (update_food trees (negsuc 0) (trees.parse (some message)) some_food)
          (update_medicine trees (negsuc 0) (trees.parse (some message)) some_medicine)
        ≡ (if is_item meat water
            then clamped_sum (amount water some_food some_medicine) (negsuc 3)
            else amount water some_food some_medicine))
menu_round-update_supplies_example =
    menu_round-update_supplies trees trees-IsLawful some_food some_medicine some_food-IsFood
      some_medicine-IsMedicine (process (typed meat (negsuc 3) (codes "5\n")) []) meat water
      (negsuc 3) (codes "5\n") message (negsuc 0) refl (omega arith) refl refl meat-Fits

handle_user_input_ends_example :
    (handle_user_input trees 10 (process (codes "3\n5\n") [])).0 ≢ out_of_fuel
handle_user_input_ends_example =
    handle_user_input_ends trees 10 (process (codes "3\n5\n") []) (omega arith)

abbrev chunks : List Bytes
chunks = codes "PK" ∷ []

receive_zip_loop-complete_example :
    receive_zip_loop (pos 5) 0 [] (map recv_bytes chunks ++ (recv_bytes (codes "data") ∷ []))
    ≡ (concat chunks ++ codes "data", complete, [])
receive_zip_loop-complete_example =
    receive_zip_loop-complete 5 chunks (codes "data") [] (omega arith) (omega arith)

-- A message that is no JSON, then the end of the connection.
abbrev child : Client
child = process [] (recv_bytes (codes "hello") ∷ recv_closed ∷ [])
