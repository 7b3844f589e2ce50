-- ===== src/Tests/Udp.antt =====
-- The theorems on the UDP client, at concrete inputs.
use shelter_server_hpc.Prelude.{
  ◌≡◌, ◌≢◌, refl, ◌<◌, arith, negsuc, if◌then◌else◌, some, [], ◌∷◌, ◌++◌, Bytes, codes, length,
}
use shelter_server_hpc.CJson.Trees.{trees, trees-IsLawful, add_child}
use shelter_server_hpc.CJson.Trees.Printed.{serialize}
use shelter_server_hpc.Supplies.Update.{update_food, update_medicine}
use shelter_server_hpc.Supplies.Arithmetic.{clamped_sum}
use shelter_server_hpc.TcpClient.Session.{Client, returns, out_of_fuel, sent, recv_bytes}
use shelter_server_hpc.TcpClient.Update.{meat, water, amount}
use shelter_server_hpc.TcpClient.Update.Menu.{typed}
use shelter_server_hpc.TcpClient.Update.Request.{is_item}
use shelter_server_hpc.UdpClient.Menu.{menu_round, update_json, handle_user_input}
use shelter_server_hpc.UdpClient.Ends.{handle_user_input_halts}
use shelter_server_hpc.UdpClient.Update.{menu_round-update_datagram}
use shelter_server_hpc.UdpClient.Bounds.{AllFit, handle_user_input-AllFit}
use shelter_server_hpc.Tests.Data.{
  some_food, some_medicine, some_food-IsFood, some_medicine-IsMedicine, process, meat-Fits,
}

abbrev message : Bytes
message = serialize (update_json trees (codes "ubuntu") "food" "meat" (negsuc 3))

message-short : length message < 1024
unfolding serialize add_child
message-short = omega arith

menu_round-update_datagram_example :
    (menu_round trees (codes "ubuntu") (process (typed meat (negsuc 3) (codes "4\n")) []) ≡ (
      returns tt,
      record (process (typed meat (negsuc 3) (codes "4\n")) []) {
        stdin = codes "4\n";
        events = [] ++ (sent message ∷ []);
      },
    ))
    × (amount water
          (update_food trees (negsuc 0) (trees.parse (some message)) some_food)
          (update_medicine trees (negsuc 0) (trees.parse (some message)) some_medicine)
        ≡ (if is_item meat water
            then clamped_sum (amount water some_food some_medicine) (negsuc 3)
            else amount water some_food some_medicine))
menu_round-update_datagram_example =
    menu_round-update_datagram trees trees-IsLawful some_food some_medicine some_food-IsFood
      some_medicine-IsMedicine (codes "ubuntu") (process (typed meat (negsuc 3) (codes "4\n")) [])
      meat water (negsuc 3) (codes "4\n") message (negsuc 0) (omega arith) refl refl message-short
      meat-Fits

handle_user_input-AllFit_example :
    AllFit (handle_user_input trees (codes "ubuntu") 10 (process (codes "3\n4\n") [])).1
handle_user_input-AllFit_example =
    handle_user_input-AllFit trees (codes "ubuntu") 10 (process (codes "3\n4\n") []) tt

handle_user_input_halts_example :
    (handle_user_input trees (codes "ubuntu") 10 (process (codes "3\n4\n") [])).0 ≢ out_of_fuel
handle_user_input_halts_example =
    handle_user_input_halts trees (codes "ubuntu") 10 (process (codes "3\n4\n") []) (omega arith)

-- Two datagrams, of which the first one is no JSON.
abbrev child : Client
child = process [] (recv_bytes (codes "hello") ∷ recv_bytes message ∷ [])
