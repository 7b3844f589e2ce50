-- ===== src/Tests/Rest.antt =====
-- The REST interface, at concrete databases.
use shelter_server_hpc.Nlohmann.Trees.{find_exact}
use shelter_server_hpc.Nlohmann.Trees.{put_exact}
use shelter_server_hpc.Prelude.{contains}
use shelter_server_hpc.Prelude.{◌≡◌, refl, pos, [], ◌∷◌, Bytes, codes, equal}
use shelter_server_hpc.CJson.Trees.Printed.{serialize}
use shelter_server_hpc.Nlohmann.Trees.{json_trees, json_trees-IsLawful}
use shelter_server_hpc.Exec.{ok}
use shelter_server_hpc.Wrapper.Entries.{Entries}
use shelter_server_hpc.Wrapper.Memory.{ordered, ordered-IsOrdered}
use shelter_server_hpc.Stdio.{print_int}
use shelter_server_hpc.Server.State.{State, key_of, supplies_key_prefix}
use shelter_server_hpc.Server.TcpMessages.{handle_json}
use shelter_server_hpc.Server.TcpUpdate.{update_entries}
use shelter_server_hpc.Server.Rest.{answer, handle_rest_alerts, handle_rest_supplies}
use shelter_server_hpc.Server.RestStatus.{AllDump, expected_status, handle_rest_alerts-status}
use shelter_server_hpc.Server.RestLaws.{
  with_id, ServerKeys, of_stock, of_others, handle_rest_supplies-handle_json,
  handle_rest_supplies-missing,
}
use shelter_server_hpc.Tests.Served.{moment, libraries, stored-Puts, now, alerted}
use shelter_server_hpc.Tests.Updated.{serving, request, updates, new_text, new_stock, line, updated}

abbrev updated_server : State Entries
updated_server = (handle_json libraries moment (pos 7) request serving).1

handle_rest_supplies-handle_json_example :
    handle_rest_supplies json_trees ordered (with_id (codes "latest")) updated_server.db
    ≡ (ok (answer 200 new_text), updated_server.db)
unfolding find_exact put_exact equal
handle_rest_supplies-handle_json_example =
    handle_rest_supplies-handle_json libraries ordered-IsOrdered json_trees-IsLawful moment (pos 7)
      request (json_trees.text (codes "update")) new_text serving updated updates refl refl refl
      refl (stored-Puts new_stock (update_entries libraries serving now line new_text)) refl

-- A stored update with the identifier 1.
abbrev one_update : Entries
one_update =
    (codes "lastEvent", line)
    ∷ (key_of supplies_key_prefix (print_int (pos 1)) (codes "12:30"), new_text)
    ∷ []

one_update-ServerKeys : ServerKeys one_update
unfolding contains
one_update-ServerKeys = (
  of_others (codes "lastEvent") refl,
  (of_stock (pos 1) (codes "12:30") (refl, (refl, (refl, (refl, (refl, tt))))), tt),
)

handle_rest_supplies-missing_example :
    handle_rest_supplies json_trees ordered (with_id (codes "1")) one_update
    ≡ (ok (answer 404 (codes "ID not found")), one_update)
unfolding equal
handle_rest_supplies-missing_example =
    handle_rest_supplies-missing json_trees ordered b'1' [] one_update refl one_update-ServerKeys
      refl

trees-AllDump : (es : Entries) → AllDump json_trees ordered es
trees-AllDump [] = tt
trees-AllDump ((k, v) ∷ es) =
    ((serialize (json_trees.set json_trees.null k (json_trees.text v)), refl), trees-AllDump es)

handle_rest_alerts-status_example :
    (t : Bytes) × (handle_rest_alerts json_trees ordered ((codes "id", codes "5") ∷ []) alerted
      ≡ (ok (answer (expected_status ((codes "id", codes "5") ∷ []) alerted) t), alerted))
handle_rest_alerts-status_example =
    handle_rest_alerts-status json_trees ordered ((codes "id", codes "5") ∷ []) alerted
      (trees-AllDump alerted) refl
