-- ===== src/Alerts/Entry.antt =====
-- `detectEntry` of src/server/utils.cpp, and the counters that `checkAlerts` keeps for the entries.
use shelter_server_hpc.Prelude.{ℕ, ◌+◌, Option, none, some, Bytes, codes, contains, if◌then◌else◌}

-- The four names that `detectEntry` returns.
pub data Entry : Type 0 where
  north south east west : Entry

unfoldable pub detect_entry : Bytes → Option Entry
unfolding contains
detect_entry message =
    if contains message (codes "NORTH")
    then some north
    else if contains message (codes "SOUTH")
    then some south
    else if contains message (codes "EAST")
    then some east
    else if contains message (codes "WEST")
    then some west
    else none

pub record EntryAlertsCount : Type 0 where
  pub north : ℕ
  pub south : ℕ
  pub east : ℕ
  pub west : ℕ

-- The end of `checkAlerts`: one counter goes up, if an entry was found.
unfoldable pub count_entry : Option Entry → EntryAlertsCount → EntryAlertsCount
count_entry none c = c
count_entry (some Entry.north) c = record c { north = c.north + 1 }
count_entry (some Entry.south) c = record c { south = c.south + 1 }
count_entry (some Entry.east) c = record c { east = c.east + 1 }
count_entry (some Entry.west) c = record c { west = c.west + 1 }
