-- ===== src/Alerts/Sensors.antt =====
-- `Sensor`, `get_temperature`, `update_sensor_values`, and `initiateAlertModule` of the server.
-- A temperature is a number of tenths of a degree: the code makes each one as an integer divided by
-- 10. The numbers that `rand` gives are a function of the number of its calls so far.
use shelter_server_hpc.Prelude.{ℕ, ◌+◌, ◌*◌, ◌%◌, List, [], ◌∷◌, Bytes, codes, ltb, if◌then◌else◌}

pub record Sensor : Type 0 where
  pub name : Bytes
  pub temperature : ℕ

abbrev pub rand_max : ℕ
rand_max = 2147483647

-- THRESHOLD_TEMP, 38.0
abbrev pub threshold_temp : ℕ
threshold_temp = 380

-- The two calls of `rand` give `chance` and `value`. `high_temperature_probability` is 10⁻¹¹.
unfoldable pub get_temperature : ℕ → ℕ → ℕ
get_temperature chance value =
    if ltb (chance * 100_000_000_000) rand_max then value % 51 + 380 else value % 40 + 350

-- The loop over the sensors; `calls` is the number of calls of `rand` before it.
unfoldable pub update_sensor_values : (ℕ → ℕ) → ℕ → List Sensor → List Sensor
update_sensor_values rand calls [] = []
update_sensor_values rand calls (s ∷ sensors) =
    record s { temperature = get_temperature (rand calls) (rand (calls + 1)) }
    ∷ update_sensor_values rand (calls + 2) sensors

-- `new Sensor[NUM_SENSORS]` leaves the temperatures open; they are given.
unfoldable pub initiate_alert_module : ℕ → ℕ → ℕ → ℕ → List Sensor
initiate_alert_module t₀ t₁ t₂ t₃ =
    record { name = codes "NORTH ENTRY"; temperature = t₀ }
    ∷ record { name = codes "SOUTH ENTRY"; temperature = t₁ }
    ∷ record { name = codes "WEST ENTRY"; temperature = t₂ }
    ∷ record { name = codes "EAST ENTRY"; temperature = t₃ }
    ∷ []
