-- ===== src/Alerts/Process.antt =====
-- The process of the server that simulates the sensors: the loop in `createInfectionAlertsProcess` of
-- src/server/server.cpp, with the messages of each round.
use shelter_server_hpc.Prelude.{
  ℕ, zero, suc, ◌+◌, ◌*◌, ◌≤◌, ◌≡◌, refl, ap, arith, Option, List, [], ◌∷◌, Bytes, length, map,
}
use shelter_server_hpc.Alerts.Sensors.{
  Sensor, get_temperature, update_sensor_values, initiate_alert_module,
}
use shelter_server_hpc.Alerts.Message.{Fifo, check_temperature_threshold}
use shelter_server_hpc.Alerts.Entry.{Entry, north, south, east, west, detect_entry}
use shelter_server_hpc.Alerts.Detection.{
  sensors_at, UpTo43, hot_entries, TakesAll, check_temperature_threshold-detect_entry,
}

-- The rounds of the loop, each after its 30 seconds: `calls` counts the calls of `rand`, and `fifo`
-- says what the system does at each sensor of the round.
unfoldable pub alerts_rounds :
    (ℕ → ℕ) → (ℕ → Sensor → Fifo) → ℕ → ℕ → List Sensor → List (List Bytes)
unfolding update_sensor_values check_temperature_threshold
alerts_rounds rand fifo zero calls sensors = []
alerts_rounds rand fifo (suc rounds) calls sensors =
    let updated = update_sensor_values rand calls sensors in
    check_temperature_threshold (fifo calls) updated
    ∷ alerts_rounds rand fifo rounds (calls + 2 * length sensors) updated

-- The entries with the temperatures of the next round.
abbrev pub reread : (ℕ → ℕ) → ℕ → List (Entry × ℕ) → List (Entry × ℕ)
reread rand calls [] = []
reread rand calls ((e, t) ∷ l) =
    (e, get_temperature (rand calls) (rand (calls + 1))) ∷ reread rand (calls + 2) l

-- The entries that are above the threshold in each round.
abbrev pub hot_rounds : (ℕ → ℕ) → ℕ → ℕ → List (Entry × ℕ) → List (List (Option Entry))
hot_rounds rand zero calls l = []
hot_rounds rand (suc rounds) calls l =
    hot_entries (reread rand calls l)
    ∷ hot_rounds rand rounds (calls + 2 * length l) (reread rand calls l)

update-sensors_at :
    (rand : ℕ → ℕ) (calls : ℕ) (l : List (Entry × ℕ))
    → update_sensor_values rand calls (sensors_at l) ≡ sensors_at (reread rand calls l)
unfolding update_sensor_values
update-sensors_at rand calls [] = refl
update-sensors_at rand calls ((e, t) ∷ l) = rw (update-sensors_at rand (calls + 2) l) refl

get_temperature-le : (chance value : ℕ) → get_temperature chance value ≤ 430
unfolding get_temperature
get_temperature-le chance value = ground arith

reread-UpTo43 : (rand : ℕ → ℕ) (calls : ℕ) (l : List (Entry × ℕ)) → UpTo43 (reread rand calls l)
reread-UpTo43 rand calls [] = tt
reread-UpTo43 rand calls ((e, t) ∷ l) =
    (get_temperature-le (rand calls) (rand (calls + 1)), reread-UpTo43 rand (calls + 2) l)

length-sensors_at : (l : List (Entry × ℕ)) → length (sensors_at l) ≡ length l
length-sensors_at [] = refl
length-sensors_at (x ∷ l) = ap suc (length-sensors_at l)

alerts_rounds-hot_rounds :
    (rand : ℕ → ℕ) (fifo : ℕ → Sensor → Fifo) (rounds calls : ℕ) (l : List (Entry × ℕ))
    → ((k : ℕ) → TakesAll (fifo k))
    → map (map detect_entry) (alerts_rounds rand fifo rounds calls (sensors_at l))
      ≡ hot_rounds rand rounds calls l
unfolding alerts_rounds
alerts_rounds-hot_rounds rand fifo zero calls l all = refl
alerts_rounds-hot_rounds rand fifo (suc rounds) calls l all = rw (
  update-sensors_at rand calls l,
  length-sensors_at l,
  check_temperature_threshold-detect_entry (fifo calls) (reread rand calls l) (all calls)
      (reread-UpTo43 rand calls l),
  alerts_rounds-hot_rounds rand fifo rounds (calls + 2 * length l) (reread rand calls l) all,
)

-- However many rounds the process runs and whatever `rand` gives, the server recognises the messages of
-- each round as exactly the entries whose new temperature is above the threshold, in the order of the
-- sensors, if the FIFO takes each message whole.
pub initiate_alert_module-hot_rounds :
    (rand : ℕ → ℕ) (fifo : ℕ → Sensor → Fifo) (rounds t₀ t₁ t₂ t₃ : ℕ)
    → ((k : ℕ) → TakesAll (fifo k))
    → map (map detect_entry) (alerts_rounds rand fifo rounds 0 (initiate_alert_module t₀ t₁ t₂ t₃))
      ≡ hot_rounds rand rounds 0 ((north, t₀) ∷ (south, t₁) ∷ (west, t₂) ∷ (east, t₃) ∷ [])
unfolding initiate_alert_module
initiate_alert_module-hot_rounds rand fifo rounds t₀ t₁ t₂ t₃ all =
    alerts_rounds-hot_rounds rand fifo rounds 0
      ((north, t₀) ∷ (south, t₁) ∷ (west, t₂) ∷ (east, t₃) ∷ []) all
