-- ===== src/Alerts/Range.antt =====
-- The temperatures that the sensors take, and when one of them raises an alert.
use shelter_server_hpc.Prelude.{
  ℕ, zero, suc, ◌+◌, ◌%◌, ◌≤◌, ◌<◌, ◌≡◌, ◌≢◌, refl, ◌↔◌, ◌⊎◌, inl, inr, arith, List, [], ◌∷◌, map,
  Bytes, All, ap,
}
use shelter_server_hpc.Alerts.Sensors.{
  Sensor, threshold_temp, get_temperature, update_sensor_values,
}

-- A reading lies between 38.0 and 43.0 degrees if the first random number is 0, and between 35.0 and
-- 38.9 otherwise.
pub get_temperature_range :
    (chance value : ℕ)
    → (chance ≡ 0) × (380 ≤ get_temperature chance value) × (get_temperature chance value ≤ 430)
      ⊎ (chance ≢ 0) × (350 ≤ get_temperature chance value) × (get_temperature chance value ≤ 389)
unfolding get_temperature
get_temperature_range zero value = inl (refl, omega arith, omega arith)
get_temperature_range (suc chance) value = inr (omega arith, ground arith, ground arith)

-- A reading passes the threshold exactly if the first random number is 0 and the second no multiple
-- of 51, or the first is not 0 and the second leaves more than 30 on division by 40.
pub get_temperature_alerts_iff :
    (chance value : ℕ)
    → (threshold_temp < get_temperature chance value)
      ↔ ((chance ≡ 0) × (0 < value % 51) ⊎ (chance ≢ 0) × (30 < value % 40))
unfolding get_temperature
get_temperature_alerts_iff chance value = (λ h. ground arith, λ h. ground arith)

-- A reading of 35.0 to 43.0 degrees.
abbrev pub IsReading : Sensor → Type 0
IsReading s = (350 ≤ s.temperature) × (s.temperature ≤ 430)

-- One round of readings keeps the sensors and their names in order, and leaves every temperature
-- between 35.0 and 43.0 degrees.
pub update_sensor_values_lem :
    (rand : ℕ → ℕ) (calls : ℕ) (sensors : List Sensor)
    → (map (λ s. s.name) (update_sensor_values rand calls sensors) ≡ map (λ s. s.name) sensors)
      × All IsReading (update_sensor_values rand calls sensors)
unfolding update_sensor_values
update_sensor_values_lem rand calls [] = (refl, tt)
update_sensor_values_lem rand calls (s ∷ sensors) =
    let (names, readings) = update_sensor_values_lem rand (calls + 2) sensors in
    (ap (λ (r : List Bytes). s.name ∷ r) names, (unfold get_temperature in ground arith, readings))
