-- ===== src/Tests/Alarms.antt =====
-- The theorems on the alerts and the failure notices, at concrete inputs.
use shelter_server_hpc.Prelude.{ℕ, ◌*◌, ◌≡◌, refl, List, [], ◌∷◌, map, All, length}
use shelter_server_hpc.Alerts.Sensors.{
  initiate_alert_module, Sensor, get_temperature, update_sensor_values,
}
use shelter_server_hpc.Alerts.Message.{Fifo, writes, alert_message}
use shelter_server_hpc.Alerts.Entry.{Entry, north, south, east, west, detect_entry}
use shelter_server_hpc.Alerts.Range.{IsReading, update_sensor_values_lem}
use shelter_server_hpc.Alerts.Process.{alerts_rounds, hot_rounds, initiate_alert_module-hot_rounds}
use shelter_server_hpc.Alerts.Detection.{sensors_at}
use shelter_server_hpc.Emergency.Laws.{Notified, notify, notify-Notified}
use shelter_server_hpc.Tests.Data.{kernel}

abbrev readings : List (Entry × ℕ)
readings = (north, 365) ∷ (south, 402) ∷ (west, 380) ∷ (east, 389) ∷ []

abbrev whole : Sensor → Fifo
whole s = writes (length (alert_message s.temperature s.name))

initiate_alert_module-hot_rounds_example :
    map
      (map detect_entry)
      (alerts_rounds (λ n. n * 7) (λ k. whole) 2 0 (initiate_alert_module 0 0 0 0))
    ≡ hot_rounds (λ n. n * 7) 2 0 ((north, 0) ∷ (south, 0) ∷ (west, 0) ∷ (east, 0) ∷ [])
initiate_alert_module-hot_rounds_example =
    initiate_alert_module-hot_rounds (λ n. n * 7) (λ k. whole) 2 0 0 0 0 (λ k s. refl)

abbrev chance : ℕ
chance = 7

abbrev value : ℕ
value = 31

-- A reading in the range that the code calls normal passes the threshold.
normal_alert : get_temperature 7 31 ≡ 381
unfolding get_temperature
normal_alert = refl

update_sensor_values_lem_example :
    (map (λ s. s.name) (update_sensor_values (λ n. n * 7) 0 (sensors_at readings))
      ≡ map (λ s. s.name) (sensors_at readings))
    × All IsReading (update_sensor_values (λ n. n * 7) 0 (sensors_at readings))
update_sensor_values_lem_example = update_sensor_values_lem (λ n. n * 7) 0 (sensors_at readings)

notify-Notified_example : Notified [] (notify kernel [])
notify-Notified_example = notify-Notified kernel []
