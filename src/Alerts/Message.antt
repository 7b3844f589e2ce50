-- ===== src/Alerts/Message.antt =====
-- `send_alert` and `check_temperature_threshold`: the bytes that reach the FIFO.
use shelter_server_hpc.Prelude.{
  ℕ, zero, suc, ◌/◌, ◌%◌, List, [], ◌∷◌, ◌++◌, Bytes, codes, ltb, if◌then◌else◌,
}
use shelter_server_hpc.Stdio.{decimal}
use shelter_server_hpc.Alerts.Sensors.{Sensor, threshold_temp}

-- `sprintf(alert_message, "%s, ALERT, %.1f°C ", sensor_name, temperature)`, in UTF-8
unfoldable pub alert_message : ℕ → Bytes → Bytes
unfolding decimal
alert_message temperature name =
    name
    ++ (codes ", ALERT, "
        ++ (decimal (temperature / 10)
            ++ (b'.' ∷ decimal (temperature % 10) ++ (0xC2 ∷ 0xB0 ∷ b'C' ∷ b' ' ∷ []))))

-- What the system does with one alert: `open` fails, `write` fails, or `write` takes some bytes.
pub data Fifo : Type 0 where
  open_fails : Fifo
  write_fails : Fifo
  writes : ℕ → Fifo

abbrev pub take_bytes : ℕ → Bytes → Bytes
take_bytes zero bs = []
take_bytes (suc n) [] = []
take_bytes (suc n) (b ∷ bs) = b ∷ take_bytes n bs

-- The bytes that the FIFO gets; every error is only printed.
unfoldable pub send_alert : Fifo → ℕ → Bytes → Bytes
send_alert open_fails temperature name = []
send_alert write_fails temperature name = []
send_alert (writes n) temperature name = take_bytes n (alert_message temperature name)

-- The messages of one round over the sensors, for what the system does at each sensor.
unfoldable pub check_temperature_threshold : (Sensor → Fifo) → List Sensor → List Bytes
unfolding send_alert
check_temperature_threshold fifo [] = []
check_temperature_threshold fifo (s ∷ sensors) =
    let rest = check_temperature_threshold fifo sensors in
    if ltb threshold_temp s.temperature
    then send_alert (fifo s) s.temperature s.name ∷ rest
    else rest
