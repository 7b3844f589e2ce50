-- ===== src/Alerts/Detection.antt =====
-- The alerts of the sensors, as `detectEntry` of src/server/utils.cpp reads them.
use shelter_server_hpc.Prelude.{
  ℕ, zero, suc, ◌+◌, ◌≤◌, ◌<◌, ◌≡◌, refl, ap, arith, Bool, true, false, ◌&&◌, Option, some, List,
  [], ◌∷◌, ◌++◌, map, Bytes, codes, ltb, leb, leb→le, ◌/◌, ◌%◌, length, if◌then◌else◌,
  length-append, Bool-cases, inl, inr, All,
}
use shelter_server_hpc.Stdio.{decimal}
use shelter_server_hpc.Alerts.Sensors.{Sensor, threshold_temp}
use shelter_server_hpc.Alerts.Message.{
  alert_message, take_bytes, Fifo, writes, send_alert, check_temperature_threshold,
}
use shelter_server_hpc.Alerts.Entry.{Entry, north, south, east, west, detect_entry}

-- The name of the sensor at an entry.
abbrev pub name_of : Entry → Bytes
name_of north = codes "NORTH ENTRY"
name_of south = codes "SOUTH ENTRY"
name_of east = codes "EAST ENTRY"
name_of west = codes "WEST ENTRY"

is_entry : Option Entry → Entry → Bool
is_entry (some north) north = true
is_entry (some south) south = true
is_entry (some east) east = true
is_entry (some west) west = true
is_entry _ _ = false

is_entry-eq : (o : Option Entry) (e : Entry) → is_entry o e ≡ true → o ≡ some e
unfolding is_entry
is_entry-eq o e h = ground arith

all_below : ℕ → (ℕ → Bool) → Bool
all_below zero p = true
all_below (suc n) p = p n && all_below n p

all_below_lem : (n : ℕ) (p : ℕ → Bool) (x : ℕ) → all_below n p ≡ true → x < n → p x ≡ true
unfolding all_below
all_below_lem zero p x h lt = absurd (omega arith)
all_below_lem (suc n) p x h lt = ground (arith, all_below_lem n p x)

recognised : Entry → Bool
recognised e = all_below 431 (λ t. is_entry (detect_entry (alert_message t (name_of e))) e)

recognised_lem : (e : Entry) → recognised e ≡ true
unfolding recognised all_below is_entry detect_entry alert_message
recognised_lem north = refl
recognised_lem south = refl
recognised_lem east = refl
recognised_lem west = refl

-- The message of the sensor at an entry, for a temperature up to 43.0 degrees, is recognised as that
-- entry.
pub detect_entry-alert_message :
    (e : Entry) (t : ℕ) → t ≤ 430 → detect_entry (alert_message t (name_of e)) ≡ some e
unfolding recognised
detect_entry-alert_message e t h = is_entry-eq _ e (
    all_below_lem 431 (λ t. is_entry (detect_entry (alert_message t (name_of e))) e) t
      (recognised_lem e) (omega arith))

take_bytes-length : (bs : Bytes) → take_bytes (length bs) bs ≡ bs
take_bytes-length [] = refl
take_bytes-length (b ∷ bs) = ap (λ (r : Bytes). b ∷ r) (take_bytes-length bs)

-- Sensors, each given by its entry and its temperature.
abbrev pub sensors_at : List (Entry × ℕ) → List Sensor
sensors_at = map (λ (e, t). record { name = name_of e; temperature = t })

-- The entries whose temperature passes the threshold.
abbrev pub hot_entries : List (Entry × ℕ) → List (Option Entry)
hot_entries [] = []
hot_entries ((e, t) ∷ l) = if ltb threshold_temp t then some e ∷ hot_entries l else hot_entries l

abbrev pub UpTo43 : List (Entry × ℕ) → Type 0
UpTo43 = All (λ (r : Entry × ℕ). r.1 ≤ 430)

-- The FIFO takes each message whole.
abbrev pub TakesAll : (Sensor → Fifo) → Type 0
TakesAll fifo = (s : Sensor) → fifo s ≡ writes (length (alert_message s.temperature s.name))

-- If the FIFO takes each message whole and no temperature is above 43.0 degrees, the messages of one
-- round are recognised by the server as exactly the entries above the threshold, in the order of the
-- sensors.
pub check_temperature_threshold-detect_entry :
    (fifo : Sensor → Fifo) (l : List (Entry × ℕ))
    → TakesAll fifo
    → UpTo43 l
    → map detect_entry (check_temperature_threshold fifo (sensors_at l)) ≡ hot_entries l
unfolding check_temperature_threshold
check_temperature_threshold-detect_entry fifo [] all h = refl
check_temperature_threshold-detect_entry fifo ((e, t) ∷ l) all h =
    let s : Sensor = record { name = name_of e; temperature = t } in
    let rest = check_temperature_threshold-detect_entry fifo l all h.1 in
    elim (Bool-cases (ltb threshold_temp t)) [
      | inr cold ↦ rw cold rest
      | inl hot ↦ rw (
        hot,
        all s,
        send_alert,
        take_bytes-length (alert_message t (name_of e)),
        detect_entry-alert_message e t h.0,
        rest,
      )
    ]

decimal_table : all_below 100 (λ n. leb (length (decimal n)) 2) ≡ true
unfolding all_below decimal
decimal_table = refl

length-decimal-le : (n : ℕ) → n < 100 → length (decimal n) ≤ 2
length-decimal-le n h =
    leb→le _ 2 (all_below_lem 100 (λ n. leb (length (decimal n)) 2) n decimal_table h)

length-append_bytes : (xs ys : Bytes) → length (xs ++ ys) ≡ length xs + length ys
length-append_bytes = length-append

-- A name that fits the 20 bytes of `Sensor.name` and a temperature below 100.0 degrees give a message
-- that fits the buffer of `send_alert`, with its NUL.
pub alert_message-fits :
    (t : ℕ) (name : Bytes) → t < 1000 → length name < 20 → length (alert_message t name) + 1 ≤ 1024
unfolding alert_message
alert_message-fits t name h n = simp length-append_bytes (
    omega
      (arith, length-decimal-le (t / 10) (omega arith), length-decimal-le (t % 10) (omega arith)))
