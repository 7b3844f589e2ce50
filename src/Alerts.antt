-- ===== src/Alerts.antt =====
-- The infection alerts: lib/alertInfection/src/alertInfection.c and the functions of the server that
-- start its sensors and read its messages.
pub mod Sensors
pub mod Message
pub mod Entry
pub mod Range
pub mod Detection
pub mod Process
