-- ===== src/Api.antt =====
-- aquaclean_console_app/aquaclean_core/Api/CallClasses: what the calls of a Mera device send and return.
pub mod Call
pub mod Records
pub mod Filter
pub mod Text
pub mod Deserializer
pub mod Parameters
pub mod Settings
pub mod Identity
pub mod Firmware
pub mod Reports
