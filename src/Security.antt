-- ===== src/Security.antt =====
-- aquaclean_console_app/bluetooth_le/LE/AriendiSecurity.py: the secure link to an Alba device.
pub mod Kermit
pub mod Cobs
pub mod AesCtr
pub mod Link
pub mod Session
pub mod Handshake
