-- ===== src/Ble20.antt =====
-- bluetooth_le/LE/Ble20Client.py: the application protocol of the Alba models.
pub mod Address
pub mod Client
pub mod Requests
pub mod Inventory
pub mod Join
pub mod Identification
