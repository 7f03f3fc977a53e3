-- ===== src/Client.antt =====
-- aquaclean_console_app/aquaclean_core/Clients: the clients of the application.
pub mod Base
pub mod Calls
pub mod Device
pub mod Names
pub mod Alba
