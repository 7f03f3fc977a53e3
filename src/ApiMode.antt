-- ===== src/ApiMode.antt =====
-- main.py: what `ApiMode` decides, without the web server and the broker around it.
pub mod Polling
pub mod Settings
