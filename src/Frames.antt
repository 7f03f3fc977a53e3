-- ===== src/Frames.antt =====
-- aquaclean_core/Frames: the twenty-byte frames and how frames are collected into one message.
pub mod Codec
pub mod Collector
pub mod Validation
pub mod Service
