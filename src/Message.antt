-- ===== src/Message.antt =====
-- aquaclean_console_app/aquaclean_core/Message: CrcMessage.py, Message.py, MessageContext.py and
-- MessageService.py, the messages that frames carry.
pub mod Crc
pub mod Service
