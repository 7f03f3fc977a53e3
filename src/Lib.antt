-- ===== src/Lib.antt =====
-- geberit-aquaclean: the protocol stack between the application and a Geberit AquaClean toilet.
--
-- On the Mera models a request of the application becomes a message with a checksum, which travels in
-- frames of twenty bytes, and the frames that come back are collected into one message. On the Alba
-- models the messages of the Ble20 protocol travel in an encrypted session, over HDLC frames that
-- are stuffed with COBS. The components call each other through events; a model's operation returns
-- the events that it fires.
--
-- Parts, below aquaclean_console_app/:
--   Security  bluetooth_le/LE/AriendiSecurity.py
--     Kermit    `_crc16_kermit`
--     Cobs      `_cobs_encode`, `_cobs_decode`
--     AesCtr    `_AesCtrState`
--     Link      the fields of `AriendiSecurity`, `_u_ctrl` to `_att_s_rr`, `_process_rx_buf`
--     Session   `_feed_inner_cobs`, `feed_att_bytes`, `wrap_for_send`, `_inner_cobs_decode`
--     Handshake `_await_u_frame`, `_await_i_security`, `perform_handshake`
--   Message   aquaclean_core/Message
--     Crc       CrcMessage.py
--     Service   Message.py, MessageContext.py, MessageService.py
--   Frames    aquaclean_core/Frames
--     Codec     FrameFactory.py and the classes of Frames/Frames
--     Collector FrameCollector.py
--     Validation FrameValidation.py, and `_get_highest_ok_frame_cnt` of FrameService.py
--     Service   the rest of FrameService.py, and TlMsgOutCtl.py
--   Api       aquaclean_core/Api
--     Call      IApiCall.py, Attributes/ApiCallAttribute.py
--     Text      decoding of texts, and the texts of numbers, as Python has them
--     Deserializer  aquaclean_core/Common/Deserializer.py
--     Records   the layout of the records in the responses
--     Parameters  CallClasses/GetSystemParameterList.py
--     Filter    CallClasses/GetFilterStatus.py
--     Settings  CallClasses: the settings, the commands and the subscriptions
--     Identity  CallClasses/GetDeviceIdentification.py, GetDeviceInitialOperationDate.py
--     Firmware  CallClasses/GetFirmwareVersionList.py, GetSOCApplicationVersions.py
--     Reports   CallClasses/GetNodeList.py, GetStatisticsDescale.py
--   Client    aquaclean_core/Clients
--     Base      `send_request` of AquaCleanBaseClient.py, with what its events do
--     Calls     the other methods of AquaCleanBaseClient.py
--     Device    AquaCleanClient.py, Commands.py, ProfileSettings.py, and the event's arguments of
--               aquaclean_core/IAquaCleanClient.py
--     Alba      AlbaClient.py, and AlbaBaseClient.py in Alba/Base, Identity, Misc, Stats
--               and Unsupported
--     Names     aquaclean_core/DeviceNameUtil.py
--   Ble20     bluetooth_le/LE/Ble20Client.py
--     Address   `encode_address`, `decode_address`
--     Client    the queues, `_on_data`, `_recv`, `_send`, and the loop that waits for a reply
--     Requests  `read`, `write`, the notifications, `poll_state`, `capabilities`,
--               `event_storage_inventory`
--     Inventory `inventory`
--     Join      `join`
--     Identification `get_device_identification`
--   PollStats PollStats.py: the statistics of the polls
--   FirmwareUpdate FirmwareUpdateService.py: the newest firmware among the packages, and the check
--   ApiMode   main.py
--     Polling   `_polling_loop`, and the errors of `_on_demand_inner`
--     Settings  `set_profile_setting`, `set_common_setting`
--   Prelude   what the modules share
--   Examples  test data and concrete runs
--
-- The model. An object is a record of its fields, a method a function from the record to what it
-- returns and the record after it, an exception a value of `Error`. Python's integers here are not
-- negative and are natural numbers; the places where a number must be a byte test it. A bytearray is
-- a list of numbers, a dict an association list in the order of insertion.
--
-- Coroutines. A coroutine of `Ble20Client`, of the handshake or of a request is a function on a state
-- that holds, beside the object, `sent`, what was sent, and `incoming`, the frames that are still to come: one
-- is delivered whenever the coroutine waits and its queue is empty, and when none is left the wait ends
-- by its timeout. The frames arrive in the order of that list, whatever it is. What was done
-- before an exception stays done. The time that `join` waits is `patience`, a number of
-- notifications; the sleeps of `wait_for_info_frames_async` are given by how many info frames arrive
-- in each. Within one coroutine of `Ble20Client` or of the handshake no frame arrives after a wait that has
-- timed out; what comes later is to come in the state of the next coroutine. `send_request_over` is a
-- request over a connector that may raise; in all else sending raises nothing, and no task is
-- cancelled, but for the wait of the polling loop.
--
-- Parameters. `aes key block` is AES in ECB mode on one block, `hkdf`, `aes_cmac`, `public_key` and
-- `exchange` are HKDF with SHA-256, AES-CMAC and the operations of X25519 keys, all from the package
-- `cryptography`. The theorems ask no more of them than that `aes` returns bytes. Python's floats with
-- their operations are parameters too, of whose order the statistics ask what holds of all floats but
-- NaN, and so are `strftime` of a time and `int` of a text.
--
-- Fuel. The loop of `_process_rx_buf` and that of `_feed_inner_cobs` take at least one byte of the
-- buffer in each iteration, so they run on the buffer's length and one more, which is enough.
-- The loop that waits for a reply takes a frame in each iteration, so it runs on the number of
-- frames that can still be received and one more. The wait for the info frames runs on 33.
--
-- Not modelled: the log, apart from what its messages call; the texts of exceptions; the tasks of
-- the event loop, apart from the acknowledgements that `_process_rx_buf` starts, which are listed in
-- the order in which they are started; the Bluetooth connectors, and the services around them, which
-- are mostly input and output; of the firmware service, the web request, and JSON whose fields have
-- other types than the packages of the service have; of main.py, all but the polling loop and the
-- settings.
pub mod Prelude
pub mod Security
pub mod Message
pub mod Frames
pub mod Ble20
pub mod Api
pub mod Client
pub mod ApiMode
pub mod PollStats
pub mod FirmwareUpdate
pub mod Examples
