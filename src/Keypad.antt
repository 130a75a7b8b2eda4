-- ===== src/Keypad.antt =====
-- The keypad of the phone: HtcLeoPkg/Library/KeypadDeviceImplLib and KeypadDeviceHelperLib scan the
-- keys, HtcLeoPkg/Drivers/KeypadDxe queues them for the console.
pub mod Queue
pub mod Helper
pub mod Device
pub mod Console
