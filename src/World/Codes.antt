-- ===== src/World/Codes.antt =====
-- The return codes of include/gattlib.h, as 32-bit numbers.
use gattlibcpp.Base.{ℕ}

abbrev pub success : ℕ
success = 0

abbrev pub invalid_parameter : ℕ
invalid_parameter = 1

abbrev pub not_found_code : ℕ
not_found_code = 2

abbrev pub timeout : ℕ
timeout = 3

abbrev pub out_of_memory : ℕ
out_of_memory = 4

abbrev pub not_supported : ℕ
not_supported = 5

abbrev pub device_error : ℕ
device_error = 6

abbrev pub device_not_connected : ℕ
device_not_connected = 7

abbrev pub no_adapter : ℕ
no_adapter = 8

abbrev pub busy : ℕ
busy = 9

abbrev pub unexpected : ℕ
unexpected = 10

abbrev pub adapter_close : ℕ
adapter_close = 11

abbrev pub device_disconnected : ℕ
device_disconnected = 12

abbrev pub error_dbus : ℕ
error_dbus = 0x1000_0000

abbrev pub error_internal : ℕ
error_internal = 0x8000_0000

abbrev pub error_unix : ℕ
error_unix = 0x3000_0000

abbrev pub error_bluez : ℕ
error_bluez = 0x2000_0000
