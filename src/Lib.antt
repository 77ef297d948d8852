-- ===== src/Lib.antt =====
-- A model of gattlib, the C library for Bluetooth Low Energy devices: the files of common/ and dbus/, the
-- back end over the D-Bus interface of BlueZ, in the build for BlueZ above 5.40 and without Python; what
-- the build with Python adds; and gattlib's own files of bluez/, the older back end over the BlueZ
-- library, as built for BlueZ 5. Paths are from the repository's root.
--
-- The program. An application opens an adapter, scans for devices, connects to one, discovers its
-- services and characteristics, reads, writes and subscribes to them, disconnects, and closes the
-- adapter. Adapters hold a list of devices, a device holds its connection, and every object has a
-- reference counter. Four kinds of threads meet on these objects under one recursive mutex: the
-- application's, the GLib main loop that delivers the D-Bus signals, the scan's, and the ones that run
-- the application's callbacks.
--
-- The model.
-- - World.antt: the structs of common/gattlib_internal.h and dbus/gattlib_backend.h and the memory they
--   live in. An address is a number, a store maps an address to an object or to nothing, and a call that
--   reads an address without an object is a fault: the outer `none` of an operation's result. The calls
--   of D-Bus, GLib and the application are recorded as effects, the newest first. World/Codes.antt and
--   DbusError.antt have the codes of include/gattlib.h.
-- - A critical section under the mutex is one step, a function from world to world; what another thread
--   does while the mutex is free is a function, `others` or `meanwhile`, or a list of wake-ups, any at all. A loop over a
--   condition variable runs over a list of wake-ups and tells when it still waits at the end.
-- - What D-Bus, GLib, `calloc`, BlueZ's parser of UUIDs and `sscanf` answer is a parameter, a record named
--   ..Reply or ..Bus. `g_ascii_strcasecmp` is the interface AsciiCase of Glib.antt.
-- - A `uintptr_t` wraps at 2 ^ 64 (`incr`, `decr`), a `uint16_t` at 2 ^ 16; negative return values are
--   32-bit patterns.
--
-- The files.
-- - Device.antt: common/gattlib_device_state_management.c (`set_state` is `gattlib_device_set_state`, and
--   so on). Device/Invariant.antt has the well-formedness of a world, Device/Contract.antt the abstract
--   state machine `spec` of one device id, the counterpart of `set_state`. The allocating branch takes the memory
--   that `calloc` gives; the calls from the connection code pass none, since their device is listed and
--   the branch is not reached.
-- - Validity.antt: common/gattlib_common_adapter.c, which addresses stand for live objects.
-- - Handler.antt and Uuid.antt: common/gattlib_common.c.
-- - ObjectPath.antt, Connection.antt, Disconnection.antt, Discovery.antt and its children, Rssi.antt:
--   dbus/gattlib.c, with common/gattlib_callback_connected_device.c and
--   common/gattlib_callback_disconnected_device.c. `connect` is `gattlib_connect`, whose part under the
--   mutex is `connect_locked`; `on_device_connect` is `_on_device_connect`; `disconnect` is
--   `gattlib_disconnect`, `disconnect_request` its part before the wait.
-- - Adapter.antt, Scan.antt and its children: dbus/gattlib_adapter.c, with
--   common/gattlib_callback_discovered_device.c. `scan_start` is
--   `_gattlib_adapter_scan_enable_with_filter`, `ble_scan_loop_thread` the scan's thread,
--   `adapter_close_call` is `gattlib_adapter_close`.
-- - Discovery/Listed.antt: `gattlib_discover_primary` of dbus/gattlib.c as built for BlueZ below 5.38.
-- - Characteristic.antt and Characteristic/Access.antt: dbus/gattlib_char.c.
-- - Notification.antt: dbus/gattlib_notification.c and common/gattlib_callback_notification_device.c.
-- - Advertisement.antt: dbus/gattlib_advertisement.c. `g_variant_get` of a byte is a parameter over the
--   memory and the pointer that it is given.
-- - Stream.antt: dbus/gattlib_stream.c, in the build for BlueZ 5.48 or later.
-- - Python.antt: what the build with Python adds, common/gattlib_callback_python.c and the branches
--   WITH_PYTHON of common/. It has a state of its own, the reference counts of Python's objects; the
--   objects of the other files are not in it.
-- - Eddystone.antt: common/gattlib_eddystone.c, over the scan and the advertised data.
-- - Mainloop.antt: common/mainloop/gattlib_glib_mainloop.c, `mainloop` is `gattlib_mainloop`; the call's two
--   threads are a relation of steps, and GLib's loop is the interface MainLoop.
-- - Legacy.antt and its children: the back end over the BlueZ library. Legacy/Scan.antt and
--   Legacy/Name.antt are bluez/gattlib_adapter.c (`adapter_open_socket` is `gattlib_adapter_open`),
--   Legacy/Connect.antt and Legacy/Connect/Call.antt are bluez/gattlib_connect.c, whose two functions
--   `gattlib_connect` are `connect_legacy` and `connect_async`, with Legacy/Connect/Loop.antt for what the
--   loop of its thread runs, Legacy/Access.antt is
--   bluez/gattlib_read_write.c with the handles of bluez/gattlib_connect.c, Legacy/Discover.antt is
--   bluez/gattlib_discover.c. This back end keeps a state of its own: the descriptors of the adapters,
--   the thread of the loop, the connections in memory. A call that waits for BlueZ has no code while it
--   waits; a loop over `poll` or over the main loop runs over the list of what comes. `parse_from` runs on
--   fuel, one more than the size of the report, of which each round takes two bytes.
-- - System.antt: the steps of the threads as a relation on worlds, and the worlds that they reach. The
--   callback threads' references of a listed device or adapter are steps of their own;
--   `gattlib_adapter_open` is a `reopen_call` and a `register_call`, its two critical sections;
--   `gattlib_adapter_close` is a `scan_stop` and an `unref_call`; the discovery of services, the signal
--   strength, the advertised data and the streams are a `manager_call` and steps `elsewhere`.
-- - Base.antt: the names that the files share, tests on numbers, lists of addresses, faults.
-- - Tests.antt and its children: sample objects, and each theorem at one of them.
--
-- Not modelled: log messages; the text of D-Bus errors but for its prefix; bluez/bluez4, bluez/bluez5 and
-- dbus/bluez5, copies of the BlueZ libraries; the branches for BlueZ 4 of the older back end;
-- `gattlib_discover_char_range` for BlueZ below 5.38, which does not compile; bindings, examples and
-- tests. The mutex is not modelled as an object: a step is what runs while it is held. Where the code
-- reads a variable that was never written, the model has a parameter for its value or a fault.
pub mod Adapter
pub mod Advertisement
pub mod Base
pub mod Characteristic
pub mod Connection
pub mod DbusError
pub mod Device
pub mod Disconnection
pub mod Discovery
pub mod Eddystone
pub mod Glib
pub mod Handler
pub mod Legacy
pub mod Mainloop
pub mod Notification
pub mod ObjectPath
pub mod Python
pub mod Rssi
pub mod Scan
pub mod Stream
pub mod System
pub mod Tests
pub mod Uuid
pub mod Validity
pub mod World
