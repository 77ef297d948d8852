-- ===== src/System.antt =====
-- The library as a whole: the steps that the threads of an application and of GLib take under the
-- mutex, in any order, and the worlds that they reach.
pub mod Cases
pub mod Invariant
use gattlibcpp.Base.{ℕ, ◌+◌, ◌<◌, ◌≡◌, Bool, true, Option, none, some, List, elem}
use gattlibcpp.Glib.{AsciiCase}
use gattlibcpp.DbusError.{GError}
use gattlibcpp.World.{Text, Uuid, DeviceState, Adapter, World}
use gattlibcpp.Uuid.{Parsed}
use gattlibcpp.Device.{uintptr_mod, device_ref, device_unref, set_state}
use gattlibcpp.Validity.Place.{Place}
use gattlibcpp.Device.SetState.{Fresh}
use gattlibcpp.Adapter.{
  adapter_reopen, register_adapter, adapter_ref, adapter_unref, get_device_manager,
}
use gattlibcpp.Characteristic.{Bus}
use gattlibcpp.Characteristic.Access.{ReadReply, Buffer, read_char_by_uuid, write_by_uuid}
use gattlibcpp.Notification.{
  StartReply, notification_start, indication_start, notification_stop, on_property_change,
  on_indication, on_battery_change, notification_device_thread,
}
use gattlibcpp.Adapter.Open.{FreshMemory, Countable}
use gattlibcpp.Handler.{
  PoolReply, register_notification, register_indication, register_on_disconnect,
}
use gattlibcpp.Handler.Register.{PoolGiven}
use gattlibcpp.Connection.{ConnectReply, connect_locked, on_device_connect, stop_connect}
use gattlibcpp.Connection.Safe.{Same}
use gattlibcpp.Disconnection.{on_disconnected_device, disconnect_request}
use gattlibcpp.Scan.{
  ScanRequest, ScanReply, scan_enable_with_filter, scan_enable_non_blocking, stop_scan_on_timeout,
  scan_loop_begin,
}
use gattlibcpp.Scan.Found.{DeviceProxy, on_added_device, on_properties_changed, on_object_removed}
use gattlibcpp.Scan.Disable.{StopReply, scan_disable, scan_loop_end, scan_enable_end}

module _ (case : AsciiCase) where
  -- One step from a world. The calls on devices come from the application (a connection, a
  -- disconnection, a registration, a notification's start and stop, a read, a write) and from D-Bus (a
  -- device that appears or disappears, its services, its disconnection, a new value). A scan's thread
  -- takes its two steps. A thread of a callback takes a reference of a listed device and gives it back
  -- while the adapter's is there too. `manager_call` is what the other calls do to an open adapter that
  -- they discover services with; `elsewhere` is a step that touches none of the library's objects.
  pub data Step (w : World) : World → Type 0 where
    device_state :
        {w' : World} (fresh : Option ℕ) (a : ℕ) (id : Text) (new : DeviceState) (code : ℕ)
        → Fresh fresh w
        → set_state case fresh a id new w ≡ some (code, w')
        → Step w w'
    connecting_call :
        {w' : World} (cb ud : ℕ) (dst : Text) (a : ℕ) (path : Text) (reply : ConnectReply)
        (code : ℕ)
        → connect_locked case cb ud dst a path reply w ≡ some (code, w')
        → Step w w'
    connect_timeout : {w' : World} (c : ℕ) → stop_connect c w ≡ some w' → Step w w'
    services_resolved_signal :
        {w' : World} (c manager : ℕ) (objects : List ℕ) (started : Bool)
        → on_device_connect case c (some manager) objects started w ≡ some w'
        → Step w w'
    disconnected_signal :
        {w' : World} (c : ℕ) → on_disconnected_device case c w ≡ some w' → Step w w'
    disconnecting_call :
        {w' : World} (c code : ℕ) → disconnect_request case (some c) w ≡ some (code, w') → Step w w'
    notification_call :
        {w' : World} (c handler : Option ℕ) (ud : ℕ) (reply : PoolReply) (code : ℕ)
        → PoolGiven reply
        → register_notification c handler ud reply w ≡ some (code, w')
        → Step w w'
    indication_call :
        {w' : World} (c handler : Option ℕ) (ud : ℕ) (reply : PoolReply) (code : ℕ)
        → register_indication c handler ud reply w ≡ some (code, w')
        → Step w w'
    on_disconnect_call :
        {w' : World} (c handler : Option ℕ) (ud code : ℕ)
        → register_on_disconnect c handler ud w ≡ some (code, w')
        → Step w w'
    scan_call :
        {w' : World} (a : ℕ) (q : ScanRequest) (reply : ScanReply) (code : ℕ)
        → scan_enable_with_filter a q reply w ≡ some (code, w')
        → Step w w'
    scan_timeout : {w' : World} (a : ℕ) → stop_scan_on_timeout a w ≡ some w' → Step w w'
    scan_stop :
        {w' : World} (a : ℕ) (reply : StopReply) (code : ℕ)
        → scan_disable a reply w ≡ some (code, w')
        → Step w w'
    reopen_call :
        {w' : World} (name : Text) (found : Option ℕ)
        → Countable w
        → adapter_reopen name w ≡ some (found, w')
        → Step w w'
    register_call :
        {w' : World} (name : Text) (proxy : ℕ) (memory : Option ℕ) (code : ℕ) (a : Option ℕ)
        → FreshMemory w memory
        → register_adapter name proxy memory w ≡ (code, a, w')
        → Step w w'
    unref_call :
        {w' : World} (a : ℕ) (ad : Adapter) (code : ℕ)
        → elem a w.adapter_list ≡ true
        → w.adapters a ≡ some ad
        → adapter_unref a w ≡ some (code, w')
        → Step w w'
    device_ref_thread :
        {w' : World} (c code : ℕ) (p : Place c w)
        → p.device.reference_counter + 1 < uintptr_mod
        → device_ref c w ≡ some (code, w')
        → Step w w'
    device_unref_thread :
        {w' : World} (c code : ℕ) (p : Place c w)
        → 1 < p.device.reference_counter
        → device_unref c w ≡ some (code, w')
        → Step w w'
    adapter_ref_thread :
        {w' : World} (a : ℕ) (ad : Adapter) (code : ℕ)
        → elem a w.adapter_list ≡ true
        → w.adapters a ≡ some ad
        → ad.reference_counter + 1 < uintptr_mod
        → adapter_ref a w ≡ some (code, w')
        → Step w w'
    scan_non_blocking_call :
        {w' : World} (a : ℕ) (q : ScanRequest) (reply : ScanReply) (code : ℕ)
        → scan_enable_non_blocking a q reply w ≡ some (code, w')
        → Step w w'
    scan_thread_begin :
        {w' : World} (a timeout_id : ℕ) → scan_loop_begin a timeout_id w ≡ some w' → Step w w'
    scan_thread_end :
        {w' : World} (a : ℕ) (reply : StopReply) → scan_loop_end a reply w ≡ some w' → Step w w'
    scan_call_end : {w' : World} (a code : ℕ) → scan_enable_end a w ≡ some (code, w') → Step w w'
    added_signal :
        {w' : World} (fresh : Option ℕ) (started : Bool) (a : ℕ) (path : Text)
        (proxy : Option DeviceProxy)
        → Fresh fresh w
        → on_added_device case fresh started a path proxy w ≡ some w'
        → Step w w'
    changed_signal :
        {w' : World} (fresh : Option ℕ) (started : Bool) (a : ℕ) (path : Text)
        (is_device seen : Bool) (proxy : Option DeviceProxy)
        → Fresh fresh w
        → on_properties_changed case fresh started a path is_device seen proxy w ≡ some w'
        → Step w w'
    removed_signal :
        {w' : World} (fresh : Option ℕ) (started : Bool) (a : ℕ) (path : Text)
        → Fresh fresh w
        → on_object_removed case fresh started a path w ≡ some w'
        → Step w w'
    notification_start_call :
        {w' : World} (c : ℕ) (uuid : Uuid) (bus : Bus) (reply : StartReply) (code : ℕ)
        → notification_start c uuid bus reply w ≡ some (code, w')
        → Step w w'
    indication_start_call :
        {w' : World} (c : ℕ) (uuid : Uuid) (bus : Bus) (reply : StartReply) (code : ℕ)
        → indication_start c uuid bus reply w ≡ some (code, w')
        → Step w w'
    notification_stop_call :
        {w' : World} (c : ℕ) (uuid : Uuid) (error : Option GError) (code : ℕ)
        → notification_stop c uuid error w ≡ some (code, w')
        → Step w w'
    value_signal :
        {w' : World} (parse : Text → Parsed) (c : ℕ) (text : Text) (value : Option (List ℕ))
        → on_property_change parse c text value w ≡ some w'
        → Step w w'
    indication_signal :
        {w' : World} (parse : Text → Parsed) (c : ℕ) (text : Text) (value : Option (List ℕ))
        → on_indication parse c text value w ≡ some w'
        → Step w w'
    battery_signal :
        {w' : World} (c : ℕ) (value : Option ℕ) → on_battery_change c value w ≡ some w' → Step w w'
    notification_thread :
        {w' : World} (of_indication : Bool) (c : ℕ) (uuid : Uuid) (bytes : List ℕ)
        → notification_device_thread of_indication c uuid bytes w ≡ some w'
        → Step w w'
    read_call :
        {w' : World} (c : ℕ) (uuid : Uuid) (bus : Bus) (reply : ReadReply) (code : ℕ)
        (buffer : Buffer)
        → read_char_by_uuid c uuid bus reply w ≡ some (code, buffer, w')
        → Step w w'
    write_call :
        {w' : World} (options c : ℕ) (uuid : Uuid) (bytes : List ℕ) (bus : Bus)
        (error : Option GError) (code : ℕ)
        → write_by_uuid options c uuid bytes bus error w ≡ some (code, w')
        → Step w w'
    manager_call :
        {w' : World} (a : ℕ) (reply m : Option ℕ)
        → elem a w.adapter_list ≡ true
        → get_device_manager a reply w ≡ some (m, w')
        → Step w w'
    elsewhere : {w' : World} → Same w w' → Step w w'

  -- The worlds that a series of steps leads to.
  pub data Reach (w : World) : World → Type 0 where
    here : Reach w w
    later : {u v : World} → Reach w u → Step u v → Reach w v
