-- ===== src/Device.antt =====
-- common/gattlib_device_state_management.c, with `gattlib_device_ref` of common/gattlib_common.c:
-- the devices of an adapter, their states and their reference counters. A `none` outside is a fault.
pub mod Find
pub mod Invariant
pub mod Append
pub mod Lookup
pub mod SetState
pub mod Outcome
pub mod Refine
pub mod Contract
pub mod RefineAdd
pub mod RefineDrop
use gattlibcpp.Base.{
  ℕ, ◌+◌, ◌-◌, ◌%◌, ◌^◌, ◌≡◌, Bool, true, false, not, Option, none, some, List, [], ◌∷◌, ◌++◌, ◌==◌,
  ltb, if◌then◌else◌, ◌>>=◌, elem, remove,
}
use gattlibcpp.Glib.{AsciiCase}
use gattlibcpp.World.{
  Text, DeviceState, not_found, connecting, connected, disconnecting, disconnected, Device, Adapter,
  World, empty_connection, update, write_device, write_adapter,
}
use gattlibcpp.World.Codes.{success, out_of_memory, unexpected, adapter_close}

-- `uintptr_t` is 64 bits wide.
abbrev pub uintptr_mod : ℕ
uintptr_mod = 2 ^ 64

abbrev pub incr : ℕ → ℕ
incr n = (n + 1) % uintptr_mod

abbrev pub decr : ℕ → ℕ
decr n = (n + uintptr_mod - 1) % uintptr_mod

abbrev pub is_not_found : DeviceState → Bool
is_not_found not_found = true
is_not_found _ = false

abbrev pub is_disconnected : DeviceState → Bool
is_disconnected disconnected = true
is_disconnected _ = false

abbrev pub is_connected : DeviceState → Bool
is_connected connected = true
is_connected _ = false

unfoldable pub adapter_is_valid : ℕ → World → Bool
adapter_is_valid a w = elem a w.adapter_list

unfoldable pub device_ref : ℕ → World → Option (ℕ × World)
device_ref d w = do
  dev ← w.devices d
  some (success, write_device d (record dev { reference_counter = incr dev.reference_counter }) w)

unfoldable pub device_unref : ℕ → World → Option (ℕ × World)
device_unref d w = do
  dev ← w.devices d
  if ltb 0 (decr dev.reference_counter)
      then some (
        success,
        write_device d (record dev { reference_counter = decr dev.reference_counter }) w,
      )
      else some (success, record w { devices = update w.devices d none })

-- `gattlib_devices_free`: the list is gone; a device that is not disconnected stays in memory.
unfoldable pub devices_free : List ℕ → World → Option World
devices_free [] w = some w
devices_free (d ∷ ds) w = do
  dev ← w.devices d
  (_, w') ← if is_disconnected dev.state then device_unref d w else some (success, w)
  devices_free ds w'

-- The loop only clears the flag, so it is carried from device to device.
unfoldable pub devices_are_disconnected : List ℕ → World → Option Bool
devices_are_disconnected [] w = some true
devices_are_disconnected (d ∷ ds) w = do
  dev ← w.devices d
  rest ← devices_are_disconnected ds w
  some (if is_disconnected dev.state then rest else false)

module _ (case : AsciiCase) where
  -- The first device whose id compares equal; the outer option is a fault.
  unfoldable pub find_device : List ℕ → Text → World → Option (Option ℕ)
  find_device [] id w = some none
  find_device (d ∷ ds) id w = do
    dev ← w.devices d
    if case.same dev.device_id id then some (some d) else find_device ds id w

  unfoldable pub get_device : ℕ → Text → World → Option (Option ℕ)
  get_device a id w = do ad ← w.adapters a; find_device ad.devices id w

  abbrev state_of : Option ℕ → World → Option DeviceState
  state_of none w = some not_found
  state_of (some d) w = do dev ← w.devices d; some dev.state

  unfoldable pub get_state : ℕ → Text → World → Option DeviceState
  get_state a id w = do found ← get_device a id w; state_of found w

  abbrev new_device : ℕ → Text → DeviceState → Device
  new_device a id new = record {
    adapter = a;
    device_id = id;
    reference_counter = 1;
    state = new;
    connection = empty_connection;
  }

  -- The branch for a device that is not there; `fresh` is what `calloc` returns.
  unfoldable pub add_device : Option ℕ → ℕ → Text → DeviceState → World → Option (ℕ × World)
  add_device fresh a id not_found w = some (success, w)
  add_device none a id new w = some (out_of_memory, w)
  add_device (some d) a id new w = do
    ad ← w.adapters a
    some (
      success,
      write_adapter a (record ad { devices = ad.devices ++ d ∷ [] })
          (write_device d (new_device a id new) w),
    )

  -- The `switch` on the state of the device that is to be removed.
  unfoldable pub remove_by_state : DeviceState → ℕ → ℕ → World → Option (ℕ × World)
  unfolding device_unref
  remove_by_state disconnected a d w = do
    ad ← w.adapters a
    (_, w') ← device_unref d (write_adapter a (record ad { devices = remove d ad.devices }) w)
    some (success, w')
  remove_by_state _ a d w = some (unexpected, w)

  unfoldable pub remove_device : Option ℕ → ℕ → World → Option (ℕ × World)
  unfolding remove_by_state
  remove_device none a w = some (unexpected, w)
  remove_device (some d) a w = do dev ← w.devices d; remove_by_state dev.state a d w

  -- `device->state = new_state`; a device that is not found would be a NULL pointer.
  unfoldable pub store_state : Option ℕ → DeviceState → World → Option (ℕ × World)
  store_state none new w = none
  store_state (some d) new w = do
    dev ← w.devices d
    some (success, write_device d (record dev { state = new }) w)

  unfoldable pub set_state : Option ℕ → ℕ → Text → DeviceState → World → Option (ℕ × World)
  unfolding add_device remove_device store_state get_device get_state adapter_is_valid
  set_state fresh a id new w =
      if adapter_is_valid a w
      then (do
        old ← get_state a id w
        if is_not_found old then add_device fresh a id new w else do
          item ← get_device a id w
          if is_not_found new then remove_device item a w else store_state item new w)
      else some (adapter_close, w)
